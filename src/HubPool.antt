-- ===== src/HubPool.antt =====
-- clients/HubPoolClient.ts: the client's state, and the types of interfaces/HubPool.ts.
pub mod Bundles
pub mod Events
pub mod Loops
pub mod Update
pub mod Balances
pub mod Utilization
pub mod Tokens
mod Tests
use Prim.Native.String.{String}
use acrossclone.Prelude.{ℕ, Bool, List, Option, Result, ok, err, leb, if◌then◌else◌}
use acrossclone.Prelude.Int.{ℤ}
use acrossclone.Prelude.Dict.{Dict}
use acrossclone.BaseClient.{BaseClient}
use acrossclone.Events.{EventPlace, SortableEvent, Sortable}

pub record ProposedRootBundle : Type 0 where
  pub event : SortableEvent
  pub open event use *
  pub challenge_period_end_timestamp : ℕ
  pub pool_rebalance_leaf_count : ℕ
  pub bundle_evaluation_block_numbers : List ℕ
  pub pool_rebalance_root : String
  pub relayer_refund_root : String
  pub slow_relay_root : String
  pub proposer : String

-- A cancelled or a disputed bundle: the two interfaces have the same fields.
pub record CancelledRootBundle : Type 0 where
  pub event : SortableEvent
  pub open event use *
  pub disputer : String
  pub request_time : ℕ

pub record ExecutedRootBundle : Type 0 where
  pub event : SortableEvent
  pub open event use *
  pub chain_id : ℕ
  pub bundle_lp_fees : List ℕ
  pub net_send_amounts : List ℤ
  pub running_balances : List ℤ
  pub incentive_balances : List ℤ
  pub leaf_id : ℕ
  pub l1_tokens : List String
  pub proof : List String

pub record TokenRunningBalance : Type 0 where
  pub running_balance : ℤ
  pub incentive_balance : ℤ

pub record L1Token : Type 0 where
  pub address : String
  pub symbol : String
  pub decimals : ℕ

pub record LpToken : Type 0 where
  pub last_lp_fee_update : ℕ
  pub liquid_reserves : ℕ

-- What `update` keeps of a `CrossChainContractsSet` event.
pub record SpokePoolSet : Type 0 where
  pub place : EventPlace
  pub open place use *
  pub spoke_pool : String

-- What `update` keeps of a `SetPoolRebalanceRoute` event (`DestinationTokenWithBlock`).
pub record DestinationToken : Type 0 where
  pub place : EventPlace
  pub open place use *
  pub l1_token : String
  pub l2_token : String

pub record PendingRootBundle : Type 0 where
  pub pool_rebalance_root : String
  pub relayer_refund_root : String
  pub slow_relay_root : String
  pub proposer : String
  pub unclaimed_pool_rebalance_leaf_count : ℕ
  pub challenge_period_end_timestamp : ℕ
  pub bundle_evaluation_block_numbers : List ℕ
  pub proposal_block_number : ℕ

instance abbrev pub proposed_sortable : Sortable ProposedRootBundle
proposed_sortable = record { place = λ b. b.place }

instance abbrev pub cancelled_sortable : Sortable CancelledRootBundle
cancelled_sortable = record { place = λ b. b.place }

instance abbrev pub executed_sortable : Sortable ExecutedRootBundle
executed_sortable = record { place = λ b. b.place }

instance abbrev pub spoke_pool_sortable : Sortable SpokePoolSet
spoke_pool_sortable = record { place = λ b. b.place }

instance abbrev pub destination_token_sortable : Sortable DestinationToken
destination_token_sortable = record { place = λ b. b.place }

pub record HubPool : Type 0 where
  pub base : BaseClient
  pub open base use *
  pub l1_tokens_to_destination_tokens : Dict String (Dict ℕ String)
  pub l1_tokens : List L1Token
  pub lp_tokens : Dict String LpToken
  pub proposed_root_bundles : List ProposedRootBundle
  pub canceled_root_bundles : List CancelledRootBundle
  pub disputed_root_bundles : List CancelledRootBundle
  pub executed_root_bundles : List ExecutedRootBundle
  pub cross_chain_contracts : Dict ℕ (List SpokePoolSet)
  pub l1_tokens_to_destination_tokens_with_block : Dict String (Dict ℕ (List DestinationToken))
  pub pending_root_bundle : Option PendingRootBundle
  pub current_time : Option ℕ
  pub deployment_block : ℕ
  pub chain_id : ℕ
  pub ignored_hub_executed_bundles : List ℕ
  pub ignored_hub_proposed_bundles : List ℕ

-- The errors that the client throws, by message.
pub data HubPoolError : Type 0 where
  no_cross_chain_contracts no_contract_before_block : HubPoolError
  no_spoke_pool_mapping no_mapping_before_block no_hub_pool_mapping : HubPoolError
  n_is_zero client_not_updated config_store_not_updated update_failed : HubPoolError
  unsupported_token invalid_running_balances type_error numeric_fault : HubPoolError
  query_failed invalid_search_range chain_not_listed invalid_block_range : HubPoolError
  time_not_in_seconds : HubPoolError

-- 2 ^ 53 - 1
abbrev pub max_safe_integer : ℕ
max_safe_integer = 9_007_199_254_740_991

-- `BigNumber.toNumber`, which throws on what a JavaScript number cannot hold.
abbrev pub to_number : ℕ → Result HubPoolError ℕ
to_number n = if leb n max_safe_integer then ok n else err numeric_fault
