-- ===== src/SpokePool.antt =====
-- interfaces/SpokePool.ts, and the state of clients/SpokePoolClient.ts.
pub mod Queries
pub mod Loops
pub mod Update
pub mod Extends
pub mod Steps
pub mod Keeps
pub mod Find
pub mod Matching
pub mod SpeedUps
pub mod Routes
mod Tests
use Prim.Native.String.{String}
use acrossclone.Prelude.{
  ℕ, Bool, List, Option, Result, Eq, nat_eq, ◌&&◌, ◌==◌, ◌↔◌, ◌≡◌, true, arith,
}
use acrossclone.Prelude.Int.{ℤ}
use acrossclone.Prelude.Dict.{Dict}
use acrossclone.BaseClient.{BaseClient}
use acrossclone.Events.{SortableEvent, Sortable}
use acrossclone.Objects.{FlagEntry}
use acrossclone.HubPool.{HubPool}
use acrossclone.ConfigStore.{ConfigStore}

-- The methods' errors. What the hub pool client throws is not told apart.
pub data SpokePoolError : Type 0 where
  hub_pool_not_updated invalid_current_time invalid_search_range query_failed : SpokePoolError
  hub_pool_failed type_error deposit_not_found search_failed : SpokePoolError
  origin_chain_mismatch client_not_updated network_failed : SpokePoolError

pub record RelayData : Type 0 where
  pub origin_chain_id : ℕ
  pub depositor : String
  pub recipient : String
  pub deposit_id : ℕ
  pub input_token : String
  pub input_amount : ℤ
  pub output_token : String
  pub output_amount : ℤ
  pub message : String
  pub fill_deadline : ℕ
  pub exclusive_relayer : String
  pub exclusivity_deadline : ℕ

-- What a speed-up writes into a deposit.
pub record UpdatedFields : Type 0 where
  pub speed_up_signature : Option String
  pub updated_recipient : Option String
  pub updated_output_amount : Option ℤ
  pub updated_message : Option String

pub record Deposit : Type 0 where
  pub relay_data : RelayData
  pub open relay_data use *
  pub destination_chain_id : ℕ
  pub quote_timestamp : ℕ
  pub updated : UpdatedFields
  pub open updated use *
  pub from_lite_chain : Bool
  pub to_lite_chain : Bool

pub record DepositWithBlock : Type 0 where
  pub event : SortableEvent
  pub open event use *
  pub deposit : Deposit
  pub open deposit use *
  pub quote_block_number : ℕ

pub data FillType : Type 0 where
  fast_fill replaced_slow_fill slow_fill : FillType

pub record RelayExecutionEventInfo : Type 0 where
  pub updated_recipient : String
  pub updated_output_amount : ℤ
  pub updated_message : String
  pub fill_type : FillType

pub record FillWithBlock : Type 0 where
  pub event : SortableEvent
  pub open event use *
  pub relay_data : RelayData
  pub open relay_data use *
  pub destination_chain_id : ℕ
  pub relayer : String
  pub repayment_chain_id : ℕ
  pub relay_execution_info : RelayExecutionEventInfo

pub record SpeedUp : Type 0 where
  pub depositor : String
  pub depositor_signature : String
  pub deposit_id : ℕ
  pub origin_chain_id : ℕ
  pub updated_recipient : String
  pub updated_output_amount : ℤ
  pub updated_message : String

pub record SlowFillRequestWithBlock : Type 0 where
  pub event : SortableEvent
  pub open event use *
  pub relay_data : RelayData
  pub open relay_data use *
  pub destination_chain_id : ℕ

pub record RootBundleRelayWithBlock : Type 0 where
  pub event : SortableEvent
  pub open event use *
  pub root_bundle_id : ℕ
  pub relayer_refund_root : String
  pub slow_relay_root : String

pub record RelayerRefundExecutionWithBlock : Type 0 where
  pub event : SortableEvent
  pub open event use *
  pub amount_to_return : ℤ
  pub chain_id : ℕ
  pub refund_amounts : List ℤ
  pub leaf_id : ℕ
  pub l2_token_address : String
  pub refund_addresses : List String
  pub root_bundle_id : ℕ

pub record TokensBridged : Type 0 where
  pub event : SortableEvent
  pub open event use *
  pub amount_to_return : ℤ
  pub chain_id : ℕ
  pub leaf_id : ℕ
  pub l2_token_address : String

instance abbrev pub deposit_sortable : Sortable DepositWithBlock
deposit_sortable = record { place = λ e. e.place }

instance abbrev pub fill_sortable : Sortable FillWithBlock
fill_sortable = record { place = λ e. e.place }

instance abbrev pub slow_fill_sortable : Sortable SlowFillRequestWithBlock
slow_fill_sortable = record { place = λ e. e.place }

instance abbrev pub relay_sortable : Sortable RootBundleRelayWithBlock
relay_sortable = record { place = λ e. e.place }

instance abbrev pub refund_sortable : Sortable RelayerRefundExecutionWithBlock
refund_sortable = record { place = λ e. e.place }

instance abbrev pub bridged_sortable : Sortable TokensBridged
bridged_sortable = record { place = λ e. e.place }

-- `${depositId}-${originChainId}`, which tells all pairs of numbers apart.
pub record DepositHash : Type 0 where
  pub deposit_id : ℕ
  pub origin_chain_id : ℕ

abbrev same_hash : DepositHash → DepositHash → Bool
same_hash a b = a.deposit_id == b.deposit_id && a.origin_chain_id == b.origin_chain_id

pub same_hash_iff : (a b : DepositHash) → (same_hash a b ≡ true) ↔ (a ≡ b)
same_hash_iff a b = ground (
  arith,
  nat_eq.same_iff a.deposit_id b.deposit_id,
  nat_eq.same_iff a.origin_chain_id b.origin_chain_id,
)

instance abbrev pub deposit_hash_eq : Eq DepositHash
deposit_hash_eq = record { same = same_hash; same_iff = same_hash_iff }

-- The hub pool client and its config store client. `quote_blocks` has the block that
-- `batchComputeRealizedLpFeePct` finds for each of some times.
pub record HubClients : Type 0 where
  pub hub_pool : HubPool
  pub config_store : ConfigStore
  pub quote_blocks : List ℕ → Result SpokePoolError (List ℕ)

-- The state of SpokePoolClient. `hub` is `none` where the client has no hub pool client.
pub record SpokePool : Type 0 where
  pub base : BaseClient
  pub open base use *
  pub current_time : ℕ
  pub oldest_time : ℕ
  pub deposit_hashes : Dict DepositHash DepositWithBlock
  pub deposit_hashes_to_fills : Dict DepositHash (List FillWithBlock)
  pub speed_ups : Dict String (Dict ℕ (List SpeedUp))
  pub slow_fill_requests : Dict String SlowFillRequestWithBlock
  pub deposit_routes : Dict String (Dict ℕ FlagEntry)
  pub tokens_bridged : List TokensBridged
  pub root_bundle_relays : List RootBundleRelayWithBlock
  pub relayer_refund_executions : List RelayerRefundExecutionWithBlock
  pub earliest_deposit_id_queried : ℕ
  pub latest_deposit_id_queried : ℕ
  pub first_deposit_id_for_spoke_pool : ℕ
  pub last_deposit_id_for_spoke_pool : ℕ
  pub fills : Dict ℕ (List FillWithBlock)
  pub hub : Option HubClients
  pub chain_id : ℕ
  pub deployment_block : ℕ
