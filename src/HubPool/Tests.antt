-- ===== src/HubPool/Tests.antt =====
-- A client with three proposals, and the theorems of the client's parts at it.
mod BundleTests
mod ImpliedTests
mod UtilizationTests
mod UpdateTests
mod TokenTests
use Prim.Native.String.{String}
use acrossclone.Prelude.{ℕ, Bool, true, List, [], ◌∷◌, none, some}
use acrossclone.Prelude.Int.{pos}
use acrossclone.Events.{EventPlace, SortableEvent}
use acrossclone.BaseClient.{BaseClient}
use acrossclone.HubPool.{
  HubPool, ProposedRootBundle, ExecutedRootBundle, SpokePoolSet, DestinationToken, L1Token,
}

abbrev place_at : ℕ → ℕ → EventPlace
place_at block log = record { block_number = block; transaction_index = 0; log_index = log }

abbrev event_at : ℕ → SortableEvent
event_at block = record { place = place_at block 0; transaction_hash = "0xab" }

-- A proposal at a block with a leaf count and two end blocks.
abbrev bundle_at : (block leaves end_1 end_10 : ℕ) → ProposedRootBundle
bundle_at block leaves end_1 end_10 = record {
  event = event_at block;
  challenge_period_end_timestamp = 1_700_000_000;
  pool_rebalance_leaf_count = leaves;
  bundle_evaluation_block_numbers = end_1 ∷ end_10 ∷ [];
  pool_rebalance_root = "0x01";
  relayer_refund_root = "0x02";
  slow_relay_root = "0x03";
  proposer = "0xaa";
}

abbrev leaf_at : (block chain : ℕ) → ExecutedRootBundle
leaf_at block chain = record {
  event = event_at block;
  chain_id = chain;
  bundle_lp_fees = 5 ∷ [];
  net_send_amounts = pos 9 ∷ [];
  running_balances = pos 7 ∷ [];
  incentive_balances = pos 0 ∷ [];
  leaf_id = 0;
  l1_tokens = "0xdai" ∷ [];
  proof = [];
}

abbrev mapping_at : (block : ℕ) → (l1_token l2_token : String) → DestinationToken
mapping_at block l1_token l2_token = record {
  place = place_at block 3;
  l1_token = l1_token;
  l2_token = l2_token;
}

abbrev spoke_at : (block : ℕ) → String → SpokePoolSet
spoke_at block spoke_pool = record { place = place_at block 1; spoke_pool = spoke_pool }

abbrev first_bundle : ProposedRootBundle
first_bundle = bundle_at 100 2 90 190

abbrev second_bundle : ProposedRootBundle
second_bundle = bundle_at 120 1 110 200

abbrev searched_to_130 : BaseClient
searched_to_130 = record {
  first_block_to_search = 131;
  latest_block_searched = 130;
  search_to_block = none;
  max_block_look_back = none;
  is_updated = true;
}

abbrev client : HubPool
client = record {
  base = searched_to_130;
  l1_tokens_to_destination_tokens =
      ("0xdai", (10, "0xdai10") ∷ (137, "0xdai137") ∷ []) ∷ ("0xweth", (10, "0xweth10") ∷ []) ∷ [];
  l1_tokens = record { address = "0xdai"; symbol = "DAI"; decimals = 18 } ∷ [];
  lp_tokens = [];
  proposed_root_bundles = first_bundle ∷ second_bundle ∷ [];
  canceled_root_bundles = [];
  disputed_root_bundles = [];
  executed_root_bundles = leaf_at 105 1 ∷ leaf_at 120 10 ∷ leaf_at 125 1 ∷ [];
  cross_chain_contracts = (10, spoke_at 20 "0xold" ∷ spoke_at 50 "0xnew" ∷ []) ∷ [];
  l1_tokens_to_destination_tokens_with_block =
      (
        "0xdai",
        (10, mapping_at 30 "0xdai" "0xbad" ∷ mapping_at 40 "0xdai" "0xdai10" ∷ [])
            ∷ (137, mapping_at 45 "0xdai" "0xdai137" ∷ [])
            ∷ [],
      )
      ∷ ("0xweth", (10, mapping_at 41 "0xweth" "0xweth10" ∷ []) ∷ [])
      ∷ [];
  pending_root_bundle = none;
  current_time = some 1_700_000_100;
  deployment_block = 10;
  chain_id = 1;
  ignored_hub_executed_bundles = [];
  ignored_hub_proposed_bundles = [];
}
