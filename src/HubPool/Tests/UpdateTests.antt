-- ===== src/HubPool/Tests/UpdateTests.antt =====
-- Updates of a client from a node that serves a short log, and the theorems on updates at them.
use Prim.Native.String.{String}
use acrossclone.Prelude.{ℕ, ◌≡◌, refl, sym, true, [], ◌∷◌, none, some, ok, err, arith, ok-inj, inl}
use acrossclone.Prelude.Int.{ℤ, pos}
use acrossclone.Prelude.Search.{filter}
use acrossclone.Arrays.{SearchFromRight}
use acrossclone.Arrays.Laws.{array_search}
use acrossclone.Events.Pages.{within}
use acrossclone.HubPool.{
  HubPool, ProposedRootBundle, invalid_running_balances, executed_sortable, proposed_sortable,
  cancelled_sortable, type_error,
}
use acrossclone.HubPool.Events.{
  HubPoolEvents, HubPoolNode, HubPoolUpdateSuccess, CrossChainContractsSet, SetPoolRebalanceRoot,
  RootBundleProposal, all_events, fetch_update, contracts_set_sortable, route_sortable,
  token_enabled_sortable,
}
use acrossclone.HubPool.Loops.{assign_contracts}
use acrossclone.HubPool.Update.{update}
use acrossclone.HubPool.Update.Fetch.{IsHonestNode, IsOrderedLog}
use acrossclone.HubPool.Update.Mirror.{IsMirror}
use acrossclone.HubPool.Update.Runs.{
  HubPoolConfig, new_hub_pool_client, Run, created, then_update, Run-IsMirror,
}
use acrossclone.HubPool.Update.Past.{update-keeps_past}
use acrossclone.HubPool.Update.Failure.{update-err}
use acrossclone.HubPool.Bundles.{
  get_validated_root_bundles, get_latest_fully_executed_root_bundle,
  get_next_bundle_start_block_number,
}
use acrossclone.HubPool.Balances.{get_running_balance_before_block_for_chain}
use acrossclone.HubPool.Balances.Newest.{
  IsRunningBalance, get_running_balance_before_block_for_chain-IsRunningBalance,
}
use acrossclone.HubPool.Tests.{event_at, bundle_at, leaf_at}

abbrev lodash : SearchFromRight ProposedRootBundle
lodash = array_search ProposedRootBundle

abbrev contract_at : (block chain : ℕ) → String → CrossChainContractsSet
contract_at block chain spoke_pool = record {
  event = event_at block;
  l2_chain_id = chain;
  spoke_pool = spoke_pool;
}

abbrev route_at : (block : ℕ) → SetPoolRebalanceRoot
route_at block = record {
  event = event_at block;
  destination_chain_id = 10;
  l1_token = "0xdai";
  destination_token = "0xdai10";
}

abbrev log : HubPoolEvents
log = record {
  contracts_set = contract_at 20 10 "0xold" ∷ contract_at 115 10 "0xnew" ∷ [];
  routes = route_at 30 ∷ [];
  tokens_enabled = [];
  proposed = bundle_at 100 1 90 190 ∷ bundle_at 120 1 110 200 ∷ [];
  canceled = [];
  disputed = [];
  executed = leaf_at 105 1 ∷ leaf_at 125 1 ∷ [];
}

abbrev proposal : RootBundleProposal
proposal = record {
  pool_rebalance_root = "0x01";
  relayer_refund_root = "0x02";
  slow_relay_root = "0x03";
  proposer = "0xaa";
  unclaimed_pool_rebalance_leaf_count = 1;
  challenge_period_end_timestamp = 1_700_000_000;
}

-- A node that serves a log up to a block.
abbrev node_of : HubPoolEvents → (block : ℕ) → HubPoolNode
node_of served block = record {
  block_number = block;
  contracts_set = λ _ from to. ok (filter (within from to) served.contracts_set);
  routes = λ _ from to. ok (filter (within from to) served.routes);
  tokens_enabled = λ _ from to. ok (filter (within from to) served.tokens_enabled);
  proposed = λ _ from to. ok (filter (within from to) served.proposed);
  canceled = λ _ from to. ok (filter (within from to) served.canceled);
  disputed = λ _ from to. ok (filter (within from to) served.disputed);
  executed = λ _ from to. ok (filter (within from to) served.executed);
  multicall = λ _. ok (1_700_000_100, proposal);
  fetch_token_info = λ _. err type_error;
  pooled_tokens = λ _ _. err type_error;
}

node_of-IsHonestNode :
    (served : HubPoolEvents) (block : ℕ) → IsHonestNode served (node_of served block)
node_of-IsHonestNode served block = record {
  contracts_set = λ _ _ _ _ e. sym (ok-inj e);
  routes = λ _ _ _ _ e. sym (ok-inj e);
  proposed = λ _ _ _ _ e. sym (ok-inj e);
  canceled = λ _ _ _ _ e. sym (ok-inj e);
  disputed = λ _ _ _ _ e. sym (ok-inj e);
  executed = λ _ _ _ _ e. sym (ok-inj e);
}

log-IsOrderedLog : IsOrderedLog log
log-IsOrderedLog = record {
  contracts_set = ((omega arith, tt), (tt, tt));
  routes = (tt, tt);
  proposed = ((omega arith, tt), (tt, tt));
  canceled = tt;
  disputed = tt;
  executed = ((omega arith, tt), (tt, tt));
}

abbrev config : HubPoolConfig
config = record {
  deployment_block = 10;
  chain_id = 1;
  from_block = 50;
  to_block = none;
  max_block_look_back = some 40;
  ignored_hub_executed_bundles = [];
  ignored_hub_proposed_bundles = [];
}

abbrev first_update : HubPool
first_update = (update (node_of log 110) true all_events (new_hub_pool_client config)).0

abbrev second_update : HubPool
second_update = (update (node_of log 130) true all_events first_update).0

first_update_returns :
    update (node_of log 110) true all_events (new_hub_pool_client config) ≡ (first_update, none)
unfolding update new_hub_pool_client
first_update_returns = refl

second_update_returns :
    update (node_of log 130) true all_events first_update ≡ (second_update, none)
unfolding update new_hub_pool_client
second_update_returns = refl

run : Run log config second_update
run =
    then_update
      (then_update created (node_of log 110) true (node_of-IsHonestNode log 110)
        first_update_returns)
      (node_of log 130) true (node_of-IsHonestNode log 130) second_update_returns

Run-IsMirror_example : IsMirror log 50 second_update
Run-IsMirror_example = Run-IsMirror log config second_update (omega arith) log-IsOrderedLog run

first_update-IsMirror : IsMirror log 50 first_update
first_update-IsMirror =
    Run-IsMirror log config first_update (omega arith) log-IsOrderedLog (
      then_update created (node_of log 110) true (node_of-IsHonestNode log 110)
        first_update_returns)

update-keeps_past_example :
    (get_validated_root_bundles lodash second_update 108
      ≡ get_validated_root_bundles lodash first_update 108)
    × (get_latest_fully_executed_root_bundle lodash second_update 108
        ≡ get_latest_fully_executed_root_bundle lodash first_update 108)
    × (get_next_bundle_start_block_number lodash second_update (1 ∷ 10 ∷ []) 108 10
        ≡ get_next_bundle_start_block_number lodash first_update (1 ∷ 10 ∷ []) 108 10)
unfolding update new_hub_pool_client
update-keeps_past_example =
    update-keeps_past lodash log 50 (node_of log 130) true first_update second_update 108 10
      (1 ∷ 10 ∷ []) (node_of-IsHonestNode log 130) log-IsOrderedLog first_update-IsMirror refl
      (omega arith) second_update_returns

-- A log with an executed bundle of three balances for one token.
abbrev bad_log : HubPoolEvents
bad_log = record log {
  executed = record (leaf_at 105 1) { running_balances = pos 7 ∷ pos 8 ∷ pos 9 ∷ [] } ∷ [];
}

abbrev stopped : HubPool
stopped = (update (node_of bad_log 110) true all_events (new_hub_pool_client config)).0

stopped_throws :
    update (node_of bad_log 110) true all_events (new_hub_pool_client config)
    ≡ (stopped, some invalid_running_balances)
unfolding update new_hub_pool_client
stopped_throws = refl

abbrev fetched : HubPoolUpdateSuccess
fetched = record {
  current_time = 1_700_000_100;
  pending_root_bundle_proposal = proposal;
  search_end_block = 110;
  events = record bad_log {
    contracts_set = contract_at 20 10 "0xold" ∷ [];
    proposed = bundle_at 100 1 90 190 ∷ [];
  };
}

bad_log_answers :
    fetch_update (node_of bad_log 110) (new_hub_pool_client config) all_events ≡ ok (inl fetched)
unfolding fetch_update new_hub_pool_client
bad_log_answers = refl

update-err_example :
    let assigned =
      assign_contracts
        (contract_at 20 10 "0xold" ∷ [])
        (new_hub_pool_client config).cross_chain_contracts in
    (stopped.base ≡ (new_hub_pool_client config).base)
    × (stopped.cross_chain_contracts ≡ assigned)
    × (fetch_update (node_of bad_log 110) stopped all_events ≡ ok (inl fetched))
    × ((update (node_of bad_log 110) true all_events stopped).0.cross_chain_contracts
        ≡ assign_contracts (contract_at 20 10 "0xold" ∷ []) assigned)
update-err_example =
    update-err (node_of bad_log 110) (node_of bad_log 110) fetched fetched
      (new_hub_pool_client config) stopped invalid_running_balances bad_log_answers stopped_throws
      bad_log_answers

get_running_balance_runs :
    get_running_balance_before_block_for_chain second_update 110 1 "0xDAI"
    ≡ (some (pos 7), some (pos 0))
unfolding get_running_balance_before_block_for_chain update new_hub_pool_client
get_running_balance_runs = refl

get_running_balance_before_block_for_chain-IsRunningBalance_example :
    (running : ℤ) × (incentive : ℤ) × (get_running_balance_before_block_for_chain second_update 110
        1 "0xDAI"
      ≡ (some running, some incentive))
    × IsRunningBalance second_update 110 1 "0xDAI" running incentive
get_running_balance_before_block_for_chain-IsRunningBalance_example =
    get_running_balance_before_block_for_chain-IsRunningBalance log config second_update 110 1
      "0xDAI" (omega arith) log-IsOrderedLog run
