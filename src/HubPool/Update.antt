-- ===== src/HubPool/Update.antt =====
-- `update` of clients/HubPoolClient.ts: one function per `if (eventsToQuery.includes(..))`, each of
-- which gives the client as it is left and the error that it throws, if any.
pub mod Steps
pub mod Fetch
pub mod Mirror
pub mod Preserves
pub mod Runs
pub mod Past
pub mod Failure
use Prim.Native.String.{String}
use acrossclone.Prelude.{
  ℕ, ◌+◌, ◌*◌, Bool, true, false, ◌&&◌, ◌||◌, not, List, [], ◌∷◌, ◌++◌, map, Option, none, some,
  ltb, leb, ◌==◌, nat_eq, string_eq, if◌then◌else◌, length, take, drop, get_last?, Result, ok, err,
  ◌>>=◌, ◌⊎◌, inl, inr, Outcome, and_then,
}
use acrossclone.Prelude.Int.{pos}
use acrossclone.Prelude.Search.{filter, find?, includes}
use acrossclone.Prelude.Dict.{Dict, insert, alter}
use acrossclone.Arrays.{dedup_array}
use acrossclone.Objects.{assign_array, assign_array_at, assign_text_at}
use acrossclone.BaseClient.{
  BaseClient, UpdateFailureReason, already_updated, bad_request, rpc_error,
}
use acrossclone.HubPool.{
  HubPool, HubPoolError, config_store_not_updated, update_failed, unsupported_token,
  invalid_running_balances, type_error, ProposedRootBundle, ExecutedRootBundle, SpokePoolSet,
  DestinationToken, L1Token, LpToken, PendingRootBundle, to_number,
}
use acrossclone.HubPool.Events.{
  HubPoolEvent, set_pool_rebalance_route, l1_token_enabled_for_liquidity_provision,
  propose_root_bundle, root_bundle_canceled, root_bundle_disputed, root_bundle_executed,
  cross_chain_contracts_set, event_name_eq, CrossChainContractsSet, SetPoolRebalanceRoot,
  RootBundleProposal, HubPoolNode, HubPoolUpdateSuccess, fetch_update,
}
use acrossclone.HubPool.Loops.{
  to_spoke_pool_set, to_destination_token, assign_contracts, assign_routes, assign_mappings,
  map_all, push_tokens, insert_lp_tokens, split_balances, push_executed, to_number_or_zero,
  to_pending,
}

-- One step of `update`, taken if its kind of event was asked for.
abbrev pub step_if :
    (names : List HubPoolEvent)
    → HubPoolEvent
    → (HubPool → Outcome HubPoolError HubPool)
    → HubPool
    → Outcome HubPoolError HubPool
step_if names name step h = if includes names name then step h else (h, none)

unfoldable pub update_contracts : HubPoolUpdateSuccess → HubPool → Outcome HubPoolError HubPool
unfolding assign_contracts
update_contracts u h = (
  record h {
    cross_chain_contracts = assign_contracts u.events.contracts_set h.cross_chain_contracts;
  },
  none,
)

unfoldable pub update_routes : HubPoolUpdateSuccess → HubPool → Outcome HubPoolError HubPool
unfolding assign_routes assign_mappings
update_routes u h = (
  record h {
    l1_tokens_to_destination_tokens =
        assign_routes u.events.routes h.l1_tokens_to_destination_tokens;
    l1_tokens_to_destination_tokens_with_block =
        assign_mappings u.events.routes h.l1_tokens_to_destination_tokens_with_block;
  },
  none,
)

-- The node's answers on the tokens come first: one that it refuses stops the update.
unfoldable pub fetch_tokens :
    HubPoolNode → HubPoolUpdateSuccess → Result HubPoolError (List L1Token × List LpToken)
unfolding map_all dedup_array
fetch_tokens node u = do
  let unique = dedup_array (map (λ e. e.l1_token) u.events.tokens_enabled)
  infos ← map_all node.fetch_token_info unique
  lp_infos ← map_all (λ token. node.pooled_tokens token u.search_end_block) unique
  ok (infos, lp_infos)

unfoldable pub update_tokens :
    HubPoolNode → HubPoolUpdateSuccess → HubPool → Outcome HubPoolError HubPool
unfolding fetch_tokens push_tokens insert_lp_tokens dedup_array
update_tokens node u h = elim (fetch_tokens node u) [
  | err e ↦ (h, some e)
  | ok (infos, lp_infos) ↦
      let unique = dedup_array (map (λ e. e.l1_token) u.events.tokens_enabled) in
      let pushed = push_tokens infos h.l1_tokens in
      and_then (record h { l1_tokens = pushed.0 }, pushed.1)
        λ h. (record h { lp_tokens = insert_lp_tokens unique lp_infos h.lp_tokens }, none)
]

unfoldable pub update_proposed : HubPoolUpdateSuccess → HubPool → Outcome HubPoolError HubPool
unfolding filter includes
update_proposed u h =
    let kept =
      filter (λ e. not (includes h.ignored_hub_proposed_bundles e.block_number))
        u.events.proposed in
    (record h { proposed_root_bundles = h.proposed_root_bundles ++ kept }, none)

unfoldable pub update_canceled : HubPoolUpdateSuccess → HubPool → Outcome HubPoolError HubPool
update_canceled u h =
    (record h { canceled_root_bundles = h.canceled_root_bundles ++ u.events.canceled }, none)

unfoldable pub update_disputed : HubPoolUpdateSuccess → HubPool → Outcome HubPoolError HubPool
update_disputed u h =
    (record h { disputed_root_bundles = h.disputed_root_bundles ++ u.events.disputed }, none)

unfoldable pub update_executed : HubPoolUpdateSuccess → HubPool → Outcome HubPoolError HubPool
unfolding push_executed
update_executed u h =
    let pushed =
      push_executed h.ignored_hub_executed_bundles u.events.executed h.executed_root_bundles in
    (record h { executed_root_bundles = pushed.0 }, pushed.1)

-- Reading the last proposal where there is none is a TypeError.
unfoldable pub update_pending : HubPoolUpdateSuccess → HubPool → Outcome HubPoolError HubPool
update_pending u h =
    let proposal = u.pending_root_bundle_proposal in
    if ltb 0 proposal.unclaimed_pool_rebalance_leaf_count
    then elim (get_last? h.proposed_root_bundles) [
      | none ↦ (h, some type_error)
      | some latest ↦ (record h { pending_root_bundle = some (to_pending proposal latest) }, none)
    ]
    else (record h { pending_root_bundle = none }, none)

-- The assignments at the end of `update`.
unfoldable pub finish_update : HubPoolUpdateSuccess → HubPool → Outcome HubPoolError HubPool
finish_update u h = (
  record h {
    current_time = some u.current_time;
    base = record h.base {
      latest_block_searched = u.search_end_block;
      first_block_to_search = u.search_end_block + 1;
      search_to_block = none;
      is_updated = true;
    };
  },
  none,
)

-- `update` after a successful `_update`.
unfoldable pub apply_update :
    HubPoolNode
    → (names : List HubPoolEvent) → HubPoolUpdateSuccess
    → HubPool
    → Outcome HubPoolError HubPool
unfolding update_contracts update_routes update_tokens update_proposed update_canceled
    update_disputed update_executed update_pending finish_update includes
apply_update node names u h =
    let s1 = step_if names cross_chain_contracts_set (update_contracts u) h in
    let s2 = and_then s1 (step_if names set_pool_rebalance_route (update_routes u)) in
    let s3 =
      and_then s2 (step_if names l1_token_enabled_for_liquidity_provision (update_tokens node u)) in
    let s4 = and_then s3 (step_if names propose_root_bundle (update_proposed u)) in
    let s5 = and_then s4 (step_if names root_bundle_canceled (update_canceled u)) in
    let s6 = and_then s5 (step_if names root_bundle_disputed (update_disputed u)) in
    let s7 = and_then s6 (step_if names root_bundle_executed (update_executed u)) in
    let s8 = and_then s7 (step_if names propose_root_bundle (update_pending u)) in
    and_then s8 (finish_update u)

-- `config_store_updated` is the config store client's `isUpdated`.
unfoldable pub update :
    HubPoolNode
    → (config_store_updated : Bool) → (names : List HubPoolEvent) → HubPool
    → Outcome HubPoolError HubPool
unfolding fetch_update apply_update
update node config_store_updated names h =
    if not config_store_updated
    then (h, some config_store_not_updated)
    else elim (fetch_update node h names) [
      | err e ↦ (h, some e)
      | ok (inr already_updated) ↦ (h, none)
      | ok (inr bad_request) ↦ (h, some update_failed)
      | ok (inr rpc_error) ↦ (h, some update_failed)
      | ok (inl u) ↦ apply_update node names u h
    ]
