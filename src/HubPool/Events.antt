-- ===== src/HubPool/Events.antt =====
-- `_update` of clients/HubPoolClient.ts: which events an update asks for, over which blocks.
use Prim.Native.String.{String}
use acrossclone.Prelude.{
  ℕ, ◌≡◌, refl, sym, ap, ◌∙◌, ◌↔◌, Bool, true, get_or, get_elem?, ◌&&◌, ◌||◌, not, List, [], ◌∷◌,
  Eq, nat_eq, ◌==◌, if◌then◌else◌, Result, ok, err, ◌>>=◌, ◌⊎◌, inl, inr,
}
use acrossclone.Prelude.Search.{includes}
use acrossclone.BaseClient.{UpdateFailureReason, update_search_config}
use acrossclone.Events.{SortableEvent, Sortable}
use acrossclone.Events.Pages.{EventSearchConfig, QueryError, paginated_event_query}
use acrossclone.HubPool.{
  HubPool, HubPoolError, query_failed, invalid_search_range, ProposedRootBundle,
  CancelledRootBundle, ExecutedRootBundle, L1Token, LpToken, proposed_sortable, cancelled_sortable,
  executed_sortable,
}

pub data HubPoolEvent : Type 0 where
  set_pool_rebalance_route l1_token_enabled_for_liquidity_provision : HubPoolEvent
  propose_root_bundle root_bundle_canceled root_bundle_disputed : HubPoolEvent
  root_bundle_executed cross_chain_contracts_set : HubPoolEvent

-- `Object.keys(this.hubPoolEventFilters())`
abbrev pub all_events : List HubPoolEvent
all_events =
    set_pool_rebalance_route ∷ l1_token_enabled_for_liquidity_provision ∷ propose_root_bundle
    ∷ root_bundle_canceled ∷ root_bundle_disputed ∷ root_bundle_executed ∷ cross_chain_contracts_set
    ∷ []

abbrev event_name_index : HubPoolEvent → ℕ
event_name_index set_pool_rebalance_route = 0
event_name_index l1_token_enabled_for_liquidity_provision = 1
event_name_index propose_root_bundle = 2
event_name_index root_bundle_canceled = 3
event_name_index root_bundle_disputed = 4
event_name_index root_bundle_executed = 5
event_name_index cross_chain_contracts_set = 6

abbrev event_name_at : ℕ → HubPoolEvent
event_name_at n = get_or (get_elem? all_events n) cross_chain_contracts_set

event_name_at-event_name_index : (e : HubPoolEvent) → event_name_at (event_name_index e) ≡ e
event_name_at-event_name_index set_pool_rebalance_route = refl
event_name_at-event_name_index l1_token_enabled_for_liquidity_provision = refl
event_name_at-event_name_index propose_root_bundle = refl
event_name_at-event_name_index root_bundle_canceled = refl
event_name_at-event_name_index root_bundle_disputed = refl
event_name_at-event_name_index root_bundle_executed = refl
event_name_at-event_name_index cross_chain_contracts_set = refl

pub event_name_index_iff :
    (a b : HubPoolEvent) → (event_name_index a == event_name_index b ≡ true) ↔ (a ≡ b)
event_name_index_iff a b =
    let numbers = nat_eq.same_iff (event_name_index a) (event_name_index b) in
    (
      λ h.
          sym (event_name_at-event_name_index a)
          ∙ ap event_name_at (numbers.0 h)
          ∙ event_name_at-event_name_index b,
      λ h. numbers.1 (ap event_name_index h),
    )

instance abbrev pub event_name_eq : Eq HubPoolEvent
event_name_eq = record {
  same = λ a b. event_name_index a == event_name_index b;
  same_iff = event_name_index_iff;
}

pub record CrossChainContractsSet : Type 0 where
  pub event : SortableEvent
  pub open event use *
  pub l2_chain_id : ℕ
  pub spoke_pool : String

pub record SetPoolRebalanceRoot : Type 0 where
  pub event : SortableEvent
  pub open event use *
  pub destination_chain_id : ℕ
  pub l1_token : String
  pub destination_token : String

pub record L1TokenEnabled : Type 0 where
  pub event : SortableEvent
  pub open event use *
  pub l1_token : String

instance abbrev pub contracts_set_sortable : Sortable CrossChainContractsSet
contracts_set_sortable = record { place = λ e. e.place }

instance abbrev pub route_sortable : Sortable SetPoolRebalanceRoot
route_sortable = record { place = λ e. e.place }

instance abbrev pub token_enabled_sortable : Sortable L1TokenEnabled
token_enabled_sortable = record { place = λ e. e.place }

-- `rootBundleProposal()` of the contract.
pub record RootBundleProposal : Type 0 where
  pub pool_rebalance_root : String
  pub relayer_refund_root : String
  pub slow_relay_root : String
  pub proposer : String
  pub unclaimed_pool_rebalance_leaf_count : ℕ
  pub challenge_period_end_timestamp : ℕ

-- What the node and the contracts answer during one update. An executed bundle comes with all
-- balances in `running_balances`.
pub record HubPoolNode : Type 0 where
  pub block_number : ℕ
  pub contracts_set : ℕ → ℕ → ℕ → Result QueryError (List CrossChainContractsSet)
  pub routes : ℕ → ℕ → ℕ → Result QueryError (List SetPoolRebalanceRoot)
  pub tokens_enabled : ℕ → ℕ → ℕ → Result QueryError (List L1TokenEnabled)
  pub proposed : ℕ → ℕ → ℕ → Result QueryError (List ProposedRootBundle)
  pub canceled : ℕ → ℕ → ℕ → Result QueryError (List CancelledRootBundle)
  pub disputed : ℕ → ℕ → ℕ → Result QueryError (List CancelledRootBundle)
  pub executed : ℕ → ℕ → ℕ → Result QueryError (List ExecutedRootBundle)
  pub multicall : (block : ℕ) → Result HubPoolError (ℕ × RootBundleProposal)
  pub fetch_token_info : String → Result HubPoolError L1Token
  pub pooled_tokens : String → (block : ℕ) → Result HubPoolError LpToken

-- The `events` of an update; what was not asked for is empty, and `update` does not read it.
pub record HubPoolEvents : Type 0 where
  pub contracts_set : List CrossChainContractsSet
  pub routes : List SetPoolRebalanceRoot
  pub tokens_enabled : List L1TokenEnabled
  pub proposed : List ProposedRootBundle
  pub canceled : List CancelledRootBundle
  pub disputed : List CancelledRootBundle
  pub executed : List ExecutedRootBundle

pub record HubPoolUpdateSuccess : Type 0 where
  pub current_time : ℕ
  pub pending_root_bundle_proposal : RootBundleProposal
  pub search_end_block : ℕ
  pub events : HubPoolEvents

-- `overrideEvents.includes(eventName)`
abbrev pub is_override_event : HubPoolEvent → Bool
is_override_event name =
    name == cross_chain_contracts_set
    || name == l1_token_enabled_for_liquidity_provision
    || name == set_pool_rebalance_route

-- The range over which one kind of event is queried.
unfoldable pub search_config_for : HubPool → EventSearchConfig → HubPoolEvent → EventSearchConfig
search_config_for h search name =
    if is_override_event name && not h.is_updated
    then record search { from_block = h.deployment_block }
    else search

-- The events of one kind, if it is asked for.
unfoldable pub query_events :
    {A : Type 0} ⦃s : Sortable A⦄
    → (names : List HubPoolEvent) → (name : HubPoolEvent) → (ℕ → ℕ → ℕ → Result QueryError (List A))
    → EventSearchConfig
    → Result HubPoolError (List A)
unfolding paginated_event_query includes
query_events names name node search =
    if includes names name
    then elim (paginated_event_query node search) [
      | ok events ↦ ok events
      | err e ↦ err query_failed
    ]
    else ok []

-- The queries of all kinds, each over its range.
unfoldable pub query_all_events :
    HubPoolNode
    → HubPool
    → (names : List HubPoolEvent) → EventSearchConfig
    → Result HubPoolError HubPoolEvents
unfolding query_events search_config_for
query_all_events node h names search = do
  let config = search_config_for h search
  contracts_set ←
      query_events names cross_chain_contracts_set node.contracts_set
        (config cross_chain_contracts_set)
  routes ← query_events names set_pool_rebalance_route node.routes (config set_pool_rebalance_route)
  tokens_enabled ←
      query_events names l1_token_enabled_for_liquidity_provision node.tokens_enabled
        (config l1_token_enabled_for_liquidity_provision)
  proposed ← query_events names propose_root_bundle node.proposed (config propose_root_bundle)
  canceled ← query_events names root_bundle_canceled node.canceled (config root_bundle_canceled)
  disputed ← query_events names root_bundle_disputed node.disputed (config root_bundle_disputed)
  executed ← query_events names root_bundle_executed node.executed (config root_bundle_executed)
  ok (record {
    contracts_set = contracts_set;
    routes = routes;
    tokens_enabled = tokens_enabled;
    proposed = proposed;
    canceled = canceled;
    disputed = disputed;
    executed = executed;
  })

-- `_update` once the search range is known. The type of names leaves no room for a bad request.
unfoldable pub fetch_events :
    HubPoolNode
    → HubPool
    → (names : List HubPoolEvent) → EventSearchConfig
    → Result HubPoolError HubPoolUpdateSuccess
unfolding query_all_events
fetch_events node h names search = do
  (current_time, proposal) ← node.multicall search.to_block
  events ← query_all_events node h names search
  ok (record {
    current_time = current_time;
    pending_root_bundle_proposal = proposal;
    search_end_block = search.to_block;
    events = events;
  })

-- `_update`
unfoldable pub fetch_update :
    HubPoolNode
    → HubPool
    → (names : List HubPoolEvent) → Result HubPoolError (HubPoolUpdateSuccess ⊎ UpdateFailureReason)
unfolding fetch_events update_search_config
fetch_update node h names = elim (update_search_config h.base node.block_number) [
  | err e ↦ err invalid_search_range
  | ok (inr reason) ↦ ok (inr reason)
  | ok (inl search) ↦ do update ← fetch_events node h names search; ok (inl update)
]
