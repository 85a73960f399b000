-- ===== src/HubPool/Update/Fetch.antt =====
-- What `_update` fetches from a node that serves the logs.
use acrossclone.Prelude.{
  ℕ, ◌≤◌, ◌≡◌, refl, sym, ap, ◌∙◌, true, List, Result-cases, inl, inr, ok, Result, >>=-eq-ok,
  ok-inj, subst, Bool-cases, if◌then◌else◌, ◌⊎◌,
}
use acrossclone.Prelude.Search.{filter, includes}
use acrossclone.BaseClient.{update_search_config, update_search_config-range}
use acrossclone.Events.{Sortable}
use acrossclone.Events.Pages.{within, EventSearchConfig, QueryError, paginated_event_query}
use acrossclone.Events.Pages.Query.{IsBlockOrdered, IsHonest, paginated_event_query-exact}
use acrossclone.HubPool.{HubPool, executed_sortable, proposed_sortable, cancelled_sortable}
use acrossclone.HubPool.Events.{
  HubPoolEvent, HubPoolNode, HubPoolEvents, HubPoolUpdateSuccess, all_events, query_events,
  query_all_events, is_override_event, search_config_for, fetch_events, fetch_update, event_name_eq,
  set_pool_rebalance_route, l1_token_enabled_for_liquidity_provision, token_enabled_sortable,
  propose_root_bundle, root_bundle_canceled, root_bundle_disputed, root_bundle_executed,
  cross_chain_contracts_set, contracts_set_sortable, route_sortable,
}

-- The node serves the log.
pub record IsHonestNode (log : HubPoolEvents) (node : HubPoolNode) : Type 0 where
  pub contracts_set : IsHonest node.contracts_set log.contracts_set
  pub routes : IsHonest node.routes log.routes
  pub proposed : IsHonest node.proposed log.proposed
  pub canceled : IsHonest node.canceled log.canceled
  pub disputed : IsHonest node.disputed log.disputed
  pub executed : IsHonest node.executed log.executed

-- The log lists each kind of event by block.
pub record IsOrderedLog (log : HubPoolEvents) : Type 0 where
  pub contracts_set : IsBlockOrdered log.contracts_set
  pub routes : IsBlockOrdered log.routes
  pub proposed : IsBlockOrdered log.proposed
  pub canceled : IsBlockOrdered log.canceled
  pub disputed : IsBlockOrdered log.disputed
  pub executed : IsBlockOrdered log.executed

-- The events are those of the log in the ranges of the queries.
pub record IsFetched (log : HubPoolEvents) (h : HubPool) (first last : ℕ) (events : HubPoolEvents)
    : Type 0 where
  pub contracts_set :
      events.contracts_set
      ≡ filter (within (if h.is_updated then first else h.deployment_block) last) log.contracts_set
  pub routes :
      events.routes
      ≡ filter (within (if h.is_updated then first else h.deployment_block) last) log.routes
  pub proposed : events.proposed ≡ filter (within first last) log.proposed
  pub canceled : events.canceled ≡ filter (within first last) log.canceled
  pub disputed : events.disputed ≡ filter (within first last) log.disputed
  pub executed : events.executed ≡ filter (within first last) log.executed

query_events-exact :
    {A : Type 0} ⦃s : Sortable A⦄ (name : HubPoolEvent)
    (node : ℕ → ℕ → ℕ → Result QueryError (List A)) (search : EventSearchConfig)
    (log events : List A)
    → includes all_events name ≡ true
    → IsHonest node log
    → IsBlockOrdered log
    → query_events all_events name node search ≡ ok events
    → events ≡ filter (within search.from_block search.to_block) log
unfolding query_events
query_events-exact name node search log events asked honest ordered e =
    elim (Result-cases (paginated_event_query node search)) [
      | inl (found, answer) ↦
          sym (ok-inj (rw (query_events, asked, answer) at e))
          ∙ paginated_event_query-exact node search log found honest ordered answer
      | inr (thrown, answer) ↦ let clash = (rw (query_events, asked, answer) at e) in cc
    ]

override_from :
    (h : HubPool) (search : EventSearchConfig) (name : HubPoolEvent)
    → is_override_event name ≡ true
    → search_config_for h search name ≡ record search {
      from_block = if h.is_updated then search.from_block else h.deployment_block;
    }
unfolding search_config_for
override_from h search name override = elim (Bool-cases h.is_updated) [
  | inl again ↦ rw (override, again) refl
  | inr fresh ↦ rw (override, fresh) refl
]

within_override :
    {A : Type 0} ⦃s : Sortable A⦄ (h : HubPool) (search : EventSearchConfig) (name : HubPoolEvent)
    (log : List A)
    → is_override_event name ≡ true
    → let config = search_config_for h search name in
      filter (within config.from_block config.to_block) log
      ≡ filter
          (within (if h.is_updated then search.from_block else h.deployment_block) search.to_block)
          log
within_override h search name log override =
    ap (λ (c : EventSearchConfig). filter (within c.from_block c.to_block) log)
      (override_from h search name override)

query_all_events-IsFetched :
    (log : HubPoolEvents) (node : HubPoolNode) (h : HubPool) (search : EventSearchConfig)
    (events : HubPoolEvents)
    → IsHonestNode log node
    → IsOrderedLog log
    → query_all_events node h all_events search ≡ ok events
    → IsFetched log h search.from_block search.to_block events
unfolding query_all_events search_config_for includes
query_all_events-IsFetched log node h search events honest ordered e =
    let (contracts_set, e1, f1) =
      >>=-eq-ok
        (query_events all_events cross_chain_contracts_set node.contracts_set
          (search_config_for h search cross_chain_contracts_set))
        _ e in
    let (routes, e2, f2) =
      >>=-eq-ok
        (query_events all_events set_pool_rebalance_route node.routes
          (search_config_for h search set_pool_rebalance_route))
        _ f1 in
    let (tokens_enabled, e3, f3) =
      >>=-eq-ok
        (query_events all_events l1_token_enabled_for_liquidity_provision node.tokens_enabled
          (search_config_for h search l1_token_enabled_for_liquidity_provision))
        _ f2 in
    let (proposed, e4, f4) =
      >>=-eq-ok
        (query_events all_events propose_root_bundle node.proposed
          (search_config_for h search propose_root_bundle))
        _ f3 in
    let (canceled, e5, f5) =
      >>=-eq-ok
        (query_events all_events root_bundle_canceled node.canceled
          (search_config_for h search root_bundle_canceled))
        _ f4 in
    let (disputed, e6, f6) =
      >>=-eq-ok
        (query_events all_events root_bundle_disputed node.disputed
          (search_config_for h search root_bundle_disputed))
        _ f5 in
    let (executed, e7, f7) =
      >>=-eq-ok
        (query_events all_events root_bundle_executed node.executed
          (search_config_for h search root_bundle_executed))
        _ f6 in
    subst (IsFetched log h search.from_block search.to_block) (ok-inj f7) (record {
      contracts_set =
          query_events-exact cross_chain_contracts_set node.contracts_set
            (search_config_for h search cross_chain_contracts_set) log.contracts_set contracts_set
            refl honest.contracts_set ordered.contracts_set e1
          ∙ within_override h search cross_chain_contracts_set log.contracts_set refl;
      routes =
          query_events-exact set_pool_rebalance_route node.routes
            (search_config_for h search set_pool_rebalance_route) log.routes routes refl
            honest.routes ordered.routes e2
          ∙ within_override h search set_pool_rebalance_route log.routes refl;
      proposed =
          query_events-exact propose_root_bundle node.proposed search log.proposed proposed refl
            honest.proposed ordered.proposed e4;
      canceled =
          query_events-exact root_bundle_canceled node.canceled search log.canceled canceled refl
            honest.canceled ordered.canceled e5;
      disputed =
          query_events-exact root_bundle_disputed node.disputed search log.disputed disputed refl
            honest.disputed ordered.disputed e6;
      executed =
          query_events-exact root_bundle_executed node.executed search log.executed executed refl
            honest.executed ordered.executed e7;
    })

inl-inj : {A : Type 0} {B : Type 0} {a b : A} → ◌≡◌ {A = A ⊎ B} (inl a) (inl b) → a ≡ b
inl-inj h = cc

-- An `_update` that succeeds: its range, and what it fetched.
pub fetch_update-IsFetched :
    (log : HubPoolEvents) (node : HubPoolNode) (h : HubPool) (u : HubPoolUpdateSuccess)
    → IsHonestNode log node
    → IsOrderedLog log
    → fetch_update node h all_events ≡ ok (inl u)
    → (h.first_block_to_search ≤ u.search_end_block)
      × IsFetched log h h.first_block_to_search u.search_end_block u.events
unfolding fetch_update fetch_events
fetch_update-IsFetched log node h u honest ordered e =
    elim (Result-cases (update_search_config h.base node.block_number)) [
      | inr (thrown, range) ↦ let clash = (rw (fetch_update, range) at e) in cc
      | inl (inr reason, range) ↦ let clash = (rw (fetch_update, range) at e) in cc
      | inl (inl search, range) ↦
          let opened = (rw (fetch_update, range) at e) in
          let (u', fetched, same) = >>=-eq-ok (fetch_events node h all_events search) _ opened in
          let (answers, called, f1) = >>=-eq-ok (node.multicall search.to_block) _ fetched in
          let (events, queried, f2) = >>=-eq-ok (query_all_events node h all_events search) _ f1 in
          let same_u : u' ≡ u = inl-inj (ok-inj same) in
          let (config, first) = update_search_config-range h.base node.block_number search range in
          let kept = query_all_events-IsFetched log node h search events honest ordered queried in
          let moved =
            subst (λ (b : ℕ). IsFetched log h b search.to_block events)
              (ap (λ (c : EventSearchConfig). c.from_block) config) kept in
          subst
            (λ (s : HubPoolUpdateSuccess).
              (h.first_block_to_search ≤ s.search_end_block)
              × IsFetched log h h.first_block_to_search s.search_end_block s.events)
            (ok-inj f2 ∙ same_u) (first, moved)
    ]
