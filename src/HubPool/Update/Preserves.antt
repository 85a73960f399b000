-- ===== src/HubPool/Update/Preserves.antt =====
-- Every update keeps the client a mirror of the logs.
use Prim.Native.String.{String}
use acrossclone.Prelude.{
  ℕ, ◌+◌, ◌≤◌, ◌≡◌, refl, sym, ap, ◌∙◌, subst, Bool, true, false, not, List, map, Option, none,
  nat_eq, string_eq, if◌then◌else◌, Bool-cases, Result-cases, inl, inr, arith,
}
use mathlib.Core.List.{map-append}
use acrossclone.Prelude.Search.{filter, includes, filter-append}
use acrossclone.Prelude.Dict.{Dict}
use acrossclone.BaseClient.{already_updated, bad_request, rpc_error}
use acrossclone.HubPool.{
  HubPool, L1Token, LpToken, PendingRootBundle, ProposedRootBundle, executed_sortable,
  proposed_sortable, cancelled_sortable,
}
use acrossclone.HubPool.Events.{
  HubPoolNode, HubPoolEvents, HubPoolUpdateSuccess, all_events, fetch_update, event_name_eq,
  contracts_set_sortable, route_sortable,
}
use acrossclone.HubPool.Loops.{to_spoke_pool_set, to_destination_token}
use acrossclone.HubPool.Update.{update}
use acrossclone.HubPool.Update.Fetch.{IsHonestNode, IsOrderedLog, IsFetched, fetch_update-IsFetched}
use acrossclone.HubPool.Update.Mirror.{
  IsMirror, on_chain, on_route, kept-extend, array_of-assign_contracts, array_at-assign_mappings,
}
use acrossclone.HubPool.Update.Steps.{split_all, split_all-append, updated, apply_update-updated}

module _ (log : HubPoolEvents) (from : ℕ) (h : HubPool) (u : HubPoolUpdateSuccess)
    (ordered : IsOrderedLog log) (m : IsMirror log from h)
    (p : h.first_block_to_search ≤ u.search_end_block)
    (f : IsFetched log h h.first_block_to_search u.search_end_block u.events) where
  from_le : from ≤ u.search_end_block
  from_le = elim (Bool-cases h.is_updated) [
    | inl again ↦
        let next : h.first_block_to_search ≡ h.latest_block_searched + 1 = (rw again at m.next) in
        omega (arith, m.reached again)
    | inr fresh ↦ let next : h.first_block_to_search ≡ from = (rw fresh at m.next) in omega arith
  ]

  -- The first block of the queries that go back to the deployment.
  abbrev first_override : ℕ
  first_override = if h.is_updated then h.first_block_to_search else h.deployment_block

  override_next :
      first_override ≡ (if h.is_updated then h.latest_block_searched + 1 else h.deployment_block)
  override_next = elim (Bool-cases h.is_updated) [
    | inl again ↦ rw again (rw again at m.next)
    | inr fresh ↦ rw fresh refl
  ]

  override_reached : h.is_updated ≡ true → h.deployment_block ≤ h.latest_block_searched
  override_reached again = omega (arith, m.reached again, m.deployed)

  override_le : first_override ≤ u.search_end_block
  override_le = elim (Bool-cases h.is_updated) [
    | inl again ↦ rw again p
    | inr fresh ↦
        let le : h.deployment_block ≤ u.search_end_block = omega (arith, from_le, m.deployed) in
        rw fresh le
  ]

  pub updated-IsMirror :
      (tokens : List L1Token) (infos : Dict String LpToken) (pending : Option PendingRootBundle)
      → IsMirror log from (updated u tokens infos pending h)
  updated-IsMirror tokens infos pending =
      let ignored =
        λ (e : ProposedRootBundle). not (includes h.ignored_hub_proposed_bundles e.block_number) in
      record {
        deployed = m.deployed;
        reached = λ _. from_le;
        next = refl;
        proposed =
            kept-extend (filter ignored) h from _ _ log.proposed _ _ (filter-append ignored)
              m.proposed f.proposed m.next m.reached p ordered.proposed;
        canceled =
            kept-extend (λ xs. xs) h from _ _ log.canceled _ _ (λ xs ys. refl) m.canceled f.canceled
              m.next m.reached p ordered.canceled;
        disputed =
            kept-extend (λ xs. xs) h from _ _ log.disputed _ _ (λ xs ys. refl) m.disputed f.disputed
              m.next m.reached p ordered.disputed;
        executed =
            kept-extend (split_all h.ignored_hub_executed_bundles) h from _ _ log.executed _ _
              (split_all-append h.ignored_hub_executed_bundles) m.executed f.executed m.next
              m.reached p ordered.executed;
        contracts = λ chain.
            array_of-assign_contracts chain u.events.contracts_set h.cross_chain_contracts
            ∙ kept-extend (λ xs. map to_spoke_pool_set (filter (on_chain chain) xs)) h
                h.deployment_block first_override _ log.contracts_set u.events.contracts_set _
                (λ xs ys.
                  ap (map to_spoke_pool_set) (filter-append (on_chain chain) xs ys)
                  ∙ map-append to_spoke_pool_set (filter (on_chain chain) xs)
                      (filter (on_chain chain) ys))
                (m.contracts chain) f.contracts_set override_next override_reached override_le
                ordered.contracts_set;
        mappings = λ l1_token chain.
            array_at-assign_mappings l1_token chain u.events.routes
              h.l1_tokens_to_destination_tokens_with_block
            ∙ kept-extend (λ xs. map to_destination_token (filter (on_route l1_token chain) xs)) h
                h.deployment_block first_override _ log.routes u.events.routes _
                (λ xs ys.
                  ap (map to_destination_token) (filter-append (on_route l1_token chain) xs ys)
                  ∙ map-append to_destination_token (filter (on_route l1_token chain) xs)
                      (filter (on_route l1_token chain) ys))
                (m.mappings l1_token chain) f.routes override_next override_reached override_le
                ordered.routes;
      }

-- An update for all events that returns keeps the client a mirror of the log, if the node serves
-- the log: it has neither lost nor doubled an event.
pub update-IsMirror :
    (log : HubPoolEvents) (from : ℕ) (node : HubPoolNode) (store_updated : Bool) (h h' : HubPool)
    → IsHonestNode log node
    → IsOrderedLog log
    → IsMirror log from h
    → update node store_updated all_events h ≡ (h', none)
    → IsMirror log from h'
unfolding update
update-IsMirror log from node true h h' honest ordered m e =
    elim (Result-cases (fetch_update node h all_events)) [
      | inl (inl u, fetched) ↦
          let (p, f) = fetch_update-IsFetched log node h u honest ordered fetched in
          let (tokens, infos, pending, same) =
            apply_update-updated node u h h' (rw (update, fetched) at e) in
          subst (IsMirror log from) (sym same)
            (updated-IsMirror log from h u ordered m p f tokens infos pending)
      | inl (inr already_updated, fetched) ↦
          subst (IsMirror log from) (ap (λ o. o.0) (rw (update, fetched) at e)) m
      | inl (inr bad_request, fetched) ↦ let clash = (rw (update, fetched) at e) in cc
      | inl (inr rpc_error, fetched) ↦ let clash = (rw (update, fetched) at e) in cc
      | inr (thrown, fetched) ↦ let clash = (rw (update, fetched) at e) in cc
    ]
update-IsMirror log from node false h h' honest ordered m e = cc
