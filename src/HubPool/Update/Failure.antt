-- ===== src/HubPool/Update/Failure.antt =====
-- An update that throws: what it leaves behind.
use acrossclone.Prelude.{
  ℕ, ◌≡◌, refl, sym, ap, ap₂, ◌∙◌, true, List, none, some, Outcome, and_then, Option-cases,
  Result-cases, Bool-cases, inl, inr, ok, ltb, get_last?,
}
use acrossclone.Prelude.Search.{includes}
use acrossclone.BaseClient.{BaseClient}
use acrossclone.Prelude.Dict.{Dict}
use acrossclone.HubPool.{HubPool, HubPoolError, SpokePoolSet}
use acrossclone.HubPool.Events.{
  HubPoolNode, HubPoolUpdateSuccess, all_events, fetch_update, event_name_eq,
}
use acrossclone.HubPool.Loops.{assign_contracts, push_tokens}
use acrossclone.HubPool.Update.{
  fetch_tokens, update_contracts, update_routes, update_tokens, update_proposed, update_canceled,
  update_disputed, update_executed, update_pending, finish_update, apply_update, update,
}

-- What only the first and the last step write, or none.
abbrev kept : HubPool → BaseClient × Dict ℕ (List SpokePoolSet) × ℕ
kept h = (h.base, h.cross_chain_contracts, h.deployment_block)

and_then-kept :
    (o : Outcome HubPoolError HubPool) (step : HubPool → Outcome HubPoolError HubPool)
    → ((h : HubPool) → kept (step h).0 ≡ kept h)
    → kept (and_then o step).0 ≡ kept o.0
and_then-kept (h, none) step keeps = keeps h
and_then-kept (h, some thrown) step keeps = refl

update_tokens-kept :
    (node : HubPoolNode) (u : HubPoolUpdateSuccess) (h : HubPool)
    → kept (update_tokens node u h).0 ≡ kept h
unfolding update_tokens
update_tokens-kept node u h = elim (Result-cases (fetch_tokens node u)) [
  | inr (thrown, found) ↦ rw (update_tokens, found) refl
  | inl ((infos, lp_infos), found) ↦
      let pushed = push_tokens infos h.l1_tokens in
      rw (update_tokens, found)
        (and_then-kept (record h { l1_tokens = pushed.0 }, pushed.1) _ (λ s. refl))
]

update_pending-kept :
    (u : HubPoolUpdateSuccess) (h : HubPool) → kept (update_pending u h).0 ≡ kept h
unfolding update_pending
update_pending-kept u h =
    elim (Bool-cases (ltb 0 u.pending_root_bundle_proposal.unclaimed_pool_rebalance_leaf_count)) [
      | inl claims ↦ elim (Option-cases (get_last? h.proposed_root_bundles)) [
        | inl empty ↦ rw (update_pending, claims, empty) refl
        | inr (latest, found) ↦ rw (update_pending, claims, found) refl
      ]
      | inr done ↦ rw (update_pending, done) refl
    ]

-- An error comes from the steps before the last one.
finish_update-err :
    (u : HubPoolUpdateSuccess) (o : Outcome HubPoolError HubPool) (h' : HubPool) (e : HubPoolError)
    → and_then o (finish_update u) ≡ (h', some e)
    → o.0 ≡ h'
unfolding finish_update
finish_update-err u (h, none) h' e same = cc
finish_update-err u (h, some thrown) h' e same = ap (λ o. o.0) same

-- All steps of an update but the last.
abbrev before_last : HubPoolNode → HubPoolUpdateSuccess → HubPool → Outcome HubPoolError HubPool
before_last node u h =
    let s2 = and_then (update_contracts u h) (update_routes u) in
    let s3 = and_then s2 (update_tokens node u) in
    let s4 = and_then s3 (update_proposed u) in
    let s5 = and_then s4 (update_canceled u) in
    let s6 = and_then s5 (update_disputed u) in
    let s7 = and_then s6 (update_executed u) in and_then s7 (update_pending u)

before_last-kept :
    (node : HubPoolNode) (u : HubPoolUpdateSuccess) (h : HubPool)
    → kept (before_last node u h).0 ≡ (
      h.base,
      assign_contracts u.events.contracts_set h.cross_chain_contracts,
      h.deployment_block,
    )
unfolding update_contracts update_routes update_proposed update_canceled update_disputed
    update_executed
before_last-kept node u h =
    let s2 = and_then (update_contracts u h) (update_routes u) in
    let s3 = and_then s2 (update_tokens node u) in
    let s4 = and_then s3 (update_proposed u) in
    let s5 = and_then s4 (update_canceled u) in
    let s6 = and_then s5 (update_disputed u) in
    let s7 = and_then s6 (update_executed u) in
    and_then-kept s7 (update_pending u) (update_pending-kept u)
    ∙ and_then-kept s6 (update_executed u) (λ s. refl)
    ∙ and_then-kept s5 (update_disputed u) (λ s. refl)
    ∙ and_then-kept s4 (update_canceled u) (λ s. refl)
    ∙ and_then-kept s3 (update_proposed u) (λ s. refl)
    ∙ and_then-kept s2 (update_tokens node u) (update_tokens-kept node u)

apply_update-before_last :
    (node : HubPoolNode) (u : HubPoolUpdateSuccess) (h : HubPool)
    → apply_update node all_events u h ≡ and_then (before_last node u h) (finish_update u)
unfolding apply_update includes
apply_update-before_last node u h = refl

apply_update-kept :
    (node : HubPoolNode) (u : HubPoolUpdateSuccess) (h h' : HubPool) (e : HubPoolError)
    → apply_update node all_events u h ≡ (h', some e)
    → kept h' ≡ (
      h.base,
      assign_contracts u.events.contracts_set h.cross_chain_contracts,
      h.deployment_block,
    )
apply_update-kept node u h h' e same =
    let thrown = sym (apply_update-before_last node u h) ∙ same in
    ap kept (sym (finish_update-err u (before_last node u h) h' e thrown))
    ∙ before_last-kept node u h

finish_update-contracts :
    (u : HubPoolUpdateSuccess) (o : Outcome HubPoolError HubPool)
    → (and_then o (finish_update u)).0.cross_chain_contracts ≡ o.0.cross_chain_contracts
unfolding finish_update
finish_update-contracts u (h, none) = refl
finish_update-contracts u (h, some thrown) = refl

-- Whether it throws or not, `update` assigns the contracts that it found.
apply_update-contracts :
    (node : HubPoolNode) (u : HubPoolUpdateSuccess) (h : HubPool)
    → (apply_update node all_events u h).0.cross_chain_contracts
      ≡ assign_contracts u.events.contracts_set h.cross_chain_contracts
apply_update-contracts node u h =
    ap (λ o. o.0.cross_chain_contracts) (apply_update-before_last node u h)
    ∙ finish_update-contracts u (before_last node u h)
    ∙ ap (λ k. k.1) (before_last-kept node u h)

-- The queries depend on the search range and the deployment block alone.
fetch_update-frame :
    (node : HubPoolNode) (h h' : HubPool)
    → fetch_update node h all_events
      ≡ fetch_update node
          (record h' { base = h.base; deployment_block = h.deployment_block })
          all_events
unfolding fetch_update
fetch_update-frame node h h' = refl

fetch_update_same :
    (node : HubPoolNode) (h h' : HubPool)
    → h'.base ≡ h.base
    → h'.deployment_block ≡ h.deployment_block
    → fetch_update node h' all_events ≡ fetch_update node h all_events
fetch_update_same node h h' base deployed =
    ap₂ (λ b d. fetch_update node (record h' { base = b; deployment_block = d }) all_events) base
      deployed
    ∙ sym (fetch_update-frame node h h')

-- An update for all events, with the config store client updated, that throws after its queries
-- leaves the search range as it was, but has assigned the contracts that it found. If the queries
-- of the next such update would have succeeded without the one that threw, they give the same
-- after it, and the next update, whether it throws or not, assigns the contracts in that on top of
-- those that were assigned.
pub update-err :
    (node next : HubPoolNode) (u v : HubPoolUpdateSuccess) (h h' : HubPool) (e : HubPoolError)
    → fetch_update node h all_events ≡ ok (inl u)
    → update node true all_events h ≡ (h', some e)
    → fetch_update next h all_events ≡ ok (inl v)
    → let assigned = assign_contracts u.events.contracts_set h.cross_chain_contracts in
      (h'.base ≡ h.base)
      × (h'.cross_chain_contracts ≡ assigned)
      × (fetch_update next h' all_events ≡ ok (inl v))
      × ((update next true all_events h').0.cross_chain_contracts
          ≡ assign_contracts v.events.contracts_set assigned)
unfolding update
update-err node next u v h h' e fetched thrown later =
    let same = apply_update-kept node u h h' e (rw (update, fetched) at thrown) in
    let contracts = ap (λ k. k.1) same in
    let again = fetch_update_same next h h' (ap (λ k. k.0) same) (ap (λ k. k.2) same) ∙ later in
    (
      ap (λ k. k.0) same,
      contracts,
      again,
      rw (again, update)
          (apply_update-contracts next v h'
            ∙ ap (assign_contracts v.events.contracts_set) contracts),
    )
