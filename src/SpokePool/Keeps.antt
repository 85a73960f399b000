-- ===== src/SpokePool/Keeps.antt =====
-- Updates of the SpokePool client keep its deposits and its index.
use Prim.Native.String.{String}
use acrossclone.Prelude.{
  ℕ, ◌≡◌, refl, ap, ◌∙◌, true, List, [], ◌∷◌, Option, none, some, ◌⊎◌, inl, inr, Outcome, and_then,
  ok, err, Result, Bool-cases, Option-cases, Result-cases, nat_eq, string_eq,
}
use acrossclone.Prelude.Search.{includes}
use acrossclone.Prelude.Dict.{lookup}
use acrossclone.BaseClient.{UpdateFailureReason}
use acrossclone.SpokePool.{
  SpokePool, SpokePoolError, RelayData, DepositWithBlock, SlowFillRequestWithBlock, deposit_hash_eq,
  HubClients,
}
use acrossclone.SpokePool.Queries.{get_deposit, get_deposit_hash}
use acrossclone.SpokePool.Loops.{
  add_slow_fill_request, add_slow_fill_requests, EnabledDepositRouteEvent, add_routes,
  batch_quote_blocks, add_speed_ups, add_fills,
}
use acrossclone.SpokePool.Update.{
  SpokePoolEvent, spoke_event_eq, requested_speed_up_v3_deposit, requested_v3_slow_fill,
  filled_v3_relay, enabled_deposit_route, relayed_root_bundle, executed_relayer_refund_root,
  tokens_bridged, v3_funds_deposited, SpokePoolNode, SpokePoolUpdateSuccess, fetch_update, step_if,
  update_bridged, update_deposits, update_relays, update_refunds, apply_rest, finish_update,
  apply_update, is_hub_updated, update, new_spoke_pool_client,
}
use acrossclone.SpokePool.Extends.{
  SameDeposit, IsIndexed, Extends, Extends-refl, Extends-trans, Untouched-Extends,
}
use acrossclone.SpokePool.Steps.{add_deposits-Extends, add_speed_ups-Extends, add_fills-Extends}

add_slow_fill_request-Extends :
    (hash : RelayData → ℕ → String) (e : SlowFillRequestWithBlock) (s : SpokePool)
    → Extends s (add_slow_fill_request hash e s)
unfolding add_slow_fill_request
add_slow_fill_request-Extends hash e s =
    elim (Option-cases (lookup (hash e.relay_data s.chain_id) s.slow_fill_requests)) [
      | inl new ↦ rw (add_slow_fill_request, new) (Untouched-Extends s _ refl refl refl refl refl)
      | inr (f, known) ↦ rw (add_slow_fill_request, known) (Extends-refl s)
    ]

add_slow_fill_requests-Extends :
    (hash : RelayData → ℕ → String) (events : List SlowFillRequestWithBlock) (s : SpokePool)
    → Extends s (add_slow_fill_requests hash events s)
unfolding add_slow_fill_requests
add_slow_fill_requests-Extends hash [] s = Extends-refl s
add_slow_fill_requests-Extends hash (e ∷ events) s =
    Extends-trans s (add_slow_fill_request hash e s) _ (add_slow_fill_request-Extends hash e s)
      (add_slow_fill_requests-Extends hash events (add_slow_fill_request hash e s))

add_routes-Extends :
    (events : List EnabledDepositRouteEvent) (s : SpokePool) → Extends s (add_routes events s)
unfolding add_routes
add_routes-Extends [] s = Extends-refl s
add_routes-Extends (e ∷ events) s =
    Extends-trans s _ _ (Untouched-Extends s _ refl refl refl refl refl)
      (add_routes-Extends events _)

step_if-Extends :
    (names : List SpokePoolEvent) (name : SpokePoolEvent) (step : SpokePool → SpokePool)
    (s : SpokePool)
    → ((t : SpokePool) → Extends t (step t))
    → Extends s (step_if names name step s)
step_if-Extends names name step s extends = elim (Bool-cases (includes names name)) [
  | inl asked ↦ rw asked (extends s)
  | inr left ↦ rw left (Extends-refl s)
]

update_deposits-Extends :
    (u : SpokePoolUpdateSuccess) (s : SpokePool) → Extends s (update_deposits u s).0
unfolding update_deposits
update_deposits-Extends u s = elim (Result-cases (batch_quote_blocks s u.events.deposits)) [
  | inl (blocks, e) ↦ rw (update_deposits, e) (add_deposits-Extends u.events.deposits blocks s)
  | inr (thrown, e) ↦ rw (update_deposits, e) (Extends-refl s)
]

module _ (hash : RelayData → ℕ → String) (names : List SpokePoolEvent)
    (u : SpokePoolUpdateSuccess) where
  apply_rest-Extends : (s : SpokePool) → Extends s (apply_rest hash names u s)
  unfolding apply_rest update_relays update_refunds
  apply_rest-Extends s =
      let s1 = step_if names requested_speed_up_v3_deposit (add_speed_ups u.events.speed_ups) s in
      let s2 =
        step_if names requested_v3_slow_fill (add_slow_fill_requests hash u.events.slow_fills) s1 in
      let s3 = step_if names filled_v3_relay (add_fills u.events.fills) s2 in
      let s4 = step_if names enabled_deposit_route (add_routes u.events.routes) s3 in
      let s5 = step_if names relayed_root_bundle (update_relays u) s4 in
      let x1 =
        step_if-Extends names requested_speed_up_v3_deposit (add_speed_ups u.events.speed_ups) s
          (add_speed_ups-Extends u.events.speed_ups) in
      let x2 =
        step_if-Extends names requested_v3_slow_fill
          (add_slow_fill_requests hash u.events.slow_fills) s1
          (add_slow_fill_requests-Extends hash u.events.slow_fills) in
      let x3 =
        step_if-Extends names filled_v3_relay (add_fills u.events.fills) s2
          (add_fills-Extends u.events.fills) in
      let x4 =
        step_if-Extends names enabled_deposit_route (add_routes u.events.routes) s3
          (add_routes-Extends u.events.routes) in
      let x5 =
        step_if-Extends names relayed_root_bundle (update_relays u) s4
          (λ t. Untouched-Extends t _ refl refl refl refl refl) in
      let x6 =
        step_if-Extends names executed_relayer_refund_root (update_refunds u) s5
          (λ t. Untouched-Extends t _ refl refl refl refl refl) in
      Extends-trans s s1 _ x1 (
        Extends-trans s1 s2 _ x2
          (Extends-trans s2 s3 _ x3 (Extends-trans s3 s4 _ x4 (Extends-trans s4 s5 _ x5 x6))))

  finish_update-Extends : (s : SpokePool) → Extends s (finish_update u s)
  unfolding finish_update
  finish_update-Extends s = Untouched-Extends s _ refl refl refl refl refl

  apply_update-Extends : (s : SpokePool) → Extends s (apply_update hash names u s).0
  unfolding apply_update update_bridged
  apply_update-Extends s =
      let s1 = step_if names tokens_bridged (update_bridged u) s in
      let x1 =
        step_if-Extends names tokens_bridged (update_bridged u) s
          (λ t. Untouched-Extends t _ refl refl refl refl refl) in
      let rest = λ (t : SpokePool).
        Extends-trans t (apply_rest hash names u t) _ (apply_rest-Extends t)
          (finish_update-Extends (apply_rest hash names u t)) in
      elim (Bool-cases (includes names v3_funds_deposited)) [
        | inl asked ↦
            rw (apply_update, asked)
              (Extends-trans s s1 _ x1
                (after (update_deposits u s1) s1 (update_deposits-Extends u s1) rest))
        | inr left ↦ rw (apply_update, left) (Extends-trans s s1 _ x1 (rest s1))
      ]
    where
      after :
          (o : Outcome SpokePoolError SpokePool) (t : SpokePool)
          → Extends t o.0
          → ((v : SpokePool) → Extends v (finish_update u (apply_rest hash names u v)))
          → Extends t
              (and_then o
                (λ (v : SpokePool). (finish_update u (apply_rest hash names u v), none))).0
      after (v, none) t x rest = Extends-trans t v _ x (rest v)
      after (v, some e) t x rest = x

update-Extends :
    (hash : RelayData → ℕ → String) (node : SpokePoolNode) (names : List SpokePoolEvent)
    (s : SpokePool)
    → Extends s (update hash node names s).0
unfolding update
update-Extends hash node names s = elim (Bool-cases (is_hub_updated s.hub)) [
  | inr stale ↦ rw (update, stale) (Extends-refl s)
  | inl fresh ↦ by_fetch fresh (fetch_update node s names) refl
]
  where
    by_fetch :
        is_hub_updated s.hub ≡ true
        → (r : Result SpokePoolError (SpokePoolUpdateSuccess ⊎ UpdateFailureReason))
        → fetch_update node s names ≡ r
        → Extends s (update hash node names s).0
    by_fetch fresh (err e) f = rw (update, fresh, f) (Extends-refl s)
    by_fetch fresh (ok (inr reason)) f = rw (update, fresh, f) (Extends-refl s)
    by_fetch fresh (ok (inl u)) f = rw (update, fresh, f) (apply_update-Extends hash names u s)

-- Whatever an update finds, and also where it throws half-way, it keeps the client's index: each
-- deposit stands under its own id and the client's chain and has an id between the earliest and
-- the latest that were queried; each fill stands under the hash of its deposit and is one on the client's
-- chain.
pub update-IsIndexed :
    (hash : RelayData → ℕ → String) (node : SpokePoolNode) (names : List SpokePoolEvent)
    (s : SpokePool)
    → IsIndexed s
    → IsIndexed (update hash node names s).0
update-IsIndexed hash node names s i = (update-Extends hash node names s).indexed i

-- An update never drops or replaces a deposit: getDeposit gives the same deposit after it, which
-- differs at most in what a speed-up writes.
pub update-keeps_deposit :
    (hash : RelayData → ℕ → String) (node : SpokePoolNode) (names : List SpokePoolEvent)
    (s : SpokePool) (id : ℕ) (d : DepositWithBlock)
    → get_deposit s id ≡ some d
    → (e : DepositWithBlock) × (get_deposit (update hash node names s).0 id ≡ some e)
      × SameDeposit e d
unfolding get_deposit
update-keeps_deposit hash node names s id d known =
    let later = update-Extends hash node names s in
    let t = (update hash node names s).0 in
    let (e, found, same) = later.keeps (get_deposit_hash id s.chain_id) d known in
    (e, ap (λ c. lookup (get_deposit_hash id c) t.deposit_hashes) later.chain ∙ found, same)

pub new_spoke_pool_client-IsIndexed :
    (hub : Option HubClients) (chain_id deployment_block from_block : ℕ)
    (to_block max_block_look_back : Option ℕ)
    → IsIndexed (
        new_spoke_pool_client hub chain_id deployment_block from_block to_block max_block_look_back)
unfolding new_spoke_pool_client lookup
new_spoke_pool_client-IsIndexed hub chain_id deployment from_block to_block max_look_back = record {
  deposits = λ k d e. cc;
  fills = λ k. tt;
}
