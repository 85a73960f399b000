-- ===== src/DepositUtils/Historical.antt =====
-- queryHistoricalDepositForFill: what it finds is the fill's deposit, and within the ids that the
-- client has queried it agrees with getDepositForFill.
use Prim.Native.String.{String}
use acrossclone.Prelude.{
  ℕ, ◌≤◌, ◌≡◌, refl, sym, ap, ◌∙◌, ◌↔◌, ◌⊎◌, inl, inr, true, Option, some, nat_eq, string_eq,
  if◌then◌else◌, ok, >>=-eq-ok, ok-inj, arith, Bool-cases, Option-cases, subst,
}
use acrossclone.FlowUtils.{validate_fill_for_deposit}
use acrossclone.SpokePool.{SpokePool, RelayData, DepositWithBlock, FillWithBlock}
use acrossclone.SpokePool.Queries.{get_deposit, get_deposit_for_fill}
use acrossclone.SpokePool.Extends.{IsIndexed}
use acrossclone.SpokePool.Find.{DepositCalls}
use acrossclone.SpokePool.Matching.{IsFillOf, validate_iff, get_deposit_for_fill_iff}
use acrossclone.DepositUtils.{
  deposit_id_not_found, fill_mismatch, found, not_found, DepositCache, load_deposit, search_buffer,
  search_history, query_historical_deposit_for_fill,
}

module _ (s : SpokePool) (fill : FillWithBlock) where
  -- The fill comes from the client's chain, and its id is one that the chain has had.
  pub record IsKnown : Type 0 where
    pub updated : s.is_updated ≡ true
    pub origin : fill.origin_chain_id ≡ s.chain_id
    pub from_first : s.first_deposit_id_for_spoke_pool ≤ fill.deposit_id
    pub to_last : fill.deposit_id ≤ s.last_deposit_id_for_spoke_pool

  -- Its id is one of those that the client has queried.
  abbrev pub IsQueried : Type 0
  IsQueried =
      (s.earliest_deposit_id_queried ≤ fill.deposit_id)
      × (fill.deposit_id ≤ s.latest_deposit_id_queried)

module _ (hash : RelayData → ℕ → String) (s : SpokePool) (fill : FillWithBlock) where
  search_buffer_iff :
      (d : DepositWithBlock)
      → (search_buffer hash s fill ≡ found d)
        ↔ ((get_deposit s fill.deposit_id ≡ some d) × IsFillOf hash fill d)
  unfolding search_buffer
  search_buffer_iff d = (forth, back)
    where
      forth :
          search_buffer hash s fill ≡ found d
          → (get_deposit s fill.deposit_id ≡ some d) × IsFillOf hash fill d
      forth h = elim (Option-cases (get_deposit s fill.deposit_id)) [
        | inl missing ↦
            let clash : not_found deposit_id_not_found ≡ found d =
              rw (search_buffer, missing) at h in
            cc
        | inr (e, known) ↦
            elim (Bool-cases (
              validate_fill_for_deposit hash fill.relay_data fill.destination_chain_id
                (some e.deposit))) [
                  | inr bad ↦
                      let clash : not_found fill_mismatch ≡ found d =
                        rw (search_buffer, known, bad) at h in
                      cc
                  | inl good ↦
                      let both : found e ≡ found d = rw (search_buffer, known, good) at h in
                      let same : e ≡ d = cc in
                      (
                        known ∙ ap some same,
                        subst (IsFillOf hash fill) same ((validate_iff hash fill e).0 good),
                      )
                ]
      ]

      back :
          (get_deposit s fill.deposit_id ≡ some d) × IsFillOf hash fill d
          → search_buffer hash s fill ≡ found d
      back (known, fits) =
          let good = (validate_iff hash fill d).1 fits in rw (search_buffer, known) (rw good refl)

  search_history-fits :
      (calls : DepositCalls) (cache : Option DepositCache) (d : DepositWithBlock)
      → search_history hash calls cache s fill ≡ ok (found d)
      → IsFillOf hash fill d
  unfolding search_history
  search_history-fits calls cache d h =
      let (e, e1, f1) = >>=-eq-ok (load_deposit calls cache s fill) _ h in
      let result : (if validate_fill_for_deposit hash fill.relay_data fill.destination_chain_id
              (some e.deposit)
            then found e
            else not_found fill_mismatch)
          ≡ found d =
        ok-inj f1 in
      elim (Bool-cases (
        validate_fill_for_deposit hash fill.relay_data fill.destination_chain_id
          (some e.deposit))) [
            | inr bad ↦ let clash : not_found fill_mismatch ≡ found d = rw bad at result in cc
            | inl good ↦
                let both : found e ≡ found d = rw good at result in
                let same : e ≡ d = cc in
                subst (IsFillOf hash fill) same ((validate_iff hash fill e).0 good)
          ]

  module _ (calls : DepositCalls) (cache : Option DepositCache) where
    -- Which search answers.
    outcome :
        (d : DepositWithBlock)
        → query_historical_deposit_for_fill hash calls cache s fill ≡ ok (found d)
        → (search_buffer hash s fill ≡ found d)
          ⊎ (search_history hash calls cache s fill ≡ ok (found d))
    unfolding query_historical_deposit_for_fill
    outcome d h = ground arith

    in_buffer :
        IsKnown s fill
        → IsQueried s fill
        → query_historical_deposit_for_fill hash calls cache s fill ≡ ok (search_buffer hash s fill)
    unfolding query_historical_deposit_for_fill
    in_buffer k (low, high) =
        let updated = k.updated in
        let origin = (nat_eq.same_iff fill.origin_chain_id s.chain_id).1 k.origin in
        let first = k.from_first in let last = k.to_last in ground arith

    -- Wherever queryHistoricalDepositForFill finds a deposit (among the client's events, in the cache or
    -- from the contract), it has the relay hash of the fill.
    pub query_historical_deposit_for_fill-fits :
        (d : DepositWithBlock)
        → query_historical_deposit_for_fill hash calls cache s fill ≡ ok (found d)
        → IsFillOf hash fill d
    query_historical_deposit_for_fill-fits d h = elim (outcome d h) [
      | inl buffered ↦ ((search_buffer_iff d).0 buffered).1
      | inr loaded ↦ search_history-fits calls cache d loaded
    ]

    -- For an updated client with a sound index and a fill from its chain, with an id that the chain
    -- has had and the client has queried, queryHistoricalDepositForFill finds exactly the deposit that
    -- getDepositForFill gives, whatever the cache and the contract would answer.
    pub query_historical_deposit_for_fill_iff :
        (d : DepositWithBlock)
        → IsIndexed s
        → IsKnown s fill
        → IsQueried s fill
        → (query_historical_deposit_for_fill hash calls cache s fill ≡ ok (found d))
          ↔ (get_deposit_for_fill hash s fill ≡ some d)
    query_historical_deposit_for_fill_iff d i k q =
        let buffered = in_buffer k q in
        let matched = get_deposit_for_fill_iff hash s fill d i in
        let searched = search_buffer_iff d in
        (
          λ h.
              let (known, fits) = searched.0 (ok-inj (sym buffered ∙ h)) in
              matched.1 (k.origin, known, fits),
          λ h.
              let (origin, known, fits) = matched.0 h in
              buffered ∙ ap ok (searched.1 (known, fits)),
        )
