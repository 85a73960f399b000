-- ===== src/SpokeUtils/Fills.antt =====
-- findFillBlock finds the block of a fill.
use acrossclone.Prelude.{
  ℕ, zero, suc, ◌+◌, ◌-◌, ◌/◌, ◌≤◌, ◌<◌, ◌≡◌, refl, sym, ◌∙◌, subst, true, false, ltb, leb, ◌==◌,
  nat_eq, Bool-cases, ltb→lt, inl, inr, List, Option, some, get_or, Result, ok, arith,
}
use acrossclone.SpokeUtils.{
  SpokeUtilsError, FillStatus, is_filled, relay_fill_status, fill_search, destination_chain,
  fill_block_between, find_fill_block,
}

-- The contract gives a status at every block, and what is filled stays filled.
pub record IsFillHistory (fill_statuses : ℕ → Result SpokeUtilsError ℕ) (status : ℕ → FillStatus)
    : Type 0 where
  pub answers : (block : ℕ) → relay_fill_status fill_statuses block ≡ ok (status block)
  pub stays : (a b : ℕ) → a ≤ b → is_filled (status a) ≡ true → is_filled (status b) ≡ true

-- The relay was filled in this block.
pub record IsFillBlock (status : ℕ → FillStatus) (block : ℕ) : Type 0 where
  pub filled_by : is_filled (status block) ≡ true
  pub not_before : (earlier : ℕ) → earlier < block → is_filled (status earlier) ≡ false

module _ (fill_statuses : ℕ → Result SpokeUtilsError ℕ) (status : ℕ → FillStatus)
    (history : IsFillHistory fill_statuses status) where
  unfilled_before :
      (block : ℕ)
      → is_filled (status block) ≡ false
      → (earlier : ℕ) → earlier ≤ block
      → is_filled (status earlier) ≡ false
  unfilled_before block open_yet earlier p = elim (Bool-cases (is_filled (status earlier))) [
    | inl done ↦ let clash = sym open_yet ∙ history.stays earlier block p done in cc
    | inr pending ↦ pending
  ]

  fill_search-IsFillBlock :
      (fuel low high : ℕ)
      → low < high
      → high - low ≤ fuel
      → ((earlier : ℕ) → earlier < low → is_filled (status earlier) ≡ false)
      → is_filled (status high) ≡ true
      → (block : ℕ) × (fill_search fill_statuses fuel low high ≡ ok block)
        × IsFillBlock status block
  unfolding fill_search
  fill_search-IsFillBlock zero low high p q before filled_high = absurd (omega arith)
  fill_search-IsFillBlock (suc fuel) low high p q before filled_high =
      let mid = (high + low) / 2 in
      let answer = history.answers mid in
      elim (Bool-cases (is_filled (status mid))) [
        | inl done ↦ elim (Bool-cases (ltb low mid)) [
          | inl more ↦
              let (block, found, first) =
                fill_search-IsFillBlock fuel low mid (ltb→lt low mid more) (omega arith) before
                  done in
              (block, rw (answer, done, more) found, first)
          | inr stop ↦
              let same : low ≡ mid = ground arith in
              (
                low,
                rw (answer, done, stop) refl,
                record {
                  filled_by = subst (λ b. is_filled (status b) ≡ true) (sym same) done;
                  not_before = before;
                },
              )
        ]
        | inr pending ↦
            let before_mid = λ (earlier : ℕ) (less : earlier < mid + 1).
              unfilled_before mid pending earlier (omega arith) in
            elim (Bool-cases (ltb (mid + 1) high)) [
              | inl more ↦
                  let (block, found, first) =
                    fill_search-IsFillBlock fuel (mid + 1) high (ltb→lt (mid + 1) high more)
                      (omega arith) before_mid filled_high in
                  (block, rw (answer, pending, more) found, first)
              | inr stop ↦
                  let same : mid + 1 ≡ high = ground arith in
                  (
                    mid + 1,
                    rw (answer, pending, stop) refl,
                    record {
                      filled_by = subst (λ b. is_filled (status b) ≡ true) (sym same) filled_high;
                      not_before = before_mid;
                    },
                  )
            ]
      ]

  -- For a relay that is filled after the low block and by the high block, on another chain than
  -- its origin, the search returns the block in which it was filled: the first with that status.
  pub find_fill_block-IsFillBlock :
      (chain_ids : List ℕ) (origin network_chain spoke_chain block_number low : ℕ) (high : Option ℕ)
      → low < get_or high block_number
      → (origin == destination_chain chain_ids origin network_chain spoke_chain) ≡ false
      → is_filled (status low) ≡ false
      → is_filled (status (get_or high block_number)) ≡ true
      → (block : ℕ) × (find_fill_block fill_statuses chain_ids origin network_chain spoke_chain
            block_number low high
          ≡ ok (some block))
        × IsFillBlock status block
  unfolding find_fill_block fill_block_between
  find_fill_block-IsFillBlock chain_ids origin network_chain spoke_chain block_number low high p
        other open_low filled_high =
      let top = get_or high block_number in
      let in_range : leb top low ≡ false = ground arith in
      let (block, found, first) =
        fill_search-IsFillBlock (top - low) low top p (omega arith)
          (λ earlier less. unfilled_before low open_low earlier (omega arith)) filled_high in
      (
        block,
        rw
            (
              find_fill_block,
              in_range,
              other,
              fill_block_between,
              history.answers low,
              history.answers top,
              filled_high,
              open_low,
              found,
            )
            refl,
        first,
      )
