-- ===== src/SpokeUtils/Deposits.antt =====
-- getBlockRangeForDepositId finds the block of a deposit.
use acrossclone.Prelude.{
  ℕ, zero, suc, ◌+◌, ◌-◌, ◌*◌, ◌/◌, ◌^◌, ◌≤◌, ◌<◌, min, max, ◌≡◌, refl, sym, ap, ◌∙◌, subst, true,
  false, ltb, leb, ◌==◌, nat_eq, Bool-cases, leb→le, ltb→lt, inl, inr, Result, ok, >>=-eq-ok,
  ok-inj, arith,
}
use native.Mathlib.Nat.{pow-succ'}
use acrossclone.SpokeUtils.{
  SpokeUtilsError, SpokePoolState, narrow, deposit_search, search_between,
  get_block_range_for_deposit_id,
}

-- The contract answers with the number of deposits up to a block, which never falls.
pub record CountsDeposits (query : ℕ → Result SpokeUtilsError ℕ) (count : ℕ → ℕ) : Type 0 where
  pub answers : (block n : ℕ) → query block ≡ ok n → n ≡ count block
  pub grows : (a b : ℕ) → a ≤ b → count a ≤ count b

-- The deposit numbered `target` was made in a block from `low` to `high`.
pub record IsDepositRange (count : ℕ → ℕ) (target low high : ℕ) : Type 0 where
  pub in_order : low ≤ high
  pub after_low : (block : ℕ) → block < low → count block ≤ target
  pub by_high : target < count high

below_high :
    (count : ℕ → ℕ) (target mid high : ℕ)
    → ((a b : ℕ) → a ≤ b → count a ≤ count b)
    → count mid ≤ target
    → target < count high
    → mid < high
below_high count target mid high grows small big = elim (Bool-cases (ltb mid high)) [
  | inl less ↦ ltb→lt mid high less
  | inr more ↦ let above : high ≤ mid = ground arith in absurd (omega (arith, grows high mid above))
]

narrow-IsDepositRange :
    (count : ℕ → ℕ) (target mid low high : ℕ)
    → ((a b : ℕ) → a ≤ b → count a ≤ count b)
    → low ≤ mid
    → mid ≤ high
    → IsDepositRange count target low high
    → let range = narrow target mid (count mid) low high in
      IsDepositRange count target range.0 range.1
unfolding narrow
narrow-IsDepositRange count target mid low high grows p q r =
    elim (Bool-cases (leb (target + 1) (count mid))) [
      | inl found ↦ rw found (record {
        in_order = p;
        after_low = r.after_low;
        by_high = omega (arith, leb→le (target + 1) (count mid) found);
      })
      | inr missed ↦
          let small : count mid ≤ target = ground arith in
          let not_high : mid < high = below_high count target mid high grows small r.by_high in
          rw missed (record {
            in_order = omega arith;
            after_low = λ block s. omega (arith, grows block mid (omega arith));
            by_high = r.by_high;
          })
    ]

narrow_halves :
    (target n low high : ℕ)
    → low ≤ high
    → let range = narrow target ((low + high) / 2) n low high in
      range.1 - range.0 ≤ (high - low) / 2
unfolding narrow
narrow_halves target n low high p = elim (Bool-cases (leb (target + 1) n)) [
  | inl found ↦ rw found (omega arith)
  | inr missed ↦ rw missed (omega arith)
]

module _ (query : ℕ → Result SpokeUtilsError ℕ) (count : ℕ → ℕ)
    (counts : CountsDeposits query count) (target : ℕ) where
  -- One round, on the range that is left.
  round :
      (low high n : ℕ)
      → query ((low + high) / 2) ≡ ok n
      → IsDepositRange count target low high
      → let range = narrow target ((low + high) / 2) n low high in
        IsDepositRange count target range.0 range.1
  round low high n e r =
      let mid = (low + high) / 2 in
      let in_range : (low ≤ mid) × (mid ≤ high) =
        (omega (arith, r.in_order), omega (arith, r.in_order)) in
      subst
        (λ (k : ℕ).
          let range = narrow target mid k low high in IsDepositRange count target range.0 range.1)
        (sym (counts.answers mid n e))
        (narrow-IsDepositRange count target mid low high counts.grows in_range.0 in_range.1 r)

  deposit_search-IsDepositRange :
      (left low high : ℕ) (range : ℕ × ℕ)
      → IsDepositRange count target low high
      → deposit_search query target left low high ≡ ok range
      → IsDepositRange count target range.0 range.1
  unfolding deposit_search
  deposit_search-IsDepositRange zero low high range r e =
      let (n, answer, same) = >>=-eq-ok (query ((low + high) / 2)) _ e in
      subst (λ (s : ℕ × ℕ). IsDepositRange count target s.0 s.1) (ok-inj same)
        (round low high n answer r)
  deposit_search-IsDepositRange (suc left) low high range r e =
      let (n, answer, same) = >>=-eq-ok (query ((low + high) / 2)) _ e in
      let (low', high') = narrow target ((low + high) / 2) n low high in
      let next = round low high n answer r in
      elim (Bool-cases (ltb low' high')) [
        | inl more ↦ deposit_search-IsDepositRange left low' high' range next (rw more at same)
        | inr done ↦
            subst (λ (s : ℕ × ℕ). IsDepositRange count target s.0 s.1) (ok-inj (rw done at same))
              next
      ]

  -- A search that has rounds enough for the blocks in its range ends at a single block.
  deposit_search-exact :
      (left low high : ℕ) (range : ℕ × ℕ)
      → IsDepositRange count target low high
      → high - low < 2 ^ (left + 1)
      → deposit_search query target left low high ≡ ok range
      → range.0 ≡ range.1
  unfolding deposit_search
  deposit_search-exact zero low high range r p e =
      let (n, answer, same) = >>=-eq-ok (query ((low + high) / 2)) _ e in
      let next = round low high n answer r in
      let small = narrow_halves target n low high r.in_order in
      subst (λ (s : ℕ × ℕ). s.0 ≡ s.1) (ok-inj same) (omega (arith, next.in_order))
  deposit_search-exact (suc left) low high range r p e =
      let (n, answer, same) = >>=-eq-ok (query ((low + high) / 2)) _ e in
      let (low', high') = narrow target ((low + high) / 2) n low high in
      let next = round low high n answer r in
      let half = narrow_halves target n low high r.in_order in
      let next_power : suc left + 1 ≡ suc (left + 1) = omega arith in
      let twice : 2 ^ (suc left + 1) ≡ 2 * 2 ^ (left + 1) =
        ap (λ k. 2 ^ k) next_power ∙ pow-succ' 2 (left + 1) in
      elim (Bool-cases (ltb low' high')) [
        | inl more ↦ deposit_search-exact left low' high' range next (omega arith) (rw more at same)
        | inr done ↦
            let above : high' ≤ low' = ground arith in
            subst (λ (s : ℕ × ℕ). s.0 ≡ s.1) (ok-inj (rw done at same))
              (omega (arith, next.in_order))
      ]

  deposit_search-returns :
      ((block : ℕ) → query block ≡ ok (count block))
      → (left low high : ℕ)
      → (range : ℕ × ℕ) × (deposit_search query target left low high ≡ ok range)
  unfolding deposit_search
  deposit_search-returns answers zero low high =
      let mid = (low + high) / 2 in (narrow target mid (count mid) low high, rw (answers mid) refl)
  deposit_search-returns answers (suc left) low high =
      let mid = (low + high) / 2 in
      let (low', high') = narrow target mid (count mid) low high in
      elim (Bool-cases (ltb low' high')) [
        | inl more ↦
            let (range, found) = deposit_search-returns answers left low' high' in
            (range, rw (answers mid, more) found)
        | inr done ↦ ((low', high'), rw (answers mid, done) refl)
      ]

  -- For a client that is updated, a range of blocks that is in order and from the deployment on, a
  -- target whose deposit lies in it, and no more blocks than the searches can tell apart, the search
  -- returns, on a contract that answers at every block with a count that never falls, the one block in which the deposit was made:
  -- it is the first with more deposits than the target's number.
  pub get_block_range_for_deposit_id-finds :
      (pool : SpokePoolState) (init_low init_high max_searches : ℕ)
      → ((block : ℕ) → query block ≡ ok (count block))
      → pool.is_updated ≡ true
      → 0 < max_searches
      → pool.deployment_block ≤ init_low
      → init_low ≤ min init_high pool.latest_block_searched
      → min init_high pool.latest_block_searched - init_low < 2 ^ (max_searches + 1)
      → count (max pool.deployment_block (init_low - 1)) ≤ target
      → target < count (min init_high pool.latest_block_searched)
      → (block : ℕ) × (get_block_range_for_deposit_id query pool target init_low init_high
            max_searches
          ≡ ok (block, block))
        × (target < count block)
        × ((earlier : ℕ) → earlier < block → count earlier ≤ target)
  unfolding get_block_range_for_deposit_id search_between
  get_block_range_for_deposit_id-finds pool init_low init_high max_searches answers updated
        some_left deployed in_order enough low_small high_big =
      let high = min init_high pool.latest_block_searched in
      let lowest = max pool.deployment_block (init_low - 1) in
      let start : IsDepositRange count target init_low high = record {
        in_order = in_order;
        after_low = λ block p. omega (arith, counts.grows block lowest (omega arith));
        by_high = high_big;
      } in
      let (range, found) = deposit_search-returns answers max_searches init_low high in
      let final = deposit_search-IsDepositRange max_searches init_low high range start found in
      let one = deposit_search-exact max_searches init_low high range start enough found in
      let block = range.0 in
      let single : deposit_search query target max_searches init_low high ≡ ok (block, block) =
        found ∙ ap (λ b. ok (block, b)) (sym one) in
      let f1 : ltb high init_low ≡ false = ground arith in
      let f2 : ltb init_low pool.deployment_block ≡ false = ground arith in
      let f3 : (max_searches == 0) ≡ false = ground arith in
      let f4 : leb (count high) target ≡ false = ground arith in
      let f5 : ltb target (count lowest) ≡ false = ground arith in
      let f6 : ltb block block ≡ false = ground arith in
      (
        block,
        rw
            (
              get_block_range_for_deposit_id,
              updated,
              f1,
              f2,
              f3,
              search_between,
              answers high,
              answers lowest,
              f4,
              f5,
              single,
              f6,
            )
            refl,
        subst (λ b. target < count b) (sym one) final.by_high,
        final.after_low,
      )
