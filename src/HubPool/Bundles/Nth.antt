-- ===== src/HubPool/Bundles/Nth.antt =====
-- getNthFullyExecutedRootBundle: how the n-th bundle follows from the one before, and where that
-- goes wrong.
use acrossclone.Prelude.{
  ℕ, zero, suc, ◌+◌, ◌-◌, ◌≤◌, ◌<◌, min, max, ◌≡◌, ◌≢◌, refl, sym, ap, ◌∙◌, true, false, List, [],
  ◌∷◌, Option, none, some, arith, inl, inr, ◌==◌, nat_eq, Bool-cases, length, ok, get_or, Memᴰ,
}
use mathlib.Core.List.Memᴰ
use mathlib.Core.Bool.{false≢true}
use acrossclone.Prelude.Int.{pos, negsuc}
use acrossclone.Prelude.Search.{filter, find?-IsFirst, find_last?-IsLast}
use acrossclone.Arrays.{SearchFromRight}
use acrossclone.Arrays.Laws.{find_last_unique}
use acrossclone.HubPool.{HubPool, ProposedRootBundle, ExecutedRootBundle}
use acrossclone.HubPool.Bundles.{
  is_leaf_of, get_following_root_bundle, is_root_bundle_valid, is_validated,
  get_latest_fully_executed_root_bundle, get_earliest_fully_executed_root_bundle, is_validated_from,
  block_or_zero, nth_latest, nth_earliest, get_nth_fully_executed_root_bundle,
}

length-filter_mono :
    (a low high : ℕ) (xs : List ExecutedRootBundle)
    → low ≤ high
    → length (filter (is_leaf_of a low) xs) ≤ length (filter (is_leaf_of a high) xs)
unfolding filter
length-filter_mono a low high [] p = omega arith
length-filter_mono a low high (x ∷ xs) p = ground (arith, length-filter_mono a low high xs p)

-- A leaf of the last block counts.
length-filter_lt :
    (a last : ℕ) (leaf : ExecutedRootBundle) (xs : List ExecutedRootBundle)
    → leaf.block_number ≡ last
    → a < last
    → Memᴰ leaf xs
    → length (filter (is_leaf_of a (last - 1)) xs) < length (filter (is_leaf_of a last) xs)
unfolding filter
length-filter_lt a last leaf [] e p m = absurd (Memᴰ.not-nil m)
length-filter_lt a last leaf (x ∷ xs) e p (Memᴰ.head same) =
    let block : x.block_number ≡ last = ap (λ l. l.block_number) (sym same) ∙ e in
    ground (arith, length-filter_mono a (last - 1) last xs)
length-filter_lt a last leaf (x ∷ xs) e p (Memᴰ.tail m) =
    ground (arith, length-filter_lt a last leaf xs e p m)

module _ (lodash : SearchFromRight ProposedRootBundle) (h : HubPool) where
  -- A result of the earliest search is validated and lies in the range of blocks searched.
  earliest_bounds :
      (latest start : ℕ) (b : ProposedRootBundle)
      → get_earliest_fully_executed_root_bundle lodash h latest start ≡ some b
      → (start ≤ b.block_number)
        × (b.block_number ≤ latest)
        × (is_root_bundle_valid lodash h b latest ≡ true)
  unfolding get_earliest_fully_executed_root_bundle is_validated_from
  earliest_bounds latest start b e =
      let passes =
        (find?-IsFirst (is_validated_from lodash h latest start) h.proposed_root_bundles e).3 in
      (ground arith, ground arith, ground arith)

  -- So is one of the latest search.
  latest_bounds :
      (latest : ℕ) (b : ProposedRootBundle)
      → get_latest_fully_executed_root_bundle lodash h latest ≡ some b
      → (b.block_number ≤ latest) × (is_root_bundle_valid lodash h b latest ≡ true)
  unfolding get_latest_fully_executed_root_bundle is_validated
  latest_bounds latest b e =
      let same = find_last_unique (is_validated lodash h latest) lodash h.proposed_root_bundles in
      let passes =
        (find_last?-IsLast (is_validated lodash h latest) h.proposed_root_bundles
          (sym same ∙ e)).3 in
      (ground arith, ground arith)

  nth_earliest-suc :
      (n start : ℕ) (found : Option ProposedRootBundle)
      → nth_earliest lodash h (suc (suc n)) start found
        ≡ get_earliest_fully_executed_root_bundle lodash h h.latest_block_searched (
            min
              (block_or_zero (nth_earliest lodash h (suc n) start found) + 1)
              h.latest_block_searched)
  unfolding nth_earliest
  nth_earliest-suc zero start found = refl
  nth_earliest-suc (suc n) start found =
      let b = get_earliest_fully_executed_root_bundle lodash h h.latest_block_searched start in
      nth_earliest-suc n (min (block_or_zero b + 1) h.latest_block_searched) b

  nth_latest-suc :
      (n latest : ℕ) (found : Option ProposedRootBundle)
      → nth_latest lodash h (suc (suc n)) latest found
        ≡ get_latest_fully_executed_root_bundle lodash h
            (max 0 (block_or_zero (nth_latest lodash h (suc n) latest found) - 1))
  unfolding nth_latest
  nth_latest-suc zero latest found = refl
  nth_latest-suc (suc n) latest found =
      let b = get_latest_fully_executed_root_bundle lodash h latest in
      nth_latest-suc n (max 0 (block_or_zero b - 1)) b

  -- For n at least 1 and a client that has searched some block, the (n + 1)-th earliest bundle is
  -- the earliest fully executed one from the block after the n-th, or from the latest block searched
  -- if that is less; a missing n-th bundle counts as one at block 0.
  pub get_nth_fully_executed_root_bundle-earliest :
      (n : ℕ) (start_block : Option ℕ) (found : Option ProposedRootBundle)
      → get_nth_fully_executed_root_bundle lodash h (pos (suc n)) start_block ≡ ok found
      → get_nth_fully_executed_root_bundle lodash h (pos (suc (suc n))) start_block
        ≡ ok (
            get_earliest_fully_executed_root_bundle lodash h h.latest_block_searched
              (min (block_or_zero found + 1) h.latest_block_searched))
  unfolding get_nth_fully_executed_root_bundle
  get_nth_fully_executed_root_bundle-earliest n start_block found e =
      elim (Bool-cases (h.latest_block_searched == 0)) [
        | inl none_searched ↦ absurd (ground arith)
        | inr searched ↦
            let first = get_or start_block 0 in
            let nth : nth_earliest lodash h (suc n) first none ≡ found = ground arith in
            rw (searched, get_nth_fully_executed_root_bundle)
              (ap ok (
                nth_earliest-suc n first none
                ∙ ap
                    (λ f.
                      get_earliest_fully_executed_root_bundle lodash h h.latest_block_searched
                        (min (block_or_zero f + 1) h.latest_block_searched))
                    nth))
      ]

  -- The same for a negative n: the (n + 1)-th latest bundle is the latest fully executed one up to
  -- the block before the n-th.
  pub get_nth_fully_executed_root_bundle-latest :
      (n : ℕ) (start_block : Option ℕ) (found : Option ProposedRootBundle)
      → get_nth_fully_executed_root_bundle lodash h (negsuc n) start_block ≡ ok found
      → get_nth_fully_executed_root_bundle lodash h (negsuc (suc n)) start_block
        ≡ ok (get_latest_fully_executed_root_bundle lodash h (max 0 (block_or_zero found - 1)))
  unfolding get_nth_fully_executed_root_bundle
  get_nth_fully_executed_root_bundle-latest n start_block found e =
      elim (Bool-cases (h.latest_block_searched == 0)) [
        | inl none_searched ↦ absurd (ground arith)
        | inr searched ↦
            let first = get_or start_block h.latest_block_searched in
            let nth : nth_latest lodash h (suc n) first none ≡ found = ground arith in
            rw (searched, get_nth_fully_executed_root_bundle)
              (ap ok (
                nth_latest-suc n first none
                ∙ ap
                    (λ f.
                      get_latest_fully_executed_root_bundle lodash h (max 0 (block_or_zero f - 1)))
                    nth))
      ]

  -- A search past the last bundle starts over: where the n-th earliest bundle is missing and the
  -- client has a fully executed bundle from block 1 on, the (n + 1)-th is the first such bundle.
  pub get_nth_fully_executed_root_bundle-wraps :
      (n : ℕ) (start_block : Option ℕ) (first : ProposedRootBundle)
      → 0 < h.latest_block_searched
      → get_nth_fully_executed_root_bundle lodash h (pos (suc n)) start_block ≡ ok none
      → get_earliest_fully_executed_root_bundle lodash h h.latest_block_searched 1 ≡ some first
      → get_nth_fully_executed_root_bundle lodash h (pos (suc (suc n))) start_block
        ≡ ok (some first)
  get_nth_fully_executed_root_bundle-wraps n start_block first p e f =
      let one : min (0 + 1) h.latest_block_searched ≡ 1 = omega arith in
      get_nth_fully_executed_root_bundle-earliest n start_block none e
      ∙ ap ok
          (ap (get_earliest_fully_executed_root_bundle lodash h h.latest_block_searched) one ∙ f)

  -- Where the n-th earliest bundle is proposed below the latest block searched, the (n + 1)-th is
  -- proposed in a later block.
  pub get_nth_fully_executed_root_bundle_increasing :
      (n : ℕ) (start_block : Option ℕ) (b c : ProposedRootBundle)
      → get_nth_fully_executed_root_bundle lodash h (pos (suc n)) start_block ≡ ok (some b)
      → get_nth_fully_executed_root_bundle lodash h (pos (suc (suc n))) start_block ≡ ok (some c)
      → b.block_number < h.latest_block_searched
      → b.block_number < c.block_number
  get_nth_fully_executed_root_bundle_increasing n start_block b c e f p =
      let found =
        earliest_bounds h.latest_block_searched (min (b.block_number + 1) h.latest_block_searched) c
          (cc (sym (get_nth_fully_executed_root_bundle-earliest n start_block (some b) e) ∙ f)) in
      omega (arith, found.0)

  -- Where the n-th latest bundle is proposed after block 0, the (n + 1)-th is proposed in an earlier
  -- block.
  pub get_nth_fully_executed_root_bundle_decreasing :
      (n : ℕ) (start_block : Option ℕ) (b c : ProposedRootBundle)
      → get_nth_fully_executed_root_bundle lodash h (negsuc n) start_block ≡ ok (some b)
      → get_nth_fully_executed_root_bundle lodash h (negsuc (suc n)) start_block ≡ ok (some c)
      → 0 < b.block_number
      → c.block_number < b.block_number
  get_nth_fully_executed_root_bundle_decreasing n start_block b c e f p =
      let found =
        latest_bounds (max 0 (b.block_number - 1)) c
          (cc (sym (get_nth_fully_executed_root_bundle-latest n start_block (some b) e) ∙ f)) in
      omega (arith, found.0)

  -- A bundle that is fully executed at `latest`, one of whose leaves was executed in the block of
  -- the next proposal, is not fully executed up to the block before that.
  is_root_bundle_valid_before_next :
      (latest : ℕ) (b next : ProposedRootBundle) (leaf : ExecutedRootBundle)
      → get_following_root_bundle lodash h b ≡ some next
      → next.block_number ≤ latest
      → b.block_number < next.block_number
      → Memᴰ leaf h.executed_root_bundles
      → leaf.block_number ≡ next.block_number
      → is_root_bundle_valid lodash h b latest ≡ true
      → is_root_bundle_valid lodash h b (next.block_number - 1) ≡ false
  unfolding is_root_bundle_valid
  is_root_bundle_valid_before_next latest b next leaf follows p q m e valid =
      let last = next.block_number in
      let now : min last latest ≡ last = omega arith in
      let before : min last (last - 1) ≡ last - 1 = omega arith in
      let all = rw (follows, now) at valid in
      let less = length-filter_lt b.block_number last leaf h.executed_root_bundles e q m in
      rw (follows, before) (ground arith)

  get_nth_fully_executed_root_bundle-first :
      (latest : ℕ) (next : ProposedRootBundle)
      → 0 < h.latest_block_searched
      → get_latest_fully_executed_root_bundle lodash h latest ≡ some next
      → get_nth_fully_executed_root_bundle lodash h (negsuc 0) (some latest) ≡ ok (some next)
  unfolding get_nth_fully_executed_root_bundle
  get_nth_fully_executed_root_bundle-first latest next s found = ground arith

  -- The walk back skips it: where the latest fully executed bundle at `latest` is `next`, the second
  -- latest is not the bundle `b` before it, though `b` is fully executed at `latest`, if one of b's
  -- leaves was executed in the block of the proposal of `next`.
  pub get_nth_fully_executed_root_bundle-skips :
      (latest : ℕ) (b next : ProposedRootBundle) (leaf : ExecutedRootBundle)
      → 0 < h.latest_block_searched
      → get_latest_fully_executed_root_bundle lodash h latest ≡ some next
      → get_following_root_bundle lodash h b ≡ some next
      → b.block_number < next.block_number
      → Memᴰ leaf h.executed_root_bundles
      → leaf.block_number ≡ next.block_number
      → is_root_bundle_valid lodash h b latest ≡ true
      → get_nth_fully_executed_root_bundle lodash h (negsuc 1) (some latest) ≢ ok (some b)
  get_nth_fully_executed_root_bundle-skips latest b next leaf s found follows q m e valid claim =
      let bound = latest_bounds latest next found in
      let invalid =
        is_root_bundle_valid_before_next latest b next leaf follows bound.0 q m e valid in
      let low : max 0 (next.block_number - 1) ≡ next.block_number - 1 = omega arith in
      let first = get_nth_fully_executed_root_bundle-first latest next s found in
      let second = get_nth_fully_executed_root_bundle-latest 0 (some latest) (some next) first in
      let reached : get_latest_fully_executed_root_bundle lodash h (next.block_number - 1)
          ≡ some b =
        ap (get_latest_fully_executed_root_bundle lodash h) (sym low) ∙ cc (sym second ∙ claim) in
      false≢true (sym invalid ∙ (latest_bounds (next.block_number - 1) b reached).1)
