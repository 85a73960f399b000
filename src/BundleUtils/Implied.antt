-- ===== src/BundleUtils/Implied.antt =====
-- The ranges that a proposal implies are those that a proposer starts from.
use acrossclone.Prelude.{
  ℕ, zero, suc, ◌+◌, ◌<◌, ◌≡◌, refl, sym, ap, ◌∙◌, subst, true, false, not, List, [], ◌∷◌, Option,
  none, some, leb, ltb, nat_eq, if◌then◌else◌, Bool-cases, Option-cases, inl, inr, length,
  get_elem?, Result, ok, ◌>>=◌, >>=-eq-ok, ok-inj, arith, get_or, lt→leb_false,
}
use acrossclone.Prelude.Search.{includes, index_of, index_of-get_elem?}
use acrossclone.Arrays.{SearchFromRight}
use acrossclone.Arrays.Laws.{lt_of_get_elem?}
use acrossclone.HubPool.{HubPool, HubPoolError, ProposedRootBundle, to_number, max_safe_integer}
use acrossclone.HubPool.Bundles.{
  get_latest_fully_executed_root_bundle, get_bundle_end_block_for_chain, end_block_of, next_block,
  get_latest_bundle_end_block_for_chain, get_next_bundle_start_block_number,
}
use acrossclone.BundleUtils.{
  implied_start, is_enabled_at, implied_ranges, check_implied_range, check_implied_ranges,
  mainnet_start_block, implied_ranges_after, get_implied_bundle_block_ranges,
}

implied_ranges-cons :
    (prev : Option ProposedRootBundle) (enabled indices : List ℕ) (index b : ℕ) (bs : List ℕ)
    (ranges : List (ℕ × ℕ))
    → implied_ranges prev enabled indices index (b ∷ bs) ≡ ok ranges
    → (start : ℕ) × (end : ℕ) × (rest : List (ℕ × ℕ)) × (implied_start prev index ≡ ok start)
      × (implied_ranges prev enabled indices (index + 1) bs ≡ ok rest)
      × ((if is_enabled_at enabled indices index then start else end, end) ∷ rest ≡ ranges)
unfolding implied_ranges
implied_ranges-cons prev enabled indices index b bs ranges e =
    let (start, e1, f1) = >>=-eq-ok (implied_start prev index) _ e in
    let (end, e2, f2) = >>=-eq-ok (to_number b) _ f1 in
    let (rest, e3, f3) = >>=-eq-ok (implied_ranges prev enabled indices (index + 1) bs) _ f2 in
    (start, end, rest, e1, e3, ok-inj f3)

abbrev first_of : ℕ × ℕ → ℕ
first_of (a, b) = a

implied_ranges-get_elem? :
    (prev : Option ProposedRootBundle) (enabled indices : List ℕ) (index i : ℕ)
    (end_blocks : List ℕ) (ranges : List (ℕ × ℕ)) (start end : ℕ)
    → implied_ranges prev enabled indices index end_blocks ≡ ok ranges
    → get_elem? ranges i ≡ some (start, end)
    → is_enabled_at enabled indices (index + i) ≡ true
    → implied_start prev (index + i) ≡ ok start
unfolding implied_ranges
implied_ranges-get_elem? prev enabled indices index i [] ranges start end e at on =
    let missing : get_elem? {A = ℕ × ℕ} [] i ≡ some (start, end) =
      subst (λ l. get_elem? l i ≡ some (start, end)) (sym (ok-inj e)) at in
    cc
implied_ranges-get_elem? prev enabled indices index zero (b ∷ bs) ranges start end e at on =
    let (first, last, rest, e1, e2, same) =
      implied_ranges-cons prev enabled indices index b bs ranges e in
    let here : index + 0 ≡ index = omega arith in
    let on_here : is_enabled_at enabled indices index ≡ true =
      subst (λ k. is_enabled_at enabled indices k ≡ true) here on in
    let head : some (if is_enabled_at enabled indices index then first else last, last)
        ≡ some (start, end) =
      subst (λ l. get_elem? l 0 ≡ some (start, end)) (sym same) at in
    let starts : first ≡ start =
      ap (λ (o : Option (ℕ × ℕ)). first_of (get_or o (0, 0))) (rw on_here at head) in
    subst (λ k. implied_start prev k ≡ ok start) (sym here) (e1 ∙ ap ok starts)
implied_ranges-get_elem? prev enabled indices index (suc i) (b ∷ bs) ranges start end e at on =
    let (first, last, rest, e1, e2, same) =
      implied_ranges-cons prev enabled indices index b bs ranges e in
    let there : index + 1 + i ≡ index + suc i = omega arith in
    let tail : get_elem? rest i ≡ some (start, end) =
      subst (λ l. get_elem? l (suc i) ≡ some (start, end)) (sym same) at in
    subst (λ k. implied_start prev k ≡ ok start) there
      (implied_ranges-get_elem? prev enabled indices (index + 1) i bs rest start end e2 tail
        (subst (λ k. is_enabled_at enabled indices k ≡ true) (sym there) on))

ltb_of_lt : (block : ℕ) → 0 < block → ltb 0 block ≡ true
ltb_of_lt block p = ground arith

check_implied_ranges-get_elem? :
    (enabled indices : List ℕ) (index i : ℕ) (ranges : List (ℕ × ℕ)) (range : ℕ × ℕ)
    → check_implied_ranges enabled indices index ranges ≡ true
    → get_elem? ranges i ≡ some range
    → check_implied_range (is_enabled_at enabled indices (index + i)) range ≡ true
unfolding check_implied_ranges
check_implied_ranges-get_elem? enabled indices index i [] range e at = cc
check_implied_ranges-get_elem? enabled indices index zero (r ∷ rs) range e at =
    elim (Bool-cases (check_implied_range (is_enabled_at enabled indices index) r)) [
      | inr wrong ↦ let clash = (rw wrong at e) in cc
      | inl fine ↦
          let here : index ≡ index + 0 = omega arith in
          let same : r ≡ range = ap (λ (o : Option (ℕ × ℕ)). get_or o r) at in
          subst (λ k. check_implied_range (is_enabled_at enabled indices k) range ≡ true) here
            (subst (λ s. check_implied_range (is_enabled_at enabled indices index) s ≡ true) same
              fine)
    ]
check_implied_ranges-get_elem? enabled indices index (suc i) (r ∷ rs) range e at =
    elim (Bool-cases (check_implied_range (is_enabled_at enabled indices index) r)) [
      | inr wrong ↦ let clash = (rw wrong at e) in cc
      | inl fine ↦
          let there : index + 1 + i ≡ index + suc i = omega arith in
          subst (λ k. check_implied_range (is_enabled_at enabled indices k) range ≡ true) there
            (check_implied_ranges-get_elem? enabled indices (index + 1) i rs range (rw fine at e)
              at)
    ]

is_enabled_at_lem :
    (enabled indices : List ℕ) (chain index : ℕ)
    → get_elem? indices index ≡ some chain
    → includes enabled chain ≡ true
    → is_enabled_at enabled indices (0 + index) ≡ true
is_enabled_at_lem enabled indices chain index at on =
    let here : index ≡ 0 + index = omega arith in
    subst (λ k. is_enabled_at enabled indices k ≡ true) here (rw (is_enabled_at, at) on)

-- A bundle end block that is above 0.
abbrev pub EndsAbove0 : Option ProposedRootBundle → ℕ → Type 0
EndsAbove0 prev index =
    (p : ProposedRootBundle) (block : ℕ)
    → prev ≡ some p
    → get_elem? p.bundle_evaluation_block_numbers index ≡ some block
    → 0 < block

implied_start-next_block :
    (prev : Option ProposedRootBundle) (indices : List ℕ) (chain index start : ℕ)
    → index_of indices chain ≡ some index
    → implied_start prev index ≡ ok start
    → EndsAbove0 prev index
    → (end_block_of indices chain prev >>= λ e. ok (next_block e)) ≡ ok start
unfolding implied_start end_block_of get_bundle_end_block_for_chain
implied_start-next_block none indices chain index start found e above = e
implied_start-next_block (some prev) indices chain index start found e above =
    let blocks = prev.bundle_evaluation_block_numbers in
    elim (Option-cases (get_elem? blocks index)) [
      | inl missing ↦
          let zero_start : ok 0 ≡ ok start = (rw (implied_start, missing) at e) in
          elim (Bool-cases (leb (length blocks) index)) [
            | inl short ↦ rw (end_block_of, get_bundle_end_block_for_chain, found, short) zero_start
            | inr long ↦
                rw (end_block_of, get_bundle_end_block_for_chain, found, long, missing) zero_start
          ]
      | inr (block, at) ↦
          let long : leb (length blocks) index ≡ false =
            lt→leb_false (length blocks) index (lt_of_get_elem? blocks index at) in
          let positive : ltb 0 block ≡ true = ltb_of_lt block (above prev block refl at) in
          elim (Bool-cases (leb block max_safe_integer)) [
            | inl safe ↦
                let next : ok (block + 1) ≡ ok start = (rw (implied_start, at, safe) at e) in
                rw (end_block_of, get_bundle_end_block_for_chain, found, long, at, safe, positive)
                  next
            | inr unsafe ↦ let clash = (rw (implied_start, at, unsafe) at e) in cc
          ]
    ]

-- The range that a proposal implies for a chain that is enabled starts where the client says that
-- the chain's next bundle starts, as of the proposal's block, and ends after that, if the bundle
-- before ended above block 0 on that chain. Which chains are enabled and which index a chain has is
-- what the config store client answers.
pub get_implied_bundle_block_ranges-next :
    (lodash : SearchFromRight ProposedRootBundle) (h : HubPool)
    (enabled_chains chain_id_indices_for_block : ℕ → Result HubPoolError (List ℕ))
    (bundle : ProposedRootBundle) (indices : List ℕ) (ranges : List (ℕ × ℕ))
    (chain index start end : ℕ) (prev : Option ProposedRootBundle)
    → get_latest_fully_executed_root_bundle lodash h bundle.block_number ≡ prev
    → chain_id_indices_for_block bundle.block_number ≡ ok indices
    → get_implied_bundle_block_ranges lodash h enabled_chains chain_id_indices_for_block bundle
      ≡ ok ranges
    → index_of indices chain ≡ some index
    → get_elem? ranges index ≡ some (start, end)
    → ((b : ℕ) (enabled : List ℕ)
        → mainnet_start_block prev ≡ ok b
        → enabled_chains b ≡ ok enabled
        → includes enabled chain ≡ true)
    → EndsAbove0 prev index
    → (get_next_bundle_start_block_number lodash h indices bundle.block_number chain ≡ ok start)
      × (start < end)
unfolding get_implied_bundle_block_ranges implied_ranges_after get_next_bundle_start_block_number
    get_latest_bundle_end_block_for_chain
get_implied_bundle_block_ranges-next lodash h enabled_chains chain_id_indices_for_block bundle
      indices ranges chain index start end prev latest listed e found at switched above =
    let blocks = bundle.bundle_evaluation_block_numbers in
    let opened =
      subst (λ p. implied_ranges_after p enabled_chains (ok indices) blocks ≡ ok ranges) latest
        (subst
          (λ r.
            implied_ranges_after
              (get_latest_fully_executed_root_bundle lodash h bundle.block_number) enabled_chains r
              blocks
            ≡ ok ranges)
          listed e) in
    let (b, started, f1) = >>=-eq-ok (mainnet_start_block prev) _ opened in
    let (enabled, answered, f2) = >>=-eq-ok (enabled_chains b) _ f1 in
    let on =
      is_enabled_at_lem enabled indices chain index (index_of-get_elem? indices chain found)
        (switched b enabled started answered) in
    let (all, implied, f3) = >>=-eq-ok (implied_ranges prev enabled indices 0 blocks) _ f2 in
    elim (Bool-cases (check_implied_ranges enabled indices 0 all)) [
      | inr wrong ↦ let clash = (rw wrong at f3) in cc
      | inl fine ↦
          let here : get_elem? all index ≡ some (start, end) =
            subst (λ l. get_elem? l index ≡ some (start, end)) (sym (ok-inj (rw fine at f3))) at in
          let starts =
            implied_ranges-get_elem? prev enabled indices 0 index blocks all start end implied here
              on in
          let checked =
            check_implied_ranges-get_elem? enabled indices 0 index all (start, end) fine here in
          let here_index : 0 + index ≡ index = omega arith in
          let started_at = subst (λ k. implied_start prev k ≡ ok start) here_index starts in
          let apart : not (leb end start) ≡ true = (rw on at checked) in
          (
            subst (λ p. (end_block_of indices chain p >>= λ e. ok (next_block e)) ≡ ok start)
                (sym latest)
                (implied_start-next_block prev indices chain index start found started_at above),
            ground arith,
          )
    ]
