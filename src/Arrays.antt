-- ===== src/Arrays.antt =====
-- utils/ArrayUtils.ts: the loops of that file, and lodash's searches from the right as an interface
-- which they fill.
pub mod Laws
mod Tests
use acrossclone.Prelude.{
  ℕ, zero, suc, ◌+◌, ◌-◌, ◌≤◌, ◌<◌, ◌≡◌, refl, sym, ap, ◌∙◌, Bool, true, false, List, [], ◌∷◌, ◌++◌,
  Option, none, some, arith, if◌then◌else◌, Bool-cases, Option-cases, inl, inr, length, get_elem?,
  take, drop, All, Eq,
}
use acrossclone.Prelude.Search.{includes}

module _ {ℓ} {A : Type ℓ} ⦃e : Eq A⦄ where
  -- `Array.from(new Set(array))`: `seen` has the values that came before.
  unfoldable pub dedup_after : (seen : List A) → List A → List A
  unfolding includes
  dedup_after seen [] = []
  dedup_after seen (x ∷ xs) =
      let skip = dedup_after seen xs in
      let keep = dedup_after (x ∷ seen) xs in if includes seen x then skip else x ∷ keep

  unfoldable pub dedup_array : List A → List A
  unfolding dedup_after
  dedup_array xs = dedup_after [] xs

module _ {ℓ} {A : Type ℓ} where
  -- `index >= 0 ? xs[index] : undefined`
  abbrev pub at_index : List A → Option ℕ → Option A
  at_index xs none = none
  at_index xs (some i) = get_elem? xs i

  -- The `for` loop of `findLastIndex`, with `n` elements left to look at; `none` for -1.
  unfoldable pub find_last_index_below : (A → Bool) → List A → ℕ → Option ℕ
  find_last_index_below p xs zero = none
  find_last_index_below p xs (suc i) =
      let earlier = find_last_index_below p xs i in
      elim (get_elem? xs i) [ none ↦ earlier | some x ↦ if p x then some i else earlier ]

  unfoldable pub find_last_index : (A → Bool) → List A → Option ℕ
  unfolding find_last_index_below
  find_last_index p xs = find_last_index_below p xs (length xs)

  unfoldable pub find_last : (A → Bool) → List A → Option A
  unfolding find_last_index
  find_last p xs = at_index xs (find_last_index p xs)

  -- The `for` loop of `chunk`, on what is left of the array; `fuel` bounds the rounds.
  chunk_from : ℕ → List A → ℕ → List (List A)
  chunk_from zero xs size = []
  chunk_from (suc fuel) [] size = []
  chunk_from (suc fuel) (x ∷ xs) size =
      take size (x ∷ xs) ∷ chunk_from fuel (drop size (x ∷ xs)) size

  -- A chunk size of 0 makes the loop endless: `none`.
  unfoldable pub chunk : List A → ℕ → Option (List (List A))
  unfolding chunk_from
  chunk xs zero = elim xs [ [] ↦ some [] | _ ∷ _ ↦ none ]
  chunk xs (suc n) = some (chunk_from (length xs) xs (suc n))

-- What index a search from the right stops at.
abbrev pub IsLastIndex {ℓ} : {A : Type ℓ} → (A → Bool) → List A → ℕ → Type ℓ
IsLastIndex {A = A} p xs i =
    (x : A) × (get_elem? xs i ≡ some x)
    × (p x ≡ true)
    × ((j : ℕ) (y : A) → i < j → get_elem? xs j ≡ some y → p y ≡ false)

-- lodash's `_.findLastIndex` and `_.findLast`, as documented.
pub record SearchFromRight (A : Type 0) : Type 0 where
  pub find_last_index : (A → Bool) → List A → Option ℕ
  pub find_last : (A → Bool) → List A → Option A
  pub find_last_index_some :
      (p : A → Bool) (xs : List A) (i : ℕ) → find_last_index p xs ≡ some i → IsLastIndex p xs i
  pub find_last_index_none :
      (p : A → Bool) (xs : List A) → find_last_index p xs ≡ none → All (λ x. p x ≡ false) xs
  pub find_last_eq :
      (p : A → Bool) (xs : List A) → find_last p xs ≡ at_index xs (find_last_index p xs)
