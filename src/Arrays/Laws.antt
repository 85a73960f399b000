-- ===== src/Arrays/Laws.antt =====
-- What the searches from the right of utils/ArrayUtils.ts find, and that the interface leaves no
-- choice of result.
use acrossclone.Prelude.{
  ℕ, zero, suc, ◌<◌, ◌≡◌, refl, sym, ap, ◌∙◌, Bool, true, false, List, [], ◌∷◌, Option, none, some,
  arith, if◌then◌else◌, Bool-cases, ltb, Option-cases, inl, inr, length, get_elem?, All,
}
use acrossclone.Prelude.Search.{find_last?, find_last_index?}
use acrossclone.Arrays.{
  find_last_index_below, find_last_index, find_last, at_index, IsLastIndex, SearchFromRight,
}

module _ {A : Type 0} (p : A → Bool) where
  All-of_get_elem? :
      (xs : List A)
      → ((j : ℕ) (y : A) → get_elem? xs j ≡ some y → p y ≡ false)
      → All (λ x. p x ≡ false) xs
  All-of_get_elem? [] h = tt
  All-of_get_elem? (x ∷ xs) h = (h 0 x refl, All-of_get_elem? xs (λ j y e. h (suc j) y e))

  find_last_index?-none : (xs : List A) → All (λ x. p x ≡ false) xs → find_last_index? p xs ≡ none
  unfolding find_last_index?
  find_last_index?-none [] h = refl
  find_last_index?-none (x ∷ xs) h = ground (arith, find_last_index?-none xs h.1)

  find_last_index?-IsLastIndex :
      (xs : List A) (i : ℕ) → IsLastIndex p xs i → find_last_index? p xs ≡ some i
  unfolding find_last_index?
  find_last_index?-IsLastIndex [] i (x, e, h, rest) = cc
  find_last_index?-IsLastIndex (y ∷ ys) zero (x, e, h, rest) =
      let none_after =
        find_last_index?-none ys (All-of_get_elem? ys (λ j z g. rest (suc j) z (omega arith) g)) in
      ground (arith, none_after)
  find_last_index?-IsLastIndex (y ∷ ys) (suc i) (x, e, h, rest) =
      let later =
        find_last_index?-IsLastIndex ys i (x, e, h, λ j z l g. rest (suc j) z (omega arith) g) in
      ground (arith, later)

  pub find_last_index?-found :
      (xs : List A) (i : ℕ)
      → find_last_index? p xs ≡ some i
      → (x : A) × (get_elem? xs i ≡ some x) × (p x ≡ true)
  unfolding find_last_index?
  find_last_index?-found [] i e = cc
  find_last_index?-found (x ∷ xs) i e =
      let rest = λ (j : ℕ). find_last_index?-found xs j in
      elim (Option-cases (find_last_index? p xs)) [
        | inl missing ↦
            let here : 0 ≡ i = ground arith in
            let hit : p x ≡ true = ground arith in (x, rw (← here) refl, hit)
        | inr (j, found) ↦
            let (y, at, hit) = rest j found in
            let here : suc j ≡ i = ground arith in (y, rw (← here) at, hit)
      ]

  find_last?-index : (xs : List A) → find_last? p xs ≡ at_index xs (find_last_index? p xs)
  unfolding find_last? find_last_index?
  find_last?-index [] = refl
  find_last?-index (x ∷ xs) =
      let rest = find_last?-index xs in
      elim (Option-cases (find_last_index? p xs)) [
        | inl e ↦ ground (arith, rest)
        | inr (i, e) ↦ let (y, at, hit) = find_last_index?-found xs i e in ground (arith, rest, at)
      ]

  module _ (search : SearchFromRight A) where
    -- The interface determines the index.
    pub find_last_index_unique : (xs : List A) → search.find_last_index p xs ≡ find_last_index? p xs
    find_last_index_unique xs = elim (Option-cases (search.find_last_index p xs)) [
      | inl e ↦ e ∙ sym (find_last_index?-none xs (search.find_last_index_none p xs e))
      | inr (i, e) ↦
          e ∙ sym (find_last_index?-IsLastIndex xs i (search.find_last_index_some p xs i e))
    ]

    -- The interface determines the element.
    pub find_last_unique : (xs : List A) → search.find_last p xs ≡ find_last? p xs
    find_last_unique xs =
        search.find_last_eq p xs
        ∙ ap (at_index xs) (find_last_index_unique xs)
        ∙ sym (find_last?-index xs)

module _ {ℓ} {A : Type ℓ} where
  pub lt_of_get_elem? : (xs : List A) (i : ℕ) {x : A} → get_elem? xs i ≡ some x → i < length xs
  lt_of_get_elem? [] i e = cc
  lt_of_get_elem? (y ∷ ys) zero e = omega arith
  lt_of_get_elem? (y ∷ ys) (suc i) e = omega (arith, lt_of_get_elem? ys i e)

module _ {A : Type 0} (p : A → Bool) where
  below-none :
      (xs : List A) (n : ℕ)
      → find_last_index_below p xs n ≡ none
      → (j : ℕ) (y : A) → j < n
      → get_elem? xs j ≡ some y
      → p y ≡ false
  unfolding find_last_index_below
  below-none xs zero e j y l g = absurd (omega arith)
  below-none xs (suc n) e j y l g =
      let earlier = below-none xs n in
      elim (Bool-cases (ltb j n)) [
        | inl less ↦ earlier (skipped (get_elem? xs n) e) j y (ground arith) g
        | inr last ↦
            let same : n ≡ j = ground arith in
            let here : get_elem? xs n ≡ some y = rw same g in ground arith
      ]
    where
      skipped :
          (o : Option A)
          → (elim o [
            | none ↦ find_last_index_below p xs n
            | some x ↦ if p x then some n else find_last_index_below p xs n
          ])
            ≡ none
          → find_last_index_below p xs n ≡ none
      skipped none h = h
      skipped (some x) h = ground arith

  below-some :
      (xs : List A) (n i : ℕ)
      → find_last_index_below p xs n ≡ some i
      → (x : A) × (get_elem? xs i ≡ some x)
        × (p x ≡ true)
        × ((j : ℕ) (y : A) → i < j → j < n → get_elem? xs j ≡ some y → p y ≡ false)
  unfolding find_last_index_below
  below-some xs zero i e = cc
  below-some xs (suc n) i e = elim (Option-cases (get_elem? xs n)) [
    | inl outside ↦ grow (below-some xs n i (ground arith)) (λ y g. ground arith)
    | inr (x, at) ↦ elim (Bool-cases (p x)) [
      | inl hit ↦
          let here : n ≡ i = ground arith in
          (x, rw (← here) at, hit, λ j y l k g. absurd (omega arith))
      | inr miss ↦
          grow (below-some xs n i (ground arith))
            (λ y g. let same : x ≡ y = ground arith in rw (← same) miss)
    ]
  ]
    where
      grow :
          ((x : A) × (get_elem? xs i ≡ some x)
            × (p x ≡ true)
            × ((j : ℕ) (y : A) → i < j → j < n → get_elem? xs j ≡ some y → p y ≡ false))
          → ((y : A) → get_elem? xs n ≡ some y → p y ≡ false)
          → (x : A) × (get_elem? xs i ≡ some x)
            × (p x ≡ true)
            × ((j : ℕ) (y : A) → i < j → j < suc n → get_elem? xs j ≡ some y → p y ≡ false)
      grow (x, at, hit, rest) top = (
        x,
        at,
        hit,
        λ j y l k g. elim (Bool-cases (ltb j n)) [
          | inl less ↦ rest j y l (ground arith) g
          | inr last ↦ let same : j ≡ n = ground arith in top y (rw (← same) g)
        ],
      )

  -- `findLastIndex` returns the last index whose element passes, and -1 only if none does.
  pub find_last_index-IsLastIndex :
      (xs : List A)
      → ((i : ℕ) → find_last_index p xs ≡ some i → IsLastIndex p xs i)
        × (find_last_index p xs ≡ none → All (λ x. p x ≡ false) xs)
  unfolding find_last_index
  find_last_index-IsLastIndex xs = (
    λ i e.
        let (x, at, hit, rest) = below-some xs (length xs) i e in
        (x, at, hit, λ j y l g. rest j y l (lt_of_get_elem? xs j g) g),
    λ e.
        All-of_get_elem? p xs (λ j y g. below-none xs (length xs) e j y (lt_of_get_elem? xs j g) g),
  )

pub find_last_lem :
    {A : Type 0} (p : A → Bool) (xs : List A) → find_last p xs ≡ at_index xs (find_last_index p xs)
unfolding find_last
find_last_lem p xs = refl

-- `findLastIndex` and `findLast` of utils/ArrayUtils.ts fill the interface.
abbrev pub array_search : (A : Type 0) → SearchFromRight A
array_search A = record {
  find_last_index = find_last_index;
  find_last = find_last;
  find_last_index_some = λ p xs. (find_last_index-IsLastIndex p xs).0;
  find_last_index_none = λ p xs. (find_last_index-IsLastIndex p xs).1;
  find_last_eq = λ p xs. find_last_lem p xs;
}
