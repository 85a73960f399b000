-- ===== src/Prelude/Search.antt =====
-- Array searches with Boolean tests, and what they find.
use Prim.Native.Nat.{ℕ, zero, suc, ◌+◌}
use mathlib.Core.Path.{◌≡◌, refl, subst, sym, ap, ◌∙◌}
use mathlib.Core.Logic.{inl, inr}
use mathlib.Core.Bool.{Bool, true, false, ◌&&◌, ◌||◌}
use mathlib.Core.Option.{Option, none, some}
use mathlib.Core.List.{List, [], ◌∷◌, ◌++◌, Memᴰ}
use mathlib.Core.List.{append-nil}
use mathlib.Core.List.Memᴰ
use native.Mathlib.Omega.{arith}
use acrossclone.Prelude.Tests.{if◌then◌else◌, Bool-cases, Option-cases, Eq, ◌==◌}
use acrossclone.Prelude.Lists.{get_elem?, All}

module _ {ℓ} {A : Type ℓ} where
  -- `xs.filter(p)`
  unfoldable pub filter : (A → Bool) → List A → List A
  filter p [] = []
  filter p (x ∷ xs) = if p x then x ∷ filter p xs else filter p xs

  -- `xs.find(p)`
  unfoldable pub find? : (A → Bool) → List A → Option A
  find? p [] = none
  find? p (x ∷ xs) = if p x then some x else find? p xs

  -- The last element that passes.
  unfoldable pub find_last? : (A → Bool) → List A → Option A
  find_last? p [] = none
  find_last? p (x ∷ xs) = elim (find_last? p xs) [
    | some y ↦ some y
    | none ↦ if p x then some x else none
  ]

  -- Its index.
  unfoldable pub find_last_index? : (A → Bool) → List A → Option ℕ
  find_last_index? p [] = none
  find_last_index? p (x ∷ xs) = elim (find_last_index? p xs) [
    | some i ↦ some (i + 1)
    | none ↦ if p x then some 0 else none
  ]

  -- `xs.every(p)`
  unfoldable pub every : (A → Bool) → List A → Bool
  every p [] = true
  every p (x ∷ xs) = p x && every p xs

  -- `xs.some(p)`
  unfoldable pub any : (A → Bool) → List A → Bool
  any p [] = false
  any p (x ∷ xs) = p x || any p xs

  pub find?-mem :
      (p : A → Bool) (xs : List A) {x : A} → find? p xs ≡ some x → Memᴰ x xs × (p x ≡ true)
  unfolding find?
  find?-mem p [] e = cc
  find?-mem p (y ∷ xs) {x} e = elim (Bool-cases (p y)) [
    | inl hit ↦
        let same : y ≡ x = ground arith in (Memᴰ.head (sym same), subst (λ z. p z ≡ true) same hit)
    | inr miss ↦ let rest = find?-mem p xs (ground arith) in (Memᴰ.tail rest.0, rest.1)
  ]

  pub find?-none :
      (p : A → Bool) (xs : List A) → find? p xs ≡ none → (x : A) → Memᴰ x xs → p x ≡ false
  unfolding find?
  find?-none p [] e x m = absurd (Memᴰ.not-nil m)
  find?-none p (y ∷ xs) e x (Memᴰ.head same) = rw same (ground arith)
  find?-none p (y ∷ xs) e x (Memᴰ.tail m) = find?-none p xs (ground arith) x m

  pub filter-mem :
      (p : A → Bool) (xs : List A) {x : A} → Memᴰ x (filter p xs) → Memᴰ x xs × (p x ≡ true)
  unfolding filter
  filter-mem p [] m = absurd (Memᴰ.not-nil m)
  filter-mem p (y ∷ xs) {x} m = elim (Bool-cases (p y)) [
    | inl hit ↦ hits hit (filter-mem p xs) (rw hit at m)
    | inr miss ↦ let rest = filter-mem p xs (rw miss at m) in (Memᴰ.tail rest.0, rest.1)
  ]
    where
      hits :
          p y ≡ true
          → (Memᴰ x (filter p xs) → Memᴰ x xs × (p x ≡ true))
          → Memᴰ x (y ∷ filter p xs)
          → Memᴰ x (y ∷ xs) × (p x ≡ true)
      hits hit rest (Memᴰ.head same) = (Memᴰ.head same, rw same hit)
      hits hit rest (Memᴰ.tail k) = (Memᴰ.tail (rest k).0, (rest k).1)

  pub mem-filter :
      (p : A → Bool) (xs : List A) {x : A} → Memᴰ x xs → p x ≡ true → Memᴰ x (filter p xs)
  unfolding filter
  mem-filter p [] m e = absurd (Memᴰ.not-nil m)
  mem-filter p (y ∷ xs) {x} (Memᴰ.head same) e =
      let hit : p y ≡ true = rw (sym same) e in rw hit (Memᴰ.head same)
  mem-filter p (y ∷ xs) (Memᴰ.tail m) e =
      let rest = mem-filter p xs m e in
      elim (Bool-cases (p y)) [ inl hit ↦ rw hit (Memᴰ.tail rest) | inr miss ↦ rw miss rest ]

  -- Where a search from the right stops: `x` passes, and nothing after it does.
  abbrev pub IsLast : (A → Bool) → List A → A → Type ℓ
  IsLast p xs x =
      (before : List A) × (after : List A) × (xs ≡ before ++ x ∷ after)
      × (p x ≡ true)
      × All (λ y. p y ≡ false) after

  -- Where a search from the left stops: `x` passes, and nothing before it does.
  abbrev pub IsFirst : (A → Bool) → List A → A → Type ℓ
  IsFirst p xs x =
      (before : List A) × (after : List A) × (xs ≡ before ++ x ∷ after)
      × (p x ≡ true)
      × All (λ y. p y ≡ false) before

  pub find_last?-none :
      (p : A → Bool) (xs : List A) → find_last? p xs ≡ none → All (λ y. p y ≡ false) xs
  unfolding find_last?
  find_last?-none p [] e = tt
  find_last?-none p (x ∷ xs) e =
      let rest = find_last?-none p xs in
      elim (Option-cases (find_last? p xs)) [
        | inl missing ↦ (ground arith, rest missing)
        | inr (y, found) ↦ absurd (ground arith)
      ]

  pub find_last?-IsLast :
      (p : A → Bool) (xs : List A) {x : A} → find_last? p xs ≡ some x → IsLast p xs x
  unfolding find_last?
  find_last?-IsLast p [] e = cc
  find_last?-IsLast p (y ∷ xs) {x} e =
      let rest = find_last?-IsLast p xs {x = x} in
      elim (Option-cases (find_last? p xs)) [
        | inl missing ↦
            let same : y ≡ x = ground arith in
            let hit : p y ≡ true = ground arith in
            ([], xs, rw same, rw (sym same) hit, find_last?-none p xs missing)
        | inr (z, found) ↦
            let last = rest (found ∙ ground arith) in
            (y ∷ last.0, last.1, ap (◌∷◌ y) last.2, last.3, last.4)
      ]

  pub find?-IsFirst : (p : A → Bool) (xs : List A) {x : A} → find? p xs ≡ some x → IsFirst p xs x
  unfolding find?
  find?-IsFirst p [] e = cc
  find?-IsFirst p (y ∷ xs) {x} e =
      let rest = find?-IsFirst p xs {x = x} in
      elim (Bool-cases (p y)) [
        | inl hit ↦ let same : y ≡ x = ground arith in ([], xs, rw same, rw (sym same) hit, tt)
        | inr miss ↦
            let first = rest (ground arith) in
            (y ∷ first.0, first.1, ap (◌∷◌ y) first.2, first.3, (miss, first.4))
      ]

  pub All-mem {κ} : (P : A → Type κ) (xs : List A) {x : A} → All P xs → Memᴰ x xs → P x
  All-mem P [] h m = absurd (Memᴰ.not-nil m)
  All-mem P (y ∷ xs) h (Memᴰ.head same) = subst P (sym same) h.0
  All-mem P (y ∷ xs) h (Memᴰ.tail m) = All-mem P xs h.1 m

  pub All-map {κ μ} :
      {P : A → Type κ} {Q : A → Type μ}
      → ((x : A) → P x → Q x)
      → (xs : List A) → All P xs
      → All Q xs
  All-map f [] h = tt
  All-map f (x ∷ xs) h = (f x h.0, All-map f xs h.1)

  pub mem-get_elem? : (xs : List A) (i : ℕ) {x : A} → get_elem? xs i ≡ some x → Memᴰ x xs
  mem-get_elem? [] i e = cc
  mem-get_elem? (y ∷ xs) zero e = Memᴰ.head (ground arith)
  mem-get_elem? (y ∷ xs) (suc i) e = Memᴰ.tail (mem-get_elem? xs i e)

module _ {ℓ} {A : Type ℓ} ⦃e : Eq A⦄ where
  -- `xs.includes(x)`
  unfoldable pub includes : List A → A → Bool
  includes [] x = false
  includes (y ∷ ys) x = y == x || includes ys x

  -- `xs.indexOf(x)`, `none` for -1
  unfoldable pub index_of : List A → A → Option ℕ
  index_of [] x = none
  index_of (y ∷ ys) x = elim (y == x) [
    | true ↦ some 0
    | false ↦ elim (index_of ys x) [ none ↦ none | some i ↦ some (i + 1) ]
  ]

  pub includes-mem : (xs : List A) (x : A) → includes xs x ≡ true → Memᴰ x xs
  unfolding includes
  includes-mem [] x h = cc
  includes-mem (y ∷ ys) x h =
      let rest = includes-mem ys x in
      elim (Bool-cases (y == x)) [
        | inl hit ↦ Memᴰ.head (sym ((e.same_iff y x).0 hit))
        | inr miss ↦ Memᴰ.tail (rest (rw miss at h))
      ]

  pub mem-includes : (xs : List A) (x : A) → Memᴰ x xs → includes xs x ≡ true
  unfolding includes
  mem-includes [] x m = absurd (Memᴰ.not-nil m)
  mem-includes (y ∷ ys) x (Memᴰ.head same) = rw ((e.same_iff y x).1 (sym same))
  mem-includes (y ∷ ys) x (Memᴰ.tail m) = ground (arith, mem-includes ys x m)

  -- `indexOf` finds the first position that holds `x`.
  pub index_of-get_elem? :
      (xs : List A) (x : A) {i : ℕ} → index_of xs x ≡ some i → get_elem? xs i ≡ some x
  unfolding index_of
  index_of-get_elem? [] x h = cc
  index_of-get_elem? (y ∷ ys) x {i} h =
      let rest = λ (j : ℕ). index_of-get_elem? ys x {i = j} in
      elim (Bool-cases (y == x)) [
        | inl hit ↦
            let first : 0 ≡ i = ground arith in rw (← first) (ap some ((e.same_iff y x).0 hit))
        | inr miss ↦ elim (Option-cases (index_of ys x)) [
          | inl missing ↦ absurd (ground arith)
          | inr (j, found) ↦ let next : suc j ≡ i = ground arith in rw (← next) (rest j found)
        ]
      ]

  pub index_of-none : (xs : List A) (x : A) → index_of xs x ≡ none → includes xs x ≡ false
  unfolding index_of includes
  index_of-none [] x h = refl
  index_of-none (y ∷ ys) x h = ground (arith, index_of-none ys x)

-- Elements that do not pass are not noticed at the end of an array.
module _ {ℓ} {A : Type ℓ} (p : A → Bool) where
  pub filter-none : (ys : List A) → All (λ y. p y ≡ false) ys → filter p ys ≡ []
  unfolding filter
  filter-none [] h = refl
  filter-none (y ∷ ys) h = rw h.0 (filter-none ys h.1)

  pub filter-append : (xs ys : List A) → filter p (xs ++ ys) ≡ filter p xs ++ filter p ys
  unfolding filter
  filter-append [] ys = refl
  filter-append (x ∷ xs) ys = elim (Bool-cases (p x)) [
    | inl hit ↦ rw hit (ap (◌∷◌ x) (filter-append xs ys))
    | inr miss ↦ rw miss (filter-append xs ys)
  ]

  pub filter-append_none :
      (xs ys : List A) → All (λ y. p y ≡ false) ys → filter p (xs ++ ys) ≡ filter p xs
  filter-append_none xs ys h =
      filter-append xs ys ∙ ap (◌++◌ (filter p xs)) (filter-none ys h) ∙ append-nil (filter p xs)

  pub find_last?-none_of_All : (ys : List A) → All (λ y. p y ≡ false) ys → find_last? p ys ≡ none
  unfolding find_last?
  find_last?-none_of_All [] h = refl
  find_last?-none_of_All (y ∷ ys) h = rw (find_last?-none_of_All ys h.1, h.0)

  pub find_last?-append_none :
      (xs ys : List A) → All (λ y. p y ≡ false) ys → find_last? p (xs ++ ys) ≡ find_last? p xs
  unfolding find_last?
  find_last?-append_none [] ys h = find_last?-none_of_All ys h
  find_last?-append_none (x ∷ xs) ys h = rw (find_last?-append_none xs ys h, find_last?)

  pub find_last_index?-none_of_All :
      (ys : List A) → All (λ y. p y ≡ false) ys → find_last_index? p ys ≡ none
  unfolding find_last_index?
  find_last_index?-none_of_All [] h = refl
  find_last_index?-none_of_All (y ∷ ys) h = rw (find_last_index?-none_of_All ys h.1, h.0)

  pub find_last_index?-append_none :
      (xs ys : List A)
      → All (λ y. p y ≡ false) ys
      → find_last_index? p (xs ++ ys) ≡ find_last_index? p xs
  unfolding find_last_index?
  find_last_index?-append_none [] ys h = find_last_index?-none_of_All ys h
  find_last_index?-append_none (x ∷ xs) ys h =
      rw (find_last_index?-append_none xs ys h, find_last_index?)

  pub find?-append_none :
      (xs ys : List A) → All (λ y. p y ≡ false) ys → find? p (xs ++ ys) ≡ find? p xs
  unfolding find?
  find?-append_none [] [] h = refl
  find?-append_none [] (y ∷ ys) h = rw h.0 (find?-append_none [] ys h.1)
  find?-append_none (x ∷ xs) ys h = ap (λ r. if p x then some x else r) (find?-append_none xs ys h)
