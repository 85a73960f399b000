-- ===== src/Prelude/Sort.antt =====
-- `Array.prototype.sort` with a comparator: a stable sort, `x` before `y` where the comparator is
-- not positive.
use acrossclone.Prelude.{
  ◌≡◌, refl, sym, ap, ◌∙◌, Bool, true, false, List, [], ◌∷◌, Memᴰ, Permᴰ, inl, inr, none, some,
  arith, if◌then◌else◌, Bool-cases,
}
use acrossclone.Prelude.Int.{ℤ, pos, leb_ℤ}
use acrossclone.Prelude.Search.{filter, find?, find?-mem, find?-none}
use mathlib.Core.List.Memᴰ
use mathlib.Core.List.Permᴰ

pub mem-perm {ℓ} : {A : Type ℓ} {x : A} {xs ys : List A} → Permᴰ xs ys → Memᴰ x xs → Memᴰ x ys
mem-perm Permᴰ.nil m = m
mem-perm (Permᴰ.cons same p) (Memᴰ.head e) = Memᴰ.head (e ∙ same)
mem-perm (Permᴰ.cons same p) (Memᴰ.tail m) = Memᴰ.tail (mem-perm p m)
mem-perm (Permᴰ.swap e e') (Memᴰ.head h) = Memᴰ.tail (Memᴰ.head (h ∙ e))
mem-perm (Permᴰ.swap e e') (Memᴰ.tail (Memᴰ.head h)) = Memᴰ.head (h ∙ e')
mem-perm (Permᴰ.swap e e') (Memᴰ.tail (Memᴰ.tail m)) = Memᴰ.tail (Memᴰ.tail m)
mem-perm (Permᴰ.trans p q) m = mem-perm q (mem-perm p m)

module _ {ℓ} {A : Type ℓ} (cmp : A → A → ℤ) where
  -- The comparator leaves `x` in front of `y`.
  abbrev pub keeps : A → A → Bool
  keeps x y = leb_ℤ (cmp x y) (pos 0)

  insert_by : A → List A → List A
  insert_by x [] = x ∷ []
  insert_by x (y ∷ ys) = if keeps x y then x ∷ y ∷ ys else y ∷ insert_by x ys

  unfoldable pub sort_by : List A → List A
  unfolding insert_by
  sort_by [] = []
  sort_by (x ∷ xs) = insert_by x (sort_by xs)

  -- What `sort` wants of a comparator.
  pub record IsComparator : Type ℓ where
    pub total : (x y : A) → keeps x y ≡ false → keeps y x ≡ true
    pub trans : (x y z : A) → keeps x y ≡ true → keeps y z ≡ true → keeps x z ≡ true

  -- Every element may stand in front of all that follow it.
  abbrev pub IsSorted : List A → Type ℓ
  IsSorted [] = Unit
  IsSorted (x ∷ xs) = ((y : A) → Memᴰ y xs → keeps x y ≡ true) × IsSorted xs

  insert_by-perm : (x : A) (ys : List A) → Permᴰ (insert_by x ys) (x ∷ ys)
  unfolding insert_by
  insert_by-perm x [] = Permᴰ.refl (x ∷ [])
  insert_by-perm x (y ∷ ys) =
      let rest = insert_by-perm x ys in
      elim (Bool-cases (keeps x y)) [
        | inl hit ↦ rw hit (Permᴰ.refl (x ∷ y ∷ ys))
        | inr miss ↦ rw miss (Permᴰ.trans (Permᴰ.cons refl rest) (Permᴰ.swap refl refl))
      ]

  pub sort_by-perm : (xs : List A) → Permᴰ (sort_by xs) xs
  unfolding sort_by
  sort_by-perm [] = Permᴰ.nil
  sort_by-perm (x ∷ xs) =
      Permᴰ.trans (insert_by-perm x (sort_by xs)) (Permᴰ.cons refl (sort_by-perm xs))

  pub mem-sort_by : (xs : List A) {x : A} → Memᴰ x xs → Memᴰ x (sort_by xs)
  mem-sort_by xs m = mem-perm (Permᴰ.symm (sort_by-perm xs)) m

  insert_by-IsSorted :
      IsComparator → (x : A) (ys : List A) → IsSorted ys → IsSorted (insert_by x ys)
  unfolding insert_by
  insert_by-IsSorted c x [] s = (λ y m. absurd (Memᴰ.not-nil m), tt)
  insert_by-IsSorted c x (y ∷ ys) s =
      let rest = insert_by-IsSorted c x ys s.1 in
      elim (Bool-cases (keeps x y)) [
        | inl hit ↦ rw hit (front hit, s)
        | inr miss ↦ rw miss (behind miss, rest)
      ]
    where
      front : keeps x y ≡ true → (z : A) → Memᴰ z (y ∷ ys) → keeps x z ≡ true
      front hit z (Memᴰ.head e) = rw e hit
      front hit z (Memᴰ.tail m) = c.trans x y z hit (s.0 z m)

      within : keeps x y ≡ false → (z : A) → Memᴰ z (x ∷ ys) → keeps y z ≡ true
      within miss z (Memᴰ.head e) = rw e (c.total x y miss)
      within miss z (Memᴰ.tail m) = s.0 z m

      behind : keeps x y ≡ false → (z : A) → Memᴰ z (insert_by x ys) → keeps y z ≡ true
      behind miss z m = within miss z (mem-perm (insert_by-perm x ys) m)

  pub sort_by-IsSorted : IsComparator → (xs : List A) → IsSorted (sort_by xs)
  unfolding sort_by
  sort_by-IsSorted c [] = tt
  sort_by-IsSorted c (x ∷ xs) = insert_by-IsSorted c x (sort_by xs) (sort_by-IsSorted c xs)

  filter-insert_by :
      (p : A → Bool)
      → ((x y : A) → p x ≡ true → p y ≡ true → keeps x y ≡ true)
      → (x : A) (ys : List A) → filter p (insert_by x ys) ≡ filter p (x ∷ ys)
  unfolding filter insert_by
  filter-insert_by p alike x [] = refl
  filter-insert_by p alike x (y ∷ ys) = ground (arith, alike x y, filter-insert_by p alike x ys)

  -- Stable: elements that the comparator holds equal stay in their order.
  pub filter-sort_by :
      (p : A → Bool)
      → ((x y : A) → p x ≡ true → p y ≡ true → keeps x y ≡ true)
      → (xs : List A) → filter p (sort_by xs) ≡ filter p xs
  unfolding filter sort_by
  filter-sort_by p alike [] = refl
  filter-sort_by p alike (x ∷ xs) =
      filter-insert_by p alike x (sort_by xs)
      ∙ ap (λ r. if p x then x ∷ r else r) (filter-sort_by p alike xs)

  keeps_self : IsComparator → (x : A) → keeps x x ≡ true
  keeps_self c x = elim (Bool-cases (keeps x x)) [ inl e ↦ e | inr e ↦ c.total x x e ]

  find?-IsSorted :
      IsComparator
      → (p : A → Bool) (xs : List A) {x y : A} → IsSorted xs
      → find? p xs ≡ some x
      → Memᴰ y xs
      → p y ≡ true
      → keeps x y ≡ true
  unfolding find?
  find?-IsSorted c p [] s e m h = cc
  find?-IsSorted c p (z ∷ zs) {x} {y} s e (Memᴰ.head same) h =
      let hit : p z ≡ true = rw (sym same) h in
      let first : z ≡ x = ground arith in rw (same, ← first) (keeps_self c z)
  find?-IsSorted c p (z ∷ zs) {x} {y} s e (Memᴰ.tail m) h =
      let rest = find?-IsSorted c p zs {x = x} {y = y} s.1 in
      elim (Bool-cases (p z)) [
        | inl hit ↦ let first : z ≡ x = ground arith in rw (← first) (s.0 y m)
        | inr miss ↦ rest (rw miss at e) m h
      ]

  -- The first hit in the sorted list is a hit that goes in front of all other hits.
  pub find?-sort_by :
      IsComparator
      → (p : A → Bool) (xs : List A) {x : A} → find? p (sort_by xs) ≡ some x
      → Memᴰ x xs × (p x ≡ true) × ((y : A) → Memᴰ y xs → p y ≡ true → keeps x y ≡ true)
  find?-sort_by c p xs e =
      let hit = find?-mem p (sort_by xs) e in
      (
        mem-perm (sort_by-perm xs) hit.0,
        hit.1,
        λ y m h. find?-IsSorted c p (sort_by xs) (sort_by-IsSorted c xs) e (mem-sort_by xs m) h,
      )

  pub find?-sort_by-none :
      (p : A → Bool) (xs : List A) → find? p (sort_by xs) ≡ none → (x : A) → Memᴰ x xs → p x ≡ false
  find?-sort_by-none p xs e x m = find?-none p (sort_by xs) e x (mem-sort_by xs m)
