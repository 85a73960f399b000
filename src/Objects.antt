-- ===== src/Objects.antt =====
-- `assign` of utils/ObjectUtils.ts at the types that the clients use it at: arrays, which it appends
-- to, and texts, which it replaces, under a path of one key or two.
use acrossclone.Prelude.{
  ◌≡◌, refl, Bool, true, false, List, [], ◌++◌, Option, none, some, Eq, get_or, sym, ◌==◌, ◌&&◌,
  if◌then◌else◌, Bool-cases, inl, inr,
}
use mathlib.Core.List.{append-nil}
use acrossclone.Prelude.Dict.{Dict, alter, insert, lookup, lookup-alter_self, lookup-alter_ne}

-- What is at the path after an array has been assigned to it.
abbrev pub append_to {ℓ} : {V : Type ℓ} → List V → Option (List V) → List V
append_to value none = value
append_to value (some old) = old ++ value

module _ {ℓ κ} {K : Type κ} {V : Type ℓ} ⦃q : Eq K⦄ where
  unfoldable pub assign_array : K → List V → Dict K (List V) → Dict K (List V)
  unfolding alter
  assign_array k value = alter k (append_to value)

module _ {ℓ κ μ} {J : Type μ} {K : Type κ} {V : Type ℓ} ⦃p : Eq J⦄ ⦃q : Eq K⦄ where
  unfoldable pub assign_array_at :
      J → K → List V → Dict J (Dict K (List V)) → Dict J (Dict K (List V))
  unfolding assign_array alter
  assign_array_at j k value = alter j λ inner. assign_array k value (get_or inner [])

  unfoldable pub assign_text_at : J → K → V → Dict J (Dict K V) → Dict J (Dict K V)
  unfolding alter
  assign_text_at j k value = alter j λ inner. insert k value (get_or inner [])

-- An entry that a flag is assigned to: a Boolean, or the empty object that spreading one gives.
pub data FlagEntry : Type 0 where
  flag : Bool → FlagEntry
  empty_object : FlagEntry

-- Whether the entry counts as true in a condition.
abbrev pub is_truthy : Option FlagEntry → Bool
is_truthy none = false
is_truthy (some (flag value)) = value
is_truthy (some empty_object) = true

-- What is at the path after a flag has been assigned to it: `{ ...true, ...true }` is `{}`.
abbrev pub assign_flag : Bool → Option FlagEntry → FlagEntry
assign_flag value old = if is_truthy old && value then empty_object else flag value

module _ {ℓ κ} {J : Type ℓ} {K : Type κ} ⦃p : Eq J⦄ ⦃q : Eq K⦄ where
  unfoldable pub assign_flag_at :
      J → K → Bool → Dict J (Dict K FlagEntry) → Dict J (Dict K FlagEntry)
  unfolding alter
  assign_flag_at j k value = alter j λ inner. alter k (assign_flag value) (get_or inner [])

-- The array at a path of one key, empty if there is none.
abbrev pub array_of {ℓ κ} : {K : Type κ} {V : Type ℓ} ⦃q : Eq K⦄ → K → Dict K (List V) → List V
array_of k d = get_or (lookup k d) []

-- The array at a path of two keys.
abbrev pub array_at {ℓ κ μ} :
    {J : Type μ} {K : Type κ} {V : Type ℓ} ⦃p : Eq J⦄ ⦃q : Eq K⦄
    → J
    → K
    → Dict J (Dict K (List V))
    → List V
array_at j k d = array_of k (get_or (lookup j d) [])

append_to-get_or {ℓ} :
    {V : Type ℓ} (value : List V) (old : Option (List V))
    → append_to value old ≡ get_or old [] ++ value
append_to-get_or value none = refl
append_to-get_or value (some old) = refl

module _ {ℓ κ} {K : Type κ} {V : Type ℓ} ⦃q : Eq K⦄ where
  -- An array is appended to the one under the key, and no other key's array changes.
  pub array_of-assign_array :
      (j k : K) (value : List V) (d : Dict K (List V))
      → array_of j (assign_array k value d) ≡ array_of j d ++ (if k == j then value else [])
  unfolding assign_array lookup
  array_of-assign_array j k value d = elim (Bool-cases (k == j)) [
    | inl hit ↦
        let same : k ≡ j = (q.same_iff k j).0 hit in
        let here = lookup-alter_self k (append_to value) d in
        rw hit (rw (← same) (rw here (append_to-get_or value (lookup k d))))
    | inr miss ↦
        rw (miss, lookup-alter_ne j k (append_to value) d miss) (sym (append-nil (array_of j d)))
  ]

module _ {ℓ κ μ} {J : Type μ} {K : Type κ} {V : Type ℓ} ⦃p : Eq J⦄ ⦃q : Eq K⦄ where
  pub array_at-assign_array_at :
      (i j : J) (k l : K) (value : List V) (d : Dict J (Dict K (List V)))
      → array_at i k (assign_array_at j l value d)
        ≡ array_at i k d ++ (if j == i && l == k then value else [])
  unfolding assign_array_at lookup
  array_at-assign_array_at i j k l value d = elim (Bool-cases (j == i)) [
    | inl hit ↦
        let same : j ≡ i = (p.same_iff j i).0 hit in
        let extend = λ (inner : Option (Dict K (List V))). assign_array l value (get_or inner []) in
        let here = lookup-alter_self j extend d in
        rw hit (rw (← same) (rw here (array_of-assign_array k l value (get_or (lookup j d) []))))
    | inr miss ↦
        let extend = λ (inner : Option (Dict K (List V))). assign_array l value (get_or inner []) in
        rw (miss, lookup-alter_ne i j extend d miss) (sym (append-nil (array_at i k d)))
  ]
