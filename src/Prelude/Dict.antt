-- ===== src/Prelude/Dict.antt =====
-- Objects used as maps: entries in the order of insertion, keys by an instance of `Eq`.
use acrossclone.Prelude.{
  ◌≡◌, refl, ap, false, List, [], ◌∷◌, map, Option, none, some, Eq, ◌==◌, if◌then◌else◌, Bool-cases,
  inl, inr,
}

abbrev pub Dict {ℓ κ} : Type κ → Type ℓ → Type (ℓ ⊔ κ)
Dict K V = List (K × V)

module _ {ℓ κ} {K : Type κ} {V : Type ℓ} where
  -- `Object.keys(d)` and `Object.values(d)`
  abbrev pub keys : Dict K V → List K
  keys = map λ e. e.0

  abbrev pub values : Dict K V → List V
  values = map λ e. e.1

module _ {ℓ κ} {K : Type κ} {V : Type ℓ} ⦃q : Eq K⦄ where
  -- `d[k]`
  unfoldable pub lookup : K → Dict K V → Option V
  lookup k [] = none
  lookup k ((j, v) ∷ d) = if j == k then some v else lookup k d

  -- `d[k] = f(d[k])`: a new key goes to the end.
  unfoldable pub alter : K → (Option V → V) → Dict K V → Dict K V
  alter k f [] = (k, f none) ∷ []
  alter k f ((j, v) ∷ d) = if j == k then (j, f (some v)) ∷ d else (j, v) ∷ alter k f d

  -- `d[k] = v`
  abbrev pub insert : K → V → Dict K V → Dict K V
  insert k v = alter k λ _. v

  pub lookup-alter_self :
      (k : K) (f : Option V → V) (d : Dict K V) → lookup k (alter k f d) ≡ some (f (lookup k d))
  unfolding lookup alter
  lookup-alter_self k f [] = rw ((q.same_iff k k).1 refl)
  lookup-alter_self k f ((j, v) ∷ d) = elim (Bool-cases (j == k)) [
    | inl hit ↦ rw (hit, hit)
    | inr miss ↦ rw (miss, miss) (lookup-alter_self k f d)
  ]

  pub lookup-alter_ne :
      (j k : K) (f : Option V → V) (d : Dict K V)
      → (k == j) ≡ false
      → lookup j (alter k f d) ≡ lookup j d
  unfolding lookup alter
  lookup-alter_ne j k f [] h = rw h
  lookup-alter_ne j k f ((i, v) ∷ d) h = elim (Bool-cases (i == k)) [
    | inl hit ↦
        let same : i ≡ k = (q.same_iff i k).0 hit in
        let other : (i == j) ≡ false = rw same h in rw (hit, other)
    | inr miss ↦ rw miss (ap (λ r. if i == j then some v else r) (lookup-alter_ne j k f d h))
  ]
