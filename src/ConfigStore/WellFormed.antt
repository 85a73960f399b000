-- ===== src/ConfigStore/WellFormed.antt =====
-- What a config store client's lists satisfy however its updates go: the chain id indices only grow,
-- the versions go up, and chain 1 is never disabled.
use acrossclone.Prelude.{
  ℕ, zero, suc, ◌+◌, ◌≤◌, ◌≡◌, refl, ap, ◌∙◌, subst, true, false, List, [], ◌∷◌, ◌++◌, none, some,
  nat_eq, get_or, ◌==◌, if◌then◌else◌, inl, inr, length, get_elem?, drop, get_last?, All, arith,
  Bool-cases, Option-cases,
}
use acrossclone.Prelude.Int.{ℤ, pos, leb_ℤ, int_eq}
use acrossclone.Prelude.Search.{includes}
use acrossclone.Arrays.{dedup_after, dedup_array}
use acrossclone.Json.{Numeral, not_a_number, integer, fraction, Json, positive_integers}
use acrossclone.ConfigStore.{
  ConfigStore, GlobalConfigUpdate, TimedConfigUpdate, DisabledChainsUpdate,
}
use acrossclone.ConfigStore.Queries.{protocol_default_chain_id_indices, value_of}
use acrossclone.ConfigStore.Chains.{is_disabled_chain, filter_disabled_chains}
use acrossclone.ConfigStore.Loops.{
  is_kept_from, has_duplicates, checked_chain_indices, previous_indices, last_version,
}

-- The second array is the first with elements appended.
abbrev pub IsPrefix : List ℕ → List ℕ → Type 0
IsPrefix xs ys = (rest : List ℕ) × (ys ≡ xs ++ rest)

abbrev pub IsUnique : List ℕ → Type 0
IsUnique [] = Unit
IsUnique (x ∷ xs) = (includes xs x ≡ false) × IsUnique xs

-- The chain ids of a store that has seen no update of its indices.
abbrev pub implicit_indices : (chain_id : ℕ) → List ℕ
implicit_indices chain_id =
    if 1 == chain_id then protocol_default_chain_id_indices else chain_id ∷ []

-- Each update's array extends the one before and has no duplicates.
abbrev pub IsGrowing : (previous : List ℕ) → List (GlobalConfigUpdate (List ℕ)) → Type 0
IsGrowing previous [] = Unit
IsGrowing previous (u ∷ us) = IsPrefix previous u.value × IsUnique u.value × IsGrowing u.value us

-- Each version is above all that stand behind it, and above 0.
abbrev pub IsFalling : List (TimedConfigUpdate ℤ) → Type 0
IsFalling [] = Unit
IsFalling (u ∷ us) = (leb_ℤ u.value (last_version us) ≡ false) × IsFalling us

abbrev pub SparesMainnet : DisabledChainsUpdate → Type 0
SparesMainnet u = includes u.chain_ids (pos 1) ≡ false

pub record IsWellFormed (chain_id : ℕ) (s : ConfigStore) : Type 0 where
  pub chain : (id : ℕ) → s.chain_id ≡ some id → id ≡ chain_id
  pub indices : IsGrowing (implicit_indices chain_id) s.chain_id_indices_updates
  pub lite : All (λ (u : TimedConfigUpdate (List ℕ)). IsUnique u.value) s.lite_chain_indices_updates
  pub versions : IsFalling s.cumulative_config_store_version_updates
  pub disabled : All SparesMainnet s.cumulative_disabled_chain_updates

dedup_after-length : (seen xs : List ℕ) → length (dedup_after seen xs) ≤ length xs
unfolding dedup_after
dedup_after-length seen [] = omega arith
dedup_after-length seen (x ∷ xs) =
    let skip = dedup_after-length seen xs in
    let keep = dedup_after-length (x ∷ seen) xs in
    elim (Bool-cases (includes seen x)) [
      | inl hit ↦ rw hit (omega arith)
      | inr miss ↦ rw miss (omega arith)
    ]

dedup_after-IsUnique :
    (seen xs : List ℕ)
    → length (dedup_after seen xs) ≡ length xs
    → IsUnique xs × ((y : ℕ) → includes seen y ≡ true → includes xs y ≡ false)
unfolding dedup_after includes
dedup_after-IsUnique seen [] e = (tt, λ y h. refl)
dedup_after-IsUnique seen (x ∷ xs) e =
    let keep = dedup_after-IsUnique (x ∷ seen) xs in
    elim (Bool-cases (includes seen x)) [
      | inl hit ↦
          let short = dedup_after-length seen xs in
          let same : length (dedup_after seen xs) ≡ suc (length xs) = rw hit at e in
          absurd (omega arith)
      | inr miss ↦
          let same : suc (length (dedup_after (x ∷ seen) xs)) ≡ suc (length xs) = rw miss at e in
          let (unique, apart) = keep (omega arith) in
          let here : includes xs x ≡ false = apart x (rw (nat_eq.same_iff x x).1 refl) in
          ((here, unique), λ y h. ground (arith, apart y, nat_eq.same_iff x y))
    ]

has_duplicates-IsUnique : (xs : List ℕ) → has_duplicates xs ≡ false → IsUnique xs
unfolding has_duplicates dedup_array
has_duplicates-IsUnique xs e = (dedup_after-IsUnique [] xs (ground arith)).0

pub checked_chain_indices-IsUnique :
    (json : Json) {xs : List ℕ} → checked_chain_indices json ≡ some xs → IsUnique xs
unfolding checked_chain_indices
checked_chain_indices-IsUnique json {xs} e = elim (Option-cases (positive_integers json)) [
  | inl missing ↦ let clash : none ≡ some xs = rw (checked_chain_indices, missing) at e in cc
  | inr (ys, found) ↦ elim (Bool-cases (has_duplicates ys)) [
    | inl twice ↦ let clash : none ≡ some xs = rw (checked_chain_indices, found, twice) at e in cc
    | inr once ↦
        let same : some ys ≡ some xs = rw (checked_chain_indices, found, once) at e in
        let is : ys ≡ xs = cc in subst IsUnique is (has_duplicates-IsUnique ys once)
  ]
]

drop-get_elem? :
    (idx x : ℕ) (xs : List ℕ) → get_elem? xs idx ≡ some x → drop idx xs ≡ x ∷ drop (idx + 1) xs
drop-get_elem? idx x [] e = cc
drop-get_elem? zero x (y ∷ ys) e = ground arith
drop-get_elem? (suc idx) x (y ∷ ys) e =
    let shift : suc idx + 1 ≡ suc (idx + 1) = omega arith in rw shift (drop-get_elem? idx x ys e)

pub is_kept_from-IsPrefix :
    (idx : ℕ) (previous xs : List ℕ)
    → is_kept_from idx previous xs ≡ true
    → IsPrefix previous (drop idx xs)
unfolding is_kept_from
is_kept_from-IsPrefix idx [] xs e = (drop idx xs, refl)
is_kept_from-IsPrefix idx (x ∷ previous) xs e = elim (Option-cases (get_elem? xs idx)) [
  | inl missing ↦ absurd (ground arith)
  | inr (y, found) ↦
      let same : y ≡ x = ground arith in
      let kept : is_kept_from (idx + 1) previous xs ≡ true = ground arith in
      let (rest, tail) = is_kept_from-IsPrefix (idx + 1) previous xs kept in
      (rest, drop-get_elem? idx x xs (found ∙ ap some same) ∙ ap (◌∷◌ x) tail)
]

abbrev last_indices : List ℕ → List (GlobalConfigUpdate (List ℕ)) → List ℕ
last_indices previous [] = previous
last_indices previous (u ∷ us) = last_indices u.value us

get_last?-cons {ℓ} : {A : Type ℓ} (x : A) (xs : List A) → (y : A) × (get_last? (x ∷ xs) ≡ some y)
get_last?-cons x [] = (x, refl)
get_last?-cons x (y ∷ ys) = get_last?-cons y ys

value_of-get_last? :
    (previous : List ℕ) (us : List (GlobalConfigUpdate (List ℕ)))
    → get_or (value_of (get_last? us)) previous ≡ last_indices previous us
value_of-get_last? previous [] = refl
value_of-get_last? previous (u ∷ []) = refl
value_of-get_last? previous (u ∷ v ∷ us) =
    let (w, e) = get_last?-cons v us in
    let rest = value_of-get_last? u.value (v ∷ us) in rw e (rw e at rest)

pub previous_indices-last :
    (chain_id : ℕ) (s : ConfigStore)
    → previous_indices chain_id s
      ≡ last_indices (implicit_indices chain_id) s.chain_id_indices_updates
unfolding previous_indices
previous_indices-last chain_id s =
    let rest = value_of-get_last? (implicit_indices chain_id) s.chain_id_indices_updates in
    elim (Option-cases (value_of (get_last? s.chain_id_indices_updates))) [
      | inl e ↦ rw (previous_indices, e) (rw e at rest)
      | inr (xs, e) ↦ rw (previous_indices, e) (rw e at rest)
    ]

pub IsGrowing-append :
    (previous : List ℕ) (us : List (GlobalConfigUpdate (List ℕ))) (u : GlobalConfigUpdate (List ℕ))
    → IsGrowing previous us
    → IsPrefix (last_indices previous us) u.value
    → IsUnique u.value
    → IsGrowing previous (us ++ u ∷ [])
IsGrowing-append previous [] u g p q = (p, q, tt)
IsGrowing-append previous (v ∷ us) u (first, once, g) p q =
    (first, once, IsGrowing-append v.value us u g p q)

pub filter_disabled_chains-SparesMainnet :
    (xs : List Numeral) → includes (filter_disabled_chains xs) (pos 1) ≡ false
unfolding filter_disabled_chains is_disabled_chain includes
filter_disabled_chains-SparesMainnet [] = refl
filter_disabled_chains-SparesMainnet (not_a_number ∷ xs) = filter_disabled_chains-SparesMainnet xs
filter_disabled_chains-SparesMainnet (fraction t ∷ xs) = filter_disabled_chains-SparesMainnet xs
filter_disabled_chains-SparesMainnet (integer n ∷ xs) =
    ground (arith, filter_disabled_chains-SparesMainnet xs, int_eq.same_iff n (pos 1))
