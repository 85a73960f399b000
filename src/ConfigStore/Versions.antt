-- ===== src/ConfigStore/Versions.antt =====
-- The version check: a client is up to date where it is at no lower version than any so far.
use acrossclone.Prelude.{
  ℕ, ◌≤◌, ◌≡◌, refl, sym, subst, Bool, true, false, List, [], ◌∷◌, ◌↔◌, ◌⊎◌, inl, inr, arith,
  Bool-cases, Memᴰ,
}
use mathlib.Core.List.Memᴰ
use acrossclone.Prelude.Int.{ℤ, pos, leb_ℤ}
use acrossclone.Prelude.Search.{find?}
use acrossclone.ConfigStore.{ConfigStore, TimedConfigUpdate}
use acrossclone.ConfigStore.Queries.{by_timestamp}
use acrossclone.ConfigStore.Chains.{
  version_of, get_config_store_version_for_timestamp, has_valid_config_store_version_for_timestamp,
}
use acrossclone.ConfigStore.Loops.{last_version}
use acrossclone.ConfigStore.WellFormed.{IsFalling, IsWellFormed}

abbrev pub VersionUpdate : Type 0
VersionUpdate = TimedConfigUpdate ℤ

leb_ℤ_trans : (x y z : ℤ) → leb_ℤ x y ≡ true → leb_ℤ y z ≡ true → leb_ℤ x z ≡ true
leb_ℤ_trans x y z h k = ground arith

leb_ℤ_total : (x y : ℤ) → leb_ℤ x y ≡ false → leb_ℤ y x ≡ true
leb_ℤ_total x y h = ground arith

leb_ℤ_refl : (x : ℤ) → leb_ℤ x x ≡ true
leb_ℤ_refl x = ground arith

last_version_positive :
    (us : List VersionUpdate) → IsFalling us → leb_ℤ (pos 0) (last_version us) ≡ true
last_version_positive [] f = refl
last_version_positive (u ∷ us) f =
    leb_ℤ_trans (pos 0) (last_version us) u.value (last_version_positive us f.1)
      (leb_ℤ_total u.value (last_version us) f.0)

last_version-highest :
    (us : List VersionUpdate) (u : VersionUpdate)
    → IsFalling us
    → Memᴰ u us
    → leb_ℤ u.value (last_version us) ≡ true
last_version-highest [] u f m = absurd (Memᴰ.not-nil m)
last_version-highest (v ∷ us) u f (Memᴰ.head same) =
    subst (λ (x : VersionUpdate). leb_ℤ u.value x.value ≡ true) same (leb_ℤ_refl u.value)
last_version-highest (v ∷ us) u f (Memᴰ.tail m) =
    leb_ℤ_trans u.value (last_version us) v.value (last_version-highest us u f.1 m)
      (leb_ℤ_total v.value (last_version us) f.0)

-- The highest version among those that pass, 0 at least.
abbrev IsHighest : (VersionUpdate → Bool) → List VersionUpdate → ℤ → Type 0
IsHighest p us v =
    (leb_ℤ (pos 0) v ≡ true)
    × ((u : VersionUpdate) → Memᴰ u us → p u ≡ true → leb_ℤ u.value v ≡ true)
    × ((v ≡ pos 0) ⊎ ((u : VersionUpdate) × Memᴰ u us × (p u ≡ true) × (u.value ≡ v)))

find?-IsHighest :
    (p : VersionUpdate → Bool) (us : List VersionUpdate)
    → IsFalling us
    → IsHighest p us (version_of (find? p us))
unfolding find?
find?-IsHighest p [] f = (refl, λ u m h. absurd (Memᴰ.not-nil m), inl refl)
find?-IsHighest p (v ∷ us) f = elim (Bool-cases (p v)) [
  | inl hit ↦ rw hit (
    last_version_positive (v ∷ us) f,
    λ u m h. last_version-highest (v ∷ us) u f m,
    inr (v, Memᴰ.head refl, hit, refl),
  )
  | inr miss ↦
      let (positive, above, reached) = find?-IsHighest p us f.1 in
      rw miss (positive, λ u m h. skip miss above u m h, wider reached)
]
  where
    skip :
        p v ≡ false
        → ((u : VersionUpdate)
            → Memᴰ u us
            → p u ≡ true
            → leb_ℤ u.value (version_of (find? p us)) ≡ true)
        → (u : VersionUpdate) → Memᴰ u (v ∷ us)
        → p u ≡ true
        → leb_ℤ u.value (version_of (find? p us)) ≡ true
    skip miss above u (Memᴰ.head same) h =
        let clash : p v ≡ true = subst (λ (x : VersionUpdate). p x ≡ true) same h in cc
    skip miss above u (Memᴰ.tail m) h = above u m h

    wider :
        (version_of (find? p us) ≡ pos 0)
          ⊎ ((u : VersionUpdate) × Memᴰ u us × (p u ≡ true) × (u.value ≡ version_of (find? p us)))
        → (version_of (find? p us) ≡ pos 0)
          ⊎ ((u : VersionUpdate) × Memᴰ u (v ∷ us)
              × (p u ≡ true)
              × (u.value ≡ version_of (find? p us)))
    wider (inl e) = inl e
    wider (inr (u, m, h, e)) = inr (u, Memᴰ.tail m, h, e)

-- In a well-formed store the client's version is valid at a time exactly when it is at least 0 and at
-- least every version that was set up to that time.
pub has_valid_config_store_version_for_timestamp_iff :
    (s : ConfigStore) (chain_id timestamp : ℕ)
    → IsWellFormed chain_id s
    → (has_valid_config_store_version_for_timestamp s timestamp ≡ true) ↔ (
        (leb_ℤ (pos 0) s.config_store_version ≡ true)
        × ((u : VersionUpdate)
            → Memᴰ u s.cumulative_config_store_version_updates
            → u.timestamp ≤ timestamp
            → leb_ℤ u.value s.config_store_version ≡ true))
unfolding has_valid_config_store_version_for_timestamp get_config_store_version_for_timestamp
has_valid_config_store_version_for_timestamp_iff s chain_id timestamp w =
    let own = s.config_store_version in
    let us = s.cumulative_config_store_version_updates in
    let (positive, above, reached) = find?-IsHighest (by_timestamp timestamp) us w.versions in
    (
      λ valid. (
        leb_ℤ_trans (pos 0) _ own positive valid,
        λ u m early. leb_ℤ_trans u.value _ own (above u m (passes u early)) valid,
      ),
      λ (natural, all). elim reached [
        | inl e ↦ subst (λ v. leb_ℤ v own ≡ true) (sym e) natural
        | inr (u, m, h, e) ↦ subst (λ v. leb_ℤ v own ≡ true) e (all u m (early u h))
      ],
    )
  where
    passes : (u : VersionUpdate) → u.timestamp ≤ timestamp → by_timestamp timestamp u ≡ true
    passes u early = ground arith

    early : (u : VersionUpdate) → by_timestamp timestamp u ≡ true → u.timestamp ≤ timestamp
    early u h = ground arith
