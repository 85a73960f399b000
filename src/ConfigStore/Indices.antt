-- ===== src/ConfigStore/Indices.antt =====
-- getChainIdIndicesForBlock over time: the chains' order never changes, chains are only added.
use acrossclone.Prelude.{
  ℕ, ◌≤◌, ◌≡◌, refl, sym, ap, ◌∙◌, subst, true, false, List, [], ◌∷◌, ◌++◌, Option, some, nat_eq,
  leb→le, le→leb, get_or, ok, inl, inr, arith, Option-cases, Memᴰ,
}
use mathlib.Core.List.{append-nil, append_assoc}
use mathlib.Core.List.Memᴰ
use acrossclone.Prelude.Search.{find?}
use acrossclone.Events.{Sortable, sort_events_descending}
use acrossclone.Events.Order.{older, find?-descending, find?-descending_none}
use acrossclone.ConfigStore.{ConfigStore, GlobalConfigUpdate, global_sortable}
use acrossclone.ConfigStore.Queries.{
  up_to, value_of, implicit_chain_id_indices, get_chain_id_indices_for_block,
}
use acrossclone.ConfigStore.WellFormed.{IsPrefix, IsGrowing, IsWellFormed, implicit_indices}

abbrev pub IndicesUpdate : Type 0
IndicesUpdate = GlobalConfigUpdate (List ℕ)

-- Each event is older than all that follow it.
abbrev pub IsOrdered {ℓ} : {A : Type ℓ} ⦃s : Sortable A⦄ → List A → Type ℓ
IsOrdered [] = Unit
IsOrdered {A = A} (x ∷ xs) = ((y : A) → Memᴰ y xs → older x y ≡ true) × IsOrdered xs

IsPrefix-refl : (xs : List ℕ) → IsPrefix xs xs
IsPrefix-refl xs = ([], sym (append-nil xs))

IsPrefix-trans : (xs ys zs : List ℕ) → IsPrefix xs ys → IsPrefix ys zs → IsPrefix xs zs
IsPrefix-trans xs ys zs (a, e) (b, f) = (a ++ b, f ∙ ap (λ l. l ++ b) e ∙ append_assoc xs a b)

pub IsGrowing-mem :
    (previous : List ℕ) (us : List IndicesUpdate) (u : IndicesUpdate)
    → IsGrowing previous us
    → Memᴰ u us
    → IsPrefix previous u.value
IsGrowing-mem previous [] u g m = absurd (Memᴰ.not-nil m)
IsGrowing-mem previous (v ∷ us) u (first, once, g) (Memᴰ.head same) =
    subst (λ (w : IndicesUpdate). IsPrefix previous w.value) (sym same) first
IsGrowing-mem previous (v ∷ us) u (first, once, g) (Memᴰ.tail m) =
    IsPrefix-trans previous v.value u.value first (IsGrowing-mem v.value us u g m)

-- An update that is not older extends the array.
IsGrowing-later :
    (previous : List ℕ) (us : List IndicesUpdate) (u v : IndicesUpdate)
    → IsGrowing previous us
    → IsOrdered us
    → Memᴰ u us
    → Memᴰ v us
    → older v u ≡ false
    → IsPrefix u.value v.value
IsGrowing-later previous [] u v g o m n h = absurd (Memᴰ.not-nil m)
IsGrowing-later previous (w ∷ us) u v (first, once, g) o (Memᴰ.head e) (Memᴰ.head f) h =
    subst (λ (x : IndicesUpdate). IsPrefix u.value x.value) (e ∙ sym f) (IsPrefix-refl u.value)
IsGrowing-later previous (w ∷ us) u v (first, once, g) o (Memᴰ.head e) (Memᴰ.tail n) h =
    subst (λ (x : IndicesUpdate). IsPrefix x.value v.value) (sym e) (IsGrowing-mem w.value us v g n)
IsGrowing-later previous (w ∷ us) u v (first, once, g) o (Memᴰ.tail m) (Memᴰ.head f) h =
    let before : older v u ≡ true =
      subst (λ (x : IndicesUpdate). older x u ≡ true) (sym f) (o.0 u m) in
    cc
IsGrowing-later previous (w ∷ us) u v (first, once, g) o (Memᴰ.tail m) (Memᴰ.tail n) h =
    IsGrowing-later w.value us u v g o.1 m n h

-- The update in force at a block.
abbrev pub latest_at : ConfigStore → (block : ℕ) → Option IndicesUpdate
latest_at s block = find? (up_to block) (sort_events_descending s.chain_id_indices_updates)

pub get_chain_id_indices_for_block-eq :
    (s : ConfigStore) (chain_id block : ℕ)
    → s.chain_id ≡ some chain_id
    → get_chain_id_indices_for_block s block
      ≡ ok (get_or (value_of (latest_at s block)) (implicit_indices chain_id))
unfolding get_chain_id_indices_for_block implicit_chain_id_indices
get_chain_id_indices_for_block-eq s chain_id block known =
    elim (Option-cases (value_of (latest_at s block))) [
      | inl e ↦ rw (get_chain_id_indices_for_block, e, known) refl
      | inr (xs, e) ↦ rw (get_chain_id_indices_for_block, e) refl
    ]

module _ (s : ConfigStore) (chain_id : ℕ) (w : IsWellFormed chain_id s) where
  -- What is in force extends the implicit indices.
  pub value_of-latest_at :
      (block : ℕ)
      → IsPrefix
          (implicit_indices chain_id)
          (get_or (value_of (latest_at s block)) (implicit_indices chain_id))
  value_of-latest_at block = elim (Option-cases (latest_at s block)) [
    | inl e ↦ rw e (IsPrefix-refl (implicit_indices chain_id))
    | inr (u, e) ↦
        let found = find?-descending (up_to block) s.chain_id_indices_updates e in
        rw e (IsGrowing-mem _ s.chain_id_indices_updates u w.indices found.listed)
  ]

  value_of-latest_at_grows :
      (from to : ℕ)
      → IsOrdered s.chain_id_indices_updates
      → from ≤ to
      → IsPrefix
          (get_or (value_of (latest_at s from)) (implicit_indices chain_id))
          (get_or (value_of (latest_at s to)) (implicit_indices chain_id))
  value_of-latest_at_grows from to o le = elim (Option-cases (latest_at s from)) [
    | inl e ↦ rw e (value_of-latest_at to)
    | inr (u, e) ↦
        let us = s.chain_id_indices_updates in
        let first = find?-descending (up_to from) us e in
        let still : up_to to u ≡ true =
          le→leb u.block_number to (omega (arith, leb→le u.block_number from first.passes)) in
        elim (Option-cases (latest_at s to)) [
          | inl f ↦ let fails = find?-descending_none (up_to to) us f u first.listed in absurd (cc)
          | inr (v, f) ↦
              let last = find?-descending (up_to to) us f in
              rw (e, f)
                (IsGrowing-later _ us u v w.indices o first.listed last.listed
                  (last.newest u first.listed still))
        ]
  ]

-- In a well-formed store that knows its chain, whose updates stand in the order of their events,
-- every block has its chain id indices: they extend the implicit ones, and those of a later block
-- extend those of an earlier block, so that a chain keeps its index for ever.
pub get_chain_id_indices_for_block-grows :
    (s : ConfigStore) (chain_id from to : ℕ)
    → IsWellFormed chain_id s
    → s.chain_id ≡ some chain_id
    → IsOrdered s.chain_id_indices_updates
    → from ≤ to
    → (xs : List ℕ) × (ys : List ℕ) × (get_chain_id_indices_for_block s from ≡ ok xs)
      × (get_chain_id_indices_for_block s to ≡ ok ys)
      × IsPrefix (implicit_indices chain_id) xs
      × IsPrefix xs ys
get_chain_id_indices_for_block-grows s chain_id from to w known o le = (
  get_or (value_of (latest_at s from)) (implicit_indices chain_id),
  get_or (value_of (latest_at s to)) (implicit_indices chain_id),
  get_chain_id_indices_for_block-eq s chain_id from known,
  get_chain_id_indices_for_block-eq s chain_id to known,
  value_of-latest_at s chain_id w from,
  value_of-latest_at_grows s chain_id w from to o le,
)
