-- ===== src/Events/Order.antt =====
-- The order of events of utils/EventUtils.ts: one strict order, which both sorts follow.
use acrossclone.Prelude.{
  ◌≡◌, refl, sym, subst, ◌↔◌, ◌⊎◌, inl, inr, Bool, true, false, not, List, [], ◌∷◌, Memᴰ, Permᴰ,
  none, some, arith, Bool-cases,
}
use mathlib.Core.List.Permᴰ
use acrossclone.Prelude.Int.{ℤ, pos, leb_ℤ}
use acrossclone.Prelude.Search.{filter, find?}
use acrossclone.Prelude.Sort.{
  keeps, IsComparator, IsSorted, sort_by-perm, sort_by-IsSorted, filter-sort_by, find?-sort_by,
  find?-sort_by-none, mem-perm,
}
use acrossclone.Events.{
  EventPlace, Sortable, compare_ascending, compare_descending, is_event_older,
  sort_events_ascending, sort_events_descending,
}

-- An event is placed by its block, its transaction in the block and its log in that.
abbrev pub SameKey : EventPlace → EventPlace → Type 0
SameKey x y =
    (x.block_number ≡ y.block_number)
    × (x.transaction_index ≡ y.transaction_index)
    × (x.log_index ≡ y.log_index)

keeps-ascending :
    (x y : EventPlace) → leb_ℤ (compare_ascending x y) (pos 0) ≡ not (is_event_older y x)
unfolding compare_ascending is_event_older
keeps-ascending x y = ground arith

keeps-descending :
    (x y : EventPlace) → leb_ℤ (compare_descending x y) (pos 0) ≡ not (is_event_older x y)
unfolding compare_descending is_event_older
keeps-descending x y = ground arith

-- `isEventOlder` is a strict order on the events' places: no event is older than itself, age is
-- transitive, and of two events one is older unless they have the same place.
is_event_older_strict :
    (x y z : EventPlace)
    → (is_event_older x x ≡ false)
      × (is_event_older x y ≡ true → is_event_older y z ≡ true → is_event_older x z ≡ true)
      × ((is_event_older x y ≡ true) ⊎ (is_event_older y x ≡ true) ⊎ SameKey x y)
unfolding is_event_older
is_event_older_strict x y z = (ground arith, ground arith, total)
  where
    total : (is_event_older x y ≡ true) ⊎ (is_event_older y x ≡ true) ⊎ SameKey x y
    total = elim (Bool-cases (is_event_older x y)) [
      | inl older ↦ inl older
      | inr newer ↦ elim (Bool-cases (is_event_older y x)) [
        | inl older ↦ inr (inl older)
        | inr same ↦ inr (inr (ground arith))
      ]
    ]

older_asymm : (x y : EventPlace) → is_event_older x y ≡ true → is_event_older y x ≡ false
unfolding is_event_older
older_asymm x y h = ground arith

not_older_trans :
    (x y z : EventPlace)
    → is_event_older y x ≡ false
    → is_event_older z y ≡ false
    → is_event_older z x ≡ false
unfolding is_event_older
not_older_trans x y z h k = ground arith

module _ {ℓ} {A : Type ℓ} ⦃s : Sortable A⦄ where
  -- `x` is older than `y`, in place.
  abbrev pub older : A → A → Bool
  older x y = is_event_older (s.place x) (s.place y)

  -- No event stands behind a newer one.
  abbrev pub IsAscending : List A → Type ℓ
  IsAscending [] = Unit
  IsAscending (x ∷ xs) = ((y : A) → Memᴰ y xs → older y x ≡ false) × IsAscending xs

  -- No event stands behind an older one.
  abbrev pub IsDescending : List A → Type ℓ
  IsDescending [] = Unit
  IsDescending (x ∷ xs) = ((y : A) → Memᴰ y xs → older x y ≡ false) × IsDescending xs

  abbrev ascending : A → A → ℤ
  ascending x y = compare_ascending (s.place x) (s.place y)

  abbrev descending : A → A → ℤ
  descending x y = compare_descending (s.place x) (s.place y)

  ascending-keeps : (x y : A) → keeps ascending x y ≡ true ↔ (older y x ≡ false)
  ascending-keeps x y =
      let e = keeps-ascending (s.place x) (s.place y) in (λ h. ground arith, λ h. ground arith)

  descending-keeps : (x y : A) → keeps descending x y ≡ true ↔ (older x y ≡ false)
  descending-keeps x y =
      let e = keeps-descending (s.place x) (s.place y) in (λ h. ground arith, λ h. ground arith)

  ascending_total : (x y : A) → keeps ascending x y ≡ false → keeps ascending y x ≡ true
  ascending_total x y h = ground (
    arith,
    keeps-ascending (s.place x) (s.place y),
    keeps-ascending (s.place y) (s.place x),
    older_asymm (s.place y) (s.place x),
  )

  descending_total : (x y : A) → keeps descending x y ≡ false → keeps descending y x ≡ true
  descending_total x y h = ground (
    arith,
    keeps-descending (s.place x) (s.place y),
    keeps-descending (s.place y) (s.place x),
    older_asymm (s.place x) (s.place y),
  )

  ascending-IsComparator : IsComparator ascending
  ascending-IsComparator = record {
    total = ascending_total;
    trans = λ x y z h k.
        (ascending-keeps x z).1
          (not_older_trans _ _ _ ((ascending-keeps x y).0 h) ((ascending-keeps y z).0 k));
  }

  descending-IsComparator : IsComparator descending
  descending-IsComparator = record {
    total = descending_total;
    trans = λ x y z h k.
        (descending-keeps x z).1
          (not_older_trans _ _ _ ((descending-keeps y z).0 k) ((descending-keeps x y).0 h));
  }

  IsSorted→IsAscending : (xs : List A) → IsSorted ascending xs → IsAscending xs
  IsSorted→IsAscending [] h = tt
  IsSorted→IsAscending (x ∷ xs) h =
      (λ y m. (ascending-keeps x y).0 (h.0 y m), IsSorted→IsAscending xs h.1)

  IsSorted→IsDescending : (xs : List A) → IsSorted descending xs → IsDescending xs
  IsSorted→IsDescending [] h = tt
  IsSorted→IsDescending (x ∷ xs) h =
      (λ y m. (descending-keeps x y).0 (h.0 y m), IsSorted→IsDescending xs h.1)

  -- The ascending sort returns the same events, each behind all older ones.
  pub sort_events_ascending-sorts :
      (xs : List A) → Permᴰ (sort_events_ascending xs) xs × IsAscending (sort_events_ascending xs)
  unfolding sort_events_ascending
  sort_events_ascending-sorts xs = (
    sort_by-perm ascending xs,
    IsSorted→IsAscending _ (sort_by-IsSorted ascending ascending-IsComparator xs),
  )

  -- Events of one place stay in their order under the ascending sort: those that a test `p` passes, where
  -- it passes events of one place only.
  pub filter-sort_events_ascending :
      (p : A → Bool) (xs : List A)
      → ((x y : A) → p x ≡ true → p y ≡ true → older x y ≡ false)
      → filter p (sort_events_ascending xs) ≡ filter p xs
  unfolding sort_events_ascending
  filter-sort_events_ascending p xs place =
      filter-sort_by ascending p (λ x y hx hy. (ascending-keeps x y).1 (place y x hy hx)) xs

  -- The descending sort returns the same events, each behind all newer ones.
  pub sort_events_descending-sorts :
      (xs : List A)
      → Permᴰ (sort_events_descending xs) xs × IsDescending (sort_events_descending xs)
  unfolding sort_events_descending
  sort_events_descending-sorts xs = (
    sort_by-perm descending xs,
    IsSorted→IsDescending _ (sort_by-IsSorted descending descending-IsComparator xs),
  )

  -- Events of one place stay in their order under the descending sort: those that a test `p` passes, where
  -- it passes events of one place only.
  pub filter-sort_events_descending :
      (p : A → Bool) (xs : List A)
      → ((x y : A) → p x ≡ true → p y ≡ true → older x y ≡ false)
      → filter p (sort_events_descending xs) ≡ filter p xs
  unfolding sort_events_descending
  filter-sort_events_descending p xs place =
      filter-sort_by descending p (λ x y hx hy. (descending-keeps x y).1 (place x y hx hy)) xs

  -- `x` is a newest of the events of `xs` that pass the test `p`.
  pub record IsNewest (p : A → Bool) (xs : List A) (x : A) : Type ℓ where
    pub listed : Memᴰ x xs
    pub passes : p x ≡ true
    pub newest : (y : A) → Memᴰ y xs → p y ≡ true → older x y ≡ false

  -- `sortEventsDescending(xs).find(p)` is the newest event that passes.
  pub find?-descending :
      (p : A → Bool) (xs : List A) {x : A}
      → find? p (sort_events_descending xs) ≡ some x
      → IsNewest p xs x
  unfolding sort_events_descending
  find?-descending p xs {x} e =
      let hit = find?-sort_by descending descending-IsComparator p xs e in
      record {
        listed = hit.0;
        passes = hit.1;
        newest = λ y m h. (descending-keeps x y).0 (hit.2 y m h);
      }

  pub find?-descending_none :
      (p : A → Bool) (xs : List A)
      → find? p (sort_events_descending xs) ≡ none
      → (x : A) → Memᴰ x xs
      → p x ≡ false
  unfolding sort_events_descending
  find?-descending_none p xs e = find?-sort_by-none descending p xs e

  IsDescending-head :
      (x : A) (rest : List A)
      → IsDescending (x ∷ rest)
      → (y : A) → Memᴰ y (x ∷ rest)
      → older x y ≡ false
  IsDescending-head x rest d y (Memᴰ.head same) =
      rw same (is_event_older_strict (s.place x) (s.place x) (s.place x)).0
  IsDescending-head x rest d y (Memᴰ.tail m) = d.0 y m

  -- `sortEventsDescending(xs)[0]` is a newest event.
  pub sort_events_descending-head :
      (xs : List A) (x : A) (rest : List A)
      → sort_events_descending xs ≡ x ∷ rest
      → Memᴰ x xs × ((y : A) → Memᴰ y xs → older x y ≡ false)
  sort_events_descending-head xs x rest e =
      let (same, ordered) = sort_events_descending-sorts xs in
      (
        mem-perm same (subst (Memᴰ x) (sym e) (Memᴰ.head refl)),
        λ y m.
            IsDescending-head x rest (subst IsDescending e ordered) y
              (subst (Memᴰ y) e (mem-perm (Permᴰ.symm same) m)),
      )
