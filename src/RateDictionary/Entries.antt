-- ===== src/RateDictionary/Entries.antt =====
-- The look-up in a token's entries, for lpFeeCalculator/rateModel.ts, against the events behind them.
use acrossclone.Prelude.{
  ℕ, suc, ◌≤◌, ◌≡◌, refl, Bool, true, false, List, [], ◌∷◌, ◌++◌, map, reverse, Memᴰ, Option, none,
  some, inl, inr, ltb, leb, string_eq, Bool-cases, Option-cases, ok, err, arith, All,
}
use mathlib.Core.List.{reverse-cons}
use mathlib.Core.List.Memᴰ
use acrossclone.Prelude.Search.{
  filter, find?, find_last?, IsLast, find_last?-IsLast, filter-mem, All-mem,
}
use acrossclone.Events.{is_event_older}
use acrossclone.Events.Order.{older, IsAscending, IsNewest}
use acrossclone.RateDictionary.{
  RateError, no_events, before_first_event, no_events_before, RateModelEvent, rate_event_sortable,
  RateEntry, entry_of, entry_in,
}

module _ {ℓ} {A : Type ℓ} (p : A → Bool) where
  abbrev or_else : Option A → Option A → Option A
  or_else none o = o
  or_else (some x) o = some x

  find?-append : (xs ys : List A) → find? p (xs ++ ys) ≡ or_else (find? p xs) (find? p ys)
  unfolding find?
  find?-append [] ys = refl
  find?-append (x ∷ xs) ys = elim (Bool-cases (p x)) [
    | inl hit ↦ rw hit refl
    | inr miss ↦ rw miss (find?-append xs ys)
  ]

  find?-reverse : (xs : List A) → find? p (reverse xs) ≡ find_last? p xs
  unfolding find? find_last?
  find?-reverse [] = refl
  find?-reverse (x ∷ xs) =
      rw (reverse-cons x xs, find?-append (reverse xs) (x ∷ []), find?-reverse xs)
        (elim (Option-cases (find_last? p xs)) [
          | inl missing ↦ rw missing refl
          | inr (y, found) ↦ rw found refl
        ])

abbrev map_entry : Option RateModelEvent → Option RateEntry
map_entry none = none
map_entry (some e) = some (entry_of e)

find_last?-map :
    (q : RateEntry → Bool) (xs : List RateModelEvent)
    → find_last? q (map entry_of xs) ≡ map_entry (find_last? (λ y. q (entry_of y)) xs)
unfolding find_last?
find_last?-map q [] = refl
find_last?-map q (x ∷ xs) =
    let rest = find_last?-map q xs in
    elim (Option-cases (find_last? (λ y. q (entry_of y)) xs)) [
      | inl missing ↦
          rw (rest, missing)
            (elim (Bool-cases (q (entry_of x))) [ inl hit ↦ rw hit refl | inr miss ↦ rw miss refl ])
      | inr (y, found) ↦ rw (rest, found) refl
    ]

not_older_than_last :
    (p : RateModelEvent → Bool) (x : RateModelEvent) (before after : List RateModelEvent)
    {y : RateModelEvent}
    → IsAscending (before ++ x ∷ after)
    → All (λ z. p z ≡ false) after
    → Memᴰ y (before ++ x ∷ after)
    → p y ≡ true
    → older x y ≡ false
unfolding is_event_older
not_older_than_last p x [] after {y} a rest (Memᴰ.head same) h = rw same (ground arith)
not_older_than_last p x [] after {y} a rest (Memᴰ.tail m) h =
    let miss = All-mem (λ z. p z ≡ false) after rest m in cc
not_older_than_last p x (b ∷ before) after {y} a rest (Memᴰ.head same) h =
    rw same (a.0 x (Memᴰ.append_right before (Memᴰ.head refl)))
not_older_than_last p x (b ∷ before) after a rest (Memᴰ.tail m) h =
    not_older_than_last p x before after a.1 rest m h

-- Before the last event that passes, and so among all, no later one does.
pub IsLast→IsNewest :
    (p : RateModelEvent → Bool) (xs : List RateModelEvent) {x : RateModelEvent}
    → IsAscending xs
    → IsLast p xs x
    → IsNewest p xs x
IsLast→IsNewest p xs {x} a (before, after, e, hit, rest) = record {
  listed = rw e (Memᴰ.append_right before (Memᴰ.head refl));
  passes = hit;
  newest = λ y m h. not_older_than_last p x before after (rw e at a) rest (rw e at m) h;
}

pub filter-IsAscending :
    (p : RateModelEvent → Bool) (xs : List RateModelEvent)
    → IsAscending xs
    → IsAscending (filter p xs)
unfolding filter
filter-IsAscending p [] a = tt
filter-IsAscending p (x ∷ xs) a =
    let rest = filter-IsAscending p xs a.1 in
    elim (Bool-cases (p x)) [
      | inl hit ↦ rw hit (λ y m. a.0 y (filter-mem p xs m).0, rest)
      | inr miss ↦ rw miss rest
    ]

first_block-le :
    (y : RateModelEvent) (ys : List RateModelEvent) {x : RateModelEvent}
    → IsAscending (y ∷ ys)
    → Memᴰ x (y ∷ ys)
    → y.block_number ≤ x.block_number
unfolding is_event_older
first_block-le y ys a (Memᴰ.head same) = rw same (omega arith)
first_block-le y ys {x} a (Memᴰ.tail m) = let after = a.0 x m in ground arith

-- The entry of a token's events up to a block.
pub entry_in-some :
    (ys : List RateModelEvent) (n : ℕ) {x : RateModelEvent}
    → IsAscending ys
    → find_last? (λ e. leb e.block_number (suc n)) ys ≡ some x
    → entry_in (map entry_of ys) (some (suc n)) ≡ ok (entry_of x)
unfolding entry_in find_last?
entry_in-some [] n a e = cc
entry_in-some (y ∷ ys) n {x} a e =
    let best =
      IsLast→IsNewest (λ z. leb z.block_number (suc n)) (y ∷ ys) a
        (find_last?-IsLast (λ z. leb z.block_number (suc n)) (y ∷ ys) e) in
    let low = first_block-le y ys a best.listed in
    let reached = best.passes in
    let in_time : ltb (suc n) y.block_number ≡ false = ground arith in
    let q = λ (z : RateEntry). leb z.block_number (suc n) in
    rw (in_time, find?-reverse q (map entry_of (y ∷ ys)), find_last?-map q (y ∷ ys), entry_in)
      (rw e refl)

pub entry_in-none :
    (ys : List RateModelEvent) (n : ℕ)
    → find_last? (λ e. leb e.block_number (suc n)) ys ≡ none
    → (thrown : RateError) × (entry_in (map entry_of ys) (some (suc n)) ≡ err thrown)
unfolding entry_in
entry_in-none [] n e = (no_events, refl)
entry_in-none (y ∷ ys) n e =
    let q = λ (z : RateEntry). leb z.block_number (suc n) in
    elim (Bool-cases (ltb (suc n) y.block_number)) [
      | inl early ↦ rw (early, entry_in) (before_first_event, refl)
      | inr late ↦
          rw (late, find?-reverse q (map entry_of (y ∷ ys)), find_last?-map q (y ∷ ys), entry_in)
            (rw e (no_events_before, refl))
    ]
