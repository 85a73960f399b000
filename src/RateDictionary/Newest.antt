-- ===== src/RateDictionary/Newest.antt =====
-- The dictionary of lpFeeCalculator/rateModel.ts answers with the newest event.
use Prim.Native.String.{String}
use acrossclone.Prelude.{
  ℕ, suc, ◌≡◌, ◌⊎◌, refl, sym, ap, ◌∙◌, Bool, true, false, ◌&&◌, List, [], ◌∷◌, ◌++◌, map, Memᴰ,
  none, some, inl, inr, leb, ◌==◌, string_eq, Bool-cases, Option-cases, ok, err, ok-inj,
}
use mathlib.Core.List.{append_assoc, append-nil}
use mathlib.Core.List.Permᴰ
use acrossclone.Prelude.Dict.{lookup}
use acrossclone.Prelude.Search.{
  filter, find_last?, find_last?-IsLast, find_last?-none, filter-mem, mem-filter, All-mem,
}
use acrossclone.Prelude.Sort.{mem-perm}
use acrossclone.Objects.{array_of, assign_array, array_of-assign_array}
use acrossclone.Events.{sort_events_ascending}
use acrossclone.Events.Order.{IsNewest, sort_events_ascending-sorts}
use acrossclone.RateDictionary.{
  RateError, not_initialized, bad_address, RateModelEvent, rate_event_sortable,
  RateModelEventsDictionary, Parsers, entry_of, entry_in, add_events,
  create_rate_model_event_dictionary, get_rate_entry, get_rate_model_at_block,
  parse_and_return_rate_model_from_string, throw_if_not_initialized,
}
use acrossclone.RateDictionary.Entries.{
  IsLast→IsNewest, filter-IsAscending, entry_in-some, entry_in-none,
}

and_true : (a b : Bool) → (a && b) ≡ true → (a ≡ true) × (b ≡ true)
and_true true b h = (refl, h)
and_true false b h = cc

none_in_empty :
    (p : RateModelEvent → Bool) (ys : List RateModelEvent) {x : RateModelEvent}
    → ys ≡ []
    → find_last? p ys ≡ some x
    → ⊥
unfolding find_last?
none_in_empty p [] e h = cc
none_in_empty p (y ∷ ys) e h = cc

module _ {V : Type 0} (p : Parsers V) where
  -- The event is of the token with this address.
  abbrev pub is_of : String → RateModelEvent → Bool
  is_of token e = elim (p.get_address e.l1_token) [ none ↦ false | some a ↦ a == token ]

  add_events-array_of :
      (token : String) (events : List RateModelEvent) (d : RateModelEventsDictionary)
      {d' : RateModelEventsDictionary}
      → add_events p events d ≡ ok d'
      → array_of token d' ≡ array_of token d ++ map entry_of (filter (is_of token) events)
  unfolding add_events filter
  add_events-array_of token [] d e = rw (sym (ok-inj e)) (sym (append-nil (array_of token d)))
  add_events-array_of token (x ∷ events) d {d'} e = elim (Option-cases (p.get_address x.l1_token)) [
    | inl missing ↦ let clash : err bad_address ≡ ok d' = rw missing at e in cc
    | inr (a, found) ↦
        let rest =
          add_events-array_of token events (assign_array a (entry_of x ∷ []) d) {d' = d'}
            (rw found at e) in
        let here = array_of-assign_array token a (entry_of x ∷ []) d in
        let mine : is_of token x ≡ (a == token) = rw (found, is_of) refl in
        rw (rest, here)
          (elim (Bool-cases (a == token)) [
            | inl hit ↦ rw (mine, hit, filter) (append_assoc (array_of token d) (entry_of x ∷ []) _)
            | inr miss ↦
                rw (mine, miss, filter)
                  (ap (λ r. r ++ map entry_of (filter (is_of token) events))
                    (append-nil (array_of token d)))
          ])
  ]

  -- The event is of the token, and not after the block.
  abbrev pub is_candidate : String → ℕ → RateModelEvent → Bool
  is_candidate token block e = is_of token e && leb e.block_number block

  -- A look-up of a token whose entries are those of the events `ys`.
  get_rate_entry-entries :
      (d : RateModelEventsDictionary) (l1_token token : String) (n : ℕ) (ys : List RateModelEvent)
      → p.get_address l1_token ≡ some token
      → array_of token d ≡ map entry_of ys
      → (get_rate_entry p d l1_token (some (suc n)) ≡ entry_in (map entry_of ys) (some (suc n)))
        ⊎ ((get_rate_entry p d l1_token (some (suc n)) ≡ err not_initialized) × (ys ≡ []))
  unfolding get_rate_entry throw_if_not_initialized lookup
  get_rate_entry-entries [] l1_token token n [] address same = inr (refl, refl)
  get_rate_entry-entries [] l1_token token n (y ∷ ys) address same = cc
  get_rate_entry-entries (x ∷ d) l1_token token n ys address same =
      inl (rw (address, get_rate_entry) (ap (λ entries. entry_in entries (some (suc n))) same))

  -- The events of the token, from the oldest to the newest.
  abbrev sorted_of : String → List RateModelEvent → List RateModelEvent
  sorted_of token events = filter (is_of token) (sort_events_ascending events)

  listed_of :
      (token : String) (events : List RateModelEvent) {e : RateModelEvent}
      → Memᴰ e events
      → is_of token e ≡ true
      → Memᴰ e (sorted_of token events)
  listed_of token events m h =
      mem-filter (is_of token) (sort_events_ascending events)
        (mem-perm (Permᴰ.symm (sort_events_ascending-sorts events).0) m) h

  find_last?-IsNewest :
      (token : String) (n : ℕ) (events : List RateModelEvent) {x : RateModelEvent}
      → find_last? (λ e. leb e.block_number (suc n)) (sorted_of token events) ≡ some x
      → IsNewest (is_candidate token (suc n)) events x
  find_last?-IsNewest token n events {x} e =
      let ordered =
        filter-IsAscending (is_of token) (sort_events_ascending events)
          (sort_events_ascending-sorts events).1 in
      let best =
        IsLast→IsNewest (λ z. leb z.block_number (suc n)) (sorted_of token events) ordered
          (find_last?-IsLast (λ z. leb z.block_number (suc n)) (sorted_of token events) e) in
      let mine = filter-mem (is_of token) (sort_events_ascending events) best.listed in
      record {
        listed = mem-perm (sort_events_ascending-sorts events).0 mine.0;
        passes = rw (mine.1, best.passes) refl;
        newest = λ y m h.
            let both = and_true (is_of token y) (leb y.block_number (suc n)) h in
            best.newest y (listed_of token events m both.0) both.1;
      }

  no_candidate :
      (token : String) (n : ℕ) (events : List RateModelEvent)
      → find_last? (λ e. leb e.block_number (suc n)) (sorted_of token events) ≡ none
      → (e : RateModelEvent) → Memᴰ e events
      → is_candidate token (suc n) e ≡ false
  no_candidate token n events e x m = elim (Bool-cases (is_of token x)) [
    | inl mine ↦
        let late =
          All-mem (λ z. leb z.block_number (suc n) ≡ false) (sorted_of token events)
            (find_last?-none (λ z. leb z.block_number (suc n)) (sorted_of token events) e)
            (listed_of token events m mine) in
        rw (mine, late) refl
    | inr other ↦ rw other refl
  ]

  -- The entry that is looked up for a block is that of the newest event.
  get_rate_entry-IsNewest :
      (events : List RateModelEvent) (d : RateModelEventsDictionary) (l1_token token : String)
      (n : ℕ)
      → create_rate_model_event_dictionary p events ≡ ok d
      → p.get_address l1_token ≡ some token
      → ((e : RateModelEvent) × (get_rate_entry p d l1_token (some (suc n)) ≡ ok (entry_of e))
          × IsNewest (is_candidate token (suc n)) events e)
        ⊎ ((thrown : RateError) × (get_rate_entry p d l1_token (some (suc n)) ≡ err thrown)
            × ((e : RateModelEvent) → Memᴰ e events → is_candidate token (suc n) e ≡ false))
  unfolding create_rate_model_event_dictionary lookup
  get_rate_entry-IsNewest events d l1_token token n e address =
      let ys = sorted_of token events in
      let entries = add_events-array_of token (sort_events_ascending events) [] {d' = d} e in
      let read = get_rate_entry-entries d l1_token token n ys address entries in
      elim (Option-cases (find_last? (λ z. leb z.block_number (suc n)) ys)) [
        | inr (x, found) ↦
            let ordered =
              filter-IsAscending (is_of token) (sort_events_ascending events)
                (sort_events_ascending-sorts events).1 in
            elim read [
              | inl answer ↦ inl (
                x,
                answer ∙ entry_in-some ys n ordered found,
                find_last?-IsNewest token n events found,
              )
              | inr (refused, empty) ↦
                  absurd (none_in_empty (λ z. leb z.block_number (suc n)) ys empty found)
            ]
        | inl missing ↦
            let thrown = entry_in-none ys n missing in
            elim read [
              | inl answer ↦ inr (thrown.0, answer ∙ thrown.1, no_candidate token n events missing)
              | inr (refused, empty) ↦
                  inr (not_initialized, refused, no_candidate token n events missing)
            ]
      ]

  -- After `updateWithEvents`, with events in any order, `getRateModelForBlockNumber` for a token's
  -- address and a block that is not 0 answers what `parseAndReturnRateModelFromString` makes of the
  -- rate model of the newest of the token's events that are not after the block, and throws what
  -- that throws. If there is no such event it throws.
  pub get_rate_model_at_block-IsNewest :
      (events : List RateModelEvent) (d : RateModelEventsDictionary) (l1_token token : String)
      (n : ℕ)
      → create_rate_model_event_dictionary p events ≡ ok d
      → p.get_address l1_token ≡ some token
      → ((e : RateModelEvent) × (get_rate_model_at_block p d l1_token (some (suc n))
            ≡ parse_and_return_rate_model_from_string p e.rate_model)
          × IsNewest (is_candidate token (suc n)) events e)
        ⊎ ((thrown : RateError) × (get_rate_model_at_block p d l1_token (some (suc n)) ≡ err thrown)
            × ((e : RateModelEvent) → Memᴰ e events → is_candidate token (suc n) e ≡ false))
  unfolding get_rate_model_at_block
  get_rate_model_at_block-IsNewest events d l1_token token n made address =
      elim (get_rate_entry-IsNewest events d l1_token token n made address) [
        | inl (e, found, newest) ↦ inl (e, rw (found, get_rate_model_at_block) refl, newest)
        | inr (thrown, refused, none_of) ↦
            inr (thrown, rw (refused, get_rate_model_at_block) refl, none_of)
      ]
