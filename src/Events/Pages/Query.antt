-- ===== src/Events/Pages/Query.antt =====
-- paginatedEventQuery against the event log that the node serves: pages and retries do not show.
use acrossclone.Prelude.{
  ℕ, zero, suc, ◌+◌, ◌-◌, ◌%◌, ◌≤◌, ◌<◌, ◌≡◌, refl, sym, ap, ◌∙◌, false, List, [], ◌∷◌, ◌++◌, arith,
  leb, ltb, Result, ok, err, Bool-cases, Option-cases, inl, inr, All, Result-cases, >>=-eq-ok, ap₂,
  ◌>>=◌, ok≢err,
}
use acrossclone.Prelude.Search.{filter}
use acrossclone.Events.{Sortable, block_of}
use acrossclone.Events.Pages.{
  EventSearchConfig, QueryError, get_paginated_block_ranges, within, query_all, query_attempts,
  paginated_event_query, max_retries, is_zero,
}
use mathlib.Core.List.{append-nil}
use native.Mathlib.Nat.{le_refl}
use acrossclone.Events.Pages.Tiles.{Tiles, get_paginated_block_ranges-Tiles}

get_paginated_block_ranges-returns :
    (c : EventSearchConfig)
    → is_zero c.max_block_look_back ≡ false
    → (ranges : List (ℕ × ℕ)) × (get_paginated_block_ranges c ≡ ok ranges)
unfolding get_paginated_block_ranges
get_paginated_block_ranges-returns c h = elim (Option-cases c.max_block_look_back) [
  | inl unlimited ↦ ((c.from_block, c.to_block) ∷ [], rw (unlimited, get_paginated_block_ranges))
  | inr (size, limited) ↦ elim (Bool-cases (ltb c.to_block c.from_block)) [
    | inl empty ↦ ([], ground arith)
    | inr filled ↦
        let tiled = get_paginated_block_ranges-Tiles c size limited (ground arith) (ground arith) in
        (tiled.0, tiled.1)
  ]
]

module _ {A : Type 0} ⦃s : Sortable A⦄ where
  -- The log lists events by block.
  abbrev pub IsBlockOrdered : List A → Type 0
  IsBlockOrdered [] = Unit
  IsBlockOrdered (x ∷ xs) = All (λ y. block_of x ≤ block_of y) xs × IsBlockOrdered xs

  filter-within_empty : (from to : ℕ) (xs : List A) → to < from → filter (within from to) xs ≡ []
  unfolding filter
  filter-within_empty from to [] h = refl
  filter-within_empty from to (x ∷ xs) h = ground (arith, filter-within_empty from to xs h)

  filter-within_above :
      (from to : ℕ) (xs : List A) → All (λ y. to < block_of y) xs → filter (within from to) xs ≡ []
  unfolding filter
  filter-within_above from to [] h = refl
  filter-within_above from to (x ∷ xs) h = ground (arith, filter-within_above from to xs h.1)

  All-above :
      (to b : ℕ) (xs : List A)
      → to < b
      → All (λ y. b ≤ block_of y) xs
      → All (λ y. to < block_of y) xs
  All-above to b [] p h = tt
  All-above to b (x ∷ xs) p h = (omega arith, All-above to b xs p h.1)

  -- A range of blocks may be cut in two.
  pub filter-within_cut :
      (from mid to : ℕ) (xs : List A)
      → from ≤ mid + 1
      → mid ≤ to
      → IsBlockOrdered xs
      → filter (within from mid) xs ++ filter (within (mid + 1) to) xs ≡ filter (within from to) xs
  unfolding filter
  filter-within_cut from mid to [] p q h = refl
  filter-within_cut from mid to (x ∷ xs) p q h =
      let rest = filter-within_cut from mid to xs p q h.1 in
      elim (Bool-cases (leb (block_of x) mid)) [
        | inl low ↦ ground (arith, rest)
        | inr high ↦
            let none_left : filter (within from mid) xs ≡ [] =
              filter-within_above from mid xs (All-above mid (block_of x) xs (ground arith) h.0) in
            ground (arith, rest, none_left)
      ]

  filter-filter-within :
      (from from' to : ℕ) (xs : List A)
      → from' ≤ from
      → filter (within from to) (filter (within from' to) xs) ≡ filter (within from to) xs
  unfolding filter
  filter-filter-within from from' to [] h = refl
  filter-filter-within from from' to (x ∷ xs) h =
      ground (arith, filter-filter-within from from' to xs h)

  -- A node that serves `log`: what it answers is what the log holds in the range. It may fail.
  abbrev pub IsHonest : (ℕ → ℕ → ℕ → Result QueryError (List A)) → List A → Type 0
  IsHonest node log =
      (attempt from to : ℕ) (events : List A)
      → node attempt from to ≡ ok events
      → events ≡ filter (within from to) log

  query_all-Tiles :
      (query : ℕ → ℕ → Result QueryError (List A)) (log : List A)
      → ((from to : ℕ) (events : List A)
          → query from to ≡ ok events
          → events ≡ filter (within from to) log)
      → IsBlockOrdered log
      → (size first last : ℕ) (ranges : List (ℕ × ℕ)) (events : List A)
      → Tiles size first last ranges
      → query_all query ranges ≡ ok events
      → events ≡ filter (within first last) log
  unfolding query_all
  query_all-Tiles query log honest ordered size first last [] events t e =
      let empty : events ≡ [] = ground arith in
      rw empty (sym (filter-within_empty first last log t))
  query_all-Tiles query log honest ordered size first last ((a, b) ∷ ranges) events t e =
      let page = >>=-eq-ok (query a b) _ e in
      let others = >>=-eq-ok (query_all query ranges) _ page.2 in
      let tail =
        query_all-Tiles query log honest ordered size (b + 1) last ranges others.0 t.5 others.1 in
      let joined : page.0 ++ others.0 ≡ events = ground arith in
      sym joined
      ∙ ap₂ ◌++◌ (honest a b page.0 page.1) tail
      ∙ rw t.0 (filter-within_cut first b last log (omega arith) (omega arith) ordered)

  -- Whatever attempt succeeds, its pages together hold the wanted part of the log.
  query_attempts-exact :
      (node : ℕ → ℕ → ℕ → Result QueryError (List A)) (c : EventSearchConfig) (log : List A)
      (ranges : List (ℕ × ℕ)) (first : ℕ)
      → first ≤ c.from_block
      → ((attempt : ℕ) (events : List A)
          → query_all (node attempt) ranges ≡ ok events
          → events ≡ filter (within first c.to_block) log)
      → (left k : ℕ) (events : List A) → query_attempts node c ranges left k ≡ ok events
      → events ≡ filter (within c.from_block c.to_block) log
  unfolding query_attempts
  query_attempts-exact node c log ranges first p pages zero k events e =
      let answer = >>=-eq-ok (query_all (node k) ranges) _ e in
      let found : filter (within c.from_block c.to_block) answer.0 ≡ events = ground arith in
      sym found
      ∙ ap (filter (within c.from_block c.to_block)) (pages k answer.0 answer.1)
      ∙ filter-filter-within c.from_block first c.to_block log p
  query_attempts-exact node c log ranges first p pages (suc left) k events e =
      let again = query_attempts-exact node c log ranges first p pages left (k + 1) events in
      elim (Result-cases (query_all (node k) ranges)) [
        | inl (answer, got) ↦
            let found : filter (within c.from_block c.to_block) answer ≡ events = ground arith in
            sym found
            ∙ ap (filter (within c.from_block c.to_block)) (pages k answer got)
            ∙ filter-filter-within c.from_block first c.to_block log p
        | inr (failed, got) ↦ again (ground arith)
      ]

  -- Where some attempt within the retries has every page answered, the query returns.
  query_attempts-answers :
      (node : ℕ → ℕ → ℕ → Result QueryError (List A)) (c : EventSearchConfig)
      (ranges : List (ℕ × ℕ)) (good left k : ℕ)
      → k ≤ good
      → good ≤ k + left
      → ((events : List A) × (query_all (node good) ranges ≡ ok events))
      → (events : List A) × (query_attempts node c ranges left k ≡ ok events)
  unfolding query_attempts
  query_attempts-answers node c ranges good zero k p q (events, e) =
      let same : k ≡ good = omega arith in
      (filter (within c.from_block c.to_block) events, rw (same, e, ◌>>=◌))
  query_attempts-answers node c ranges good (suc left) k p q (events, e) =
      let again = λ (less : k < good).
        query_attempts-answers node c ranges good left (k + 1) (omega arith) (omega arith)
          (events, e) in
      elim (Result-cases (query_all (node k) ranges)) [
        | inl (answer, got) ↦
            (filter (within c.from_block c.to_block) answer, rw (got, query_attempts))
        | inr (failed, got) ↦
            let less : k < good = before failed got in
            ((again less).0, rw (got, query_attempts) (again less).1)
      ]
    where
      clash : {x : QueryError} → k ≡ good → query_all (node k) ranges ≡ err x → ok events ≡ err x
      clash now got = sym e ∙ rw (← now) got

      before : (x : QueryError) → query_all (node k) ranges ≡ err x → k < good
      before x got = elim (Bool-cases (ltb k good)) [
        | inl less ↦ ground arith
        | inr same ↦ let now : k ≡ good = ground arith in absurd (ok≢err (clash now got))
      ]

  -- Some block up to `fromBlock` begins what the ranges hold between them.
  ranges_cover :
      (node : ℕ → ℕ → ℕ → Result QueryError (List A)) (c : EventSearchConfig) (log : List A)
      → IsHonest node log
      → IsBlockOrdered log
      → (ranges : List (ℕ × ℕ)) → get_paginated_block_ranges c ≡ ok ranges
      → (first : ℕ) × (first ≤ c.from_block)
        × ((attempt : ℕ) (events : List A)
            → query_all (node attempt) ranges ≡ ok events
            → events ≡ filter (within first c.to_block) log)
  unfolding get_paginated_block_ranges query_all
  ranges_cover node c log honest ordered ranges e = elim (Option-cases c.max_block_look_back) [
    | inl unlimited ↦
        let one : (c.from_block, c.to_block) ∷ [] ≡ ranges = ground arith in
        (c.from_block, le_refl c.from_block, λ attempt events. rw (← one) (single attempt events))
    | inr (size, limited) ↦ elim (Bool-cases (ltb c.to_block c.from_block)) [
      | inl empty ↦
          let nothing : [] ≡ ranges = ground arith in
          (
            c.from_block,
            le_refl c.from_block,
            λ attempt events. rw (← nothing) (void (ground arith) attempt events),
          )
      | inr filled ↦
          let (pages, same, tiles) =
            get_paginated_block_ranges-Tiles c size limited (ground arith) (ground arith) in
          let these : pages ≡ ranges = cc (sym same ∙ e) in
          (
            c.from_block - c.from_block % size,
            omega arith,
            λ attempt events. rw (← these) (
                query_all-Tiles (node attempt) log (honest attempt) ordered size _ _ pages events
                  tiles),
          )
    ]
  ]
    where
      single :
          (attempt : ℕ) (events : List A)
          → query_all (node attempt) ((c.from_block, c.to_block) ∷ []) ≡ ok events
          → events ≡ filter (within c.from_block c.to_block) log
      single attempt events h =
          let page = >>=-eq-ok (node attempt c.from_block c.to_block) _ h in
          let all : page.0 ≡ events = ground (arith, append-nil page.0) in
          sym all ∙ honest attempt c.from_block c.to_block page.0 page.1

      void :
          c.to_block < c.from_block
          → (attempt : ℕ) (events : List A) → query_all (node attempt) [] ≡ ok events
          → events ≡ filter (within c.from_block c.to_block) log
      void less attempt events h =
          let nothing : events ≡ [] = ground arith in
          nothing ∙ sym (filter-within_empty c.from_block c.to_block log less)

  -- The node answers each of these pages.
  abbrev pub HasPages : (ℕ → ℕ → Result QueryError (List A)) → List (ℕ × ℕ) → Type 0
  HasPages query = All λ page. (events : List A) × (query page.0 page.1 ≡ ok events)

  query_all-answers :
      (query : ℕ → ℕ → Result QueryError (List A)) (ranges : List (ℕ × ℕ))
      → HasPages query ranges
      → (events : List A) × (query_all query ranges ≡ ok events)
  unfolding query_all
  query_all-answers query [] h = ([], refl)
  query_all-answers query ((a, b) ∷ ranges) h =
      let page = h.0 in
      let rest = query_all-answers query ranges h.1 in
      (page.0 ++ rest.0, rw (page.1, rest.1, ◌>>=◌))

  -- For a node that answers from a log in block order, when it answers, a query that returns has
  -- exactly the events of the log in the range asked for, in their order, whatever the look-back
  -- and however many attempts have failed.
  pub paginated_event_query-exact :
      (node : ℕ → ℕ → ℕ → Result QueryError (List A)) (c : EventSearchConfig) (log : List A)
      (events : List A)
      → IsHonest node log
      → IsBlockOrdered log
      → paginated_event_query node c ≡ ok events
      → events ≡ filter (within c.from_block c.to_block) log
  unfolding paginated_event_query
  paginated_event_query-exact node c log events honest ordered e =
      elim (Bool-cases (is_zero c.max_block_look_back)) [
        | inl whole ↦
            honest 0 c.from_block c.to_block events (rw (whole, paginated_event_query) at e)
        | inr paged ↦
            let found =
              >>=-eq-ok (get_paginated_block_ranges c) _ (rw (paged, paginated_event_query) at e) in
            let cover = ranges_cover node c log honest ordered found.0 found.1 in
            query_attempts-exact node c log found.0 cover.0 cover.1 cover.2 max_retries 0 events
              found.2
      ]

  -- A query with a look-back that is not 0 returns when the node answers every page of the query in
  -- one of its four attempts, whatever it does on the others and on other ranges.
  pub paginated_event_query-answers :
      (node : ℕ → ℕ → ℕ → Result QueryError (List A)) (c : EventSearchConfig) (good : ℕ)
      → is_zero c.max_block_look_back ≡ false
      → good ≤ max_retries
      → ((pages : List (ℕ × ℕ))
          → get_paginated_block_ranges c ≡ ok pages
          → HasPages (node good) pages)
      → (events : List A) × (paginated_event_query node c ≡ ok events)
  unfolding paginated_event_query
  paginated_event_query-answers node c good paged p answers =
      let (pages, cut) = get_paginated_block_ranges-returns c paged in
      let all = query_all-answers (node good) pages (answers pages cut) in
      let found = query_attempts-answers node c pages good max_retries 0 (omega arith) p all in
      (found.0, rw (paged, paginated_event_query) (rw (cut, ◌>>=◌) found.1))
