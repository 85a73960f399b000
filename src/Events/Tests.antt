-- ===== src/Events/Tests.antt =====
-- Runs of the sorts and of a paginated query, and their theorems at concrete events.
use acrossclone.Prelude.{
  ℕ, ◌≡◌, sym, subst, ◌∙◌, ok-inj, ◌+◌, ◌-◌, leb, ◌%◌, refl, Bool, true, false, List, [], ◌∷◌, some,
  arith, Permᴰ, Result, ok, err, ◌==◌, ◌&&◌, nat_eq, if◌then◌else◌, Bool-cases, inl, inr,
}
use acrossclone.Prelude.Search.{filter}
use acrossclone.Events.{
  EventPlace, Sortable, is_event_older, place_sortable, sort_events_ascending,
  sort_events_descending,
}
use acrossclone.Events.Order.{
  IsAscending, IsDescending, sort_events_ascending-sorts, sort_events_descending-sorts,
  filter-sort_events_ascending, filter-sort_events_descending, older,
}
use acrossclone.Events.Pages.{
  EventSearchConfig, QueryError, rejected, within, get_paginated_block_ranges,
  paginated_event_query,
}
use acrossclone.Events.Pages.Tiles.{Tiles, get_paginated_block_ranges-Tiles}
use acrossclone.Events.Pages.Query.{
  IsHonest, HasPages, paginated_event_query-exact, paginated_event_query-answers,
}

abbrev at : ℕ → ℕ → ℕ → EventPlace
at block transaction log = record {
  block_number = block;
  transaction_index = transaction;
  log_index = log;
}

abbrev mixed : List EventPlace
mixed = at 7 1 0 ∷ at 3 2 5 ∷ at 7 0 4 ∷ at 3 2 1 ∷ []

sort_events_ascending_runs :
    sort_events_ascending mixed ≡ at 3 2 1 ∷ at 3 2 5 ∷ at 7 0 4 ∷ at 7 1 0 ∷ []
unfolding sort_events_ascending
sort_events_ascending_runs = refl

sort_events_ascending-sorts_runs :
    Permᴰ (sort_events_ascending mixed) mixed × IsAscending (sort_events_ascending mixed)
sort_events_ascending-sorts_runs = sort_events_ascending-sorts mixed

sort_events_descending-sorts_example :
    Permᴰ (sort_events_descending mixed) mixed × IsDescending (sort_events_descending mixed)
sort_events_descending-sorts_example = sort_events_descending-sorts mixed

-- Two events of one place, told apart by a tag.
instance abbrev tagged_sortable : Sortable (EventPlace × ℕ)
tagged_sortable = record { place = λ e. e.0 }

abbrev tagged : List (EventPlace × ℕ)
tagged = (at 7 1 0, 1) ∷ (at 3 2 5, 2) ∷ (at 7 1 0, 3) ∷ []

abbrev in_block_7 : EventPlace × ℕ → Bool
in_block_7 e = e.0.block_number == 7 && e.0.transaction_index == 1 && e.0.log_index == 0

in_block_7_place :
    (x y : EventPlace × ℕ) → in_block_7 x ≡ true → in_block_7 y ≡ true → older x y ≡ false
unfolding is_event_older
in_block_7_place x y h k = ground arith

same_place_stays : filter in_block_7 (sort_events_ascending tagged) ≡ filter in_block_7 tagged
same_place_stays = filter-sort_events_ascending in_block_7 tagged in_block_7_place

filter-sort_events_descending_runs :
    filter in_block_7 (sort_events_descending tagged) ≡ filter in_block_7 tagged
filter-sort_events_descending_runs =
    filter-sort_events_descending in_block_7 tagged in_block_7_place

-- The range 5 to 45 with a look-back of 20.
abbrev search : EventSearchConfig
search = record { from_block = 5; to_block = 45; max_block_look_back = some 20 }

get_paginated_block_ranges_runs :
    get_paginated_block_ranges search ≡ ok ((0, 19) ∷ (20, 39) ∷ (40, 45) ∷ [])
unfolding get_paginated_block_ranges
get_paginated_block_ranges_runs = refl

get_paginated_block_ranges-Tiles_example :
    (ranges : List (ℕ × ℕ)) × (get_paginated_block_ranges search ≡ ok ranges)
    × Tiles 20 (5 - 5 % 20) 45 ranges
get_paginated_block_ranges-Tiles_example =
    get_paginated_block_ranges-Tiles search 20 refl (omega arith) (omega arith)

abbrev log : List EventPlace
log = at 4 0 0 ∷ at 19 1 0 ∷ at 40 0 2 ∷ at 46 0 0 ∷ []

-- A node that fails on its first attempt.
abbrev node : ℕ → ℕ → ℕ → Result QueryError (List EventPlace)
node attempt from to = if attempt == 0 then err rejected else ok (filter (within from to) log)

node-IsHonest : IsHonest node log
node-IsHonest attempt from to events e = elim (Bool-cases (attempt == 0)) [
  | inl first ↦ absurd (ground arith)
  | inr later ↦ ground arith
]

abbrev found : List EventPlace
found = at 19 1 0 ∷ at 40 0 2 ∷ []

paginated_event_query_runs : paginated_event_query node search ≡ ok found
unfolding paginated_event_query
paginated_event_query_runs = refl

paginated_event_query-exact_example : found ≡ filter (within 5 45) log
unfolding paginated_event_query
paginated_event_query-exact_example =
    paginated_event_query-exact node search log found node-IsHonest (omega arith) refl

-- A node that also refuses ranges of more than 20 blocks.
abbrev capped_node : ℕ → ℕ → ℕ → Result QueryError (List EventPlace)
capped_node attempt from to = if leb (from + 20) to then err rejected else node attempt from to

abbrev pages_found : List (ℕ × ℕ)
pages_found = (0, 19) ∷ (20, 39) ∷ (40, 45) ∷ []

capped_node-HasPages :
    (pages : List (ℕ × ℕ))
    → get_paginated_block_ranges search ≡ ok pages
    → HasPages (capped_node 1) pages
capped_node-HasPages pages e =
    let same : pages_found ≡ pages = ok-inj (sym get_paginated_block_ranges_runs ∙ e) in
    subst (HasPages (capped_node 1)) same (
      (filter (within 0 19) log, refl),
      ((filter (within 20 39) log, refl), ((filter (within 40 45) log, refl), tt)),
    )

paginated_event_query-answers_example :
    (events : List EventPlace) × (paginated_event_query capped_node search ≡ ok events)
paginated_event_query-answers_example =
    paginated_event_query-answers capped_node search 1 refl (omega arith) capped_node-HasPages
