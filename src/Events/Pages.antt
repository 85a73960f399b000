-- ===== src/Events/Pages.antt =====
-- Paginated event queries of utils/EventUtils.ts. The node (ethers' `queryFilter`) is a parameter.
pub mod Tiles
pub mod Query
use acrossclone.Prelude.{
  ℕ, zero, suc, ◌+◌, ◌-◌, ◌*◌, ◌/◌, min, Bool, false, ◌&&◌, List, [], ◌∷◌, ◌++◌, Option, none, some,
  ltb, leb, ◌==◌, nat_eq, if◌then◌else◌, Result, ok, err, ◌>>=◌,
}
use acrossclone.Prelude.Search.{filter}
use acrossclone.Events.{Sortable, block_of}

pub record EventSearchConfig : Type 0 where
  pub from_block : ℕ
  pub to_block : ℕ
  pub max_block_look_back : Option ℕ

pub data QueryError : Type 0 where
  zero_look_back rejected : QueryError

-- The `for` loop: `rounds` iterations are left, and the next one is number `i`.
unfoldable pub ranges_from : (start look_back to : ℕ) → (rounds i : ℕ) → List (ℕ × ℕ)
ranges_from start look_back to zero i = []
ranges_from start look_back to (suc rounds) i =
    let inner_from = start + look_back * i in
    (inner_from, min (inner_from + look_back - 1) to)
    ∷ ranges_from start look_back to rounds (i + 1)

-- `Math.ceil(n / d)`
abbrev pub ceil_div : ℕ → ℕ → ℕ
ceil_div n d = (n + d - 1) / d

unfoldable pub get_paginated_block_ranges : EventSearchConfig → Result QueryError (List (ℕ × ℕ))
unfolding ranges_from
get_paginated_block_ranges c = elim c.max_block_look_back [
  | none ↦ ok ((c.from_block, c.to_block) ∷ [])
  | some look_back ↦
      if ltb c.to_block c.from_block
      then ok []
      else if look_back == 0
      then err zero_look_back
      else let start = c.from_block / look_back * look_back in
        ok (ranges_from start look_back c.to_block (ceil_div (c.to_block + 1 - start) look_back) 0)
]

-- `maxBlockLookBack === 0`
abbrev pub is_zero : Option ℕ → Bool
is_zero none = false
is_zero (some n) = n == 0

abbrev pub max_retries : ℕ
max_retries = 3

module _ {ℓ} {A : Type ℓ} ⦃s : Sortable A⦄ where
  -- The block lies in the range, both ends included.
  abbrev pub within : ℕ → ℕ → A → Bool
  within from to x = leb from (block_of x) && leb (block_of x) to

  -- `Promise.all` over the ranges, then `flat`: one rejection rejects the whole.
  unfoldable pub query_all :
      (ℕ → ℕ → Result QueryError (List A)) → List (ℕ × ℕ) → Result QueryError (List A)
  query_all query [] = ok []
  query_all query ((from, to) ∷ ranges) = do
    events ← query from to
    rest ← query_all query ranges
    ok (events ++ rest)

  -- The `try` block, with `left` retries to go; the node's answers may differ by attempt.
  unfoldable pub query_attempts :
      (ℕ → ℕ → ℕ → Result QueryError (List A))
      → EventSearchConfig
      → List (ℕ × ℕ)
      → (left retry_count : ℕ) → Result QueryError (List A)
  query_attempts node c ranges zero k = do
    events ← query_all (node k) ranges
    ok (filter (within c.from_block c.to_block) events)
  query_attempts node c ranges (suc left) k =
      let again = query_attempts node c ranges left (k + 1) in
      elim (query_all (node k) ranges) [
        | ok events ↦ ok (filter (within c.from_block c.to_block) events)
        | err e ↦ again
      ]

  unfoldable pub paginated_event_query :
      (ℕ → ℕ → ℕ → Result QueryError (List A)) → EventSearchConfig → Result QueryError (List A)
  unfolding query_attempts query_all get_paginated_block_ranges filter
  paginated_event_query node c =
      if is_zero c.max_block_look_back
      then node 0 c.from_block c.to_block
      else get_paginated_block_ranges c >>= λ ranges. query_attempts node c ranges max_retries 0
