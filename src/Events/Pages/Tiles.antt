-- ===== src/Events/Pages/Tiles.antt =====
-- The ranges of getPaginatedBlockRanges tile the blocks that they are asked for.
use acrossclone.Prelude.{
  ℕ, zero, suc, ◌+◌, ◌-◌, ◌*◌, ◌/◌, ◌%◌, ◌≤◌, ◌<◌, min, ◌≡◌, ◌∙◌, List, [], ◌∷◌, some, arith, ok,
}
use native.Mathlib.Nat.{
  add-mul-mod_self_left, mul-mod_left, mul-le-mul_left, mul-div-le, lt-mul-div-succ,
  div-mul-le_self, div-add-mod',
}
use acrossclone.Events.Pages.{EventSearchConfig, ranges_from, get_paginated_block_ranges}

-- The ranges follow on one another from `first` to `last` with no gap and no overlap, none holds
-- more than `size` blocks, and each begins at a multiple of `size`.
abbrev pub Tiles : (size first last : ℕ) → List (ℕ × ℕ) → Type 0
Tiles size first last [] = last < first
Tiles size first last ((from, to) ∷ ranges) =
    (from ≡ first)
    × (from % size ≡ 0)
    × (from ≤ to)
    × (to ≤ last)
    × (to < from + size)
    × Tiles size (to + 1) last ranges

aligned : (q size i : ℕ) → (q * size + size * i) % size ≡ 0
aligned q size i = add-mul-mod_self_left (q * size) size i ∙ mul-mod_left q size

ranges_from-Tiles :
    (q size last rounds i first : ℕ)
    → 0 < size
    → first ≡ q * size + size * i
    → last < q * size + size * (i + rounds)
    → q * size + size * (i + rounds) < last + 1 + size
    → Tiles size first last (ranges_from (q * size) size last rounds i)
unfolding ranges_from
ranges_from-Tiles q size last zero i first p e h k = omega arith
ranges_from-Tiles q size last (suc zero) i first p e h k =
    (omega arith, aligned q size i, omega arith, omega arith, omega arith, omega arith)
ranges_from-Tiles q size last (suc (suc r)) i first p e h k = (
  omega arith,
  aligned q size i,
  omega arith,
  omega arith,
  omega arith,
  ranges_from-Tiles q size last (suc r) (i + 1) _ p full (omega arith) (omega arith),
)
  where
    room : size ≤ size * suc r
    room = let one_le : 1 ≤ suc r = omega arith in omega (arith, mul-le-mul_left size one_le)

    full : min (q * size + size * i + size - 1) last + 1 ≡ q * size + size * (i + 1)
    full = omega arith

-- For a range that is not empty and a look-back that is not 0, the result's ranges follow on one
-- another with no gap and no overlap up to `toBlock`; each holds at most look-back many blocks and
-- begins at a multiple of it; the first begins at the last such multiple up to `fromBlock`.
pub get_paginated_block_ranges-Tiles :
    (c : EventSearchConfig) (size : ℕ)
    → c.max_block_look_back ≡ some size
    → 0 < size
    → c.from_block ≤ c.to_block
    → (ranges : List (ℕ × ℕ)) × (get_paginated_block_ranges c ≡ ok ranges)
      × Tiles size (c.from_block - c.from_block % size) c.to_block ranges
unfolding get_paginated_block_ranges
get_paginated_block_ranges-Tiles c size e p h = (
  ranges_from start size c.to_block rounds 0,
  ground arith,
  ranges_from-Tiles (c.from_block / size) size c.to_block rounds 0 _ p
      (omega (arith, div-add-mod' c.from_block size)) (omega (arith, above)) (omega (arith, below)),
)
  where
    start : ℕ
    start = c.from_block / size * size

    wanted : ℕ
    wanted = c.to_block + 1 - start + size - 1

    rounds : ℕ
    rounds = wanted / size

    start_le : start ≤ c.from_block
    start_le = div-mul-le_self c.from_block size

    above : c.to_block < start + size * rounds
    above = omega (arith, lt-mul-div-succ wanted p, start_le)

    below : start + size * rounds < c.to_block + 1 + size
    below = omega (arith, mul-div-le wanted size, start_le)
