-- ===== src/BlockFinder/Search.antt =====
-- getBlockForTimestamp and findBlock of utils/BlockUtils.ts.
pub mod Cache
pub mod Fetch
pub mod Between
pub mod Back
pub mod Cuts
pub mod Latest
use acrossclone.Prelude.{
  ℕ, zero, suc, ◌+◌, ◌-◌, ◌*◌, ◌/◌, Bool, true, false, ◌&&◌, List, [], ◌∷◌, Option, none, some, ltb,
  leb, ◌==◌, nat_eq, if◌then◌else◌, Result, ok, err, length, get_elem?, get_last?,
}
use acrossclone.BlockFinder.{
  FinderError, provider_failed, undefined_block, start_equals_end, not_between, before_block_0,
  out_of_fuel, Block, Lodash, World, Finder, Call, then_call, Distance, at_least_one, block_before,
  estimate_blocks_elapsed, get_block, get_latest_block,
}

-- `startBlock.number + Math.round(blockPercentile * totalBlockDistance)`, in exact arithmetic.
unfoldable pub estimated_block : Block → Block → ℕ → ℕ
estimated_block start end timestamp =
    let time = end.timestamp - start.timestamp in
    let distance = end.number - start.number in
    start.number + (2 * ((timestamp - start.timestamp) * distance) + time) / (2 * time)

-- The block that the search looks at.
abbrev pub probe : World → Block → Block → ℕ → ℕ
probe w start end timestamp =
    w.lodash.clamp (estimated_block start end timestamp) (start.number + 1) (end.number - 1)

-- `newBlock.timestamp < timestamp`
abbrev pub is_earlier : ℕ → Result FinderError Block → Bool
is_earlier timestamp (ok mid) = ltb mid.timestamp timestamp
is_earlier timestamp (err thrown) = false

-- `findBlock`, for the blocks that an array has at two indices
unfoldable pub find_block : World → (fuel : ℕ) → Option Block → Block → ℕ → Finder → Call Block
find_block w zero start end timestamp f = (f, err out_of_fuel)
find_block w (suc fuel) none end timestamp f =
    if end.timestamp == timestamp then (f, ok end) else (f, err undefined_block)
find_block w (suc fuel) (some start) end timestamp f =
    let found = get_block w (probe w start end timestamp) f in
    let above = then_call found λ g mid. find_block w fuel (some mid) end timestamp g in
    let below = then_call found λ g mid. find_block w fuel (some start) mid timestamp g in
    if end.timestamp == timestamp
    then (f, ok end)
    else if end.number == start.number + 1
    then (f, ok start)
    else if end.number == start.number
    then (f, err start_equals_end)
    else if ltb timestamp end.timestamp && ltb start.timestamp timestamp
    then (if is_earlier timestamp found.1 then above else below)
    else (f, err not_between)

-- The backward search; `fuel` bounds its rounds.
unfoldable pub search_back :
    World → (fuel : ℕ) → (timestamp number multiplier : ℕ) → Distance → Finder → Call Block
unfolding block_before
search_back w zero timestamp number multiplier increment f = (f, err out_of_fuel)
search_back w (suc fuel) timestamp number multiplier increment f =
    let wanted = block_before number multiplier increment in
    then_call (get_block w wanted f) λ g block.
      let rest = search_back w fuel timestamp number (multiplier + 1) increment g in
      if leb block.timestamp timestamp
      then (g, ok block)
      else if ltb 0 wanted
      then rest
      else (g, err before_block_0)

-- `Promise.all` over the hints that are given, with the answers in the order of the calls.
unfoldable pub prime : World → List ℕ → Finder → Call (Unit {0})
prime w [] f = (f, ok tt)
prime w (hint ∷ hints) f = then_call (get_block w hint f) λ g block. prime w hints g

-- The cache reaches back to the timestamp, or is made to.
unfoldable pub reach_back : World → ℕ → Finder → Call (Unit {0})
unfolding estimate_blocks_elapsed search_back
reach_back w timestamp f = elim (get_elem? f.blocks 0) [
  | none ↦ (f, err undefined_block)
  | some initial ↦
      if ltb timestamp initial.timestamp
      then then_call (estimate_blocks_elapsed w (initial.timestamp - timestamp) 1 f) (λ g distance.
        then_call
          (search_back w (initial.number + 1) timestamp initial.number 1 (at_least_one distance) g)
          λ h block. (h, ok tt))
      else (f, ok tt)
]

-- `this.blocks[index - 1]`
abbrev pub get_before : List Block → ℕ → Option Block
get_before blocks zero = none
get_before blocks (suc i) = get_elem? blocks i

-- The search between the two cached blocks around the timestamp.
unfoldable pub search_around : World → ℕ → Finder → Call Block
unfolding find_block
search_around w timestamp f =
    let index = w.lodash.sorted_index_by (λ b. b.timestamp) f.blocks timestamp in
    elim (get_elem? f.blocks index) [
      | none ↦ (f, err undefined_block)
      | some end ↦ find_block w (suc end.number) (get_before f.blocks index) end timestamp f
    ]

-- The part after the cache's last block has been looked at.
unfoldable pub search_cache : World → ℕ → List ℕ → Finder → Call Block
unfolding prime reach_back search_around
search_cache w timestamp hints f =
    then_call (prime w hints f)
      λ g done. then_call (reach_back w timestamp g) λ h done. search_around w timestamp h

-- `this.blocks.length === 0 || this.blocks[this.blocks.length - 1].timestamp < timestamp`
abbrev pub is_too_early : ℕ → List Block → Bool
is_too_early timestamp blocks = elim (get_last? blocks) [
  | none ↦ true
  | some last ↦ ltb last.timestamp timestamp
]

-- `getBlockForTimestamp`
unfoldable pub get_block_for_timestamp : World → ℕ → List ℕ → Finder → Call Block
unfolding search_cache
get_block_for_timestamp w timestamp hints f =
    if is_too_early timestamp f.blocks
    then then_call (get_latest_block w f) (λ g block.
      if leb block.timestamp timestamp then (g, ok block) else search_cache w timestamp hints g)
    else search_cache w timestamp hints f
