-- ===== src/BlockFinder.antt =====
-- BlockFinder and averageBlockTime of utils/BlockUtils.ts. The provider, lodash's `clamp` and
-- `sortedIndexBy` and the constants of the chains are parameters.
pub mod Search
mod Tests
use acrossclone.Prelude.{
  ℕ, zero, suc, ◌+◌, ◌-◌, ◌*◌, ◌/◌, max, Bool, true, false, ◌||◌, not, List, [], ◌∷◌, ◌++◌, Option,
  none, some, get_or, ltb, leb, ◌==◌, nat_eq, if◌then◌else◌, Result, ok, err, length, get_elem?,
  take, drop, get_last?,
}
use acrossclone.Prelude.Int.{ℤ, pos, negsuc, sub_ℕ, ◌-ℤ◌}
use acrossclone.Prelude.Dict.{Dict, lookup, insert}

pub data FinderError : Type 0 where
  provider_failed undefined_block start_equals_end not_between before_block_0 : FinderError
  out_of_fuel : FinderError

pub record Block : Type 0 where
  pub number : ℕ
  pub timestamp : ℕ

-- An average is a quotient: `elapsed` seconds in `count` blocks.
pub record BlockTimeAverage : Type 0 where
  pub elapsed : ℤ
  pub count : ℕ
  pub block_range : ℕ
  pub timestamp : ℕ

-- lodash: `clamp(n, lower, upper)`, and `sortedIndexBy` of an array and a value, by one of their fields.
pub record Lodash : Type 0 where
  pub clamp : ℕ → ℕ → ℕ → ℕ
  pub sorted_index_by : (Block → ℕ) → List Block → ℕ → ℕ

-- The provider and the surroundings during a call. `none`: the provider throws or knows no block.
pub record World : Type 0 where
  pub chain_id : ℕ
  pub get_block : ℤ → Option Block
  pub latest : Option Block
  pub block_number : ℕ
  pub current_time : ℕ
  pub optimism : ℕ
  pub chain_is_op_stack : ℕ → Bool
  pub lodash : Lodash

-- The finder's cache, and the module's `blockTimes`.
pub record Finder : Type 0 where
  pub blocks : List Block
  pub block_times : Dict ℕ BlockTimeAverage

-- A method that changes the finder, and then returns or throws.
abbrev pub Call {ℓ} : Type ℓ → Type ℓ
Call A = Finder × Result FinderError A

abbrev pub then_call {ℓ κ} : {A : Type ℓ} {B : Type κ} → Call A → (Finder → A → Call B) → Call B
then_call (f, ok a) next = next f a
then_call (f, err thrown) next = (f, err thrown)

pub record Opts : Type 0 where
  pub high_block : Option ℕ
  pub high_block_offset : Option ℕ
  pub block_range : Option ℕ

abbrev pub no_opts : Opts
no_opts = record { high_block = none; high_block_offset = none; block_range = none }

-- `cacheTTL`
abbrev pub cache_ttl : ℕ
cache_ttl = 60 * 15

-- The condition of `?:` is the whole of `blockTimes[chainId] ?? chainIsOPStack(chainId)`.
unfoldable pub cached_average : World → Finder → Option BlockTimeAverage
cached_average w f =
    let found = lookup w.optimism f.block_times in
    elim (lookup w.chain_id f.block_times) [
      | some _ ↦ found
      | none ↦ if w.chain_is_op_stack w.chain_id then found else none
    ]

abbrev high_block_of : World → Opts → ℤ
high_block_of w o = elim (o.high_block) [
  | some block ↦ pos block
  | none ↦ pos w.block_number -ℤ pos (get_or o.high_block_offset 10)
]

abbrev pub measured : World → ℕ → Block → Block → BlockTimeAverage
measured w range first last = record {
  elapsed = pos last.timestamp -ℤ pos first.timestamp;
  count = range;
  block_range = range;
  timestamp = w.current_time;
}

-- The average from the provider's blocks, which is kept.
unfoldable pub measure : World → Opts → Finder → Call BlockTimeAverage
measure w o f =
    let high = high_block_of w o in
    let range = get_or o.block_range 120 in
    elim (w.get_block (high -ℤ pos range)) [
      | none ↦ (f, err provider_failed)
      | some first ↦ elim (w.get_block high) [
        | none ↦ (f, err provider_failed)
        | some last ↦
            let average = measured w range first last in
            (record f { block_times = insert w.chain_id average f.block_times }, ok average)
      ]
    ]

-- `averageBlockTime`
unfoldable pub average_block_time : World → Opts → Finder → Call BlockTimeAverage
unfolding cached_average measure
average_block_time w o f = elim (cached_average w f) [
  | none ↦ measure w o f
  | some cache ↦
      if ltb w.current_time (cache.timestamp + cache_ttl) then (f, ok cache) else measure w o f
]

-- A number of blocks as a JavaScript number; every negative one is `below_zero`.
pub data Distance : Type 0 where
  below_zero : Distance
  finite : ℕ → Distance
  infinite : Distance

-- `Math.floor(seconds / average)`
abbrev pub floor_quotient : ℕ → BlockTimeAverage → Distance
floor_quotient seconds average = elim (average.elapsed) [
  | negsuc n ↦ if seconds == 0 || average.count == 0 then finite 0 else below_zero
  | pos zero ↦ infinite
  | pos (suc n) ↦ finite (seconds * average.count / suc n)
]

-- `estimateBlocksElapsed`, for a whole cushion and more than 0 seconds
unfoldable pub estimate_blocks_elapsed : World → (seconds cushion : ℕ) → Finder → Call Distance
unfolding average_block_time
estimate_blocks_elapsed w seconds cushion f =
    then_call (average_block_time w no_opts f)
      λ g average. (g, ok (floor_quotient (seconds * (cushion + 1)) average))

-- `Math.max(distance, 1)`
abbrev at_least_one : Distance → Distance
at_least_one below_zero = finite 1
at_least_one (finite n) = finite (max n 1)
at_least_one infinite = infinite

-- `Math.max(0, number - multiplier * increment)`
unfoldable pub block_before : ℕ → ℕ → Distance → ℕ
block_before number multiplier below_zero = number
block_before number multiplier (finite n) = number - multiplier * n
block_before number multiplier infinite = 0

-- `this.blocks.splice(index, 0, block)`
unfoldable pub splice_in : ℕ → Block → List Block → List Block
splice_in index block blocks = take index blocks ++ block ∷ drop index blocks

-- `this.blocks[index]`, if it has this number
abbrev pub at_number : ℕ → Option Block → Option Block
at_number number none = none
at_number number (some block) = if block.number == number then some block else none

-- Where `sortedIndexBy(this.blocks, { number }, "number")` points.
abbrev pub number_index : World → ℕ → List Block → ℕ
number_index w number blocks = w.lodash.sorted_index_by (λ b. b.number) blocks number

-- The block of this number in the cache.
abbrev pub cached_block : World → ℕ → List Block → Option Block
cached_block w number blocks = at_number number (get_elem? blocks (number_index w number blocks))

-- The code after `await`: the block is put into the cache as that is now.
unfoldable pub store_block : World → ℕ → Block → Finder → Finder × Block
unfolding splice_in
store_block w number block f = elim (cached_block w number f.blocks) [
  | some cached ↦ (f, cached)
  | none ↦ (record f { blocks = splice_in (number_index w number f.blocks) block f.blocks }, block)
]

-- `getBlock`
unfoldable pub get_block : World → ℕ → Finder → Call Block
unfolding store_block
get_block w number f = elim (cached_block w number f.blocks) [
  | some cached ↦ (f, ok cached)
  | none ↦ elim (w.get_block (pos number)) [
    | none ↦ (f, err provider_failed)
    | some block ↦ let stored = store_block w number block f in (stored.0, ok stored.1)
  ]
]

-- `getLatestBlock`
unfoldable pub get_latest_block : World → Finder → Call Block
unfolding store_block
get_latest_block w f = elim (w.latest) [
  | none ↦ (f, err provider_failed)
  | some block ↦ let stored = store_block w block.number block f in (stored.0, ok stored.1)
]
