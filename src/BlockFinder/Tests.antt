-- ===== src/BlockFinder/Tests.antt =====
-- Runs of the block finder on a small chain.
use acrossclone.Prelude.{
  ℕ, suc, ◌+◌, ◌*◌, ◌≤◌, ◌<◌, ◌≡◌, refl, false, List, [], ◌∷◌, Option, none, some, ltb, Bool-cases,
  inl, inr, if◌then◌else◌, ok, arith, All, take, drop, min, max,
}
use acrossclone.Prelude.Int.{ℤ, pos, negsuc, ◌-ℤ◌}
use acrossclone.BlockFinder.{
  Block, Lodash, World, Finder, average_block_time, no_opts, get_latest_block, get_block,
  BlockTimeAverage,
}
use acrossclone.Prelude.Dict.{lookup}
use acrossclone.BlockFinder.Search.{estimated_block, get_block_for_timestamp}
use acrossclone.BlockFinder.Search.Cache.{IsOrderedBy, IsLodash, IsChain}
use acrossclone.BlockFinder.Search.Between.{Finds}
use acrossclone.BlockFinder.Search.Latest.{get_block_for_timestamp-Finds}

abbrev clamp : ℕ → ℕ → ℕ → ℕ
clamp n low high = max low (min n high)

abbrev sorted_index_by : (Block → ℕ) → List Block → ℕ → ℕ
sorted_index_by key [] n = 0
sorted_index_by key (b ∷ bs) n =
    let rest = sorted_index_by key bs n in if ltb (key b) n then suc rest else 0

abbrev lodash : Lodash
lodash = record { clamp = clamp; sorted_index_by = sorted_index_by }

All-ge :
    (key : Block → ℕ) (n m : ℕ) (bs : List Block)
    → n ≤ m
    → All (λ b. m ≤ key b) bs
    → All (λ b. n ≤ key b) bs
All-ge key n m [] h k = tt
All-ge key n m (b ∷ bs) h k = (omega (arith, k.0), All-ge key n m bs h k.1)

sorted_index_by-splits :
    (key : Block → ℕ) (bs : List Block) (n : ℕ)
    → IsOrderedBy key bs
    → let i = sorted_index_by key bs n in
      All (λ b. key b < n) (take i bs) × All (λ b. n ≤ key b) (drop i bs)
sorted_index_by-splits key [] n h = (tt, tt)
sorted_index_by-splits key (b ∷ bs) n h =
    let rest = sorted_index_by-splits key bs n h.1 in
    elim (Bool-cases (ltb (key b) n)) [
      | inl early ↦ rw early ((ground arith, rest.0), rest.1)
      | inr late ↦ rw late (tt, (ground arith, All-ge key n (key b) bs (ground arith) h.0))
    ]

lodash-IsLodash : IsLodash lodash
lodash-IsLodash = record {
  clamps = λ n low high h. (omega arith, omega arith);
  splits = sorted_index_by-splits;
}

-- A block every 2 seconds, from second 1000.
abbrev ts : ℕ → ℕ
ts n = 1000 + 2 * n

abbrev serve : ℤ → Option Block
serve (pos n) = some (record { number = n; timestamp = ts n })
serve (negsuc n) = none

abbrev world : World
world = record {
  chain_id = 1;
  get_block = serve;
  latest = some (record { number = 500; timestamp = ts 500 });
  block_number = 500;
  current_time = 2000;
  optimism = 10;
  chain_is_op_stack = λ n. false;
  lodash = lodash;
}

abbrev finder : Finder
finder = record { blocks = []; block_times = [] }

world-IsChain : IsChain world ts 500
unfolding ◌-ℤ◌
world-IsChain = record {
  lodash = lodash-IsLodash;
  grows = λ a b h. omega arith;
  answers = λ n h. refl;
  newest = refl;
  measures = (
    record { number = 490; timestamp = 1980 },
    record { number = 370; timestamp = 1740 },
    refl,
    refl,
  );
}

get_block_for_timestamp_runs :
    (get_block_for_timestamp world 1501 [] finder).1
    ≡ ok (record { number = 250; timestamp = 1500 })
unfolding get_block_for_timestamp get_latest_block lookup ◌-ℤ◌ get_block estimated_block
get_block_for_timestamp_runs = refl

get_block_for_timestamp-Finds_example :
    Finds ts 500 1501 finder (get_block_for_timestamp world 1501 (100 ∷ []) finder)
get_block_for_timestamp-Finds_example =
    get_block_for_timestamp-Finds world-IsChain 1501 (100 ∷ []) finder
      (record { genuine = tt; increasing = tt }) (omega arith) (omega arith, tt)

abbrev average_of : ℕ → ℕ → BlockTimeAverage
average_of elapsed count = record {
  elapsed = pos elapsed;
  count = count;
  block_range = 1;
  timestamp = 2000;
}

-- A chain with an average of its own in the cache is answered with Optimism's.
average_block_time_of_optimism :
    (average_block_time world no_opts
      (record { blocks = []; block_times = (1, average_of 25 2) ∷ (10, average_of 2 1) ∷ [] })).1
    ≡ ok (average_of 2 1)
unfolding average_block_time lookup
average_block_time_of_optimism = refl
