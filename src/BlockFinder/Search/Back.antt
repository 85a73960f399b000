-- ===== src/BlockFinder/Search/Back.antt =====
-- What getBlockForTimestamp of utils/BlockUtils.ts does before it searches: it loads the hints and
-- looks backward until the cache reaches the timestamp.
use acrossclone.Prelude.{
  ℕ, zero, suc, ◌+◌, ◌-◌, ◌*◌, ◌≤◌, ◌<◌, max, ◌≡◌, refl, true, List, [], ◌∷◌, Memᴰ, none, inl, inr,
  ltb, leb, Bool-cases, Option-cases, ok, arith, All, get_elem?,
}
use native.Mathlib.Nat.{mul-le-mul_left}
use acrossclone.Prelude.Search.{All-mem, mem-get_elem?}
use mathlib.Core.List.Memᴰ
use acrossclone.BlockFinder.{
  Block, World, Finder, BlockTimeAverage, Call, then_call, no_opts, cache_ttl, cached_average,
  measure, measured, floor_quotient, average_block_time, Distance, below_zero, finite, infinite,
  at_least_one, block_before, estimate_blocks_elapsed, get_block,
}
use acrossclone.BlockFinder.Search.{search_back, prime, reach_back}
use acrossclone.BlockFinder.Search.Cache.{IsGenuine, IsCache, IsChain}
use acrossclone.BlockFinder.Search.Fetch.{Grows, Grows-trans, then_call-ok, get_block-Gets}

-- A call that returns and leaves a finder that has grown, with a property of its cache.
pub record Leads (ts : ℕ → ℕ) (head : ℕ) (P : List Block → Type 0) (f : Finder)
    (c : Call (Unit {0})) : Type 0 where
  pub returns : c.1 ≡ ok tt
  pub grown : Grows ts head f c.0
  pub holds : P c.0.blocks

-- The cache has a block that is not after the timestamp, or one that is not before it.
abbrev pub Reaches : ℕ → List Block → Type 0
Reaches timestamp bs = (b : Block) × Memᴰ b bs × (b.timestamp ≤ timestamp)

abbrev pub Covers : ℕ → List Block → Type 0
Covers timestamp bs = (b : Block) × Memᴰ b bs × (timestamp ≤ b.timestamp)

-- A positive distance takes at least a block for each round.
block_before_lt :
    (number multiplier : ℕ) (d : Distance)
    → 0 < block_before number multiplier (at_least_one d)
    → multiplier < number
unfolding block_before
block_before_lt number multiplier below_zero h = omega arith
block_before_lt number multiplier (finite n) h =
    omega (arith, mul-le-mul_left {m = 1} {n = max n 1} multiplier (omega arith))
block_before_lt number multiplier infinite h = absurd (omega arith)

block_before-le : (number multiplier : ℕ) (d : Distance) → block_before number multiplier d ≤ number
unfolding block_before
block_before-le number multiplier below_zero = omega arith
block_before-le number multiplier (finite n) = omega arith
block_before-le number multiplier infinite = omega arith

-- The call returns and leaves the cache alone.
abbrev Estimates : {A : Type 0} → Finder → Call A → Type 0
Estimates {A} f c = (a : A) × (c.1 ≡ ok a) × (c.0.blocks ≡ f.blocks)

get_elem?-0 : (bs : List Block) {b : Block} → Memᴰ b bs → get_elem? bs 0 ≡ none → ⊥
get_elem?-0 [] m e = Memᴰ.not-nil m
get_elem?-0 (b ∷ bs) m e = cc

positive : (ts : ℕ → ℕ) (timestamp m n : ℕ) → m ≡ n → timestamp < ts m → ts 0 ≤ timestamp → 0 < n
positive ts timestamp zero n e h first = absurd (omega arith)
positive ts timestamp (suc m) n e h first = omega arith

module _ {w : World} {ts : ℕ → ℕ} {head : ℕ} (chain : IsChain w ts head) where
  pub prime-Leads :
      (hints : List ℕ) (f : Finder)
      → IsCache ts head f.blocks
      → All (λ n. n ≤ head) hints
      → Leads ts head (λ bs. Unit) f (prime w hints f)
  unfolding prime
  prime-Leads [] f c h = record {
    returns = refl;
    grown = record { cache = c; kept = λ b m. m };
    holds = tt;
  }
  prime-Leads (hint ∷ hints) f c h =
      let got = get_block-Gets chain hint f c h.0 in
      let rest = prime-Leads hints (get_block w hint f).0 got.grown.cache h.1 in
      rw got.returns
        (record { returns = rest.returns; grown = Grows-trans got.grown rest.grown; holds = tt })

  -- The backward search ends at a block that is not after the timestamp.
  pub record Backs (timestamp : ℕ) (f : Finder) (c : Call Block) : Type 0 where
    pub found : Block
    pub returns : c.1 ≡ ok found
    pub up_to : found.timestamp ≤ timestamp
    pub cached : Memᴰ found c.0.blocks
    pub grown : Grows ts head f c.0

  search_back-Backs :
      (fuel timestamp number multiplier : ℕ) (d : Distance) (f : Finder)
      → IsCache ts head f.blocks
      → ts 0 ≤ timestamp
      → number ≤ head
      → multiplier ≤ number + 1
      → number + 1 < fuel + multiplier
      → Backs timestamp f (search_back w fuel timestamp number multiplier (at_least_one d) f)
  unfolding search_back
  search_back-Backs zero timestamp number multiplier d f c first low m fuelled =
      absurd (omega arith)
  search_back-Backs (suc fuel) timestamp number multiplier d f c first low m fuelled =
      let n = block_before number multiplier (at_least_one d) in
      let bound = block_before-le number multiplier (at_least_one d) in
      let got = get_block-Gets chain n f c (omega (arith, bound)) in
      let recur =
        search_back-Backs fuel timestamp number (multiplier + 1) d (get_block w n f).0
          got.grown.cache first low in
      rw got.returns (elim (Bool-cases (leb got.found.timestamp timestamp)) [
        | inl hit ↦ rw hit (record {
          found = got.found;
          returns = refl;
          up_to = ground arith;
          cached = got.cached;
          grown = got.grown;
        })
        | inr miss ↦
            let left : 0 < n =
              positive ts timestamp got.found.number n got.numbered
                (let real = got.genuine.0 in ground arith) first in
            let more : ltb 0 n ≡ true = ground arith in
            let next = block_before_lt number multiplier d left in
            let rest = recur (omega (arith, next)) (omega arith) in
            rw (miss, more)
              (record {
                found = rest.found;
                returns = rest.returns;
                up_to = rest.up_to;
                cached = rest.cached;
                grown = Grows-trans got.grown rest.grown;
              })
      ])

  measure-Estimates : (f : Finder) → Estimates f (measure w no_opts f)
  unfolding measure
  measure-Estimates f =
      let (high, low, p, q) = chain.measures in
      rw (q, p, measure) (measured w 120 low high, refl, refl)

  average_block_time-Estimates : (f : Finder) → Estimates f (average_block_time w no_opts f)
  unfolding average_block_time
  average_block_time-Estimates f = elim (Option-cases (cached_average w f)) [
    | inl missing ↦ rw (missing, average_block_time) (measure-Estimates f)
    | inr (cache, hit) ↦ elim (Bool-cases (ltb w.current_time (cache.timestamp + cache_ttl))) [
      | inl fresh ↦ rw (hit, fresh, average_block_time) (cache, refl, refl)
      | inr stale ↦ rw (hit, stale, average_block_time) (measure-Estimates f)
    ]
  ]

  estimate_blocks_elapsed-Estimates :
      (seconds cushion : ℕ) (f : Finder) → Estimates f (estimate_blocks_elapsed w seconds cushion f)
  unfolding estimate_blocks_elapsed
  estimate_blocks_elapsed-Estimates seconds cushion f =
      let got = average_block_time-Estimates f in
      let next : Finder → BlockTimeAverage → Call Distance =
        λ g average. (g, ok (floor_quotient (seconds * (cushion + 1)) average)) in
      rw (then_call-ok (average_block_time w no_opts f) next got.1, estimate_blocks_elapsed)
        (floor_quotient (seconds * (cushion + 1)) got.0, refl, got.2)

  back_of :
      (timestamp : ℕ) (initial : Block) (f : Finder)
      → IsCache ts head f.blocks
      → ts 0 ≤ timestamp
      → initial.number ≤ head
      → Leads ts head (Reaches timestamp) f (
          then_call (estimate_blocks_elapsed w (initial.timestamp - timestamp) 1 f) (λ g distance.
            then_call
              (search_back w
                (initial.number + 1)
                timestamp
                initial.number
                1
                (at_least_one distance)
                g)
              λ h block. (h, ok tt)))
  back_of timestamp initial f c first low =
      let got = estimate_blocks_elapsed-Estimates (initial.timestamp - timestamp) 1 f in
      let g = (estimate_blocks_elapsed w (initial.timestamp - timestamp) 1 f).0 in
      let back =
        search_back-Backs (initial.number + 1) timestamp initial.number 1 got.0 g (rw got.2 c) first
          low (omega arith) (omega arith) in
      rw got.1 (
        rw back.returns (record {
          returns = refl;
          grown = record { cache = back.grown.cache; kept = λ b m. back.grown.kept b (rw got.2 m) };
          holds = (back.found, back.cached, back.up_to);
        }))

  pub reach_back-Leads :
      (timestamp : ℕ) (f : Finder)
      → IsCache ts head f.blocks
      → ts 0 ≤ timestamp
      → Covers timestamp f.blocks
      → Leads ts head (Reaches timestamp) f (reach_back w timestamp f)
  unfolding reach_back
  reach_back-Leads timestamp f c first covered = elim (Option-cases (get_elem? f.blocks 0)) [
    | inl missing ↦ absurd (get_elem?-0 f.blocks covered.1 missing)
    | inr (initial, e) ↦
        let m = mem-get_elem? f.blocks 0 e in
        let real = All-mem (IsGenuine ts head) f.blocks c.genuine m in
        elim (Bool-cases (ltb timestamp initial.timestamp)) [
          | inl later ↦ rw (e, later, reach_back) (back_of timestamp initial f c first real.1)
          | inr reached ↦
              rw (e, reached, reach_back)
                (record {
                  returns = refl;
                  grown = record { cache = c; kept = λ b k. k };
                  holds = (initial, m, ground arith);
                })
        ]
  ]
