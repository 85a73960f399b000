-- ===== src/BlockFinder/Search/Between.antt =====
-- findBlock of utils/BlockUtils.ts: the interpolation search ends with the block that is asked for.
use acrossclone.Prelude.{
  ℕ, zero, suc, ◌+◌, ◌-◌, ◌≤◌, ◌<◌, ◌≡◌, ◌⊎◌, refl, true, false, some, inl, inr, ◌==◌, nat_eq, ltb,
  Bool-cases, ok, arith,
}
use acrossclone.BlockFinder.{Block, World, Finder, Call, get_block}
use acrossclone.BlockFinder.Search.{estimated_block, probe, find_block}
use acrossclone.BlockFinder.Search.Cache.{IsGenuine, IsCache, IsChain}
use acrossclone.BlockFinder.Search.Fetch.{Grows, Grows-trans, get_block-Gets}

-- The block is not after the timestamp. Every later one is, or both have just this timestamp.
pub record IsLatestUpTo (ts : ℕ → ℕ) (head timestamp : ℕ) (b : Block) : Type 0 where
  pub genuine : IsGenuine ts head b
  pub up_to : b.timestamp ≤ timestamp
  pub beyond :
      (later : ℕ)
      → b.number < later
      → later ≤ head
      → (timestamp < ts later) ⊎ ((ts later ≡ timestamp) × (b.timestamp ≡ timestamp))

-- The call returns such a block.
pub record Finds (ts : ℕ → ℕ) (head timestamp : ℕ) (f : Finder) (c : Call Block) : Type 0 where
  pub found : Block
  pub returns : c.1 ≡ ok found
  pub latest : IsLatestUpTo ts head timestamp found
  pub grown : Grows ts head f c.0

pub Finds-after :
    {ts : ℕ → ℕ} {head timestamp : ℕ} {f g : Finder} {c : Call Block}
    → Grows ts head f g
    → Finds ts head timestamp g c
    → Finds ts head timestamp f c
Finds-after p q = record {
  found = q.found;
  returns = q.returns;
  latest = q.latest;
  grown = Grows-trans p q.grown;
}

-- A block with just this timestamp, and one right before a block that is after it.
pub hit-IsLatestUpTo :
    {ts : ℕ → ℕ} {head timestamp : ℕ} {b : Block}
    → ((m n : ℕ) → m ≤ n → ts m ≤ ts n)
    → IsGenuine ts head b
    → b.timestamp ≡ timestamp
    → IsLatestUpTo ts head timestamp b
hit-IsLatestUpTo {ts} {head} {timestamp} {b} grows g e = record {
  genuine = g;
  up_to = omega arith;
  beyond = λ later l h.
      let up = grows b.number later (omega (arith, l)) in
      let real = g.0 in
      elim (Bool-cases (ltb timestamp (ts later))) [
        | inl after ↦ inl (ground arith)
        | inr same ↦ inr (ground arith, e)
      ];
}

adjacent-IsLatestUpTo :
    {ts : ℕ → ℕ} {head timestamp : ℕ} {b c : Block}
    → ((m n : ℕ) → m ≤ n → ts m ≤ ts n)
    → IsGenuine ts head b
    → IsGenuine ts head c
    → c.number ≡ b.number + 1
    → b.timestamp < timestamp
    → timestamp < c.timestamp
    → IsLatestUpTo ts head timestamp b
adjacent-IsLatestUpTo {ts} {head} {timestamp} {b} {c} grows g h e low high = record {
  genuine = g;
  up_to = omega arith;
  beyond = λ later l m. inl (omega (arith, grows c.number later (omega (arith, l)), h.0));
}

module _ {w : World} {ts : ℕ → ℕ} {head : ℕ} (chain : IsChain w ts head) where
  -- What the search knows of the two blocks that it stands between.
  pub record IsBetween (start end : Block) (timestamp : ℕ) : Type 0 where
    pub start_genuine : IsGenuine ts head start
    pub end_genuine : IsGenuine ts head end
    pub apart : start.number < end.number
    pub low : start.timestamp < timestamp
    pub high : timestamp ≤ end.timestamp

  -- With `fuel` steps left the search ends well.
  abbrev Ends : (fuel timestamp : ℕ) → Type 0
  Ends fuel timestamp =
      (start end : Block) (f : Finder)
      → IsCache ts head f.blocks
      → IsBetween start end timestamp
      → end.number < fuel + start.number
      → Finds ts head timestamp f (find_block w fuel (some start) end timestamp f)

  look_between :
      (fuel timestamp : ℕ)
      → Ends fuel timestamp
      → (start end : Block) (f : Finder) → IsCache ts head f.blocks
      → IsBetween start end timestamp
      → end.number < suc fuel + start.number
      → (end.timestamp == timestamp) ≡ false
      → (end.number == start.number + 1) ≡ false
      → Finds ts head timestamp f (find_block w (suc fuel) (some start) end timestamp f)
  unfolding find_block
  look_between fuel timestamp recur start end f c b fuelled miss far =
      let ends = b.apart in
      let low = b.low in
      let high = b.high in
      let n = probe w start end timestamp in
      let differ : (end.number == start.number) ≡ false = ground arith in
      let before : ltb timestamp end.timestamp ≡ true = ground arith in
      let after : ltb start.timestamp timestamp ≡ true = ground arith in
      let bounds =
        chain.lodash.clamps (estimated_block start end timestamp) (start.number + 1)
          (end.number - 1) (ground arith) in
      let last = b.end_genuine.1 in
      let got = get_block-Gets chain n f c (omega (arith, bounds, last)) in
      let placed = got.numbered in
      let mid = got.found in
      let g = (get_block w n f).0 in
      rw (miss, far, differ, before, after, find_block)
        (rw got.returns (elim (Bool-cases (ltb mid.timestamp timestamp)) [
          | inl earlier ↦
              let done =
                recur mid end g got.grown.cache
                  (record {
                    start_genuine = got.genuine;
                    end_genuine = b.end_genuine;
                    apart = omega (arith, placed, bounds);
                    low = ground arith;
                    high = high;
                  })
                  (omega (arith, placed, bounds, fuelled)) in
              rw earlier (Finds-after got.grown done)
          | inr later ↦
              let done =
                recur start mid g got.grown.cache
                  (record {
                    start_genuine = b.start_genuine;
                    end_genuine = got.genuine;
                    apart = omega (arith, placed, bounds);
                    low = low;
                    high = ground arith;
                  })
                  (omega (arith, placed, bounds, fuelled)) in
              rw later (Finds-after got.grown done)
        ]))

  pub find_block-Finds :
      (fuel : ℕ) (start end : Block) (timestamp : ℕ) (f : Finder)
      → IsCache ts head f.blocks
      → IsBetween start end timestamp
      → end.number < fuel + start.number
      → Finds ts head timestamp f (find_block w fuel (some start) end timestamp f)
  unfolding find_block
  find_block-Finds zero start end timestamp f c b fuelled = absurd (omega (arith, b.apart, fuelled))
  find_block-Finds (suc fuel) start end timestamp f c b fuelled =
      let recur : Ends fuel timestamp = λ s e g. find_block-Finds fuel s e timestamp g in
      elim (Bool-cases (end.timestamp == timestamp)) [
        | inl hit ↦
            rw (hit, find_block)
              (record {
                found = end;
                returns = refl;
                latest = hit-IsLatestUpTo chain.grows b.end_genuine (ground arith);
                grown = record { cache = c; kept = λ a m. m };
              })
        | inr miss ↦ elim (Bool-cases (end.number == start.number + 1)) [
          | inl next ↦
              rw (miss, next, find_block)
                (record {
                  found = start;
                  returns = refl;
                  latest =
                      adjacent-IsLatestUpTo chain.grows b.start_genuine b.end_genuine (ground arith)
                        b.low (let up = b.high in ground arith);
                  grown = record { cache = c; kept = λ a m. m };
                })
          | inr far ↦ look_between fuel timestamp recur start end f c b fuelled miss far
        ]
      ]
