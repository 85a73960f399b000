-- ===== src/BlockFinder/Search/Latest.antt =====
-- getBlockForTimestamp of utils/BlockUtils.ts finds the block that is asked for.
use acrossclone.Prelude.{
  ℕ, zero, suc, ◌≤◌, ◌<◌, ◌≡◌, refl, true, List, some, inl, inr, ◌==◌, nat_eq, leb, Bool-cases,
  Option-cases, arith, All, get_elem?, take, drop,
}
use acrossclone.Prelude.Search.{All-mem, mem-get_elem?}
use acrossclone.BlockFinder.{Block, World, Finder, Call, then_call, get_latest_block}
use acrossclone.BlockFinder.Search.{
  find_block, prime, reach_back, search_around, search_cache, is_too_early, get_before,
  get_block_for_timestamp,
}
use acrossclone.BlockFinder.Search.Cache.{IsGenuine, IsCache, IsChain, IsCache→IsOrderedBy}
use acrossclone.BlockFinder.Search.Fetch.{then_call-ok, get_latest_block-Gets}
use acrossclone.BlockFinder.Search.Between.{Finds, Finds-after, hit-IsLatestUpTo, find_block-Finds}
use acrossclone.BlockFinder.Search.Back.{Reaches, Covers, prime-Leads, reach_back-Leads}
use acrossclone.BlockFinder.Search.Cuts.{
  get_before-All, get_elem?-All, get_before-lt, get_elem?-exists, get_before-exists, get_elem?-0-le,
  is_too_early-Covers,
}

module _ {w : World} {ts : ℕ → ℕ} {head : ℕ} (chain : IsChain w ts head) where
  between_at :
      (timestamp : ℕ) (f : Finder) (i : ℕ) (end : Block)
      → IsCache ts head f.blocks
      → Reaches timestamp f.blocks
      → All (λ b. b.timestamp < timestamp) (take i f.blocks)
      → All (λ b. timestamp ≤ b.timestamp) (drop i f.blocks)
      → get_elem? f.blocks i ≡ some end
      → Finds ts head timestamp f
          (find_block w (suc end.number) (get_before f.blocks i) end timestamp f)
  unfolding find_block
  between_at timestamp f zero end c (b, m, early) before after e =
      let ordered = IsCache→IsOrderedBy ts head chain.grows f.blocks c.genuine c.increasing in
      let least = get_elem?-0-le f.blocks ordered e m in
      let late = get_elem?-All (λ b. timestamp ≤ b.timestamp) f.blocks 0 after e in
      let real = All-mem (IsGenuine ts head) f.blocks c.genuine (mem-get_elem? f.blocks 0 e) in
      let exact : end.timestamp ≡ timestamp = omega (arith, least, early, late) in
      let hit : (end.timestamp == timestamp) ≡ true = ground arith in
      rw (hit, find_block)
        (record {
          found = end;
          returns = refl;
          latest = hit-IsLatestUpTo chain.grows real exact;
          grown = record { cache = c; kept = λ a k. k };
        })
  between_at timestamp f (suc i) end c reaches before after e =
      elim (Option-cases (get_before f.blocks (suc i))) [
        | inl missing ↦ absurd (get_before-exists f.blocks i e missing)
        | inr (start, s) ↦
            let low = get_before-All (λ b. b.timestamp < timestamp) f.blocks (suc i) before s in
            let m = mem-get_elem? f.blocks i s in
            let k = mem-get_elem? f.blocks (suc i) e in
            rw s (
              find_block-Finds chain (suc end.number) start end timestamp f c
                (record {
                  start_genuine = All-mem (IsGenuine ts head) f.blocks c.genuine m;
                  end_genuine = All-mem (IsGenuine ts head) f.blocks c.genuine k;
                  apart = get_before-lt f.blocks (suc i) c.increasing s e;
                  low = low;
                  high = get_elem?-All (λ b. timestamp ≤ b.timestamp) f.blocks (suc i) after e;
                })
                (omega arith))
      ]

  search_around-Finds :
      (timestamp : ℕ) (f : Finder)
      → IsCache ts head f.blocks
      → Reaches timestamp f.blocks
      → Covers timestamp f.blocks
      → Finds ts head timestamp f (search_around w timestamp f)
  unfolding search_around
  search_around-Finds timestamp f c reaches (b, m, late) =
      let i = w.lodash.sorted_index_by (λ b. b.timestamp) f.blocks timestamp in
      let ordered = IsCache→IsOrderedBy ts head chain.grows f.blocks c.genuine c.increasing in
      let parts = chain.lodash.splits (λ b. b.timestamp) f.blocks timestamp ordered in
      elim (Option-cases (get_elem? f.blocks i)) [
        | inl missing ↦ absurd (get_elem?-exists timestamp f.blocks i parts.0 m late missing)
        | inr (end, e) ↦
            rw (e, search_around) (between_at timestamp f i end c reaches parts.0 parts.1 e)
      ]

  search_cache-Finds :
      (timestamp : ℕ) (hints : List ℕ) (f : Finder)
      → IsCache ts head f.blocks
      → ts 0 ≤ timestamp
      → All (λ n. n ≤ head) hints
      → Covers timestamp f.blocks
      → Finds ts head timestamp f (search_cache w timestamp hints f)
  unfolding search_cache
  search_cache-Finds timestamp hints f c first known (late, m, covers) =
      let g = (prime w hints f).0 in
      let primed = prime-Leads chain hints f c known in
      let covered : Covers timestamp g.blocks = (late, primed.grown.kept late m, covers) in
      let back = reach_back-Leads chain timestamp g primed.grown.cache first covered in
      let h = (reach_back w timestamp g).0 in
      let found =
        search_around-Finds timestamp h back.grown.cache back.holds
          (late, back.grown.kept late covered.1, covers) in
      let search : Finder → Unit {0} → Call Block = λ k done. search_around w timestamp k in
      let next : Finder → Unit {0} → Call Block =
        λ k done. then_call (reach_back w timestamp k) search in
      rw (then_call-ok (prime w hints f) next primed.returns, search_cache)
        (rw (then_call-ok (reach_back w timestamp g) search back.returns)
          (Finds-after primed.grown (Finds-after back.grown found)))

  -- `getBlockForTimestamp` returns, for a timestamp that is not before the first block's and hints
  -- up to the newest block, whatever cache of the chain's blocks it starts with: a block that is not
  -- after the timestamp, behind which every block of the chain is after it, unless both have just
  -- this timestamp. The cache is a cache of the chain's blocks again and has lost none.
  pub get_block_for_timestamp-Finds :
      (timestamp : ℕ) (hints : List ℕ) (f : Finder)
      → IsCache ts head f.blocks
      → ts 0 ≤ timestamp
      → All (λ n. n ≤ head) hints
      → Finds ts head timestamp f (get_block_for_timestamp w timestamp hints f)
  unfolding get_block_for_timestamp
  get_block_for_timestamp-Finds timestamp hints f c first known =
      elim (Bool-cases (is_too_early timestamp f.blocks)) [
        | inl early ↦
            let got = get_latest_block-Gets chain f c in
            let g = (get_latest_block w f).0 in
            let real = got.genuine in
            let number = got.numbered in
            rw (early, get_block_for_timestamp)
              (rw got.returns (elim (Bool-cases (leb got.found.timestamp timestamp)) [
                | inl past ↦ rw past (record {
                  found = got.found;
                  returns = refl;
                  latest = record {
                    genuine = real;
                    up_to = ground arith;
                    beyond = λ later l m. absurd (omega (arith, number));
                  };
                  grown = got.grown;
                })
                | inr later ↦
                    let rest =
                      search_cache-Finds timestamp hints g got.grown.cache first known
                        (got.found, got.cached, ground arith) in
                    rw later (Finds-after got.grown rest)
              ]))
        | inr covers ↦
            rw (covers, get_block_for_timestamp)
              (search_cache-Finds timestamp hints f c first known
                (is_too_early-Covers timestamp f.blocks covers))
      ]
