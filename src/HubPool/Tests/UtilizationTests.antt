-- ===== src/HubPool/Tests/UtilizationTests.antt =====
-- Utilisations with a cache at concrete times.
use acrossclone.Prelude.{
  ℕ, ◌+◌, ◌≡◌, refl, sym, ap, true, get_or, [], ◌∷◌, Option, some, none, ok, err, arith, All, subst,
}
use acrossclone.HubPool.{time_not_in_seconds}
use acrossclone.HubPool.Utilization.{
  should_cache, UtilizationKey, utilization_key, UtilizationCalls, resolve_utilization, uncached,
  get_utilization,
}
use acrossclone.HubPool.Utilization.Cache.{get_utilization-uncached, get_utilization-exact}

abbrev calls : UtilizationCalls
calls = record {
  liquidity_utilization_current = λ token block. ok (block + 1);
  liquidity_utilization_post_relay = λ token amount block. ok (block + amount);
}

should_cache_runs : should_cache 1_700_000_000 1_700_004_000 3_600 ≡ ok true
unfolding should_cache
should_cache_runs = refl

should_cache_throws : should_cache 1_700_000_000_000 1_700_004_000 3_600 ≡ err time_not_in_seconds
unfolding should_cache
should_cache_throws = refl

get_utilization-uncached_example :
    get_utilization calls
      (some λ _. some 5)
      "0xdai"
      100
      7
      1_700_000_000
      3_600
      1_700_009_000
      1_700_009_001
    ≡ uncached (resolve_utilization calls "0xdai" 100 7)
get_utilization-uncached_example =
    get_utilization-uncached calls (some λ _. some 5) "0xdai" 100 7 1_700_000_000 3_600
      1_700_009_000 1_700_009_001 refl refl (omega arith) (omega arith)

abbrev empty_cache : UtilizationKey → Option ℕ
empty_cache _ = none

empty_cache_honest :
    (get : UtilizationKey → Option ℕ) (u : ℕ)
    → some empty_cache ≡ some get
    → get (utilization_key "0xdai" 100 7) ≡ some u
    → resolve_utilization calls "0xdai" 100 7 ≡ ok u
empty_cache_honest get u same hit =
    let is : empty_cache ≡ get =
      ap (λ (o : Option (UtilizationKey → Option ℕ)). get_or o empty_cache) same in
    let clash : none ≡ some u =
      subst (λ (g : UtilizationKey → Option ℕ). g (utilization_key "0xdai" 100 7) ≡ some u) (sym is)
        hit in
    cc

-- A quote time far enough ahead does use the cache.
get_utilization_runs :
    get_utilization calls
      (some empty_cache)
      "0xdai"
      100
      7
      1_700_009_000
      3_600
      1_700_000_000
      1_700_000_001
    ≡ ok (107, (utilization_key "0xdai" 100 7, 107) ∷ [])
unfolding get_utilization
get_utilization_runs = refl

get_utilization-exact_example :
    (resolve_utilization calls "0xdai" 100 7 ≡ ok 107)
    × All
        (λ (w : UtilizationKey × ℕ). (w.0 ≡ utilization_key "0xdai" 100 7) × (w.1 ≡ 107))
        ((utilization_key "0xdai" 100 7, 107) ∷ [])
get_utilization-exact_example =
    get_utilization-exact calls (some empty_cache) "0xdai" 100 7 1_700_009_000 3_600 1_700_000_000
      1_700_000_001 107 ((utilization_key "0xdai" 100 7, 107) ∷ []) empty_cache_honest
      get_utilization_runs
