-- ===== src/HubPool/Utilization.antt =====
-- The utilisation of a HubPool token and its cache: getUtilization of clients/HubPoolClient.ts and
-- shouldCache of utils/CachingUtils.ts. The contract and the cache are parameters; a cache's key is
-- the data that its text is made of.
pub mod Cache
use Prim.Native.String.{String}
use acrossclone.Prelude.{
  ℕ, ◌≡◌, Bool, true, false, ◌&&◌, not, List, [], ◌∷◌, Option, none, some, leb, ltb, ◌==◌, nat_eq,
  if◌then◌else◌, Result, ok, err, ◌>>=◌,
}
use acrossclone.Prelude.Int.{pos, sub_ℕ, leb_ℤ}
use acrossclone.HubPool.{HubPoolError, time_not_in_seconds}

-- `time.toString().length === 10`
abbrev pub has_ten_digits : ℕ → Bool
has_ten_digits time = leb 1_000_000_000 time && ltb time 10_000_000_000

unfoldable pub should_cache :
    (event_timestamp latest_time caching_max_age : ℕ) → Result HubPoolError Bool
should_cache event_timestamp latest_time caching_max_age =
    if not (has_ten_digits event_timestamp)
    then err time_not_in_seconds
    else if not (has_ten_digits latest_time)
    then err time_not_in_seconds
    else ok (leb_ℤ (pos caching_max_age) (sub_ℕ latest_time event_timestamp))

-- `deposit_amount` is none in the key for an amount of 0.
pub record UtilizationKey : Type 0 where
  pub hub_pool_token : String
  pub block_number : ℕ
  pub deposit_amount : Option ℕ

abbrev pub utilization_key : String → (block_number deposit_amount : ℕ) → UtilizationKey
utilization_key token block_number deposit_amount = record {
  hub_pool_token = token;
  block_number = block_number;
  deposit_amount = if deposit_amount == 0 then none else some deposit_amount;
}

-- The contract's two calls at a block.
pub record UtilizationCalls : Type 0 where
  pub liquidity_utilization_current : String → (block : ℕ) → Result HubPoolError ℕ
  pub liquidity_utilization_post_relay : String → (deposit_amount block : ℕ) → Result HubPoolError ℕ

-- The `resolver`.
abbrev pub resolve_utilization :
    UtilizationCalls → String → (block_number deposit_amount : ℕ) → Result HubPoolError ℕ
resolve_utilization calls token block_number deposit_amount =
    if deposit_amount == 0
    then calls.liquidity_utilization_current token block_number
    else calls.liquidity_utilization_post_relay token deposit_amount block_number

-- The utilisation, and what is written to the cache.
abbrev pub Resolved : Type 0
Resolved = ℕ × List (UtilizationKey × ℕ)

-- A resolved value without a write.
abbrev pub uncached : Result HubPoolError ℕ → Result HubPoolError Resolved
uncached r = r >>= λ utilization. ok (utilization, [])

-- After a miss; the time is read again.
unfoldable pub resolve_and_set :
    Result HubPoolError ℕ
    → UtilizationKey
    → (later timestamp time_to_cache : ℕ) → Result HubPoolError Resolved
unfolding should_cache
resolve_and_set resolver key later timestamp time_to_cache = do
  utilization ← resolver
  cacheable ← should_cache later timestamp time_to_cache
  ok (utilization, if cacheable then (key, utilization) ∷ [] else [])

-- With a cache: the arguments of `shouldCache` are in the order of the source.
unfoldable pub get_with_cache :
    Result HubPoolError ℕ
    → (cache : UtilizationKey → Option ℕ) → UtilizationKey
    → (now later timestamp time_to_cache : ℕ) → Result HubPoolError Resolved
unfolding should_cache resolve_and_set
get_with_cache resolver cache key now later timestamp time_to_cache = do
  cacheable ← should_cache now timestamp time_to_cache
  if not cacheable then uncached resolver else elim (cache key) [
    | some utilization ↦ ok (utilization, [])
    | none ↦ resolve_and_set resolver key later timestamp time_to_cache
  ]

-- `now` and `later` are the two readings of the clock.
unfoldable pub get_utilization :
    UtilizationCalls
    → (cache : Option (UtilizationKey → Option ℕ)) → (hub_pool_token : String)
    → (block_number deposit_amount timestamp time_to_cache now later : ℕ)
    → Result HubPoolError Resolved
unfolding get_with_cache
get_utilization calls cache token block_number deposit_amount timestamp time_to_cache now later =
    let resolver = resolve_utilization calls token block_number deposit_amount in
    elim cache [
      | none ↦ uncached resolver
      | some get ↦
          get_with_cache resolver get (utilization_key token block_number deposit_amount) now later
            timestamp time_to_cache
    ]
