-- ===== src/HubPool/Utilization/Cache.antt =====
-- The cache of utilisations: it does not change an answer, and a past quote time never uses it.
use Prim.Native.String.{String}
use acrossclone.Prelude.{
  ℕ, ◌≤◌, ◌<◌, ◌≡◌, refl, subst, true, false, List, Option, none, some, Bool-cases, Option-cases,
  inl, inr, Result, ok, >>=-eq-ok, ok-inj, arith, All,
}
use acrossclone.Prelude.Int.{pos, sub_ℕ, leb_ℤ}
use acrossclone.HubPool.{HubPoolError}
use acrossclone.HubPool.Utilization.{
  has_ten_digits, should_cache, UtilizationKey, utilization_key, UtilizationCalls,
  resolve_utilization, Resolved, uncached, resolve_and_set, get_with_cache, get_utilization,
}

should_cache-past :
    (now timestamp time_to_cache : ℕ)
    → has_ten_digits now ≡ true
    → has_ten_digits timestamp ≡ true
    → timestamp ≤ now
    → 0 < time_to_cache
    → should_cache now timestamp time_to_cache ≡ ok false
unfolding should_cache
should_cache-past now timestamp time_to_cache d e p q =
    let older : leb_ℤ (pos time_to_cache) (sub_ℕ timestamp now) ≡ false = ground arith in
    rw (should_cache, d, e, older) refl

-- For a quote time that is not in the future, both times of ten digits, and an age above 0, the cache is neither read nor
-- written: the utilisation is always asked of the contract.
pub get_utilization-uncached :
    (calls : UtilizationCalls) (cache : Option (UtilizationKey → Option ℕ)) (token : String)
    (block_number deposit_amount timestamp time_to_cache now later : ℕ)
    → has_ten_digits now ≡ true
    → has_ten_digits timestamp ≡ true
    → timestamp ≤ now
    → 0 < time_to_cache
    → get_utilization calls cache token block_number deposit_amount timestamp time_to_cache now
        later
      ≡ uncached (resolve_utilization calls token block_number deposit_amount)
unfolding get_utilization get_with_cache
get_utilization-uncached calls none token block_number deposit_amount timestamp time_to_cache now
      later d e p q =
    refl
get_utilization-uncached calls (some get) token block_number deposit_amount timestamp time_to_cache
      now later d e p q =
    rw (should_cache-past now timestamp time_to_cache d e p q) refl

abbrev Answers : Result HubPoolError ℕ → UtilizationKey → Resolved → Type 0
Answers resolver key s =
    (resolver ≡ ok s.0) × All (λ (w : UtilizationKey × ℕ). (w.0 ≡ key) × (w.1 ≡ s.0)) s.1

uncached-Answers :
    (resolver : Result HubPoolError ℕ) (key : UtilizationKey) (s : Resolved)
    → uncached resolver ≡ ok s
    → Answers resolver key s
uncached-Answers resolver key s e =
    let (u, answer, same) = >>=-eq-ok resolver _ e in
    subst (Answers resolver key) (ok-inj same) (answer, tt)

resolve_and_set-Answers :
    (resolver : Result HubPoolError ℕ) (key : UtilizationKey) (later timestamp time_to_cache : ℕ)
    (s : Resolved)
    → resolve_and_set resolver key later timestamp time_to_cache ≡ ok s
    → Answers resolver key s
unfolding resolve_and_set
resolve_and_set-Answers resolver key later timestamp time_to_cache s e =
    let (u, answer, f) = >>=-eq-ok resolver _ e in
    let (cacheable, c, same) = >>=-eq-ok (should_cache later timestamp time_to_cache) _ f in
    elim (Bool-cases cacheable) [
      | inl stored ↦
          subst (Answers resolver key) (ok-inj (rw stored at same)) (answer, ((refl, refl), tt))
      | inr direct ↦ subst (Answers resolver key) (ok-inj (rw direct at same)) (answer, tt)
    ]

-- A cache whose entry under the key is what the contract answers does not change the utilisation,
-- and what is written to it is what the contract answers.
pub get_utilization-exact :
    (calls : UtilizationCalls) (cache : Option (UtilizationKey → Option ℕ)) (token : String)
    (block_number deposit_amount timestamp time_to_cache now later utilization : ℕ)
    (written : List (UtilizationKey × ℕ))
    → ((get : UtilizationKey → Option ℕ) (u : ℕ)
        → cache ≡ some get
        → get (utilization_key token block_number deposit_amount) ≡ some u
        → resolve_utilization calls token block_number deposit_amount ≡ ok u)
    → get_utilization calls cache token block_number deposit_amount timestamp time_to_cache now
        later
      ≡ ok (utilization, written)
    → (resolve_utilization calls token block_number deposit_amount ≡ ok utilization)
      × All
          (λ w. (w.0 ≡ utilization_key token block_number deposit_amount) × (w.1 ≡ utilization))
          written
unfolding get_utilization get_with_cache resolve_and_set
get_utilization-exact calls none token block_number deposit_amount timestamp time_to_cache now later
      utilization written honest e =
    uncached-Answers _ _ (utilization, written) e
get_utilization-exact calls (some get) token block_number deposit_amount timestamp time_to_cache now
      later utilization written honest e =
    let key = utilization_key token block_number deposit_amount in
    let resolver = resolve_utilization calls token block_number deposit_amount in
    let (cacheable, c, f) = >>=-eq-ok (should_cache now timestamp time_to_cache) _ e in
    elim (Bool-cases cacheable) [
      | inr direct ↦ uncached-Answers resolver key (utilization, written) (rw direct at f)
      | inl stored ↦ elim (Option-cases (get key)) [
        | inr (u, hit) ↦
            subst (Answers resolver key) (ok-inj (rw (stored, hit) at f))
              (honest get u refl hit, tt)
        | inl miss ↦
            resolve_and_set-Answers resolver key later timestamp time_to_cache
              (utilization, written) (rw (stored, miss) at f)
      ]
    ]
