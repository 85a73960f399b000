-- ===== src/DepositUtils.antt =====
-- utils/DepositUtils.ts: the deposit of a fill, from the client, a cache or the contract. The cache
-- is an interface, and so is the check that a cached deposit is well formed (superstruct).
pub mod Historical
use Prim.Native.String.{String}
use acrossclone.Prelude.{
  ℕ, Bool, true, false, ◌&&◌, ◌||◌, not, Option, none, some, ltb, leb, ◌==◌, nat_eq, string_eq,
  if◌then◌else◌, Result, ok, err, ◌>>=◌, get_or,
}
use acrossclone.FlowUtils.{validate_fill_for_deposit}
use acrossclone.SpokePool.{
  SpokePool, SpokePoolError, origin_chain_mismatch, client_not_updated, type_error, RelayData,
  Deposit, DepositWithBlock, FillWithBlock,
}
use acrossclone.SpokePool.Queries.{get_deposit, deposit_of}
use acrossclone.SpokePool.Find.{DepositCalls, find_deposit}

pub data InvalidFill : Type 0 where
  deposit_id_invalid deposit_id_not_found fill_mismatch : InvalidFill

pub data DepositSearchResult : Type 0 where
  found : DepositWithBlock → DepositSearchResult
  not_found : InvalidFill → DepositSearchResult

-- What the cache has for a fill's key, once `isDepositFormedCorrectly` has looked at it.
pub data CachedDeposit : Type 0 where
  well_formed : DepositWithBlock → CachedDeposit
  malformed : CachedDeposit

pub record DepositCache : Type 0 where
  pub get_deposit : FillWithBlock → Result SpokePoolError (Option CachedDeposit)
  pub set_deposit : DepositWithBlock → Result SpokePoolError (Unit {0})

-- `cachedDeposit`, where there is a cache and its deposit is well formed.
unfoldable pub cached_deposit :
    Option DepositCache → FillWithBlock → Result SpokePoolError (Option DepositWithBlock)
cached_deposit none fill = ok none
cached_deposit (some cache) fill = do
  cached ← cache.get_deposit fill
  elim cached [
    | none ↦ ok none
    | some malformed ↦ ok none
    | some (well_formed deposit) ↦ ok (some deposit)
  ]

abbrev pub store_deposit : Option DepositCache → DepositWithBlock → Result SpokePoolError (Unit {0})
store_deposit none deposit = ok tt
store_deposit (some cache) deposit = cache.set_deposit deposit

unfoldable pub find_and_store :
    DepositCalls
    → Option DepositCache
    → SpokePool
    → FillWithBlock
    → Result SpokePoolError DepositWithBlock
unfolding find_deposit
find_and_store calls cache s fill = do
  deposit ← find_deposit calls s fill.deposit_id fill.destination_chain_id fill.depositor
  stored ← store_deposit cache deposit
  ok deposit

-- The deposit from the cache or else from the contract.
unfoldable pub load_deposit :
    DepositCalls
    → Option DepositCache
    → SpokePool
    → FillWithBlock
    → Result SpokePoolError DepositWithBlock
unfolding cached_deposit find_and_store
load_deposit calls cache s fill = do
  cached ← cached_deposit cache fill
  elim cached [ some deposit ↦ ok deposit | none ↦ find_and_store calls cache s fill ]

module _ (hash : RelayData → ℕ → String) where
  -- `isDefined(deposit) && validateFillForDeposit(fill, deposit)`, with the code where it fails.
  unfoldable pub search_buffer : SpokePool → FillWithBlock → DepositSearchResult
  unfolding get_deposit validate_fill_for_deposit
  search_buffer s fill = elim (get_deposit s fill.deposit_id) [
    | none ↦ not_found deposit_id_not_found
    | some deposit ↦
        if validate_fill_for_deposit hash fill.relay_data fill.destination_chain_id
          (some deposit.deposit)
        then found deposit
        else not_found fill_mismatch
  ]

  unfoldable pub search_history :
      DepositCalls
      → Option DepositCache
      → SpokePool
      → FillWithBlock
      → Result SpokePoolError DepositSearchResult
  unfolding load_deposit validate_fill_for_deposit
  search_history calls cache s fill = do
    deposit ← load_deposit calls cache s fill
    ok (
        if validate_fill_for_deposit hash fill.relay_data fill.destination_chain_id
          (some deposit.deposit)
        then found deposit
        else not_found fill_mismatch)

  unfoldable pub query_historical_deposit_for_fill :
      DepositCalls
      → Option DepositCache
      → SpokePool
      → FillWithBlock
      → Result SpokePoolError DepositSearchResult
  unfolding search_buffer search_history
  query_historical_deposit_for_fill calls cache s fill =
      if not (fill.origin_chain_id == s.chain_id)
      then err origin_chain_mismatch
      else if not s.is_updated
      then err client_not_updated
      else if ltb fill.deposit_id s.first_deposit_id_for_spoke_pool
          || ltb s.last_deposit_id_for_spoke_pool fill.deposit_id
      then ok (not_found deposit_id_invalid)
      else if leb s.earliest_deposit_id_queried fill.deposit_id
          && leb fill.deposit_id s.latest_deposit_id_queried
      then ok (search_buffer s fill)
      else search_history calls cache s fill

-- A message that is left out is the empty one.
unfoldable pub is_message_empty : Option String → Bool
is_message_empty message = let text = get_or message "0x" in text == "" || text == "0x"

abbrev is_some {ℓ} : {A : Type ℓ} → Option A → Bool
is_some none = false
is_some (some a) = true

unfoldable pub is_deposit_sped_up : Deposit → Bool
is_deposit_sped_up deposit =
    is_some deposit.speed_up_signature && is_some deposit.updated_output_amount

-- A deposit that was sped up with no message fails the assertion.
unfoldable pub resolve_deposit_message : Deposit → Result SpokePoolError String
unfolding is_deposit_sped_up
resolve_deposit_message deposit =
    elim (if is_deposit_sped_up deposit then deposit.updated_message else some deposit.message) [
      | none ↦ err type_error
      | some message ↦ ok message
    ]
