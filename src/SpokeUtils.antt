-- ===== src/SpokeUtils.antt =====
-- The two binary searches of utils/SpokeUtils.ts. What the SpokePool contract answers at a block is
-- a parameter; the source's cache of its answers is left out, since they do not change.
pub mod Deposits
pub mod Fills
mod Tests
use acrossclone.Prelude.{
  ℕ, zero, suc, ◌+◌, ◌-◌, ◌/◌, min, max, Bool, true, false, not, ◌&&◌, List, Option, none, some,
  get_or, ltb, leb, ◌==◌, nat_eq, if◌then◌else◌, Result, ok, err, ◌>>=◌,
}
use acrossclone.Prelude.Search.{includes}

pub data SpokeUtilsError : Type 0 where
  client_not_updated low_above_high low_before_deployment no_searches : SpokeUtilsError
  deposit_after_range deposit_before_range search_failed : SpokeUtilsError
  range_is_empty same_chain filled_before unexpected_fill_status call_failed : SpokeUtilsError

-- What the search reads of a SpokePoolClient. The deployment block is not negative.
pub record SpokePoolState : Type 0 where
  pub deployment_block : ℕ
  pub latest_block_searched : ℕ
  pub is_updated : Bool

-- The body of the loop: the range after one look at its middle.
-- `targetDepositId <= midDepositId - 1`
unfoldable pub narrow : (target mid mid_deposit_id low high : ℕ) → ℕ × ℕ
narrow target mid mid_deposit_id low high =
    if leb (target + 1) mid_deposit_id then (low, mid) else (mid + 1, high)

-- `do .. while (++searches <= maxSearches && low < high)`, with `left` searches to go after this one.
unfoldable pub deposit_search :
    (deposit_id_at_block : ℕ → Result SpokeUtilsError ℕ)
    → (target left low high : ℕ) → Result SpokeUtilsError (ℕ × ℕ)
unfolding narrow
deposit_search deposit_id_at_block target zero low high = do
  let mid = (low + high) / 2
  mid_deposit_id ← deposit_id_at_block mid
  ok (narrow target mid mid_deposit_id low high)
deposit_search deposit_id_at_block target (suc left) low high = do
  let mid = (low + high) / 2
  mid_deposit_id ← deposit_id_at_block mid
  let range = narrow target mid mid_deposit_id low high
  let next = deposit_search deposit_id_at_block target left range.0 range.1
  if ltb range.0 range.1 then next else ok range

-- The sanity check at the end.
abbrev pub check_range : ℕ × ℕ → Result SpokeUtilsError (ℕ × ℕ)
check_range range = if ltb range.1 range.0 then err search_failed else ok range

-- The search after the checks of its arguments.
unfoldable pub search_between :
    (deposit_id_at_block : ℕ → Result SpokeUtilsError ℕ)
    → (deployment_block target low high max_searches : ℕ) → Result SpokeUtilsError (ℕ × ℕ)
unfolding deposit_search
search_between deposit_id_at_block deployment_block target low high max_searches = do
  highest ← deposit_id_at_block high
  lowest ← deposit_id_at_block (max deployment_block (low - 1))
  if leb highest target
      then err deposit_after_range
      else if ltb target lowest
      then err deposit_before_range
      else deposit_search deposit_id_at_block target max_searches low high >>= check_range

unfoldable pub get_block_range_for_deposit_id :
    (deposit_id_at_block : ℕ → Result SpokeUtilsError ℕ)
    → SpokePoolState
    → (target init_low init_high max_searches : ℕ) → Result SpokeUtilsError (ℕ × ℕ)
unfolding search_between
get_block_range_for_deposit_id deposit_id_at_block pool target init_low init_high max_searches =
    let high = min init_high pool.latest_block_searched in
    if not pool.is_updated
    then err client_not_updated
    else if ltb high init_low
    then err low_above_high
    else if ltb init_low pool.deployment_block
    then err low_before_deployment
    else if max_searches == 0
    then err no_searches
    else search_between deposit_id_at_block pool.deployment_block target init_low high max_searches

pub data FillStatus : Type 0 where
  unfilled requested_slow_fill filled : FillStatus

-- The contract's number for the status, 0 to 2.
abbrev pub to_fill_status : ℕ → Result SpokeUtilsError FillStatus
to_fill_status zero = ok unfilled
to_fill_status (suc zero) = ok requested_slow_fill
to_fill_status (suc (suc zero)) = ok filled
to_fill_status (suc (suc (suc _))) = err unexpected_fill_status

-- `fill_statuses` is the contract's call at a block, for the relay in question.
unfoldable pub relay_fill_status :
    (fill_statuses : ℕ → Result SpokeUtilsError ℕ) → (block : ℕ) → Result SpokeUtilsError FillStatus
relay_fill_status fill_statuses block = do status ← fill_statuses block; to_fill_status status

abbrev pub is_filled : FillStatus → Bool
is_filled unfilled = false
is_filled requested_slow_fill = false
is_filled filled = true

-- `do .. while (lowBlockNumber < highBlockNumber)`; `fuel` bounds the rounds that are left.
unfoldable pub fill_search :
    (fill_statuses : ℕ → Result SpokeUtilsError ℕ) → (fuel low high : ℕ) → Result SpokeUtilsError ℕ
unfolding relay_fill_status
fill_search fill_statuses zero low high = ok low
fill_search fill_statuses (suc fuel) low high = do
  let mid = (high + low) / 2
  status ← relay_fill_status fill_statuses mid
  let range : ℕ × ℕ = if is_filled status then (low, mid) else (mid + 1, high)
  let next = fill_search fill_statuses fuel range.0 range.1
  if ltb range.0 range.1 then next else ok range.0

-- The destination chain: that of the provider's network in production, else the contract's.
abbrev pub destination_chain : (chain_ids : List ℕ) → (origin network_chain spoke_chain : ℕ) → ℕ
destination_chain chain_ids origin network_chain spoke_chain =
    if includes chain_ids origin then network_chain else spoke_chain

-- The search once the end blocks are known. It never needs more rounds than there are blocks.
unfoldable pub fill_block_between :
    (fill_statuses : ℕ → Result SpokeUtilsError ℕ)
    → (low high : ℕ) → Result SpokeUtilsError (Option ℕ)
unfolding fill_search relay_fill_status
fill_block_between fill_statuses low high = do
  initial ← relay_fill_status fill_statuses low
  final ← relay_fill_status fill_statuses high
  if not (is_filled final)
      then ok none
      else if is_filled initial
      then err filled_before
      else fill_search fill_statuses (high - low) low high >>= λ block. ok (some block)

-- `block_number` is the provider's, the default for the high block.
unfoldable pub find_fill_block :
    (fill_statuses : ℕ → Result SpokeUtilsError ℕ)
    → (chain_ids : List ℕ) → (origin network_chain spoke_chain : ℕ) → (block_number low : ℕ)
    → (high : Option ℕ) → Result SpokeUtilsError (Option ℕ)
unfolding fill_block_between includes
find_fill_block fill_statuses chain_ids origin network_chain spoke_chain block_number low high =
    let high = get_or high block_number in
    if leb high low
    then err range_is_empty
    else if origin == destination_chain chain_ids origin network_chain spoke_chain
    then err same_chain
    else fill_block_between fill_statuses low high
