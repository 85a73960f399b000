-- ===== src/SpokeUtils/Tests.antt =====
-- The searches for the block of a deposit and of a fill at concrete contracts.
use acrossclone.Prelude.{
  ℕ, ◌/◌, ◌≤◌, ◌<◌, ◌≡◌, refl, true, [], ◌∷◌, some, none, Result, ok, err, ltb, if◌then◌else◌,
  Bool-cases, inl, inr, arith, sym, ok-inj,
}
use acrossclone.Prelude.Search.{includes}
use acrossclone.SpokeUtils.{
  SpokeUtilsError, SpokePoolState, get_block_range_for_deposit_id, FillStatus, unfilled, filled,
  relay_fill_status, find_fill_block, deposit_before_range, filled_before,
}
use acrossclone.SpokeUtils.Deposits.{CountsDeposits, get_block_range_for_deposit_id-finds}
use acrossclone.SpokeUtils.Fills.{IsFillHistory, IsFillBlock, find_fill_block-IsFillBlock}

-- A deposit every three blocks.
abbrev count : ℕ → ℕ
count block = block / 3

abbrev deposits : ℕ → Result SpokeUtilsError ℕ
deposits block = ok (count block)

deposits-CountsDeposits : CountsDeposits deposits count
deposits-CountsDeposits = record {
  answers = λ block n e. sym (ok-inj e);
  grows = λ a b p. omega arith;
}

abbrev pool : SpokePoolState
pool = record { deployment_block = 10; latest_block_searched = 100; is_updated = true }

get_block_range_for_deposit_id_runs :
    get_block_range_for_deposit_id deposits pool 20 10 200 6 ≡ ok (63, 63)
unfolding get_block_range_for_deposit_id
get_block_range_for_deposit_id_runs = refl

-- With two searches the range is left wider.
get_block_range_for_deposit_id_stops :
    get_block_range_for_deposit_id deposits pool 20 10 200 1 ≡ ok (56, 78)
unfolding get_block_range_for_deposit_id
get_block_range_for_deposit_id_stops = refl

get_block_range_for_deposit_id_throws :
    get_block_range_for_deposit_id deposits pool 2 10 200 6 ≡ err deposit_before_range
unfolding get_block_range_for_deposit_id
get_block_range_for_deposit_id_throws = refl

get_block_range_for_deposit_id-finds_example :
    (block : ℕ) × (get_block_range_for_deposit_id deposits pool 20 10 200 6 ≡ ok (block, block))
    × (20 < count block)
    × ((earlier : ℕ) → earlier < block → count earlier ≤ 20)
get_block_range_for_deposit_id-finds_example =
    get_block_range_for_deposit_id-finds deposits count deposits-CountsDeposits 20 pool 10 200 6
      (λ block. refl) refl (omega arith) (omega arith) (omega arith) (omega arith) (omega arith)
      (omega arith)

-- A relay that is filled in block 40.
abbrev statuses : ℕ → Result SpokeUtilsError ℕ
statuses block = ok (if ltb block 40 then 0 else 2)

abbrev status : ℕ → FillStatus
status block = if ltb block 40 then unfilled else filled

statuses_answer : (block : ℕ) → relay_fill_status statuses block ≡ ok (status block)
unfolding relay_fill_status
statuses_answer block = elim (Bool-cases (ltb block 40)) [
  | inl early ↦ rw (relay_fill_status, early) refl
  | inr late ↦ rw (relay_fill_status, late) refl
]

statuses-IsFillHistory : IsFillHistory statuses status
statuses-IsFillHistory = record { answers = statuses_answer; stays = λ a b p done. ground arith }

find_fill_block_runs : find_fill_block statuses (1 ∷ 10 ∷ []) 1 10 7 90 12 none ≡ ok (some 40)
unfolding find_fill_block
find_fill_block_runs = refl

find_fill_block_throws :
    find_fill_block statuses (1 ∷ 10 ∷ []) 1 10 7 90 60 none ≡ err filled_before
unfolding find_fill_block
find_fill_block_throws = refl

find_fill_block-IsFillBlock_example :
    (block : ℕ) × (find_fill_block statuses (1 ∷ 10 ∷ []) 1 10 7 90 12 none ≡ ok (some block))
    × IsFillBlock status block
unfolding includes
find_fill_block-IsFillBlock_example =
    find_fill_block-IsFillBlock statuses status statuses-IsFillHistory (1 ∷ 10 ∷ []) 1 10 7 90 12
      none (omega arith) refl refl refl
