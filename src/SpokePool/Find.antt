-- ===== src/SpokePool/Find.antt =====
-- findDeposit of clients/SpokePoolClient.ts: a deposit that is older than the client's search range.
use Prim.Native.String.{String}
use acrossclone.Prelude.{ℕ, List, [], ◌∷◌, none, some, ◌==◌, nat_eq, Result, ok, err, ◌>>=◌}
use acrossclone.Prelude.Search.{find?}
use acrossclone.Events.Pages.{QueryError, paginated_event_query}
use acrossclone.SpokeUtils.{SpokeUtilsError, SpokePoolState, get_block_range_for_deposit_id}
use acrossclone.SpokePool.{
  SpokePool, SpokePoolError, search_failed, query_failed, deposit_not_found, type_error,
  DepositWithBlock,
}
use acrossclone.SpokePool.Loops.{
  V3FundsDepositedEvent, funds_deposited_sortable, batch_quote_blocks, to_deposit,
}

-- The contract's calls: its number of deposits, less one, at a block, and its events for a
-- destination chain, a deposit id and a depositor.
pub record DepositCalls : Type 0 where
  pub deposit_id_at_block : ℕ → Result SpokeUtilsError ℕ
  pub deposit_events :
      (destination_chain_id deposit_id : ℕ)
      → (depositor : String) → ℕ
      → ℕ
      → ℕ
      → Result QueryError (List V3FundsDepositedEvent)

abbrev pub search_state : SpokePool → SpokePoolState
search_state s = record {
  deployment_block = s.deployment_block;
  latest_block_searched = s.latest_block_searched;
  is_updated = s.is_updated;
}

-- `const [lpFee] = ..`, of which the quote block is read.
abbrev pub first_block : List ℕ → Result SpokePoolError ℕ
first_block [] = err type_error
first_block (block ∷ blocks) = ok block

-- `_getBlockRangeForDepositId` with at most 7 searches.
unfoldable pub search_bounds :
    DepositCalls → SpokePool → (deposit_id : ℕ) → Result SpokePoolError (ℕ × ℕ)
unfolding get_block_range_for_deposit_id
search_bounds calls s deposit_id =
    elim (get_block_range_for_deposit_id calls.deposit_id_at_block (search_state s) deposit_id
      s.deployment_block s.latest_block_searched 7) [
        | err e ↦ err search_failed
        | ok range ↦ ok range
      ]

-- The event with the id among those of the range.
unfoldable pub find_event :
    DepositCalls
    → SpokePool
    → (deposit_id destination_chain_id : ℕ) → (depositor : String) → ℕ × ℕ
    → Result SpokePoolError V3FundsDepositedEvent
unfolding paginated_event_query find?
find_event calls s deposit_id destination_chain_id depositor (low, high) =
    elim (paginated_event_query (calls.deposit_events destination_chain_id deposit_id depositor)
      (record { from_block = low; to_block = high; max_block_look_back = s.max_block_look_back })) [
        | err e ↦ err query_failed
        | ok events ↦ elim (find? (λ e. e.deposit_id == deposit_id) events) [
          | none ↦ err deposit_not_found
          | some e ↦ ok e
        ]
      ]

unfoldable pub find_deposit :
    DepositCalls
    → SpokePool
    → (deposit_id destination_chain_id : ℕ) → (depositor : String)
    → Result SpokePoolError DepositWithBlock
unfolding search_bounds find_event batch_quote_blocks to_deposit
find_deposit calls s deposit_id destination_chain_id depositor = do
  range ← search_bounds calls s deposit_id
  e ← find_event calls s deposit_id destination_chain_id depositor range
  blocks ← batch_quote_blocks s (e ∷ [])
  quote_block ← first_block blocks
  to_deposit s none quote_block e
