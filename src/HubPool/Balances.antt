-- ===== src/HubPool/Balances.antt =====
-- The running balances of clients/HubPoolClient.ts: what the newest executed leaf by a block says.
pub mod Newest
use Prim.Native.String.{String}
use acrossclone.Prelude.{
  ℕ, ◌≡◌, Bool, ◌&&◌, List, map, Option, none, some, leb, ◌==◌, nat_eq, string_eq, get_elem?,
}
use acrossclone.Prelude.Int.{ℤ, pos}
use acrossclone.Prelude.Search.{find?, includes, index_of}
use acrossclone.Prelude.Text.{to_lower_case}
use acrossclone.Events.{sort_events_descending}
use acrossclone.HubPool.{HubPool, ExecutedRootBundle, executed_sortable}

-- `l1Tokens.map((l1Token) => l1Token.toLowerCase())`
abbrev pub lower_tokens : ExecutedRootBundle → List String
lower_tokens leaf = map to_lower_case leaf.l1_tokens

-- The test of `getRunningBalanceBeforeBlockForChain`.
unfoldable pub is_balance_leaf : (block chain : ℕ) → String → ExecutedRootBundle → Bool
unfolding includes to_lower_case
is_balance_leaf block chain l1_token leaf =
    leb leaf.block_number block
    && leaf.chain_id == chain
    && includes (lower_tokens leaf) (to_lower_case l1_token)

-- The running and the incentive balance; out of an array's range, or at index -1, a balance is
-- `undefined`.
unfoldable pub get_running_balance_for_token :
    (l1_token : String) → Option ExecutedRootBundle → Option ℤ × Option ℤ
unfolding index_of to_lower_case
get_running_balance_for_token l1_token none = (some (pos 0), some (pos 0))
get_running_balance_for_token l1_token (some leaf) =
    elim (index_of (lower_tokens leaf) (to_lower_case l1_token)) [
      | none ↦ (none, none)
      | some index ↦
          (get_elem? leaf.running_balances index, get_elem? leaf.incentive_balances index)
    ]

unfoldable pub get_running_balance_before_block_for_chain :
    HubPool → (block chain : ℕ) → (l1_token : String) → Option ℤ × Option ℤ
unfolding get_running_balance_for_token is_balance_leaf find? sort_events_descending
get_running_balance_before_block_for_chain h block chain l1_token =
    get_running_balance_for_token l1_token (
      find? (is_balance_leaf block chain l1_token) (sort_events_descending h.executed_root_bundles))
