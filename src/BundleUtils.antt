-- ===== src/BundleUtils.antt =====
-- utils/BundleUtils.ts: block ranges of root bundles by chain. The config store client's enabled
-- chains and chain id indices at a block, which it may throw instead of, are parameters.
pub mod Implied
use acrossclone.Prelude.{
  ℕ, zero, suc, ◌+◌, ◌≡◌, Bool, true, false, not, List, [], ◌∷◌, Option, none, some, leb, ◌==◌,
  nat_eq, if◌then◌else◌, get_elem?, Result, ok, err, ◌>>=◌,
}
use acrossclone.Prelude.Search.{includes, index_of}
use acrossclone.Arrays.{SearchFromRight}
use acrossclone.HubPool.{
  HubPool, HubPoolError, ProposedRootBundle, to_number, type_error, chain_not_listed,
  invalid_block_range,
}
use acrossclone.HubPool.Bundles.{get_latest_fully_executed_root_bundle}

unfoldable pub get_block_for_chain :
    (blocks : List ℕ) → (chain : ℕ) → (chain_id_list : List ℕ) → Result HubPoolError ℕ
unfolding index_of
get_block_for_chain blocks chain chain_id_list = elim (index_of chain_id_list chain) [
  | none ↦ err chain_not_listed
  | some index ↦ elim (get_elem? blocks index) [
    | none ↦ err invalid_block_range
    | some block ↦ ok block
  ]
]

-- A range is an array of numbers, which must have two.
abbrev pub check_pair : List ℕ → Result HubPoolError (ℕ × ℕ)
check_pair (start ∷ end ∷ []) = ok (start, end)
check_pair _ = err invalid_block_range

unfoldable pub get_block_range_for_chain :
    (block_ranges : List (List ℕ))
    → (chain : ℕ) → (chain_id_list : List ℕ) → Result HubPoolError (ℕ × ℕ)
unfolding index_of
get_block_range_for_chain block_ranges chain chain_id_list = elim (index_of chain_id_list chain) [
  | none ↦ err chain_not_listed
  | some index ↦ elim (get_elem? block_ranges index) [
    | none ↦ err invalid_block_range
    | some range ↦ check_pair range
  ]
]

-- `prevRootBundle?.bundleEvaluationBlockNumbers[0].toNumber() ?? 0`
abbrev pub mainnet_start_block : Option ProposedRootBundle → Result HubPoolError ℕ
mainnet_start_block none = ok 0
mainnet_start_block (some prev) = elim (get_elem? prev.bundle_evaluation_block_numbers 0) [
  | none ↦ err type_error
  | some block ↦ to_number block
]

-- Where the range of the chain at an index starts; a `BigNumber` of 0 counts as defined.
unfoldable pub implied_start : Option ProposedRootBundle → (index : ℕ) → Result HubPoolError ℕ
implied_start none index = ok 0
implied_start (some prev) index = elim (get_elem? prev.bundle_evaluation_block_numbers index) [
  | none ↦ ok 0
  | some block ↦ do n ← to_number block; ok (n + 1)
]

-- `enabledChains.includes(chainIdIndices[i])`, false where the index has no chain.
abbrev pub is_enabled_at : (enabled indices : List ℕ) → (index : ℕ) → Bool
is_enabled_at enabled indices index = elim (get_elem? indices index) [
  | none ↦ false
  | some chain ↦ includes enabled chain
]

-- The `map` over the end blocks, from an index on.
unfoldable pub implied_ranges :
    Option ProposedRootBundle
    → (enabled indices : List ℕ) → (index : ℕ) → (end_blocks : List ℕ)
    → Result HubPoolError (List (ℕ × ℕ))
unfolding implied_start includes
implied_ranges prev enabled indices index [] = ok []
implied_ranges prev enabled indices index (end_block ∷ end_blocks) = do
  start ← implied_start prev index
  end ← to_number end_block
  rest ← implied_ranges prev enabled indices (index + 1) end_blocks
  ok ((if is_enabled_at enabled indices index then start else end, end) ∷ rest)

-- The sanity check of one range.
abbrev pub check_implied_range : Bool → ℕ × ℕ → Bool
check_implied_range true (start, end) = not (leb end start)
check_implied_range false (start, end) = start == end

unfoldable pub check_implied_ranges : (enabled indices : List ℕ) → (index : ℕ) → List (ℕ × ℕ) → Bool
unfolding includes
check_implied_ranges enabled indices index [] = true
check_implied_ranges enabled indices index (range ∷ ranges) =
    let rest = check_implied_ranges enabled indices (index + 1) ranges in
    if check_implied_range (is_enabled_at enabled indices index) range then rest else false

-- The ranges, once the bundle before is known.
unfoldable pub implied_ranges_after :
    Option ProposedRootBundle
    → (enabled_chains : ℕ → Result HubPoolError (List ℕ))
    → (chain_id_indices : Result HubPoolError (List ℕ)) → (end_blocks : List ℕ)
    → Result HubPoolError (List (ℕ × ℕ))
unfolding implied_ranges check_implied_ranges
implied_ranges_after prev enabled_chains chain_id_indices end_blocks = do
  start ← mainnet_start_block prev
  enabled ← enabled_chains start
  indices ← chain_id_indices
  ranges ← implied_ranges prev enabled indices 0 end_blocks
  if check_implied_ranges enabled indices 0 ranges then ok ranges else err invalid_block_range

unfoldable pub get_implied_bundle_block_ranges :
    SearchFromRight ProposedRootBundle
    → HubPool
    → (enabled_chains chain_id_indices_for_block : ℕ → Result HubPoolError (List ℕ))
    → ProposedRootBundle
    → Result HubPoolError (List (ℕ × ℕ))
unfolding implied_ranges_after get_latest_fully_executed_root_bundle
get_implied_bundle_block_ranges lodash h enabled_chains chain_id_indices_for_block bundle =
    implied_ranges_after (get_latest_fully_executed_root_bundle lodash h bundle.block_number)
      enabled_chains (chain_id_indices_for_block bundle.block_number)
      bundle.bundle_evaluation_block_numbers
