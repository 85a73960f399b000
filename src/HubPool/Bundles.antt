-- ===== src/HubPool/Bundles.antt =====
-- The root bundle queries of clients/HubPoolClient.ts. lodash is the parameter `lodash`.
pub mod Finality
pub mod Nth
use acrossclone.Prelude.{
  ℕ, zero, suc, ◌+◌, ◌-◌, min, max, ◌≡◌, Bool, true, false, ◌&&◌, List, [], ◌∷◌, Option, none, some,
  if◌then◌else◌, ltb, leb, ◌==◌, nat_eq, length, get_elem?, get_last?, Result, ok, err, ◌>>=◌, not,
  reverse, get_or,
}
use acrossclone.Prelude.Search.{filter, find?, index_of}
use acrossclone.Prelude.Int.{ℤ, pos, negsuc}
use acrossclone.Events.{sort_events_descending}
use acrossclone.Arrays.{SearchFromRight}
use acrossclone.HubPool.{
  HubPool, HubPoolError, n_is_zero, client_not_updated, ProposedRootBundle, CancelledRootBundle,
  ExecutedRootBundle, cancelled_sortable, to_number,
}

unfoldable pub get_proposed_root_bundles_in_block_range :
    HubPool → (starting_block ending_block : ℕ) → List ProposedRootBundle
get_proposed_root_bundles_in_block_range h starting_block ending_block =
    filter (λ b. leb starting_block b.block_number && leb b.block_number ending_block)
      h.proposed_root_bundles

unfoldable pub get_cancelled_root_bundles_in_block_range :
    HubPool → (starting_block ending_block : ℕ) → List CancelledRootBundle
get_cancelled_root_bundles_in_block_range h starting_block ending_block =
    filter (λ b. leb starting_block b.block_number && leb b.block_number ending_block)
      (sort_events_descending h.canceled_root_bundles)

unfoldable pub get_disputed_root_bundles_in_block_range :
    HubPool → (starting_block ending_block : ℕ) → List CancelledRootBundle
get_disputed_root_bundles_in_block_range h starting_block ending_block =
    filter (λ b. leb starting_block b.block_number && leb b.block_number ending_block)
      (sort_events_descending h.disputed_root_bundles)

unfoldable pub get_latest_proposed_root_bundle : HubPool → Option ProposedRootBundle
get_latest_proposed_root_bundle h = get_last? h.proposed_root_bundles

-- The test of `getExecutedLeavesForRootBundle`.
abbrev pub is_leaf_of : (bundle_block latest : ℕ) → ExecutedRootBundle → Bool
is_leaf_of bundle_block latest leaf =
    leb leaf.block_number latest && ltb bundle_block leaf.block_number

unfoldable pub get_executed_leaves_for_root_bundle :
    HubPool → ProposedRootBundle → (latest : ℕ) → List ExecutedRootBundle
unfolding filter
get_executed_leaves_for_root_bundle h bundle latest =
    filter (is_leaf_of bundle.block_number latest) h.executed_root_bundles

-- The end block that a proposal gives for a chain, by the chain's index in the list of chains.
unfoldable pub get_bundle_end_block_for_chain :
    ProposedRootBundle → (chain_id : ℕ) → (chain_id_list : List ℕ) → Result HubPoolError ℕ
unfolding index_of
get_bundle_end_block_for_chain bundle chain_id chain_id_list =
    elim (index_of chain_id_list chain_id) [
      | none ↦ ok 0
      | some index ↦
          if leb (length bundle.bundle_evaluation_block_numbers) index
          then ok 0
          else elim (get_elem? bundle.bundle_evaluation_block_numbers index) [
            | none ↦ ok 0
            | some block ↦ to_number block
          ]
    ]

-- The block up to which a bundle's leaves count: that of the next proposal, or the latest.
abbrev pub leaf_limit : Option ProposedRootBundle → ℕ → ℕ
leaf_limit none latest = latest
leaf_limit (some next) latest = min next.block_number latest

-- `bundleToReturn ? bundleToReturn.blockNumber : 0`
abbrev pub block_or_zero : Option ProposedRootBundle → ℕ
block_or_zero none = 0
block_or_zero (some bundle) = bundle.block_number

-- `latestFullyExecutedPoolRebalanceRoot ? its end block : 0`
unfoldable pub end_block_of :
    (chain_id_list : List ℕ) → (chain_id : ℕ) → Option ProposedRootBundle → Result HubPoolError ℕ
unfolding get_bundle_end_block_for_chain
end_block_of chain_id_list chain_id none = ok 0
end_block_of chain_id_list chain_id (some bundle) =
    get_bundle_end_block_for_chain bundle chain_id chain_id_list

-- `endBlock > 0 ? endBlock + 1 : 0`
abbrev pub next_block : ℕ → ℕ
next_block end_block = if ltb 0 end_block then end_block + 1 else 0

module _ (lodash : SearchFromRight ProposedRootBundle) where
  unfoldable pub get_following_root_bundle :
      HubPool → ProposedRootBundle → Option ProposedRootBundle
  get_following_root_bundle h current =
      elim (lodash.find_last_index (λ b. b.block_number == current.block_number)
        h.proposed_root_bundles) [
          | none ↦ none
          | some index ↦
              if index == length h.proposed_root_bundles - 1
              then none
              else get_elem? h.proposed_root_bundles (index + 1)
        ]

  unfoldable pub is_root_bundle_valid : HubPool → ProposedRootBundle → (latest : ℕ) → Bool
  unfolding get_following_root_bundle get_executed_leaves_for_root_bundle
  is_root_bundle_valid h bundle latest =
      length (
        get_executed_leaves_for_root_bundle h bundle
          (leaf_limit (get_following_root_bundle h bundle) latest))
      == bundle.pool_rebalance_leaf_count

  -- A bundle is proposed by the latest block and valid at it.
  unfoldable pub is_validated : HubPool → (latest : ℕ) → ProposedRootBundle → Bool
  unfolding is_root_bundle_valid
  is_validated h latest bundle =
      if ltb latest bundle.block_number then false else is_root_bundle_valid h bundle latest

  unfoldable pub get_validated_root_bundles : HubPool → (latest : ℕ) → List ProposedRootBundle
  unfolding is_validated filter
  get_validated_root_bundles h latest = filter (is_validated h latest) h.proposed_root_bundles

  unfoldable pub get_latest_fully_executed_root_bundle :
      HubPool → (latest : ℕ) → Option ProposedRootBundle
  unfolding is_validated
  get_latest_fully_executed_root_bundle h latest =
      lodash.find_last (is_validated h latest) h.proposed_root_bundles

  unfoldable pub is_validated_from : HubPool → (latest start_block : ℕ) → ProposedRootBundle → Bool
  unfolding is_root_bundle_valid
  is_validated_from h latest start_block bundle =
      if ltb latest bundle.block_number
      then false
      else if ltb bundle.block_number start_block
      then false
      else is_root_bundle_valid h bundle latest

  unfoldable pub get_earliest_fully_executed_root_bundle :
      HubPool → (latest start_block : ℕ) → Option ProposedRootBundle
  unfolding is_validated_from find?
  get_earliest_fully_executed_root_bundle h latest start_block =
      find? (is_validated_from h latest start_block) h.proposed_root_bundles

  -- The loop for a negative `n`: `rounds` are left, `found` is the last round's bundle.
  unfoldable pub nth_latest :
      HubPool
      → (rounds latest : ℕ) → (found : Option ProposedRootBundle) → Option ProposedRootBundle
  unfolding get_latest_fully_executed_root_bundle
  nth_latest h zero latest found = found
  nth_latest h (suc rounds) latest found =
      let bundle = get_latest_fully_executed_root_bundle h latest in
      nth_latest h rounds (max 0 (block_or_zero bundle - 1)) bundle

  -- The loop for a positive `n`.
  unfoldable pub nth_earliest :
      HubPool → (rounds start : ℕ) → (found : Option ProposedRootBundle) → Option ProposedRootBundle
  unfolding get_earliest_fully_executed_root_bundle
  nth_earliest h zero start found = found
  nth_earliest h (suc rounds) start found =
      let bundle = get_earliest_fully_executed_root_bundle h h.latest_block_searched start in
      nth_earliest h rounds (min (block_or_zero bundle + 1) h.latest_block_searched) bundle

  unfoldable pub get_nth_fully_executed_root_bundle :
      HubPool → (n : ℤ) → (start_block : Option ℕ) → Result HubPoolError (Option ProposedRootBundle)
  unfolding nth_latest nth_earliest
  get_nth_fully_executed_root_bundle h (pos zero) start_block = err n_is_zero
  get_nth_fully_executed_root_bundle h (pos (suc n)) start_block =
      if h.latest_block_searched == 0
      then err client_not_updated
      else ok (nth_earliest h (suc n) (get_or start_block 0) none)
  get_nth_fully_executed_root_bundle h (negsuc n) start_block =
      if h.latest_block_searched == 0
      then err client_not_updated
      else ok (nth_latest h (suc n) (get_or start_block h.latest_block_searched) none)

  unfoldable pub get_latest_bundle_end_block_for_chain :
      HubPool → (chain_id_list : List ℕ) → (latest chain_id : ℕ) → Result HubPoolError ℕ
  unfolding get_latest_fully_executed_root_bundle end_block_of
  get_latest_bundle_end_block_for_chain h chain_id_list latest chain_id =
      end_block_of chain_id_list chain_id (get_latest_fully_executed_root_bundle h latest)

  unfoldable pub get_next_bundle_start_block_number :
      HubPool → (chain_id_list : List ℕ) → (latest chain_id : ℕ) → Result HubPoolError ℕ
  unfolding get_latest_bundle_end_block_for_chain
  get_next_bundle_start_block_number h chain_id_list latest chain_id = do
    end_block ← get_latest_bundle_end_block_for_chain h chain_id_list latest chain_id
    ok (next_block end_block)

  -- The loop of `getRootBundleEvalBlockNumberContainingBlock` over the proposals, newest first.
  unfoldable pub eval_block_containing :
      HubPool
      → (latest block chain : ℕ) → (chain_id_list : List ℕ) → (bundles : List ProposedRootBundle)
      → (ending : Option ℕ) → Result HubPoolError (Option ℕ)
  unfolding is_root_bundle_valid get_following_root_bundle get_bundle_end_block_for_chain
  eval_block_containing h latest block chain chain_id_list [] ending = ok ending
  eval_block_containing h latest block chain chain_id_list (bundle ∷ older) ending =
      let skip = eval_block_containing h latest block chain chain_id_list older ending in
      let go_on = λ (end_block : ℕ).
        eval_block_containing h latest block chain chain_id_list older (some end_block) in
      let found = λ (end_block : ℕ). ok (if end_block == block then some end_block else ending) in
      if not (
        is_root_bundle_valid h bundle (elim (get_following_root_bundle h bundle) [
          | none ↦ latest
          | some next ↦ next.block_number
        ]))
      then skip
      else get_bundle_end_block_for_chain bundle chain chain_id_list >>= λ end_block.
          elim (leb end_block block) [ true ↦ found end_block | false ↦ go_on end_block ]

  unfoldable pub get_root_bundle_eval_block_number_containing_block :
      HubPool
      → (chain_id_indices_for_block : ℕ → List ℕ) → (latest block chain : ℕ)
      → (chain_id_list_override : Option (List ℕ)) → Result HubPoolError (Option ℕ)
  unfolding eval_block_containing
  get_root_bundle_eval_block_number_containing_block h indices latest block chain override =
      eval_block_containing h latest block chain (get_or override (indices latest))
        (reverse h.proposed_root_bundles) none
