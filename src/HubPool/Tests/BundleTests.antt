-- ===== src/HubPool/Tests/BundleTests.antt =====
-- Root bundle queries of the sample client. Its first bundle has one leaf executed in the block of
-- the second proposal.
use acrossclone.Prelude.{
  ◌≡◌, ◌≢◌, ◌-◌, ◌+◌, ◌<◌, min, max, refl, [], ◌∷◌, some, none, ok, arith, Memᴰ,
}
use acrossclone.Prelude.Int.{pos, negsuc}
use acrossclone.Arrays.{SearchFromRight, find_last, find_last_index}
use acrossclone.Arrays.Laws.{array_search}
use acrossclone.HubPool.{HubPool, ProposedRootBundle}
use acrossclone.HubPool.Bundles.{
  get_validated_root_bundles, get_latest_fully_executed_root_bundle,
  get_earliest_fully_executed_root_bundle, get_latest_bundle_end_block_for_chain,
  get_next_bundle_start_block_number, get_nth_fully_executed_root_bundle, is_root_bundle_valid,
  get_root_bundle_eval_block_number_containing_block, block_or_zero,
}
use acrossclone.HubPool.Bundles.Finality.{extend, past_bundles_are_final}
use acrossclone.HubPool.Bundles.Nth.{
  get_nth_fully_executed_root_bundle-earliest, get_nth_fully_executed_root_bundle-latest,
  get_nth_fully_executed_root_bundle-wraps, get_nth_fully_executed_root_bundle_increasing,
  get_nth_fully_executed_root_bundle_decreasing, get_nth_fully_executed_root_bundle-skips,
}
use acrossclone.HubPool.Tests.{client, first_bundle, second_bundle, bundle_at, leaf_at}

abbrev lodash : SearchFromRight ProposedRootBundle
lodash = array_search ProposedRootBundle

get_next_bundle_start_block_number_runs :
    get_next_bundle_start_block_number lodash client (1 ∷ 10 ∷ []) 130 10 ≡ ok 201
unfolding get_next_bundle_start_block_number find_last
get_next_bundle_start_block_number_runs = refl

-- The block 195 of chain 10 is in the second bundle, 190 is the end of the first.
get_root_bundle_eval_block_number_containing_block_runs :
    (get_root_bundle_eval_block_number_containing_block lodash client
        (λ _. 1 ∷ 10 ∷ [])
        130
        195
        10
        none
      ≡ ok (some 200))
    × (get_root_bundle_eval_block_number_containing_block lodash client
          (λ _. 1 ∷ 10 ∷ [])
          130
          190
          10
          none
        ≡ ok (some 190))
unfolding get_root_bundle_eval_block_number_containing_block find_last_index
get_root_bundle_eval_block_number_containing_block_runs = (refl, refl)

past_bundles_are_final_example :
    let h' = extend client (bundle_at 140 3 130 300 ∷ []) (leaf_at 150 1 ∷ []) in
    (get_validated_root_bundles lodash h' 130 ≡ get_validated_root_bundles lodash client 130)
    × (get_latest_fully_executed_root_bundle lodash h' 130
        ≡ get_latest_fully_executed_root_bundle lodash client 130)
    × (get_earliest_fully_executed_root_bundle lodash h' 130 0
        ≡ get_earliest_fully_executed_root_bundle lodash client 130 0)
    × (get_latest_bundle_end_block_for_chain lodash h' (1 ∷ 10 ∷ []) 130 10
        ≡ get_latest_bundle_end_block_for_chain lodash client (1 ∷ 10 ∷ []) 130 10)
    × (get_next_bundle_start_block_number lodash h' (1 ∷ 10 ∷ []) 130 10
        ≡ get_next_bundle_start_block_number lodash client (1 ∷ 10 ∷ []) 130 10)
past_bundles_are_final_example =
    past_bundles_are_final lodash client 130 (bundle_at 140 3 130 300 ∷ []) (leaf_at 150 1 ∷ [])
      (omega arith) (omega arith) 10 0 (1 ∷ 10 ∷ [])

get_nth_fully_executed_root_bundle-earliest_runs :
    get_nth_fully_executed_root_bundle lodash client (pos 2) none
    ≡ ok (
        get_earliest_fully_executed_root_bundle lodash client 130
          (min (block_or_zero (some first_bundle) + 1) 130))
unfolding get_nth_fully_executed_root_bundle find_last_index
get_nth_fully_executed_root_bundle-earliest_runs =
    get_nth_fully_executed_root_bundle-earliest lodash client 0 none (some first_bundle) refl

get_nth_fully_executed_root_bundle-latest_runs :
    get_nth_fully_executed_root_bundle lodash client (negsuc 1) none
    ≡ ok (
        get_latest_fully_executed_root_bundle lodash client
          (max 0 (block_or_zero (some second_bundle) - 1)))
unfolding get_nth_fully_executed_root_bundle find_last
get_nth_fully_executed_root_bundle-latest_runs =
    get_nth_fully_executed_root_bundle-latest lodash client 0 none (some second_bundle) refl

nth_increasing_runs : 100 < 120
unfolding get_nth_fully_executed_root_bundle find_last_index
nth_increasing_runs =
    get_nth_fully_executed_root_bundle_increasing lodash client 0 none first_bundle second_bundle
      refl refl (omega arith)

-- The client with the first bundle fully executed before the second proposal.
abbrev earlier : HubPool
earlier = record client {
  executed_root_bundles = leaf_at 105 1 ∷ leaf_at 106 10 ∷ leaf_at 125 1 ∷ [];
}

nth_decreasing_runs : 100 < 120
unfolding get_nth_fully_executed_root_bundle find_last
nth_decreasing_runs =
    get_nth_fully_executed_root_bundle_decreasing lodash earlier 0 none second_bundle first_bundle
      refl refl (omega arith)

-- The third earliest of two bundles is missing, and the fourth is the first again.
get_nth_fully_executed_root_bundle-wraps_example :
    get_nth_fully_executed_root_bundle lodash client (pos 4) none ≡ ok (some first_bundle)
unfolding get_nth_fully_executed_root_bundle find_last_index
get_nth_fully_executed_root_bundle-wraps_example =
    get_nth_fully_executed_root_bundle-wraps lodash client 2 none first_bundle (omega arith) refl
      refl

get_nth_fully_executed_root_bundle-skips_example :
    get_nth_fully_executed_root_bundle lodash client (negsuc 1) (some 130) ≢ ok (some first_bundle)
unfolding is_root_bundle_valid get_latest_fully_executed_root_bundle find_last
get_nth_fully_executed_root_bundle-skips_example =
    get_nth_fully_executed_root_bundle-skips lodash client 130 first_bundle second_bundle
      (leaf_at 120 10) (omega arith) refl refl (omega arith) (Memᴰ.tail (Memᴰ.head refl)) refl refl
