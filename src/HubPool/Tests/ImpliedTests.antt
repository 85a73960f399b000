-- ===== src/HubPool/Tests/ImpliedTests.antt =====
-- The ranges that a third proposal to the sample client implies.
use acrossclone.Prelude.{
  ℕ, nat_eq, ◌<◌, ◌≡◌, refl, true, List, [], ◌∷◌, Option, some, Result, ok, err, ok-inj, arith,
  subst, sym, ap, get_or, get_elem?,
}
use acrossclone.Prelude.Search.{includes, index_of}
use acrossclone.Arrays.{SearchFromRight, find_last}
use acrossclone.Arrays.Laws.{array_search}
use acrossclone.HubPool.{
  HubPoolError, ProposedRootBundle, type_error, chain_not_listed, invalid_block_range,
}
use acrossclone.HubPool.Bundles.{
  get_latest_fully_executed_root_bundle, get_next_bundle_start_block_number,
}
use acrossclone.BundleUtils.{
  get_block_for_chain, get_block_range_for_chain, get_implied_bundle_block_ranges,
}
use acrossclone.BundleUtils.Implied.{EndsAbove0, get_implied_bundle_block_ranges-next}
use acrossclone.HubPool.Tests.{client, second_bundle, bundle_at}

abbrev lodash : SearchFromRight ProposedRootBundle
lodash = array_search ProposedRootBundle

abbrev chains : ℕ → Result HubPoolError (List ℕ)
chains _ = ok (1 ∷ 10 ∷ [])

abbrev third_bundle : ProposedRootBundle
third_bundle = bundle_at 130 1 150 260

get_block_for_chain_runs : get_block_for_chain (110 ∷ 200 ∷ []) 10 (1 ∷ 10 ∷ []) ≡ ok 200
unfolding get_block_for_chain
get_block_for_chain_runs = refl

get_block_for_chain_throws :
    get_block_for_chain (110 ∷ 200 ∷ []) 137 (1 ∷ 10 ∷ []) ≡ err chain_not_listed
unfolding get_block_for_chain
get_block_for_chain_throws = refl

get_block_range_for_chain_throws :
    get_block_range_for_chain ((1 ∷ 2 ∷ []) ∷ (3 ∷ []) ∷ []) 10 (1 ∷ 10 ∷ [])
    ≡ err invalid_block_range
unfolding get_block_range_for_chain
get_block_range_for_chain_throws = refl

get_implied_bundle_block_ranges_runs :
    get_implied_bundle_block_ranges lodash client chains chains third_bundle
    ≡ ok ((111, 150) ∷ (201, 260) ∷ [])
unfolding get_implied_bundle_block_ranges find_last
get_implied_bundle_block_ranges_runs = refl

-- On chain 10 only: chain 1 is disabled, and its range is its end block.
get_implied_bundle_block_ranges_disabled :
    get_implied_bundle_block_ranges lodash client (λ _. ok (10 ∷ [])) chains third_bundle
    ≡ ok ((150, 150) ∷ (201, 260) ∷ [])
unfolding get_implied_bundle_block_ranges find_last
get_implied_bundle_block_ranges_disabled = refl

-- The config store client throws.
get_implied_bundle_block_ranges_throws :
    get_implied_bundle_block_ranges lodash client chains (λ _. err type_error) third_bundle
    ≡ err type_error
unfolding get_implied_bundle_block_ranges find_last
get_implied_bundle_block_ranges_throws = refl

chains_enabled : (enabled : List ℕ) → chains 110 ≡ ok enabled → includes enabled 10 ≡ true
unfolding includes
chains_enabled enabled e = subst (λ l. includes l 10 ≡ true) (ok-inj e) refl

second_bundle_latest : get_latest_fully_executed_root_bundle lodash client 130 ≡ some second_bundle
unfolding get_latest_fully_executed_root_bundle find_last
second_bundle_latest = refl

second_bundle-EndsAbove0 : EndsAbove0 (some second_bundle) 1
second_bundle-EndsAbove0 p block same at =
    let is : second_bundle ≡ p =
      ap (λ (o : Option ProposedRootBundle). get_or o second_bundle) same in
    let here : some 200 ≡ some block =
      subst (λ (q : ProposedRootBundle). get_elem? q.bundle_evaluation_block_numbers 1 ≡ some block)
        (sym is) at in
    let value : 200 ≡ block = ap (λ (o : Option ℕ). get_or o 0) here in omega arith

get_implied_bundle_block_ranges-next_example :
    (get_next_bundle_start_block_number lodash client (1 ∷ 10 ∷ []) 130 10 ≡ ok 201) × (201 < 260)
unfolding includes index_of
get_implied_bundle_block_ranges-next_example =
    get_implied_bundle_block_ranges-next lodash client chains chains third_bundle (1 ∷ 10 ∷ [])
      ((111, 150) ∷ (201, 260) ∷ []) 10 1 201 260 (some second_bundle) second_bundle_latest refl
      get_implied_bundle_block_ranges_runs refl refl (λ b enabled s e. chains_enabled enabled e)
      second_bundle-EndsAbove0
