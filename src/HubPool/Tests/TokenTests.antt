-- ===== src/HubPool/Tests/TokenTests.antt =====
-- Token look-ups of the sample client.
use Prim.Native.String.{String}
use acrossclone.Prelude.{◌≡◌, ◌<◌, ◌⊎◌, ◌↔◌, refl, true, false, List, some, none, ok, Memᴰ}
use acrossclone.Prelude.Dict.{lookup}
use acrossclone.Events.Order.{IsNewest, older}
use acrossclone.HubPool.{
  SpokePoolSet, DestinationToken, spoke_pool_sortable, destination_token_sortable,
  no_cross_chain_contracts, no_contract_before_block,
}
use acrossclone.HubPool.Tokens.{
  by_block, get_spoke_pool_for_block, mappings_of, get_l2_token_for_l1_token_at_block,
  get_l1_token_for_l2_token_at_block, are_tokens_equivalent,
}
use acrossclone.HubPool.Tokens.Newest.{
  IsMapping, get_spoke_pool_for_block-IsNewest, get_spoke_pool_for_block-err,
  get_l2_token_for_l1_token_at_block-IsNewest, get_l1_token_for_l2_token_at_block-IsNewest,
}
use acrossclone.HubPool.Tokens.Equivalence.{are_tokens_equivalent_iff, are_tokens_equivalent_comm}
use acrossclone.HubPool.Tests.{client}
use acrossclone.Prelude.{nat_eq}

get_spoke_pool_for_block-IsNewest_example :
    (contracts : List SpokePoolSet) × (contract : SpokePoolSet) × (lookup 10
        client.cross_chain_contracts
      ≡ some contracts)
    × IsNewest (by_block 49) contracts contract
    × (contract.spoke_pool ≡ "0xold")
unfolding get_spoke_pool_for_block
get_spoke_pool_for_block-IsNewest_example =
    get_spoke_pool_for_block-IsNewest client 10 49 "0xold" refl

get_spoke_pool_for_block_throws :
    ((lookup 10 client.cross_chain_contracts ≡ none)
      × (no_contract_before_block ≡ no_cross_chain_contracts))
    ⊎ ((contracts : List SpokePoolSet) × (lookup 10 client.cross_chain_contracts ≡ some contracts)
        × (no_contract_before_block ≡ no_contract_before_block)
        × ((c : SpokePoolSet) → Memᴰ c contracts → 19 < c.block_number))
unfolding get_spoke_pool_for_block
get_spoke_pool_for_block_throws =
    get_spoke_pool_for_block-err client 10 19 no_contract_before_block refl

get_l2_token_for_l1_token_at_block-IsNewest_example :
    (mappings : List DestinationToken) × (mapping : DestinationToken) × (mappings_of client "0xdai"
        10
      ≡ some mappings)
    × IsNewest (by_block 60) mappings mapping
    × (mapping.l2_token ≡ "0xdai10")
unfolding get_l2_token_for_l1_token_at_block
get_l2_token_for_l1_token_at_block-IsNewest_example =
    get_l2_token_for_l1_token_at_block-IsNewest client "0xdai" 10 60 "0xdai10" refl

get_l1_token_for_l2_token_at_block-IsNewest_example :
    (m : DestinationToken) × IsMapping client "0xdai137" 137 60 m
    × (m.l1_token ≡ "0xdai")
    × ((n : DestinationToken) → IsMapping client "0xdai137" 137 60 n → older m n ≡ false)
unfolding get_l1_token_for_l2_token_at_block
get_l1_token_for_l2_token_at_block-IsNewest_example =
    get_l1_token_for_l2_token_at_block-IsNewest client "0xdai137" 137 60 "0xdai" refl

are_tokens_equivalent_runs : are_tokens_equivalent client "0xdai10" 10 "0xdai137" 137 130 ≡ true
unfolding are_tokens_equivalent
are_tokens_equivalent_runs = refl

-- A token that has been replaced is not equivalent to the one on another chain.
are_tokens_equivalent_stale : are_tokens_equivalent client "0xbad" 10 "0xdai137" 137 130 ≡ false
unfolding are_tokens_equivalent
are_tokens_equivalent_stale = refl

are_tokens_equivalent_iff_example :
    are_tokens_equivalent client "0xdai10" 10 "0xdai137" 137 130 ≡ true
    ↔ (l1_token : String) × (get_l1_token_for_l2_token_at_block client "0xdai10" 10 130
        ≡ ok l1_token)
      × (get_l1_token_for_l2_token_at_block client "0xdai137" 137 130 ≡ ok l1_token)
      × (get_l2_token_for_l1_token_at_block client l1_token 10 130 ≡ ok "0xdai10")
      × (get_l2_token_for_l1_token_at_block client l1_token 137 130 ≡ ok "0xdai137")
are_tokens_equivalent_iff_example = are_tokens_equivalent_iff client "0xdai10" 10 "0xdai137" 137 130

are_tokens_equivalent_both_ways :
    are_tokens_equivalent client "0xdai10" 10 "0xdai137" 137 130
    ≡ are_tokens_equivalent client "0xdai137" 137 "0xdai10" 10 130
are_tokens_equivalent_both_ways = are_tokens_equivalent_comm client "0xdai10" 10 "0xdai137" 137 130
