-- ===== src/HubPool/Tokens.antt =====
-- The token and SpokePool look-ups of clients/HubPoolClient.ts.
pub mod Newest
pub mod Equivalence
use Prim.Native.String.{String}
use acrossclone.Prelude.{
  ℕ, Bool, true, false, not, ◌&&◌, List, [], ◌∷◌, ◌++◌, Option, none, some, if◌then◌else◌, leb, ltb,
  ◌==◌, nat_eq, string_eq, Result, ok, err, ◌>>=◌, get_or,
}
use acrossclone.Prelude.Search.{filter, find?}
use acrossclone.Prelude.Dict.{Dict, lookup, keys}
use acrossclone.Events.{Sortable, block_of, sort_events_descending}
use acrossclone.HubPool.{
  HubPool, HubPoolError, no_cross_chain_contracts, no_contract_before_block, no_spoke_pool_mapping,
  no_mapping_before_block, no_hub_pool_mapping, type_error, SpokePoolSet, DestinationToken, L1Token,
  LpToken, spoke_pool_sortable, destination_token_sortable, max_safe_integer,
}

-- `x.blockNumber <= block`
abbrev pub by_block {ℓ} : {A : Type ℓ} ⦃s : Sortable A⦄ → ℕ → A → Bool
by_block block x = leb (block_of x) block

unfoldable pub get_spoke_pool_for_block : HubPool → (chain block : ℕ) → Result HubPoolError String
unfolding lookup find? sort_events_descending
get_spoke_pool_for_block h chain block = elim (lookup chain h.cross_chain_contracts) [
  | none ↦ err no_cross_chain_contracts
  | some contracts ↦ elim (find? (by_block block) (sort_events_descending contracts)) [
    | none ↦ err no_contract_before_block
    | some contract ↦ ok contract.spoke_pool
  ]
]

-- The source reads `.find` of a missing entry as a TypeError.
unfoldable pub get_spoke_pool_activation_block :
    HubPool → (chain : ℕ) → (spoke_pool : String) → Result HubPoolError (Option ℕ)
unfolding lookup find?
get_spoke_pool_activation_block h chain spoke_pool = elim (lookup chain h.cross_chain_contracts) [
  | none ↦ err type_error
  | some contracts ↦ ok (elim (find? (λ c. c.spoke_pool == spoke_pool) contracts) [
    | none ↦ none
    | some c ↦ some c.block_number
  ])
]

unfoldable pub get_spoke_activation_block_for_chain : HubPool → (chain : ℕ) → Result HubPoolError ℕ
unfolding get_spoke_pool_for_block get_spoke_pool_activation_block
get_spoke_activation_block_for_chain h chain = do
  spoke_pool ← get_spoke_pool_for_block h chain max_safe_integer
  block ← get_spoke_pool_activation_block h chain spoke_pool
  ok (get_or block 0)

-- `this.l1TokensToDestinationTokensWithBlock?.[l1Token]?.[destinationChainId]`
unfoldable pub mappings_of :
    HubPool → (l1_token : String) → (chain : ℕ) → Option (List DestinationToken)
unfolding lookup
mappings_of h l1_token chain = elim (lookup l1_token h.l1_tokens_to_destination_tokens_with_block) [
  | none ↦ none
  | some chains ↦ lookup chain chains
]

unfoldable pub get_l2_token_for_l1_token_at_block :
    HubPool → (l1_token : String) → (chain block : ℕ) → Result HubPoolError String
unfolding mappings_of find? sort_events_descending
get_l2_token_for_l1_token_at_block h l1_token chain block = elim (mappings_of h l1_token chain) [
  | none ↦ err no_spoke_pool_mapping
  | some mappings ↦ elim (find? (by_block block) (sort_events_descending mappings)) [
    | none ↦ err no_mapping_before_block
    | some mapping ↦ ok mapping.l2_token
  ]
]

unfoldable pub l2_token_enabled_for_l1_token : HubPool → (l1_token : String) → (chain : ℕ) → Bool
unfolding lookup
l2_token_enabled_for_l1_token h l1_token chain =
    elim (lookup l1_token h.l1_tokens_to_destination_tokens) [
      | none ↦ false
      | some chains ↦ elim (lookup chain chains) [ none ↦ false | some _ ↦ true ]
    ]

-- The mappings of one L1 token to `l2_token` by a block; `.filter` of a missing entry throws.
unfoldable pub mappings_to :
    HubPool
    → (l2_token : String) → (chain block : ℕ) → (l1_token : String)
    → Result HubPoolError (List DestinationToken)
unfolding l2_token_enabled_for_l1_token mappings_of filter
mappings_to h l2_token chain block l1_token =
    if l2_token_enabled_for_l1_token h l1_token chain
    then elim (mappings_of h l1_token chain) [
      | none ↦ err type_error
      | some mappings ↦ ok (filter (λ m. (m.l2_token == l2_token) && by_block block m) mappings)
    ]
    else ok []

-- The chain of `filter`, `map` and `flat` over the L1 tokens.
unfoldable pub matching_mappings :
    HubPool
    → (l2_token : String) → (chain block : ℕ) → (l1_tokens : List String)
    → Result HubPoolError (List DestinationToken)
unfolding mappings_to
matching_mappings h l2_token chain block [] = ok []
matching_mappings h l2_token chain block (l1_token ∷ l1_tokens) = do
  here ← mappings_to h l2_token chain block l1_token
  rest ← matching_mappings h l2_token chain block l1_tokens
  ok (here ++ rest)

-- `l2Tokens.length === 0` throws, and otherwise `sortEventsDescending(l2Tokens)[0].l1Token`.
abbrev pub first_l1_token : List DestinationToken → Result HubPoolError String
first_l1_token [] = err no_hub_pool_mapping
first_l1_token (mapping ∷ _) = ok mapping.l1_token

unfoldable pub get_l1_token_for_l2_token_at_block :
    HubPool → (l2_token : String) → (chain block : ℕ) → Result HubPoolError String
unfolding matching_mappings sort_events_descending
get_l1_token_for_l2_token_at_block h l2_token chain block = do
  mappings ←
      matching_mappings h l2_token chain block (keys h.l1_tokens_to_destination_tokens_with_block)
  first_l1_token (sort_events_descending mappings)

-- The fields of a deposit that the look-ups read; a quote block that is not known yet is the
-- default, `Number.MAX_SAFE_INTEGER`.
pub record DepositTokens : Type 0 where
  pub origin_chain_id : ℕ
  pub destination_chain_id : ℕ
  pub input_token : String
  pub quote_block_number : Option ℕ

unfoldable pub get_l1_token_for_deposit : HubPool → DepositTokens → Result HubPoolError String
unfolding get_l1_token_for_l2_token_at_block
get_l1_token_for_deposit h deposit =
    get_l1_token_for_l2_token_at_block h deposit.input_token deposit.origin_chain_id
      (get_or deposit.quote_block_number max_safe_integer)

unfoldable pub get_l2_token_for_deposit :
    HubPool → DepositTokens → (l2_chain_id : Option ℕ) → Result HubPoolError String
unfolding get_l1_token_for_deposit get_l2_token_for_l1_token_at_block
get_l2_token_for_deposit h deposit l2_chain_id = do
  l1_token ← get_l1_token_for_deposit h deposit
  get_l2_token_for_l1_token_at_block h l1_token (get_or l2_chain_id deposit.destination_chain_id)
      (get_or deposit.quote_block_number max_safe_integer)

unfoldable pub get_token_info_for_l1_token : HubPool → String → Option L1Token
unfolding find?
get_token_info_for_l1_token h l1_token = find? (λ t. t.address == l1_token) h.l1_tokens

unfoldable pub get_lp_token_info_for_l1_token : HubPool → String → Option LpToken
unfolding lookup
get_lp_token_info_for_l1_token h l1_token = lookup l1_token h.lp_tokens

unfoldable pub get_l1_token_info_for_l2_token :
    HubPool → (l2_token : String) → (chain : ℕ) → Result HubPoolError (Option L1Token)
unfolding get_l1_token_for_l2_token_at_block get_token_info_for_l1_token
get_l1_token_info_for_l2_token h l2_token chain = do
  l1_token ← get_l1_token_for_l2_token_at_block h l2_token chain h.latest_block_searched
  ok (get_token_info_for_l1_token h l1_token)

unfoldable pub get_token_info_for_deposit :
    HubPool → DepositTokens → Result HubPoolError (Option L1Token)
unfolding get_l1_token_for_l2_token_at_block get_token_info_for_l1_token
get_token_info_for_deposit h deposit = do
  l1_token ←
      get_l1_token_for_l2_token_at_block h deposit.input_token deposit.origin_chain_id
        h.latest_block_searched
  ok (get_token_info_for_l1_token h l1_token)

-- `catch { return false; }`
abbrev pub or_false : Result HubPoolError Bool → Bool
or_false (ok b) = b
or_false (err e) = false

-- Both HubPool tokens resolve back to the SpokePool tokens.
unfoldable pub round_trips :
    HubPool
    → (l1_token_a token_a : String) → (chain_a : ℕ) → (l1_token_b token_b : String)
    → (chain_b hub_pool_block : ℕ) → Result HubPoolError Bool
unfolding get_l2_token_for_l1_token_at_block
round_trips h l1_token_a token_a chain_a l1_token_b token_b chain_b hub_pool_block = do
  a ← get_l2_token_for_l1_token_at_block h l1_token_a chain_a hub_pool_block
  b ← get_l2_token_for_l1_token_at_block h l1_token_b chain_b hub_pool_block
  ok ((token_a == a) && (token_b == b))

-- The `try` block: `false` also where a look-up throws.
unfoldable pub are_tokens_equivalent :
    HubPool
    → (token_a : String) → (chain_a : ℕ) → (token_b : String) → (chain_b hub_pool_block : ℕ) → Bool
unfolding get_l1_token_for_l2_token_at_block get_l2_token_for_l1_token_at_block round_trips
are_tokens_equivalent h token_a chain_a token_b chain_b hub_pool_block = or_false do
  l1_token_a ← get_l1_token_for_l2_token_at_block h token_a chain_a hub_pool_block
  l1_token_b ← get_l1_token_for_l2_token_at_block h token_b chain_b hub_pool_block
  if l1_token_a == l1_token_b
      then round_trips h l1_token_a token_a chain_a l1_token_b token_b chain_b hub_pool_block
      else ok false
