-- ===== src/HubPool/Loops.antt =====
-- The loops of `update` in clients/HubPoolClient.ts, each over one kind of event.
use Prim.Native.String.{String}
use acrossclone.Prelude.{
  ℕ, ◌*◌, ◌&&◌, ◌||◌, not, List, [], ◌∷◌, ◌++◌, map, none, some, ltb, leb, ◌==◌, nat_eq, string_eq,
  if◌then◌else◌, length, take, drop, Result, ok, err, ◌>>=◌, Outcome,
}
use acrossclone.Prelude.Int.{pos}
use acrossclone.Prelude.Search.{find?, includes}
use acrossclone.Prelude.Dict.{Dict, insert, alter}
use acrossclone.Objects.{assign_array, assign_array_at, assign_text_at}
use acrossclone.HubPool.{
  HubPoolError, unsupported_token, invalid_running_balances, ProposedRootBundle, ExecutedRootBundle,
  SpokePoolSet, DestinationToken, L1Token, LpToken, PendingRootBundle, to_number,
}
use acrossclone.HubPool.Events.{
  event_name_eq, CrossChainContractsSet, SetPoolRebalanceRoot, RootBundleProposal,
}

abbrev pub to_spoke_pool_set : CrossChainContractsSet → SpokePoolSet
to_spoke_pool_set e = record { place = e.place; spoke_pool = e.spoke_pool }

abbrev pub to_destination_token : SetPoolRebalanceRoot → DestinationToken
to_destination_token e = record {
  place = e.place;
  l1_token = e.l1_token;
  l2_token = e.destination_token;
}

-- The loop over the `CrossChainContractsSet` events.
unfoldable pub assign_contracts :
    List CrossChainContractsSet → Dict ℕ (List SpokePoolSet) → Dict ℕ (List SpokePoolSet)
unfolding assign_array
assign_contracts [] contracts = contracts
assign_contracts (e ∷ events) contracts =
    assign_contracts events (assign_array e.l2_chain_id (to_spoke_pool_set e ∷ []) contracts)

-- The loop over the `SetPoolRebalanceRoute` events, for each of the two maps.
unfoldable pub assign_routes :
    List SetPoolRebalanceRoot → Dict String (Dict ℕ String) → Dict String (Dict ℕ String)
unfolding assign_text_at
assign_routes [] routes = routes
assign_routes (e ∷ events) routes =
    assign_routes events
      (assign_text_at e.l1_token e.destination_chain_id e.destination_token routes)

unfoldable pub assign_mappings :
    List SetPoolRebalanceRoot
    → Dict String (Dict ℕ (List DestinationToken))
    → Dict String (Dict ℕ (List DestinationToken))
unfolding assign_array_at
assign_mappings [] mappings = mappings
assign_mappings (e ∷ events) mappings =
    assign_mappings events
      (assign_array_at e.l1_token e.destination_chain_id (to_destination_token e ∷ []) mappings)

-- `Promise.all` over the tokens.
unfoldable pub map_all :
    {A : Type 0} {B : Type 0} → (A → Result HubPoolError B) → List A → Result HubPoolError (List B)
map_all fetch [] = ok []
map_all fetch (x ∷ xs) = do y ← fetch x; ys ← map_all fetch xs; ok (y ∷ ys)

-- The loop that adds the tokens whose symbol is new; it stops at one with decimals out of range.
unfoldable pub push_tokens : List L1Token → List L1Token → Outcome HubPoolError (List L1Token)
unfolding find?
push_tokens [] tokens = (tokens, none)
push_tokens (info ∷ infos) tokens =
    let known = push_tokens infos tokens in
    let added = push_tokens infos (tokens ++ info ∷ []) in
    elim (find? (λ t. t.symbol == info.symbol) tokens) [
      | some _ ↦ known
      | none ↦
          if ltb 0 info.decimals && leb info.decimals 18
          then added
          else (tokens, some unsupported_token)
    ]

-- `this.lpTokens[token] = ..` for each token.
unfoldable pub insert_lp_tokens :
    List String → List LpToken → Dict String LpToken → Dict String LpToken
unfolding alter
insert_lp_tokens (token ∷ tokens) (info ∷ infos) d =
    insert_lp_tokens tokens infos (insert token info d)
insert_lp_tokens _ _ d = d

-- The safeguard on an executed bundle's balances, and their split: the running balances come
-- first, the incentive balances after them or not at all.
unfoldable pub split_balances : ExecutedRootBundle → Result HubPoolError ExecutedRootBundle
split_balances leaf =
    let n_tokens = length leaf.l1_tokens in
    let balances = leaf.running_balances in
    if not (length balances == n_tokens || length balances == n_tokens * 2)
    then err invalid_running_balances
    else ok (record leaf {
      running_balances = take n_tokens balances;
      incentive_balances =
          if ltb n_tokens (length balances)
          then drop n_tokens balances
          else map (λ _. pos 0) balances;
    })

-- The loop over the `RootBundleExecuted` events.
unfoldable pub push_executed :
    (ignored : List ℕ)
    → List ExecutedRootBundle
    → List ExecutedRootBundle
    → Outcome HubPoolError (List ExecutedRootBundle)
unfolding split_balances includes
push_executed ignored [] bundles = (bundles, none)
push_executed ignored (e ∷ events) bundles =
    let skip = push_executed ignored events bundles in
    let push = λ (leaf : ExecutedRootBundle). push_executed ignored events (bundles ++ leaf ∷ []) in
    if includes ignored e.block_number
    then skip
    else elim (split_balances e) [ ok leaf ↦ push leaf | err thrown ↦ (bundles, some thrown) ]

-- `try { return block.toNumber(); } catch { return 0; }`
abbrev pub to_number_or_zero : ℕ → ℕ
to_number_or_zero block = elim (to_number block) [ ok n ↦ n | err _ ↦ 0 ]

abbrev pub to_pending : RootBundleProposal → ProposedRootBundle → PendingRootBundle
to_pending proposal latest = record {
  pool_rebalance_root = proposal.pool_rebalance_root;
  relayer_refund_root = proposal.relayer_refund_root;
  slow_relay_root = proposal.slow_relay_root;
  proposer = proposal.proposer;
  unclaimed_pool_rebalance_leaf_count = proposal.unclaimed_pool_rebalance_leaf_count;
  challenge_period_end_timestamp = proposal.challenge_period_end_timestamp;
  bundle_evaluation_block_numbers = map to_number_or_zero latest.bundle_evaluation_block_numbers;
  proposal_block_number = latest.block_number;
}
