-- ===== src/HubPool/Tokens/Newest.antt =====
-- The look-ups give what the newest event by the block said.
use Prim.Native.String.{String}
use acrossclone.Prelude.{
  ℕ, ◌≤◌, ◌<◌, ◌≡◌, ◌⊎◌, inl, inr, refl, ap, ◌∙◌, subst, Bool, true, false, ◌&&◌, List, [], ◌∷◌,
  ◌++◌, none, some, arith, ◌==◌, string_eq, nat_eq, ok, err, >>=-eq-ok, Bool-cases, Option-cases,
  Memᴰ,
}
use mathlib.Core.List.Memᴰ
use text.Mathlib.TextEquality.{eq_iff}
use acrossclone.Prelude.Search.{filter, find?, filter-mem, mem-filter}
use acrossclone.Prelude.Dict.{lookup, keys}
use acrossclone.Events.{sort_events_descending}
use acrossclone.Events.Order.{
  IsNewest, older, find?-descending, find?-descending_none, sort_events_descending-head,
}
use acrossclone.HubPool.{
  HubPool, HubPoolError, no_cross_chain_contracts, no_contract_before_block, SpokePoolSet,
  DestinationToken, spoke_pool_sortable, destination_token_sortable,
}
use acrossclone.HubPool.Tokens.{
  by_block, get_spoke_pool_for_block, mappings_of, get_l2_token_for_l1_token_at_block,
  l2_token_enabled_for_l1_token, mappings_to, matching_mappings, first_l1_token,
  get_l1_token_for_l2_token_at_block,
}

-- A SpokePool that is found is that of a newest contract set for the chain by the block.
pub get_spoke_pool_for_block-IsNewest :
    (h : HubPool) (chain block : ℕ) (spoke_pool : String)
    → get_spoke_pool_for_block h chain block ≡ ok spoke_pool
    → (contracts : List SpokePoolSet) × (contract : SpokePoolSet) × (lookup chain
          h.cross_chain_contracts
        ≡ some contracts)
      × IsNewest (by_block block) contracts contract
      × (contract.spoke_pool ≡ spoke_pool)
unfolding get_spoke_pool_for_block
get_spoke_pool_for_block-IsNewest h chain block spoke_pool e =
    elim (Option-cases (lookup chain h.cross_chain_contracts)) [
      | inl missing ↦ absurd (ground arith)
      | inr (contracts, there) ↦
          elim (Option-cases (find? (by_block block) (sort_events_descending contracts))) [
            | inl missing ↦ absurd (ground arith)
            | inr (contract, found) ↦ (
              contracts,
              contract,
              there,
              find?-descending (by_block block) contracts found,
              ground arith,
            )
          ]
    ]

-- A look-up by block that throws: the chain has no contract, or none by the block.
pub get_spoke_pool_for_block-err :
    (h : HubPool) (chain block : ℕ) (error : HubPoolError)
    → get_spoke_pool_for_block h chain block ≡ err error
    → ((lookup chain h.cross_chain_contracts ≡ none) × (error ≡ no_cross_chain_contracts))
      ⊎ ((contracts : List SpokePoolSet) × (lookup chain h.cross_chain_contracts ≡ some contracts)
          × (error ≡ no_contract_before_block)
          × ((c : SpokePoolSet) → Memᴰ c contracts → block < c.block_number))
unfolding get_spoke_pool_for_block
get_spoke_pool_for_block-err h chain block error e =
    elim (Option-cases (lookup chain h.cross_chain_contracts)) [
      | inl missing ↦ inl (missing, ground arith)
      | inr (contracts, there) ↦
          elim (Option-cases (find? (by_block block) (sort_events_descending contracts))) [
            | inl missing ↦ inr (
              contracts,
              there,
              ground arith,
              λ c m.
                  let late = find?-descending_none (by_block block) contracts missing c m in
                  ground arith,
            )
            | inr (contract, found) ↦ absurd (ground arith)
          ]
    ]

-- An L2 token that is found for an L1 token is that of a newest mapping of the pair by the block.
pub get_l2_token_for_l1_token_at_block-IsNewest :
    (h : HubPool) (l1_token : String) (chain block : ℕ) (l2_token : String)
    → get_l2_token_for_l1_token_at_block h l1_token chain block ≡ ok l2_token
    → (mappings : List DestinationToken) × (mapping : DestinationToken) × (mappings_of h l1_token
          chain
        ≡ some mappings)
      × IsNewest (by_block block) mappings mapping
      × (mapping.l2_token ≡ l2_token)
unfolding get_l2_token_for_l1_token_at_block
get_l2_token_for_l1_token_at_block-IsNewest h l1_token chain block l2_token e =
    elim (Option-cases (mappings_of h l1_token chain)) [
      | inl missing ↦ absurd (ground arith)
      | inr (mappings, there) ↦
          elim (Option-cases (find? (by_block block) (sort_events_descending mappings))) [
            | inl missing ↦ absurd (ground arith)
            | inr (mapping, found) ↦ (
              mappings,
              mapping,
              there,
              find?-descending (by_block block) mappings found,
              ground arith,
            )
          ]
    ]

-- A mapping to an L2 token by a block, under an L1 token that is enabled on the chain.
abbrev pub IsMapping : HubPool → (l2_token : String) → (chain block : ℕ) → DestinationToken → Type 0
IsMapping h l2_token chain block m =
    (l1_token : String) × (mappings : List DestinationToken) × Memᴰ l1_token
      (keys h.l1_tokens_to_destination_tokens_with_block)
    × (l2_token_enabled_for_l1_token h l1_token chain ≡ true)
    × (mappings_of h l1_token chain ≡ some mappings)
    × Memᴰ m mappings
    × (m.l2_token ≡ l2_token)
    × (m.block_number ≤ block)

mappings_to-mem :
    (h : HubPool) (l2_token : String) (chain block : ℕ) (k : String) (ms : List DestinationToken)
    (m : DestinationToken)
    → mappings_to h l2_token chain block k ≡ ok ms
    → Memᴰ m ms
    → (mappings : List DestinationToken) × (l2_token_enabled_for_l1_token h k chain ≡ true)
      × (mappings_of h k chain ≡ some mappings)
      × Memᴰ m mappings
      × (m.l2_token ≡ l2_token)
      × (m.block_number ≤ block)
unfolding mappings_to
mappings_to-mem h l2_token chain block k ms m e here =
    elim (Bool-cases (l2_token_enabled_for_l1_token h k chain)) [
      | inr off ↦
          let nothing : ms ≡ [] = ground arith in
          absurd (Memᴰ.not-nil (subst (Memᴰ m) nothing here))
      | inl on ↦ elim (Option-cases (mappings_of h k chain)) [
        | inl missing ↦ absurd (ground arith)
        | inr (mappings, there) ↦
            let test : DestinationToken → Bool =
              λ x. (x.l2_token == l2_token) && by_block block x in
            let filtered : ms ≡ filter test mappings = ground arith in
            let hit = filter-mem test mappings (subst (Memᴰ m) filtered here) in
            (
              mappings,
              on,
              there,
              hit.0,
              (eq_iff m.l2_token l2_token).0 (ground arith),
              ground arith,
            )
      ]
    ]

mem-mappings_to :
    (h : HubPool) (l2_token : String) (chain block : ℕ) (k : String) (ms : List DestinationToken)
    (m : DestinationToken) (mappings : List DestinationToken)
    → mappings_to h l2_token chain block k ≡ ok ms
    → l2_token_enabled_for_l1_token h k chain ≡ true
    → mappings_of h k chain ≡ some mappings
    → Memᴰ m mappings
    → m.l2_token ≡ l2_token
    → m.block_number ≤ block
    → Memᴰ m ms
unfolding mappings_to
mem-mappings_to h l2_token chain block k ms m mappings e on there here same p =
    let test : DestinationToken → Bool = λ x. (x.l2_token == l2_token) && by_block block x in
    let filtered : filter test mappings ≡ ms = ground arith in
    let hit = (eq_iff m.l2_token l2_token).1 same in
    subst (Memᴰ m) filtered (mem-filter test mappings here (ground arith))

matching_mappings-mem :
    (h : HubPool) (l2_token : String) (chain block : ℕ) (ks : List String)
    (ms : List DestinationToken) (m : DestinationToken)
    → matching_mappings h l2_token chain block ks ≡ ok ms
    → Memᴰ m ms
    → (k : String) × (mappings : List DestinationToken) × Memᴰ k ks
      × (l2_token_enabled_for_l1_token h k chain ≡ true)
      × (mappings_of h k chain ≡ some mappings)
      × Memᴰ m mappings
      × (m.l2_token ≡ l2_token)
      × (m.block_number ≤ block)
unfolding matching_mappings
matching_mappings-mem h l2_token chain block [] ms m e here =
    let nothing : ms ≡ [] = ground arith in absurd (Memᴰ.not-nil (subst (Memᴰ m) nothing here))
matching_mappings-mem h l2_token chain block (k ∷ ks) ms m e here =
    let head = >>=-eq-ok (mappings_to h l2_token chain block k) _ e in
    let rest = >>=-eq-ok (matching_mappings h l2_token chain block ks) _ head.2 in
    let joined : ms ≡ head.0 ++ rest.0 = ground arith in
    let later = matching_mappings-mem h l2_token chain block ks rest.0 m rest.1 in
    elim (Memᴰ.append_cases head.0 (subst (Memᴰ m) joined here)) [
      | inl first ↦
          let (mappings, on, there, within, same, early) =
            mappings_to-mem h l2_token chain block k head.0 m head.1 first in
          (k, mappings, Memᴰ.head refl, on, there, within, same, early)
      | inr other ↦
          let (j, mappings, listed, on, there, within, same, early) = later other in
          (j, mappings, Memᴰ.tail listed, on, there, within, same, early)
    ]

mem-matching_mappings :
    (h : HubPool) (l2_token : String) (chain block : ℕ) (ks : List String)
    (ms : List DestinationToken) (m : DestinationToken) (k : String)
    (mappings : List DestinationToken)
    → matching_mappings h l2_token chain block ks ≡ ok ms
    → Memᴰ k ks
    → l2_token_enabled_for_l1_token h k chain ≡ true
    → mappings_of h k chain ≡ some mappings
    → Memᴰ m mappings
    → m.l2_token ≡ l2_token
    → m.block_number ≤ block
    → Memᴰ m ms
unfolding matching_mappings
mem-matching_mappings h l2_token chain block [] ms m k mappings e listed on there here same p =
    absurd (Memᴰ.not-nil listed)
mem-matching_mappings h l2_token chain block (j ∷ ks) ms m k mappings e (Memᴰ.head this) on there
      here same p =
    let head = >>=-eq-ok (mappings_to h l2_token chain block j) _ e in
    let rest = >>=-eq-ok (matching_mappings h l2_token chain block ks) _ head.2 in
    let joined : head.0 ++ rest.0 ≡ ms = ground arith in
    let made : mappings_to h l2_token chain block k ≡ ok head.0 =
      ap (mappings_to h l2_token chain block) this ∙ head.1 in
    subst (Memᴰ m) joined (
      Memᴰ.append_left rest.0
        (mem-mappings_to h l2_token chain block k head.0 m mappings made on there here same p))
mem-matching_mappings h l2_token chain block (j ∷ ks) ms m k mappings e (Memᴰ.tail listed) on there
      here same p =
    let head = >>=-eq-ok (mappings_to h l2_token chain block j) _ e in
    let rest = >>=-eq-ok (matching_mappings h l2_token chain block ks) _ head.2 in
    let joined : head.0 ++ rest.0 ≡ ms = ground arith in
    subst (Memᴰ m) joined (
      Memᴰ.append_right head.0 (
        mem-matching_mappings h l2_token chain block ks rest.0 m k mappings rest.1 listed on there
          here same p))

first_l1_token-IsNewest :
    (ms sorted : List DestinationToken) (l1_token : String)
    → sort_events_descending ms ≡ sorted
    → first_l1_token sorted ≡ ok l1_token
    → (m : DestinationToken) × Memᴰ m ms
      × (m.l1_token ≡ l1_token)
      × ((n : DestinationToken) → Memᴰ n ms → older m n ≡ false)
first_l1_token-IsNewest ms [] l1_token e f = cc
first_l1_token-IsNewest ms (m ∷ rest) l1_token e f =
    let (listed, newest) = sort_events_descending-head ms m rest e in
    (m, listed, ground arith, newest)

-- An L1 token that is found for an L2 token is that of a newest mapping to it by the block, among
-- the mappings of all L1 tokens that are enabled on the chain.
pub get_l1_token_for_l2_token_at_block-IsNewest :
    (h : HubPool) (l2_token : String) (chain block : ℕ) (l1_token : String)
    → get_l1_token_for_l2_token_at_block h l2_token chain block ≡ ok l1_token
    → (m : DestinationToken) × IsMapping h l2_token chain block m
      × (m.l1_token ≡ l1_token)
      × ((n : DestinationToken) → IsMapping h l2_token chain block n → older m n ≡ false)
unfolding get_l1_token_for_l2_token_at_block
get_l1_token_for_l2_token_at_block-IsNewest h l2_token chain block l1_token e =
    let all = keys h.l1_tokens_to_destination_tokens_with_block in
    let found = >>=-eq-ok (matching_mappings h l2_token chain block all) _ e in
    let first = first_l1_token-IsNewest found.0 _ l1_token refl found.2 in
    (
      first.0,
      matching_mappings-mem h l2_token chain block all found.0 first.0 found.1 first.1,
      first.2,
      λ n (k, mappings, listed, on, there, within, same, early). first.3 n (
          mem-matching_mappings h l2_token chain block all found.0 n k mappings found.1 listed on
            there within same early),
    )
