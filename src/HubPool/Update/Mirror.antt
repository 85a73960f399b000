-- ===== src/HubPool/Update/Mirror.antt =====
-- The client mirrors the events of the chain: what its updates keep is what the logs of the
-- contract hold up to the latest block that was searched.
use Prim.Native.String.{String}
use acrossclone.Prelude.{
  ℕ, ◌+◌, ◌≤◌, ◌≡◌, refl, sym, ap, ap₂, ◌∙◌, Bool, true, ◌&&◌, not, List, [], ◌∷◌, ◌++◌, map,
  nat_eq, string_eq, ◌==◌, if◌then◌else◌, Bool-cases, inl, inr, arith,
}
use mathlib.Core.List.{append_assoc, append-nil}
use acrossclone.Prelude.Search.{filter, includes}
use acrossclone.Prelude.Dict.{Dict}
use acrossclone.Objects.{array_of, array_at, array_of-assign_array, array_at-assign_array_at}
use acrossclone.Events.{Sortable}
use acrossclone.Events.Pages.{within}
use acrossclone.Events.Pages.Query.{IsBlockOrdered, filter-within_cut}
use acrossclone.HubPool.{
  HubPool, SpokePoolSet, DestinationToken, executed_sortable, proposed_sortable, cancelled_sortable,
}
use acrossclone.HubPool.Events.{
  HubPoolEvents, event_name_eq, CrossChainContractsSet, SetPoolRebalanceRoot,
  contracts_set_sortable, route_sortable,
}
use acrossclone.HubPool.Loops.{
  to_spoke_pool_set, to_destination_token, assign_contracts, assign_mappings,
}
use acrossclone.HubPool.Update.Steps.{split_all}

-- The events of a log that a client has seen that began to search at `start`.
abbrev pub seen : {A : Type 0} ⦃s : Sortable A⦄ → HubPool → (start : ℕ) → List A → List A
seen h start log = if h.is_updated then filter (within start h.latest_block_searched) log else []

abbrev pub on_chain : ℕ → CrossChainContractsSet → Bool
on_chain chain e = e.l2_chain_id == chain

abbrev pub on_route : String → ℕ → SetPoolRebalanceRoot → Bool
on_route l1_token chain e = e.l1_token == l1_token && e.destination_chain_id == chain

-- The client's state against the whole log, for a client whose first search starts at `from`.
pub record IsMirror (log : HubPoolEvents) (from : ℕ) (h : HubPool) : Type 0 where
  pub deployed : h.deployment_block ≤ from
  pub reached : h.is_updated ≡ true → from ≤ h.latest_block_searched
  pub next : h.first_block_to_search ≡ (if h.is_updated then h.latest_block_searched + 1 else from)
  pub proposed :
      h.proposed_root_bundles
      ≡ filter
          (λ e. not (includes h.ignored_hub_proposed_bundles e.block_number))
          (seen h from log.proposed)
  pub canceled : h.canceled_root_bundles ≡ seen h from log.canceled
  pub disputed : h.disputed_root_bundles ≡ seen h from log.disputed
  pub executed :
      h.executed_root_bundles ≡ split_all h.ignored_hub_executed_bundles (seen h from log.executed)
  pub contracts :
      (chain : ℕ)
      → array_of chain h.cross_chain_contracts
        ≡ map to_spoke_pool_set
            (filter (on_chain chain) (seen h h.deployment_block log.contracts_set))
  pub mappings :
      (l1_token : String) (chain : ℕ)
      → array_at l1_token chain h.l1_tokens_to_destination_tokens_with_block
        ≡ map to_destination_token
            (filter (on_route l1_token chain) (seen h h.deployment_block log.routes))

pub array_of-assign_contracts :
    (chain : ℕ) (events : List CrossChainContractsSet) (d : Dict ℕ (List SpokePoolSet))
    → array_of chain (assign_contracts events d)
      ≡ array_of chain d ++ map to_spoke_pool_set (filter (on_chain chain) events)
unfolding assign_contracts filter
array_of-assign_contracts chain [] d = sym (append-nil (array_of chain d))
array_of-assign_contracts chain (e ∷ events) d =
    let rest = array_of-assign_contracts chain events _ in
    let first = array_of-assign_array chain e.l2_chain_id (to_spoke_pool_set e ∷ []) d in
    elim (Bool-cases (on_chain chain e)) [
      | inl hit ↦
          rest ∙ rw first (rw hit (append_assoc (array_of chain d) (to_spoke_pool_set e ∷ []) _))
      | inr miss ↦
          rest
          ∙ rw first (
              rw miss (
                ap (λ l. l ++ map to_spoke_pool_set (filter (on_chain chain) events))
                  (append-nil (array_of chain d))))
    ]

pub array_at-assign_mappings :
    (l1_token : String) (chain : ℕ) (events : List SetPoolRebalanceRoot)
    (d : Dict String (Dict ℕ (List DestinationToken)))
    → array_at l1_token chain (assign_mappings events d)
      ≡ array_at l1_token chain d
        ++ map to_destination_token (filter (on_route l1_token chain) events)
unfolding assign_mappings filter
array_at-assign_mappings l1_token chain [] d = sym (append-nil (array_at l1_token chain d))
array_at-assign_mappings l1_token chain (e ∷ events) d =
    let rest = array_at-assign_mappings l1_token chain events _ in
    let first =
      array_at-assign_array_at l1_token e.l1_token chain e.destination_chain_id
        (to_destination_token e ∷ []) d in
    elim (Bool-cases (on_route l1_token chain e)) [
      | inl hit ↦
          rest
          ∙ rw first
              (rw hit (append_assoc (array_at l1_token chain d) (to_destination_token e ∷ []) _))
      | inr miss ↦
          rest
          ∙ rw first (
              rw miss (
                ap (λ l. l ++ map to_destination_token (filter (on_route l1_token chain) events))
                  (append-nil (array_at l1_token chain d))))
    ]

-- What was seen and what a further search finds make up what is seen after it.
seen-extend :
    {A : Type 0} ⦃s : Sortable A⦄ (h : HubPool) (start first last : ℕ) (log : List A)
    → first ≡ (if h.is_updated then h.latest_block_searched + 1 else start)
    → (h.is_updated ≡ true → start ≤ h.latest_block_searched)
    → first ≤ last
    → IsBlockOrdered log
    → seen h start log ++ filter (within first last) log ≡ filter (within start last) log
seen-extend h start first last log next reached p ordered = elim (Bool-cases h.is_updated) [
  | inl again ↦
      let mid = h.latest_block_searched in
      let follows : first ≡ mid + 1 = (rw again at next) in
      let cut =
        filter-within_cut start mid last log (omega (arith, reached again)) (omega arith) ordered in
      rw (again, follows) cut
  | inr fresh ↦ let begins : first ≡ start = (rw fresh at next) in rw (fresh, begins) refl
]

-- What is kept of the events seen, by a rule that takes the events one by one.
pub kept-extend :
    {A : Type 0} {B : Type 0} ⦃s : Sortable A⦄ (rule : List A → List B) (h : HubPool)
    (start first last : ℕ) (log new : List A) (old : List B)
    → ((xs ys : List A) → rule (xs ++ ys) ≡ rule xs ++ rule ys)
    → old ≡ rule (seen h start log)
    → new ≡ filter (within first last) log
    → first ≡ (if h.is_updated then h.latest_block_searched + 1 else start)
    → (h.is_updated ≡ true → start ≤ h.latest_block_searched)
    → first ≤ last
    → IsBlockOrdered log
    → old ++ rule new ≡ rule (filter (within start last) log)
kept-extend rule h start first last log new old append kept found next reached p ordered =
    ap₂ (λ xs ys. xs ++ rule ys) kept found
    ∙ sym (append (seen h start log) (filter (within first last) log))
    ∙ ap rule (seen-extend h start first last log next reached p ordered)
