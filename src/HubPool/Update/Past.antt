-- ===== src/HubPool/Update/Past.antt =====
-- Updates do not change what the client says of blocks that it has searched.
use acrossclone.Prelude.{
  ℕ, ◌+◌, ◌≤◌, ◌<◌, ◌≡◌, sym, ap, ap₂, ◌∙◌, subst, Bool, true, false, not, List, [], ◌∷◌, ◌++◌,
  none, nat_eq, Bool-cases, Result-cases, inl, inr, ok, arith, All, length, ◌==◌, ◌||◌, ◌*◌, ok-inj,
}
use mathlib.Core.List.{append-nil}
use acrossclone.Prelude.Search.{filter, includes}
use acrossclone.Arrays.{SearchFromRight}
use acrossclone.Events.{Sortable, block_of}
use acrossclone.Events.Pages.{within}
use acrossclone.BaseClient.{already_updated, bad_request, rpc_error}
use acrossclone.HubPool.{
  HubPool, ProposedRootBundle, ExecutedRootBundle, executed_sortable, proposed_sortable,
}
use acrossclone.HubPool.Bundles.{
  get_validated_root_bundles, get_latest_fully_executed_root_bundle,
  get_next_bundle_start_block_number, is_validated, is_root_bundle_valid, get_following_root_bundle,
  get_executed_leaves_for_root_bundle, get_latest_bundle_end_block_for_chain,
}
use acrossclone.HubPool.Bundles.Finality.{ProposedAfter, ExecutedAfter, past_bundles_are_final}
use acrossclone.HubPool.Events.{HubPoolNode, HubPoolEvents, all_events, fetch_update}
use acrossclone.HubPool.Loops.{split_balances}
use acrossclone.HubPool.Update.{update}
use acrossclone.HubPool.Update.Fetch.{IsHonestNode, IsOrderedLog, fetch_update-IsFetched}
use acrossclone.HubPool.Update.Mirror.{IsMirror}
use acrossclone.HubPool.Update.Steps.{split_all, apply_update-updated}

All-within :
    {A : Type 0} ⦃s : Sortable A⦄ (latest first last : ℕ) (log : List A)
    → latest < first
    → All (λ x. latest < block_of x) (filter (within first last) log)
unfolding filter
All-within latest first last [] p = tt
All-within latest first last (x ∷ log) p =
    let rest = All-within latest first last log p in
    elim (Bool-cases (within first last x)) [
      | inl inside ↦ rw inside (ground arith, rest)
      | inr outside ↦ rw outside rest
    ]

All-filter :
    {A : Type 0} (P : A → Type 0) (p : A → Bool) (xs : List A) → All P xs → All P (filter p xs)
unfolding filter
All-filter P p [] h = tt
All-filter P p (x ∷ xs) h = elim (Bool-cases (p x)) [
  | inl hit ↦ rw hit (h.0, All-filter P p xs h.1)
  | inr miss ↦ rw miss (All-filter P p xs h.1)
]

split_balances-block_number :
    (e leaf : ExecutedRootBundle) → split_balances e ≡ ok leaf → e.block_number ≡ leaf.block_number
unfolding split_balances
split_balances-block_number e leaf h =
    let n_tokens = length e.l1_tokens in
    let balances = length e.running_balances in
    elim (Bool-cases (balances == n_tokens || balances == n_tokens * 2)) [
      | inl fine ↦
          ap (λ (l : ExecutedRootBundle). l.block_number) (ok-inj (rw (split_balances, fine) at h))
      | inr wrong ↦ let clash = (rw (split_balances, wrong) at h) in cc
    ]

split_all-ExecutedAfter :
    (ignored : List ℕ) (latest : ℕ) (events : List ExecutedRootBundle)
    → ExecutedAfter latest events
    → ExecutedAfter latest (split_all ignored events)
unfolding split_all
split_all-ExecutedAfter ignored latest [] h = tt
split_all-ExecutedAfter ignored latest (e ∷ events) h =
    let rest = split_all-ExecutedAfter ignored latest events h.1 in
    elim (Bool-cases (includes ignored e.block_number)) [
      | inl skipped ↦ rw skipped rest
      | inr kept ↦ elim (Result-cases (split_balances e)) [
        | inl (leaf, found) ↦
            let same = split_balances-block_number e leaf found in
            let first = h.0 in rw (kept, found) (subst (λ b. latest < b) same first, rest)
        | inr (thrown, found) ↦ rw (kept, found) rest
      ]
    ]

-- What an update adds lies after the blocks that were searched before it.
update-new :
    (log : HubPoolEvents) (from : ℕ) (node : HubPoolNode) (store_updated : Bool) (h h' : HubPool)
    (latest : ℕ)
    → IsHonestNode log node
    → IsOrderedLog log
    → IsMirror log from h
    → h.is_updated ≡ true
    → latest ≤ h.latest_block_searched
    → update node store_updated all_events h ≡ (h', none)
    → (bundles : List ProposedRootBundle) × (leaves : List ExecutedRootBundle) × ProposedAfter
        latest bundles
      × ExecutedAfter latest leaves
      × (h'.proposed_root_bundles ≡ h.proposed_root_bundles ++ bundles)
      × (h'.executed_root_bundles ≡ h.executed_root_bundles ++ leaves)
unfolding update
update-new log from node false h h' latest honest ordered m again p e = cc
update-new log from node true h h' latest honest ordered m again p e =
    elim (Result-cases (fetch_update node h all_events)) [
      | inl (inl u, fetched) ↦
          let (first, f) = fetch_update-IsFetched log node h u honest ordered fetched in
          let (tokens, infos, pending, same) =
            apply_update-updated node u h h' (rw (update, fetched) at e) in
          let next : h.first_block_to_search ≡ h.latest_block_searched + 1 = (rw again at m.next) in
          let proposed =
            All-within latest h.first_block_to_search u.search_end_block log.proposed
              (omega arith) in
          let executed =
            All-within latest h.first_block_to_search u.search_end_block log.executed
              (omega arith) in
          (
            _,
            _,
            All-filter _ (λ e. not (includes h.ignored_hub_proposed_bundles e.block_number)) _
                (subst (λ xs. ProposedAfter latest xs) (sym f.proposed) proposed),
            split_all-ExecutedAfter h.ignored_hub_executed_bundles latest u.events.executed
                (subst (λ xs. ExecutedAfter latest xs) (sym f.executed) executed),
            ap (λ (s : HubPool). s.proposed_root_bundles) same,
            ap (λ (s : HubPool). s.executed_root_bundles) same,
          )
      | inl (inr already_updated, fetched) ↦
          let same : h ≡ h' = ap (λ o. o.0) (rw (update, fetched) at e) in
          (
            [],
            [],
            tt,
            tt,
            ap (λ (s : HubPool). s.proposed_root_bundles) (sym same) ∙ sym (append-nil _),
            ap (λ (s : HubPool). s.executed_root_bundles) (sym same) ∙ sym (append-nil _),
          )
      | inl (inr bad_request, fetched) ↦ let clash = (rw (update, fetched) at e) in cc
      | inl (inr rpc_error, fetched) ↦ let clash = (rw (update, fetched) at e) in cc
      | inr (thrown, fetched) ↦ let clash = (rw (update, fetched) at e) in cc
    ]

module _ (lodash : SearchFromRight ProposedRootBundle) where
  -- An update for all events that returns, from a node that serves an ordered log which the client
  -- mirrors, does not change what an updated client answers for a block that it has searched: the
  -- validated bundles, the latest fully executed bundle, and the
  -- block at which a chain's next bundle starts.
  pub update-keeps_past :
      (log : HubPoolEvents) (from : ℕ) (node : HubPoolNode) (store_updated : Bool) (h h' : HubPool)
      (latest chain_id : ℕ) (chain_id_list : List ℕ)
      → IsHonestNode log node
      → IsOrderedLog log
      → IsMirror log from h
      → h.is_updated ≡ true
      → latest ≤ h.latest_block_searched
      → update node store_updated all_events h ≡ (h', none)
      → (get_validated_root_bundles lodash h' latest ≡ get_validated_root_bundles lodash h latest)
        × (get_latest_fully_executed_root_bundle lodash h' latest
            ≡ get_latest_fully_executed_root_bundle lodash h latest)
        × (get_next_bundle_start_block_number lodash h' chain_id_list latest chain_id
            ≡ get_next_bundle_start_block_number lodash h chain_id_list latest chain_id)
  unfolding get_validated_root_bundles get_latest_fully_executed_root_bundle
      get_next_bundle_start_block_number get_latest_bundle_end_block_for_chain is_validated
      is_root_bundle_valid get_following_root_bundle get_executed_leaves_for_root_bundle
  update-keeps_past log from node store_updated h h' latest chain_id chain_id_list honest ordered m
        again p e =
      let (bundles, leaves, proposed, executed, same_bundles, same_leaves) =
        update-new log from node store_updated h h' latest honest ordered m again p e in
      let with_lists : List ProposedRootBundle → List ExecutedRootBundle → HubPool =
        λ bs ls. record h { proposed_root_bundles = bs; executed_root_bundles = ls } in
      let final =
        past_bundles_are_final lodash h latest bundles leaves proposed executed chain_id 0
          chain_id_list in
      (
        ap₂ (λ bs ls. get_validated_root_bundles lodash (with_lists bs ls) latest) same_bundles
              same_leaves
            ∙ final.0,
        ap₂ (λ bs ls. get_latest_fully_executed_root_bundle lodash (with_lists bs ls) latest)
              same_bundles same_leaves
            ∙ final.1,
        ap₂
              (λ bs ls.
                get_next_bundle_start_block_number lodash (with_lists bs ls) chain_id_list latest
                  chain_id)
              same_bundles same_leaves
            ∙ final.4,
      )
