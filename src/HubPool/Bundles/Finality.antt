-- ===== src/HubPool/Bundles/Finality.antt =====
-- What the client says of root bundles at a past block is final: events of later blocks do not
-- change it.
use acrossclone.Prelude.{
  ℕ, ◌+◌, ◌-◌, ◌≤◌, ◌<◌, ◌≡◌, refl, sym, ap, ◌∙◌, fun_ext, Bool, false, List, [], ◌∷◌, ◌++◌, Option,
  none, some, arith, inl, inr, ltb, ◌==◌, nat_eq, if◌then◌else◌, Bool-cases, Option-cases, ok,
  ◌>>=◌, length, get_elem?, length-append, All, get_elem?-append, get_elem?-append_length,
}
use acrossclone.Prelude.Search.{
  filter, find_last_index?, filter-append_none, find_last?-append_none,
  find_last_index?-append_none, find?-append_none, find?,
}
use mathlib.Core.List.{append-nil}
use acrossclone.Arrays.{SearchFromRight}
use acrossclone.Arrays.Laws.{
  find_last_index_unique, find_last_unique, lt_of_get_elem?, find_last_index?-found,
}
use acrossclone.HubPool.{HubPool, ProposedRootBundle, ExecutedRootBundle}
use acrossclone.HubPool.Bundles.{
  is_leaf_of, get_following_root_bundle, leaf_limit, is_root_bundle_valid, is_validated,
  get_validated_root_bundles, get_latest_fully_executed_root_bundle,
  get_earliest_fully_executed_root_bundle, is_validated_from, get_latest_bundle_end_block_for_chain,
  get_next_bundle_start_block_number, end_block_of, next_block,
}

-- The client after more events have come in.
abbrev pub extend : HubPool → List ProposedRootBundle → List ExecutedRootBundle → HubPool
extend h bundles leaves = record h {
  proposed_root_bundles = h.proposed_root_bundles ++ bundles;
  executed_root_bundles = h.executed_root_bundles ++ leaves;
}

abbrev pub ProposedAfter : ℕ → List ProposedRootBundle → Type 0
ProposedAfter latest = All λ b. latest < b.block_number

abbrev pub ExecutedAfter : ℕ → List ExecutedRootBundle → Type 0
ExecutedAfter latest = All λ l. latest < l.block_number

not_leaf :
    (bundle_block limit latest : ℕ) (leaves : List ExecutedRootBundle)
    → limit ≤ latest
    → ExecutedAfter latest leaves
    → All (λ l. is_leaf_of bundle_block limit l ≡ false) leaves
not_leaf bundle_block limit latest [] p h = tt
not_leaf bundle_block limit latest (l ∷ ls) p h =
    (ground arith, not_leaf bundle_block limit latest ls p h.1)

not_same_block :
    (block latest : ℕ) (bundles : List ProposedRootBundle)
    → block ≤ latest
    → ProposedAfter latest bundles
    → All (λ b. (b.block_number == block) ≡ false) bundles
not_same_block block latest [] p h = tt
not_same_block block latest (b ∷ bs) p h = (ground arith, not_same_block block latest bs p h.1)

leaf_limit-le : (o : Option ProposedRootBundle) (latest : ℕ) → leaf_limit o latest ≤ latest
leaf_limit-le none latest = omega arith
leaf_limit-le (some b) latest = omega arith

module _ (lodash : SearchFromRight ProposedRootBundle) where
  -- The bundle that follows, on a list of proposals.
  abbrev following : List ProposedRootBundle → Option ℕ → Option ProposedRootBundle
  following bundles none = none
  following bundles (some index) =
      if index == length bundles - 1 then none else get_elem? bundles (index + 1)

  get_following_root_bundle_lem :
      (h : HubPool) (b : ProposedRootBundle)
      → get_following_root_bundle lodash h b
        ≡ following h.proposed_root_bundles
            (find_last_index? (λ c. c.block_number == b.block_number) h.proposed_root_bundles)
  unfolding get_following_root_bundle
  get_following_root_bundle_lem h b =
      let index =
        find_last_index_unique (λ c. c.block_number == b.block_number) lodash
          h.proposed_root_bundles in
      elim (Option-cases
        (find_last_index? (λ c. c.block_number == b.block_number) h.proposed_root_bundles)) [
          | inl e ↦ ground (arith, index)
          | inr (i, e) ↦ ground (arith, index)
        ]

  -- Later proposals leave the limit for a bundle's leaves as it was.
  following_limit :
      (latest : ℕ) (old new : List ProposedRootBundle) (found : Option ℕ)
      → ((i : ℕ) → found ≡ some i → i < length old)
      → ProposedAfter latest new
      → leaf_limit (following (old ++ new) found) latest ≡ leaf_limit (following old found) latest
  following_limit latest old new none inside later = refl
  following_limit latest old [] (some i) inside later = rw (append-nil old)
  following_limit latest old (n ∷ ns) (some i) inside later =
      let size = length-append old (n ∷ ns) in
      let within = inside i refl in
      elim (Bool-cases (i == length old - 1)) [
        | inl last ↦
            let next : i + 1 ≡ length old = ground arith in
            let first : get_elem? (old ++ n ∷ ns) (i + 1) ≡ some n =
              rw next (get_elem?-append_length old (n ∷ ns)) in
            let more : (i == length (old ++ n ∷ ns) - 1) ≡ false = ground (arith, size) in
            rw (last, more, first) (omega arith)
        | inr inner ↦
            let same : get_elem? (old ++ n ∷ ns) (i + 1) ≡ get_elem? old (i + 1) =
              get_elem?-append old (n ∷ ns) (i + 1) (ground arith) in
            let more : (i == length (old ++ n ∷ ns) - 1) ≡ false = ground (arith, size) in
            rw (inner, more, same)
      ]

  unvalidated :
      (h : HubPool) (latest : ℕ) (bundles : List ProposedRootBundle)
      → ProposedAfter latest bundles
      → All (λ b. is_validated lodash h latest b ≡ false) bundles
  unfolding is_validated
  unvalidated h latest [] a = tt
  unvalidated h latest (b ∷ bs) a = (ground arith, unvalidated h latest bs a.1)

  unvalidated_from :
      (h : HubPool) (latest start : ℕ) (bundles : List ProposedRootBundle)
      → ProposedAfter latest bundles
      → All (λ b. is_validated_from lodash h latest start b ≡ false) bundles
  unfolding is_validated_from
  unvalidated_from h latest start [] a = tt
  unvalidated_from h latest start (b ∷ bs) a =
      (ground arith, unvalidated_from h latest start bs a.1)

  module _ (h : HubPool) (latest : ℕ) (new : List ProposedRootBundle)
      (leaves : List ExecutedRootBundle) (proposed : ProposedAfter latest new)
      (executed : ExecutedAfter latest leaves) where
    limit_extend :
        (b : ProposedRootBundle)
        → b.block_number ≤ latest
        → leaf_limit (get_following_root_bundle lodash (extend h new leaves) b) latest
          ≡ leaf_limit (get_following_root_bundle lodash h b) latest
    limit_extend b p =
        let test : ProposedRootBundle → Bool = λ c. c.block_number == b.block_number in
        let old = h.proposed_root_bundles in
        let found : find_last_index? test (old ++ new) ≡ find_last_index? test old =
          find_last_index?-append_none test old new
            (not_same_block b.block_number latest new p proposed) in
        let inside = λ (i : ℕ) (e : find_last_index? test old ≡ some i).
          lt_of_get_elem? old i (find_last_index?-found test old i e).1 in
        ap (λ f. leaf_limit f latest)
          (get_following_root_bundle_lem (extend h new leaves) b
            ∙ ap (following (old ++ new)) found)
        ∙ following_limit latest old new (find_last_index? test old) inside proposed
        ∙ sym (ap (λ f. leaf_limit f latest) (get_following_root_bundle_lem h b))

    is_root_bundle_valid-extend :
        (b : ProposedRootBundle)
        → b.block_number ≤ latest
        → is_root_bundle_valid lodash (extend h new leaves) b latest
          ≡ is_root_bundle_valid lodash h b latest
    unfolding is_root_bundle_valid
    is_root_bundle_valid-extend b p =
        let limit = leaf_limit (get_following_root_bundle lodash h b) latest in
        let same =
          filter-append_none (is_leaf_of b.block_number limit) h.executed_root_bundles leaves
            (not_leaf b.block_number limit latest leaves (leaf_limit-le _ latest) executed) in
        rw (limit_extend b p) (ap (λ ls. length ls == b.pool_rebalance_leaf_count) same)

    is_validated-extend :
        (b : ProposedRootBundle)
        → is_validated lodash (extend h new leaves) latest b ≡ is_validated lodash h latest b
    unfolding is_validated
    is_validated-extend b = elim (Bool-cases (ltb latest b.block_number)) [
      | inl above ↦ rw above
      | inr below ↦ rw below (is_root_bundle_valid-extend b (ground arith))
    ]

    is_validated_from-extend :
        (start : ℕ) (b : ProposedRootBundle)
        → is_validated_from lodash (extend h new leaves) latest start b
          ≡ is_validated_from lodash h latest start b
    unfolding is_validated_from
    is_validated_from-extend start b = elim (Bool-cases (ltb latest b.block_number)) [
      | inl above ↦ rw above
      | inr below ↦ rw below (
          ap (λ v. if ltb b.block_number start then false else v)
            (is_root_bundle_valid-extend b (ground arith)))
    ]

    get_validated_root_bundles-extend :
        get_validated_root_bundles lodash (extend h new leaves) latest
        ≡ get_validated_root_bundles lodash h latest
    unfolding get_validated_root_bundles
    get_validated_root_bundles-extend =
        ap (λ p. filter p (h.proposed_root_bundles ++ new)) (fun_ext is_validated-extend)
        ∙ filter-append_none _ h.proposed_root_bundles new (unvalidated h latest new proposed)

    get_latest_fully_executed_root_bundle-extend :
        get_latest_fully_executed_root_bundle lodash (extend h new leaves) latest
        ≡ get_latest_fully_executed_root_bundle lodash h latest
    unfolding get_latest_fully_executed_root_bundle
    get_latest_fully_executed_root_bundle-extend =
        let old = h.proposed_root_bundles in
        let p = is_validated lodash h latest in
        ap (λ q. lodash.find_last q (old ++ new)) (fun_ext is_validated-extend)
        ∙ find_last_unique p lodash (old ++ new)
        ∙ find_last?-append_none p old new (unvalidated h latest new proposed)
        ∙ sym (find_last_unique p lodash old)

    get_earliest_fully_executed_root_bundle-extend :
        (start : ℕ)
        → get_earliest_fully_executed_root_bundle lodash (extend h new leaves) latest start
          ≡ get_earliest_fully_executed_root_bundle lodash h latest start
    unfolding get_earliest_fully_executed_root_bundle
    get_earliest_fully_executed_root_bundle-extend start =
        ap (λ q. find? q (h.proposed_root_bundles ++ new))
          (fun_ext (is_validated_from-extend start))
        ∙ find?-append_none _ h.proposed_root_bundles new
            (unvalidated_from h latest start new proposed)

    -- Proposals and executions of blocks after `latest` change none of these answers at `latest`:
    -- the validated bundles, the latest and the earliest fully executed bundle, a chain's latest
    -- bundle end block, and the block at which its next bundle starts.
    pub past_bundles_are_final :
        (chain_id start : ℕ) (chain_id_list : List ℕ)
        → let h' = extend h new leaves in
          (get_validated_root_bundles lodash h' latest ≡ get_validated_root_bundles lodash h latest)
          × (get_latest_fully_executed_root_bundle lodash h' latest
              ≡ get_latest_fully_executed_root_bundle lodash h latest)
          × (get_earliest_fully_executed_root_bundle lodash h' latest start
              ≡ get_earliest_fully_executed_root_bundle lodash h latest start)
          × (get_latest_bundle_end_block_for_chain lodash h' chain_id_list latest chain_id
              ≡ get_latest_bundle_end_block_for_chain lodash h chain_id_list latest chain_id)
          × (get_next_bundle_start_block_number lodash h' chain_id_list latest chain_id
              ≡ get_next_bundle_start_block_number lodash h chain_id_list latest chain_id)
    unfolding get_next_bundle_start_block_number get_latest_bundle_end_block_for_chain
    past_bundles_are_final chain_id start chain_id_list =
        let same = get_latest_fully_executed_root_bundle-extend in
        let end_same = ap (end_block_of chain_id_list chain_id) same in
        (
          get_validated_root_bundles-extend,
          same,
          get_earliest_fully_executed_root_bundle-extend start,
          end_same,
          ap (λ r. r >>= λ e. ok (next_block e)) end_same,
        )
