-- ===== src/HubPool/Update/Steps.antt =====
-- What an update that does not throw does to the client, step by step and as a whole.
use Prim.Native.String.{String}
use acrossclone.Prelude.{
  ℕ, ◌+◌, ◌≡◌, refl, sym, ap, ◌∙◌, true, not, List, [], ◌∷◌, ◌++◌, Option, none, some, nat_eq,
  string_eq, map, if◌then◌else◌, Bool-cases, Option-cases, Result-cases, inl, inr, ok, err,
  and_then-eq-none, ltb, get_last?,
}
use mathlib.Core.List.{append_assoc, append-nil}
use acrossclone.Prelude.Search.{filter, includes}
use acrossclone.Prelude.Dict.{Dict}
use acrossclone.Arrays.{dedup_array}
use acrossclone.HubPool.{HubPool, ExecutedRootBundle, L1Token, LpToken, PendingRootBundle}
use acrossclone.HubPool.Events.{HubPoolNode, HubPoolUpdateSuccess, all_events}
use acrossclone.HubPool.Loops.{
  assign_contracts, assign_routes, assign_mappings, push_tokens, insert_lp_tokens, split_balances,
  push_executed,
}
use acrossclone.HubPool.Update.{
  fetch_tokens, update_contracts, update_routes, update_tokens, update_proposed, update_canceled,
  update_disputed, update_executed, update_pending, finish_update, apply_update,
}

-- The executed bundles that the client keeps of a list of events, with their balances split.
unfoldable pub split_all : (ignored : List ℕ) → List ExecutedRootBundle → List ExecutedRootBundle
unfolding includes split_balances
split_all ignored [] = []
split_all ignored (e ∷ events) =
    let rest = split_all ignored events in
    if includes ignored e.block_number
    then rest
    else elim (split_balances e) [ ok leaf ↦ leaf ∷ rest | err _ ↦ rest ]

pub split_all-append :
    (ignored : List ℕ) (xs ys : List ExecutedRootBundle)
    → split_all ignored (xs ++ ys) ≡ split_all ignored xs ++ split_all ignored ys
unfolding split_all
split_all-append ignored [] ys = refl
split_all-append ignored (x ∷ xs) ys =
    let rest = split_all-append ignored xs ys in
    elim (Bool-cases (includes ignored x.block_number)) [
      | inl skipped ↦ rw skipped rest
      | inr kept ↦ elim (Result-cases (split_balances x)) [
        | inl (leaf, e) ↦ rw (kept, e) (ap (λ l. leaf ∷ l) rest)
        | inr (thrown, e) ↦ rw (kept, e) rest
      ]
    ]

push_executed-split_all :
    (ignored : List ℕ) (events bundles pushed : List ExecutedRootBundle)
    → push_executed ignored events bundles ≡ (pushed, none)
    → pushed ≡ bundles ++ split_all ignored events
unfolding push_executed split_all
push_executed-split_all ignored [] bundles pushed e = sym (append-nil bundles ∙ ap (λ o. o.0) e)
push_executed-split_all ignored (x ∷ xs) bundles pushed e =
    elim (Bool-cases (includes ignored x.block_number)) [
      | inl skipped ↦
          rw skipped (push_executed-split_all ignored xs bundles pushed (rw skipped at e))
      | inr kept ↦ elim (Result-cases (split_balances x)) [
        | inl (leaf, found) ↦
            let rest =
              push_executed-split_all ignored xs (bundles ++ leaf ∷ []) pushed
                (rw (kept, found) at e) in
            rw (kept, found) (rest ∙ append_assoc bundles (leaf ∷ []) (split_all ignored xs))
        | inr (thrown, found) ↦ let clash = (rw (kept, found) at e) in cc
      ]
    ]

-- The tokens that an update leaves.
update_tokens-frame :
    (node : HubPoolNode) (u : HubPoolUpdateSuccess) (h h' : HubPool)
    → update_tokens node u h ≡ (h', none)
    → (tokens : List L1Token) × (infos : Dict String LpToken) × (h'
        ≡ record h { l1_tokens = tokens; lp_tokens = infos })
unfolding update_tokens
update_tokens-frame node u h h' e = elim (Result-cases (fetch_tokens node u)) [
  | inl ((infos, lp_infos), found) ↦
      let pushed = push_tokens infos h.l1_tokens in
      let (before, same, last) =
        and_then-eq-none (record h { l1_tokens = pushed.0 }, pushed.1) _
          (rw (update_tokens, found) at e) in
      (
        pushed.0,
        _,
        sym (ap (λ o. o.0) last)
            ∙ ap {A = HubPool} {B = HubPool}
                (λ s. record s {
                  lp_tokens =
                      insert_lp_tokens (dedup_array (map (λ e. e.l1_token) u.events.tokens_enabled))
                        lp_infos s.lp_tokens;
                })
                (sym (ap (λ o. o.0) same)),
      )
  | inr (thrown, found) ↦ let clash = (rw (update_tokens, found) at e) in cc
]

update_executed-frame :
    (u : HubPoolUpdateSuccess) (h h' : HubPool)
    → update_executed u h ≡ (h', none)
    → h' ≡ record h {
      executed_root_bundles =
          h.executed_root_bundles ++ split_all h.ignored_hub_executed_bundles u.events.executed;
    }
unfolding update_executed
update_executed-frame u h h' e =
    let pushed =
      push_executed h.ignored_hub_executed_bundles u.events.executed h.executed_root_bundles in
    let all =
      push_executed-split_all h.ignored_hub_executed_bundles u.events.executed
        h.executed_root_bundles pushed.0 (ap (λ o. (pushed.0, o.1)) e) in
    sym (ap (λ o. o.0) e) ∙ ap {B = HubPool} (λ l. record h { executed_root_bundles = l }) all

update_pending-frame :
    (u : HubPoolUpdateSuccess) (h h' : HubPool)
    → update_pending u h ≡ (h', none)
    → (pending : Option PendingRootBundle) × (h' ≡ record h { pending_root_bundle = pending })
unfolding update_pending
update_pending-frame u h h' e =
    elim (Bool-cases (ltb 0 u.pending_root_bundle_proposal.unclaimed_pool_rebalance_leaf_count)) [
      | inl claims ↦ elim (Option-cases (get_last? h.proposed_root_bundles)) [
        | inl empty ↦ let clash = (rw (claims, empty) at e) in cc
        | inr (latest, found) ↦ (_, sym (ap (λ o. o.0) (rw (claims, found) at e)))
      ]
      | inr done ↦ (none, sym (ap (λ o. o.0) (rw done at e)))
    ]

-- The client after an update for all events that does not throw. The tokens, their LP state and
-- the pending bundle are whatever the contracts answered.
abbrev pub updated :
    HubPoolUpdateSuccess
    → List L1Token
    → Dict String LpToken
    → Option PendingRootBundle
    → HubPool
    → HubPool
updated u tokens infos pending h = record h {
  base = record h.base {
    latest_block_searched = u.search_end_block;
    first_block_to_search = u.search_end_block + 1;
    search_to_block = none;
    is_updated = true;
  };
  current_time = some u.current_time;
  cross_chain_contracts = assign_contracts u.events.contracts_set h.cross_chain_contracts;
  l1_tokens_to_destination_tokens = assign_routes u.events.routes h.l1_tokens_to_destination_tokens;
  l1_tokens_to_destination_tokens_with_block =
      assign_mappings u.events.routes h.l1_tokens_to_destination_tokens_with_block;
  l1_tokens = tokens;
  lp_tokens = infos;
  proposed_root_bundles =
      h.proposed_root_bundles
      ++ filter (λ e. not (includes h.ignored_hub_proposed_bundles e.block_number))
          u.events.proposed;
  canceled_root_bundles = h.canceled_root_bundles ++ u.events.canceled;
  disputed_root_bundles = h.disputed_root_bundles ++ u.events.disputed;
  executed_root_bundles =
      h.executed_root_bundles ++ split_all h.ignored_hub_executed_bundles u.events.executed;
  pending_root_bundle = pending;
}

pub apply_update-updated :
    (node : HubPoolNode) (u : HubPoolUpdateSuccess) (h h' : HubPool)
    → apply_update node all_events u h ≡ (h', none)
    → (tokens : List L1Token) × (infos : Dict String LpToken) × (pending : Option PendingRootBundle)
      × (h' ≡ updated u tokens infos pending h)
unfolding apply_update finish_update update_disputed update_canceled update_proposed update_routes
    update_contracts includes
apply_update-updated node u h h' e =
    let (h8, e8, last) = and_then-eq-none _ (finish_update u) e in
    let (h7, e7, pending) = and_then-eq-none _ (update_pending u) e8 in
    let (h6, e6, executed) = and_then-eq-none _ (update_executed u) e7 in
    let (h5, e5, disputed) = and_then-eq-none _ (update_disputed u) e6 in
    let (h4, e4, canceled) = and_then-eq-none _ (update_canceled u) e5 in
    let (h3, e3, proposed) = and_then-eq-none _ (update_proposed u) e4 in
    let (tokens, infos, found) = update_tokens-frame node u _ h3 e3 in
    let (p, pended) = update_pending-frame u h7 h8 pending in
    let ran = update_executed-frame u h6 h7 executed in
    let f8 = λ (s : HubPool). (finish_update u s).0 in
    let f7 = λ (s : HubPool). f8 (record s { pending_root_bundle = p }) in
    let f6 = λ (s : HubPool). f7 (record s {
      executed_root_bundles =
          s.executed_root_bundles ++ split_all s.ignored_hub_executed_bundles u.events.executed;
    }) in
    let f5 = λ (s : HubPool). f6 (update_disputed u s).0 in
    let f4 = λ (s : HubPool). f5 (update_canceled u s).0 in
    let f3 = λ (s : HubPool). f4 (update_proposed u s).0 in
    (
      tokens,
      infos,
      p,
      sym (ap (λ o. o.0) last)
          ∙ ap f8 pended
          ∙ ap f7 ran
          ∙ ap f6 (sym (ap (λ o. o.0) disputed))
          ∙ ap f5 (sym (ap (λ o. o.0) canceled))
          ∙ ap f4 (sym (ap (λ o. o.0) proposed))
          ∙ ap f3 found,
    )
