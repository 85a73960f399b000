-- ===== src/SpokePool/Update.antt =====
-- `_update` and `update` of clients/SpokePoolClient.ts.
use Prim.Native.String.{String}
use acrossclone.Prelude.{
  ℕ, ◌+◌, ◌-◌, max, ◌≡◌, refl, sym, ap, ◌∙◌, ◌↔◌, Bool, true, false, ◌&&◌, not, List, [], ◌∷◌, ◌++◌,
  map, Option, none, some, Eq, nat_eq, get_or, get_elem?, ltb, ◌==◌, if◌then◌else◌, Result, ok, err,
  ◌>>=◌, ◌⊎◌, inl, inr, Outcome, and_then,
}
use acrossclone.Prelude.Search.{includes}
use acrossclone.BaseClient.{BaseClientError, UpdateFailureReason, update_search_config}
use acrossclone.Events.{Sortable, sort_events_ascending}
use acrossclone.Events.Pages.{EventSearchConfig, QueryError, paginated_event_query}
use acrossclone.HubPool.{max_safe_integer}
use acrossclone.SpokePool.{
  SpokePool, SpokePoolError, hub_pool_not_updated, invalid_current_time, invalid_search_range,
  query_failed, RelayData, FillWithBlock, SlowFillRequestWithBlock, RootBundleRelayWithBlock,
  RelayerRefundExecutionWithBlock, TokensBridged, fill_sortable, slow_fill_sortable, relay_sortable,
  refund_sortable, bridged_sortable, HubClients,
}
use acrossclone.SpokePool.Loops.{
  V3FundsDepositedEvent, SpeedUpEvent, EnabledDepositRouteEvent, funds_deposited_sortable,
  speed_up_sortable, deposit_route_sortable, batch_quote_blocks, add_deposits, add_speed_ups,
  add_slow_fill_requests, add_fills, add_routes, to_refund,
}

pub data SpokePoolEvent : Type 0 where
  enabled_deposit_route tokens_bridged relayed_root_bundle : SpokePoolEvent
  executed_relayer_refund_root v3_funds_deposited requested_speed_up_v3_deposit : SpokePoolEvent
  requested_v3_slow_fill filled_v3_relay : SpokePoolEvent

-- `knownEventNames`
abbrev pub known_event_names : List SpokePoolEvent
known_event_names =
    enabled_deposit_route ∷ tokens_bridged ∷ relayed_root_bundle ∷ executed_relayer_refund_root
    ∷ v3_funds_deposited ∷ requested_speed_up_v3_deposit ∷ requested_v3_slow_fill ∷ filled_v3_relay
    ∷ []

abbrev name_index : SpokePoolEvent → ℕ
name_index enabled_deposit_route = 0
name_index tokens_bridged = 1
name_index relayed_root_bundle = 2
name_index executed_relayer_refund_root = 3
name_index v3_funds_deposited = 4
name_index requested_speed_up_v3_deposit = 5
name_index requested_v3_slow_fill = 6
name_index filled_v3_relay = 7

name_at-name_index :
    (e : SpokePoolEvent) → get_or (get_elem? known_event_names (name_index e)) filled_v3_relay ≡ e
name_at-name_index enabled_deposit_route = refl
name_at-name_index tokens_bridged = refl
name_at-name_index relayed_root_bundle = refl
name_at-name_index executed_relayer_refund_root = refl
name_at-name_index v3_funds_deposited = refl
name_at-name_index requested_speed_up_v3_deposit = refl
name_at-name_index requested_v3_slow_fill = refl
name_at-name_index filled_v3_relay = refl

pub name_index_iff : (a b : SpokePoolEvent) → (name_index a == name_index b ≡ true) ↔ (a ≡ b)
name_index_iff a b =
    let numbers = nat_eq.same_iff (name_index a) (name_index b) in
    let name_at = λ (n : ℕ). get_or (get_elem? known_event_names n) filled_v3_relay in
    (
      λ h. sym (name_at-name_index a) ∙ ap name_at (numbers.0 h) ∙ name_at-name_index b,
      λ h. numbers.1 (ap name_index h),
    )

instance abbrev pub spoke_event_eq : Eq SpokePoolEvent
spoke_event_eq = record { same = λ a b. name_index a == name_index b; same_iff = name_index_iff }

-- What the node and the contract answer during one update; each call may be rejected.
pub record SpokePoolNode : Type 0 where
  pub block_number : ℕ
  pub number_of_deposits : (block : ℕ) → Result SpokePoolError ℕ
  pub get_current_time : (block : ℕ) → Result SpokePoolError ℕ
  pub routes : ℕ → ℕ → ℕ → Result QueryError (List EnabledDepositRouteEvent)
  pub bridged : ℕ → ℕ → ℕ → Result QueryError (List TokensBridged)
  pub relays : ℕ → ℕ → ℕ → Result QueryError (List RootBundleRelayWithBlock)
  pub refunds : ℕ → ℕ → ℕ → Result QueryError (List RelayerRefundExecutionWithBlock)
  pub deposits : ℕ → ℕ → ℕ → Result QueryError (List V3FundsDepositedEvent)
  pub speed_ups : ℕ → ℕ → ℕ → Result QueryError (List SpeedUpEvent)
  pub slow_fills : ℕ → ℕ → ℕ → Result QueryError (List SlowFillRequestWithBlock)
  pub fills : ℕ → ℕ → ℕ → Result QueryError (List FillWithBlock)

-- The `events` of an update; those that were not asked for are empty, and are not read.
pub record SpokePoolEvents : Type 0 where
  pub routes : List EnabledDepositRouteEvent
  pub bridged : List TokensBridged
  pub relays : List RootBundleRelayWithBlock
  pub refunds : List RelayerRefundExecutionWithBlock
  pub deposits : List V3FundsDepositedEvent
  pub speed_ups : List SpeedUpEvent
  pub slow_fills : List SlowFillRequestWithBlock
  pub fills : List FillWithBlock

pub record SpokePoolUpdateSuccess : Type 0 where
  pub current_time : ℕ
  pub oldest_time : ℕ
  pub first_deposit_id : ℕ
  pub latest_deposit_id : ℕ
  pub search_end_block : ℕ
  pub events : SpokePoolEvents

-- The full history of the routes is read by the first update.
unfoldable pub search_config_for :
    SpokePool → EventSearchConfig → SpokePoolEvent → EventSearchConfig
search_config_for s search name =
    if name == enabled_deposit_route && not s.is_updated
    then record search { from_block = s.deployment_block }
    else search

-- The events of one kind in ascending order, if it is asked for.
unfoldable pub query_events :
    {A : Type 0} ⦃sortable : Sortable A⦄
    → (names : List SpokePoolEvent) → SpokePoolEvent
    → (ℕ → ℕ → ℕ → Result QueryError (List A))
    → EventSearchConfig
    → Result SpokePoolError (List A)
unfolding paginated_event_query includes sort_events_ascending
query_events names name node search =
    if includes names name
    then elim (paginated_event_query node search) [
      | ok events ↦ ok (sort_events_ascending events)
      | err e ↦ err query_failed
    ]
    else ok []

unfoldable pub query_all_events :
    SpokePoolNode
    → SpokePool
    → (names : List SpokePoolEvent) → EventSearchConfig
    → Result SpokePoolError SpokePoolEvents
unfolding query_events search_config_for
query_all_events node s names search = do
  let config = search_config_for s search
  routes ← query_events names enabled_deposit_route node.routes (config enabled_deposit_route)
  bridged ← query_events names tokens_bridged node.bridged (config tokens_bridged)
  relays ← query_events names relayed_root_bundle node.relays (config relayed_root_bundle)
  refunds ←
      query_events names executed_relayer_refund_root node.refunds
        (config executed_relayer_refund_root)
  deposits ← query_events names v3_funds_deposited node.deposits (config v3_funds_deposited)
  speed_ups ←
      query_events names requested_speed_up_v3_deposit node.speed_ups
        (config requested_speed_up_v3_deposit)
  slow_fills ←
      query_events names requested_v3_slow_fill node.slow_fills (config requested_v3_slow_fill)
  fills ← query_events names filled_v3_relay node.fills (config filled_v3_relay)
  ok (record {
    routes = routes;
    bridged = bridged;
    relays = relays;
    refunds = refunds;
    deposits = deposits;
    speed_ups = speed_ups;
    slow_fills = slow_fills;
    fills = fills;
  })

-- The first deposit id, which the first update asks the contract for. The contract's count is a
-- number and not negative.
unfoldable pub resolve_first_deposit_id : SpokePoolNode → SpokePool → Result SpokePoolError ℕ
resolve_first_deposit_id node s =
    if s.first_deposit_id_for_spoke_pool == max_safe_integer
    then node.number_of_deposits s.deployment_block
    else ok s.first_deposit_id_for_spoke_pool

-- `_update` once the search range is known. Times are 32-bit numbers of the contract.
unfoldable pub fetch_events :
    SpokePoolNode
    → SpokePool
    → (names : List SpokePoolEvent) → (first_deposit_id : ℕ) → EventSearchConfig
    → Result SpokePoolError SpokePoolUpdateSuccess
unfolding query_all_events
fetch_events node s names first_deposit_id search = do
  number_of_deposits ← node.number_of_deposits search.to_block
  current_time ← node.get_current_time search.to_block
  oldest_time ← node.get_current_time (max search.from_block s.deployment_block)
  events ← query_all_events node s names search
  if ltb current_time s.current_time
      then err invalid_current_time
      else ok (record {
        current_time = current_time;
        oldest_time = oldest_time;
        first_deposit_id = first_deposit_id;
        latest_deposit_id = number_of_deposits - 1;
        search_end_block = search.to_block;
        events = events;
      })

unfoldable pub fetch_searched :
    SpokePoolNode
    → SpokePool
    → (names : List SpokePoolEvent) → (first_deposit_id : ℕ)
    → Result BaseClientError (EventSearchConfig ⊎ UpdateFailureReason)
    → Result SpokePoolError (SpokePoolUpdateSuccess ⊎ UpdateFailureReason)
unfolding fetch_events
fetch_searched node s names first_deposit_id (err e) = err invalid_search_range
fetch_searched node s names first_deposit_id (ok (inr reason)) = ok (inr reason)
fetch_searched node s names first_deposit_id (ok (inl search)) = do
  u ← fetch_events node s names first_deposit_id search
  ok (inl u)

-- `_update`. The type of names leaves no room for one that is not recognised.
unfoldable pub fetch_update :
    SpokePoolNode
    → SpokePool
    → (names : List SpokePoolEvent)
    → Result SpokePoolError (SpokePoolUpdateSuccess ⊎ UpdateFailureReason)
unfolding resolve_first_deposit_id update_search_config fetch_searched
fetch_update node s names = do
  first_deposit_id ← resolve_first_deposit_id node s
  fetch_searched node s names first_deposit_id (update_search_config s.base node.block_number)

-- One step of `update`, taken if its kind of event was asked for.
abbrev pub step_if :
    (names : List SpokePoolEvent) → SpokePoolEvent → (SpokePool → SpokePool) → SpokePool → SpokePool
step_if names name step s = if includes names name then step s else s

unfoldable pub update_bridged : SpokePoolUpdateSuccess → SpokePool → SpokePool
update_bridged u s = record s { tokens_bridged = s.tokens_bridged ++ u.events.bridged }

-- The quote blocks come first, then the deposits.
unfoldable pub update_deposits :
    SpokePoolUpdateSuccess → SpokePool → Outcome SpokePoolError SpokePool
unfolding batch_quote_blocks add_deposits
update_deposits u s = elim (batch_quote_blocks s u.events.deposits) [
  | err e ↦ (s, some e)
  | ok quote_blocks ↦ add_deposits u.events.deposits quote_blocks s
]

unfoldable pub update_relays : SpokePoolUpdateSuccess → SpokePool → SpokePool
update_relays u s = record s { root_bundle_relays = s.root_bundle_relays ++ u.events.relays }

unfoldable pub update_refunds : SpokePoolUpdateSuccess → SpokePool → SpokePool
unfolding to_refund
update_refunds u s = record s {
  relayer_refund_executions = s.relayer_refund_executions ++ map to_refund u.events.refunds;
}

-- The assignments at the end of `update`.
unfoldable pub finish_update : SpokePoolUpdateSuccess → SpokePool → SpokePool
finish_update u s = record s {
  current_time = u.current_time;
  oldest_time = if s.oldest_time == 0 then u.oldest_time else s.oldest_time;
  first_deposit_id_for_spoke_pool = u.first_deposit_id;
  last_deposit_id_for_spoke_pool = u.latest_deposit_id;
  base = record s.base {
    latest_block_searched = u.search_end_block;
    first_block_to_search = u.search_end_block + 1;
    search_to_block = none;
    is_updated = true;
  };
}

-- The steps after the deposits.
unfoldable pub apply_rest :
    (hash : RelayData → ℕ → String)
    → (names : List SpokePoolEvent) → SpokePoolUpdateSuccess
    → SpokePool
    → SpokePool
unfolding add_speed_ups add_slow_fill_requests add_fills add_routes update_relays update_refunds
    includes
apply_rest hash names u s =
    let s1 = step_if names requested_speed_up_v3_deposit (add_speed_ups u.events.speed_ups) s in
    let s2 =
      step_if names requested_v3_slow_fill (add_slow_fill_requests hash u.events.slow_fills) s1 in
    let s3 = step_if names filled_v3_relay (add_fills u.events.fills) s2 in
    let s4 = step_if names enabled_deposit_route (add_routes u.events.routes) s3 in
    let s5 = step_if names relayed_root_bundle (update_relays u) s4 in
    step_if names executed_relayer_refund_root (update_refunds u) s5

-- `update` after a successful `_update`; only the deposits can throw.
unfoldable pub apply_update :
    (hash : RelayData → ℕ → String)
    → (names : List SpokePoolEvent) → SpokePoolUpdateSuccess
    → SpokePool
    → Outcome SpokePoolError SpokePool
unfolding update_bridged update_deposits apply_rest finish_update includes
apply_update hash names u s =
    let s1 = step_if names tokens_bridged (update_bridged u) s in
    let s2 : Outcome SpokePoolError SpokePool =
      if includes names v3_funds_deposited then update_deposits u s1 else (s1, none) in
    and_then s2 λ s. (finish_update u (apply_rest hash names u s), none)

abbrev pub is_hub_updated : Option HubClients → Bool
is_hub_updated none = true
is_hub_updated (some clients) = clients.hub_pool.is_updated

-- A failure of `_update`, whatever its reason, is passed over.
unfoldable pub update :
    (hash : RelayData → ℕ → String)
    → SpokePoolNode
    → (names : List SpokePoolEvent) → SpokePool
    → Outcome SpokePoolError SpokePool
unfolding fetch_update apply_update
update hash node names s =
    if not (is_hub_updated s.hub)
    then (s, some hub_pool_not_updated)
    else elim (fetch_update node s names) [
      | err e ↦ (s, some e)
      | ok (inr reason) ↦ (s, none)
      | ok (inl u) ↦ apply_update hash names u s
    ]

-- The constructor, at the entries of its search configuration.
unfoldable pub new_spoke_pool_client :
    (hub : Option HubClients)
    → (chain_id deployment_block from_block : ℕ) → (to_block max_block_look_back : Option ℕ)
    → SpokePool
new_spoke_pool_client hub chain_id deployment_block from_block to_block max_block_look_back =
    record {
      base = record {
        first_block_to_search = from_block;
        latest_block_searched = 0;
        search_to_block = to_block;
        max_block_look_back = max_block_look_back;
        is_updated = false;
      };
      current_time = 0;
      oldest_time = 0;
      deposit_hashes = [];
      deposit_hashes_to_fills = [];
      speed_ups = [];
      slow_fill_requests = [];
      deposit_routes = [];
      tokens_bridged = [];
      root_bundle_relays = [];
      relayer_refund_executions = [];
      earliest_deposit_id_queried = max_safe_integer;
      latest_deposit_id_queried = 0;
      first_deposit_id_for_spoke_pool = max_safe_integer;
      last_deposit_id_for_spoke_pool = max_safe_integer;
      fills = [];
      hub = hub;
      chain_id = chain_id;
      deployment_block = deployment_block;
    }
