-- ===== src/ConfigStore/Update.antt =====
-- `_update` and `update` of clients/AcrossConfigStoreClient/AcrossConfigStoreClient.ts.
use acrossclone.Prelude.{
  ℕ, ◌+◌, true, false, not, List, [], ◌∷◌, Option, none, some, nat_eq, get_or, ◌==◌, if◌then◌else◌,
  Result, ok, err, ◌>>=◌, ◌⊎◌, inl, inr, Outcome, and_then, length,
}
use acrossclone.Prelude.Int.{ℤ}
use acrossclone.BaseClient.{
  BaseClientError, UpdateFailureReason, already_updated, bad_request, rpc_error,
  update_search_config,
}
use acrossclone.Events.{Sortable, sort_events_ascending}
use acrossclone.Events.Pages.{EventSearchConfig, QueryError, paginated_event_query}
use acrossclone.Json.{Engine}
use acrossclone.ConfigStore.{
  ConfigStore, ConfigStoreError, update_failed, events_mismatch, invalid_search_range, query_failed,
  rate_models_rejected, RateModels,
}
use acrossclone.ConfigStore.Chains.{has_valid_config_store_version_for_timestamp}
use acrossclone.ConfigStore.Loops.{
  GlobalConfigEvent, TokenConfigEvent, ConfigStoreNode, add_token_configs, add_global_configs,
  global_event_sortable, token_event_sortable,
}

-- `ConfigStoreUpdateSuccess`
pub record ConfigStoreUpdateSuccess : Type 0 where
  pub chain_id : ℕ
  pub search_end_block : ℕ
  pub updated_token_config_events : List TokenConfigEvent
  pub updated_global_config_events : List GlobalConfigEvent
  pub global_config_update_times : List ℕ

unfoldable pub resolve_chain_id : ConfigStoreNode → ConfigStore → Result ConfigStoreError ℕ
resolve_chain_id node s = elim s.chain_id [ none ↦ node.network_chain_id | some id ↦ ok id ]

-- The events of one query, in ascending order.
unfoldable pub query_sorted :
    {A : Type 0} ⦃sortable : Sortable A⦄
    → (ℕ → ℕ → ℕ → Result QueryError (List A))
    → EventSearchConfig
    → Result ConfigStoreError (List A)
unfolding paginated_event_query sort_events_ascending
query_sorted node search = elim (paginated_event_query node search) [
  | ok events ↦ ok (sort_events_ascending events)
  | err e ↦ err query_failed
]

-- `Promise.all` over the events' blocks.
unfoldable pub block_times :
    ConfigStoreNode → List GlobalConfigEvent → Result ConfigStoreError (List ℕ)
block_times node [] = ok []
block_times node (e ∷ events) = do
  timestamp ← node.timestamp_of_block e.block_number
  rest ← block_times node events
  ok (timestamp ∷ rest)

-- `_update` once the search range is known.
unfoldable pub fetch_events :
    ConfigStoreNode
    → (chain_id : ℕ) → EventSearchConfig
    → Result ConfigStoreError ConfigStoreUpdateSuccess
unfolding query_sorted block_times
fetch_events node chain_id search = do
  token_configs ← query_sorted node.token_configs search
  global_configs ← query_sorted node.global_configs search
  times ← block_times node global_configs
  ok (record {
    chain_id = chain_id;
    search_end_block = search.to_block;
    updated_token_config_events = token_configs;
    updated_global_config_events = global_configs;
    global_config_update_times = times;
  })

-- `_update` once the chain is known.
unfoldable pub fetch_searched :
    ConfigStoreNode
    → (chain_id : ℕ) → Result BaseClientError (EventSearchConfig ⊎ UpdateFailureReason)
    → Result ConfigStoreError (ConfigStoreUpdateSuccess ⊎ UpdateFailureReason)
unfolding fetch_events
fetch_searched node chain_id (err e) = err invalid_search_range
fetch_searched node chain_id (ok (inr reason)) = ok (inr reason)
fetch_searched node chain_id (ok (inl search)) = do
  u ← fetch_events node chain_id search
  ok (inl u)

-- `_update`
unfoldable pub fetch_update :
    ConfigStoreNode
    → ConfigStore
    → Result ConfigStoreError (ConfigStoreUpdateSuccess ⊎ UpdateFailureReason)
unfolding resolve_chain_id update_search_config fetch_searched
fetch_update node s = do
  chain_id ← resolve_chain_id node s
  fetch_searched node chain_id (update_search_config s.base node.block_number)

abbrev pub max_safe_integer : ℕ
max_safe_integer = 0x1f_ffff_ffff_ffff

-- The dictionary takes its events, or throws.
unfoldable pub update_dictionary : RateModels → ConfigStore → Outcome ConfigStoreError ConfigStore
update_dictionary models s =
    if models.accepts_events s.cumulative_rate_model_updates
    then (record s { rate_model_dictionary = s.cumulative_rate_model_updates }, none)
    else (s, some rate_models_rejected)

-- The assignments at the end of `update`.
unfoldable pub finish_update :
    ConfigStoreUpdateSuccess → ConfigStore → Outcome ConfigStoreError ConfigStore
unfolding has_valid_config_store_version_for_timestamp
finish_update u s = (
  record s {
    has_latest_config_store_version =
        has_valid_config_store_version_for_timestamp s max_safe_integer;
    chain_id = some (get_or s.chain_id u.chain_id);
    base = record s.base {
      latest_block_searched = u.search_end_block;
      first_block_to_search = u.search_end_block + 1;
      search_to_block = none;
      is_updated = true;
    };
  },
  none,
)

-- `update` after a successful `_update`.
unfoldable pub apply_update :
    Engine
    → RateModels
    → ConfigStoreNode
    → ConfigStoreUpdateSuccess
    → ConfigStore
    → Outcome ConfigStoreError ConfigStore
unfolding add_token_configs add_global_configs update_dictionary finish_update
apply_update engine models node u s =
    let globals = u.updated_global_config_events in
    let times = u.global_config_update_times in
    if not (length globals == length times)
    then (s, some events_mismatch)
    else let tokens = add_token_configs engine node u.updated_token_config_events s in
      let added = add_global_configs engine u.chain_id globals times tokens in
      and_then (and_then added (update_dictionary models)) (finish_update u)

unfoldable pub update :
    Engine → RateModels → ConfigStoreNode → ConfigStore → Outcome ConfigStoreError ConfigStore
unfolding fetch_update apply_update
update engine models node s = elim (fetch_update node s) [
  | err e ↦ (s, some e)
  | ok (inr already_updated) ↦ (s, none)
  | ok (inr bad_request) ↦ (s, some update_failed)
  | ok (inr rpc_error) ↦ (s, some update_failed)
  | ok (inl u) ↦ apply_update engine models node u s
]

-- The constructor, at the entries of its search configuration.
unfoldable pub new_config_store_client :
    (from_block : ℕ)
    → (to_block max_block_look_back : Option ℕ) → (config_store_version : ℤ) → ConfigStore
new_config_store_client from_block to_block max_block_look_back config_store_version = record {
  base = record {
    first_block_to_search = from_block;
    latest_block_searched = 0;
    search_to_block = to_block;
    max_block_look_back = max_block_look_back;
    is_updated = false;
  };
  cumulative_rate_model_updates = [];
  cumulative_route_rate_model_updates = [];
  cumulative_max_refund_count_updates = [];
  cumulative_max_l1_token_count_updates = [];
  chain_id_indices_updates = [];
  lite_chain_indices_updates = [];
  cumulative_spoke_target_balance_updates = [];
  cumulative_config_store_version_updates = [];
  cumulative_disabled_chain_updates = [];
  rate_model_dictionary = [];
  has_latest_config_store_version = false;
  chain_id = none;
  config_store_version = config_store_version;
}
