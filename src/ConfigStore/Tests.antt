-- ===== src/ConfigStore/Tests.antt =====
-- A config store client's first update, and the theorems on the client at it.
use Prim.Native.String.{String}
use acrossclone.Prelude.{
  ℕ, ◌*◌, ◌≤◌, ◌≡◌, refl, sym, true, List, [], ◌∷◌, Option, none, some, ok, ok-inj, arith, ◌<◌, ◌↔◌,
  ◌==◌, string_eq, if◌then◌else◌, Memᴰ, inl,
}
use mathlib.Core.List.Memᴰ
use acrossclone.Prelude.Int.{pos, leb_ℤ}
use acrossclone.Prelude.Search.{filter}
use acrossclone.Events.{EventPlace, is_event_older}
use acrossclone.Events.Pages.{within}
use acrossclone.Json.{
  Numeral, not_a_number, integer, Json, array, Engine, is_array_text, remove_quotes_and_spaces,
}
use acrossclone.ConfigStore.{
  global_sortable, ConfigStore, invalid_rate_model, RateModel, RateModels, RouteRateModelUpdate,
}
use acrossclone.ConfigStore.Queries.{
  get_chain_id_indices_for_block, get_route_rate_model_for_block_number,
  get_rate_model_for_block_number, or_throw,
}
use acrossclone.ConfigStore.Chains.{
  get_enabled_chains, get_enabled_chains_in_block_range,
  has_valid_config_store_version_for_timestamp,
}
use acrossclone.ConfigStore.Loops.{
  GlobalConfigStoreKey, version, disabled_chains, chain_id_indices, lite_chain_id_indices,
  GlobalConfigEvent, ConfigStoreNode, global_event_sortable, token_event_sortable,
}
use acrossclone.ConfigStore.Update.{
  ConfigStoreUpdateSuccess, update, fetch_update, new_config_store_client,
}
use acrossclone.ConfigStore.WellFormed.{IsWellFormed, IsPrefix, implicit_indices}
use acrossclone.ConfigStore.Preserves.{
  OnChain, update-IsWellFormed, new_config_store_client-IsWellFormed,
}
use acrossclone.ConfigStore.Indices.{IndicesUpdate, IsOrdered, get_chain_id_indices_for_block-grows}
use acrossclone.ConfigStore.Enabled.{
  IsEnabledWithin, get_enabled_chains_in_block_range-mem, get_enabled_chains-has_mainnet,
}
use acrossclone.ConfigStore.Versions.{
  VersionUpdate, has_valid_config_store_version_for_timestamp_iff,
}
use acrossclone.ConfigStore.Rates.{get_rate_model_for_block_number-ignores_routes}
use acrossclone.ConfigStore.Stuck.{IsRejected, AllThrow, update-stuck}

abbrev defaults : List Numeral
defaults =
    integer (pos 1)
    ∷ integer (pos 10)
    ∷ integer (pos 137)
    ∷ integer (pos 288)
    ∷ integer (pos 42161)
    ∷ []

-- What the engine makes of the texts below; others it rejects.
abbrev parsed : String → Option Json
parsed text =
    if text == "[1,10,137,288,42161]"
    then some (array defaults)
    else if text == "[1,10,137,288,42161,324]"
    then some (
        array (
          integer (pos 1)
          ∷ integer (pos 10)
          ∷ integer (pos 137)
          ∷ integer (pos 288)
          ∷ integer (pos 42161)
          ∷ integer (pos 324)
          ∷ []))
    else if text == "[1,10]"
    then some (array (integer (pos 1) ∷ integer (pos 10) ∷ []))
    else if text == "[]"
    then some (array [])
    else none

abbrev engine : Engine
engine = record {
  json_parse = parsed;
  number = λ text. if text == "2" then integer (pos 2) else not_a_number;
  big_number = λ text. none;
}

abbrev sample_model : RateModel
sample_model = record { u_bar = "8"; r0 = "0"; r1 = "5"; r2 = "9" }

abbrev models : RateModels
models = record {
  parse_rate_model = λ text. some sample_model;
  accepts_events = λ events. true;
  get_rate_model = λ events l1_token block. none;
}

abbrev at_block : ℕ → EventPlace
at_block block = record { block_number = block; transaction_index = 0; log_index = 0 }

abbrev config_at : (block : ℕ) → GlobalConfigStoreKey → String → GlobalConfigEvent
config_at block key value = record { place = at_block block; key = key; value = value }

abbrev node_of : List GlobalConfigEvent → (block : ℕ) → ConfigStoreNode
node_of configs block = record {
  block_number = block;
  network_chain_id = ok 1;
  token_configs = λ _ from to. ok [];
  global_configs = λ _ from to. ok (filter (within from to) configs);
  timestamp_of_block = λ block. ok (block * 12);
  parse_token_config =
      λ text. record { rate_model = none; route_rate_model = none; spoke_target_balances = none };
}

abbrev configs : List GlobalConfigEvent
configs =
    config_at 10 chain_id_indices "[1,10,137,288,42161]"
    ∷ config_at 12 version "2"
    ∷ config_at 15 disabled_chains "[1,10]"
    ∷ config_at 20 chain_id_indices "'[1,10,137,288,42161, 324]'"
    ∷ config_at 21 chain_id_indices "[1,10]"
    ∷ config_at 25 disabled_chains "[]"
    ∷ []

abbrev fresh : ConfigStore
unfolding new_config_store_client
fresh = new_config_store_client 5 none none (pos 1)

abbrev updated : ConfigStore
unfolding update new_config_store_client filter
updated = (update engine models (node_of configs 100) fresh).0

-- The update that drops chains is passed over, and chain 1 is not disabled.
updated_indices :
    (get_chain_id_indices_for_block updated 19 ≡ ok (1 ∷ 10 ∷ 137 ∷ 288 ∷ 42161 ∷ []))
    × (get_chain_id_indices_for_block updated 100 ≡ ok (1 ∷ 10 ∷ 137 ∷ 288 ∷ 42161 ∷ 324 ∷ []))
unfolding updated get_chain_id_indices_for_block
updated_indices = (refl, refl)

updated_enabled :
    (get_enabled_chains updated 16 ≡ ok (1 ∷ 137 ∷ 288 ∷ 42161 ∷ []))
    × (get_enabled_chains_in_block_range updated 16 24 ≡ ok (1 ∷ 137 ∷ 288 ∷ 42161 ∷ 324 ∷ []))
    × (get_enabled_chains_in_block_range updated 16 25 ≡ ok (1 ∷ 10 ∷ 137 ∷ 288 ∷ 42161 ∷ 324 ∷ []))
unfolding updated get_enabled_chains get_enabled_chains_in_block_range
updated_enabled = (refl, refl, refl)

updated_chain : updated.chain_id ≡ some 1
unfolding updated
updated_chain = refl

indices_at_25 :
    get_chain_id_indices_for_block updated 25 ≡ ok (1 ∷ 10 ∷ 137 ∷ 288 ∷ 42161 ∷ 324 ∷ [])
unfolding updated get_chain_id_indices_for_block
indices_at_25 = refl

mainnet : (block : ℕ) (served : List GlobalConfigEvent) → OnChain (node_of served block) 1
mainnet block served id e = sym (ok-inj e)

fresh-IsWellFormed : IsWellFormed 1 fresh
unfolding fresh
fresh-IsWellFormed = new_config_store_client-IsWellFormed 5 none none (pos 1) 1

update-IsWellFormed_example : IsWellFormed 1 (update engine models (node_of configs 100) fresh).0
update-IsWellFormed_example =
    update-IsWellFormed engine models (node_of configs 100) 1 fresh (mainnet 100 configs)
      fresh-IsWellFormed

updated-IsWellFormed : IsWellFormed 1 updated
unfolding updated
updated-IsWellFormed =
    update-IsWellFormed engine models (node_of configs 100) 1 fresh (mainnet 100 configs)
      fresh-IsWellFormed

updated-IsOrdered : IsOrdered updated.chain_id_indices_updates
unfolding updated is_event_older
updated-IsOrdered = (only, (λ y m. absurd (Memᴰ.not-nil m), tt))
  where
    only :
        (y : IndicesUpdate)
        → Memᴰ y
            ((record { place = at_block 20; value = 1 ∷ 10 ∷ 137 ∷ 288 ∷ 42161 ∷ 324 ∷ [] }) ∷ [])
        → is_event_older (at_block 10) y.place ≡ true
    only y (Memᴰ.head same) = rw same refl
    only y (Memᴰ.tail m) = absurd (Memᴰ.not-nil m)

get_chain_id_indices_for_block-grows_example :
    (xs : List ℕ) × (ys : List ℕ) × (get_chain_id_indices_for_block updated 19 ≡ ok xs)
    × (get_chain_id_indices_for_block updated 20 ≡ ok ys)
    × IsPrefix (implicit_indices 1) xs
    × IsPrefix xs ys
get_chain_id_indices_for_block-grows_example =
    get_chain_id_indices_for_block-grows updated 1 19 20 updated-IsWellFormed updated_chain
      updated-IsOrdered (omega arith)

get_enabled_chains_in_block_range-mem_example :
    (chains : List ℕ) × (get_enabled_chains_in_block_range updated 16 25 ≡ ok chains)
    × ((chain : ℕ)
        → Memᴰ chain chains ↔ (
            Memᴰ chain (1 ∷ 10 ∷ 137 ∷ 288 ∷ 42161 ∷ 324 ∷ [])
            × IsEnabledWithin updated 16 25 chain))
get_enabled_chains_in_block_range-mem_example =
    get_enabled_chains_in_block_range-mem updated 16 25 (1 ∷ 10 ∷ 137 ∷ 288 ∷ 42161 ∷ 324 ∷ [])
      (omega arith) indices_at_25

get_enabled_chains-has_mainnet_example :
    ((at_block : List ℕ) × (get_enabled_chains updated 24 ≡ ok at_block) × Memᴰ 1 at_block)
    × ((in_range : List ℕ) × (get_enabled_chains_in_block_range updated 16 24 ≡ ok in_range)
        × Memᴰ 1 in_range)
get_enabled_chains-has_mainnet_example =
    get_enabled_chains-has_mainnet updated 16 24 updated-IsWellFormed updated_chain (omega arith)

has_valid_config_store_version_for_timestamp_iff_example :
    (has_valid_config_store_version_for_timestamp updated 144 ≡ true) ↔ (
      (leb_ℤ (pos 0) updated.config_store_version ≡ true)
      × ((u : VersionUpdate)
          → Memᴰ u updated.cumulative_config_store_version_updates
          → u.timestamp ≤ 144
          → leb_ℤ u.value updated.config_store_version ≡ true))
has_valid_config_store_version_for_timestamp_iff_example =
    has_valid_config_store_version_for_timestamp_iff updated 1 144 updated-IsWellFormed

-- A store with a route's rate model at block 30, which a query for the latest model does not find.
abbrev routed : ConfigStore
unfolding new_config_store_client
routed = record fresh {
  cumulative_route_rate_model_updates =
      record { place = at_block 30; route_rate_model = ("1-10", "{}") ∷ []; l1_token = "0xdai" }
      ∷ [];
}

routed_finds :
    get_route_rate_model_for_block_number models routed "0xdai" "1-10" (some 30)
    ≡ ok (some sample_model)
unfolding routed get_route_rate_model_for_block_number
routed_finds = refl

routed_later :
    (u : RouteRateModelUpdate)
    → Memᴰ u routed.cumulative_route_rate_model_updates
    → 0 < u.block_number
unfolding routed
routed_later u (Memᴰ.head same) = rw same (omega arith)
routed_later u (Memᴰ.tail m) = absurd (Memᴰ.not-nil m)

get_rate_model_for_block_number-ignores_routes_example :
    get_rate_model_for_block_number models routed "0xdai" "1" "10" none
    ≡ or_throw invalid_rate_model (models.get_rate_model routed.rate_model_dictionary "0xdai" none)
get_rate_model_for_block_number-ignores_routes_example =
    get_rate_model_for_block_number-ignores_routes models routed "0xdai" "1" "10" routed_later

-- Two nodes that serve an array with a leading zero, which JSON does not allow.
abbrev bad_event : GlobalConfigEvent
bad_event = config_at 18 lite_chain_id_indices "[01]"

bad_event-IsRejected : IsRejected engine bad_event
unfolding is_array_text remove_quotes_and_spaces
bad_event-IsRejected = record { lite = refl; matches = refl; rejected = refl }

abbrev found_at : (block : ℕ) → ConfigStoreUpdateSuccess
found_at block = record {
  chain_id = 1;
  search_end_block = block;
  updated_token_config_events = [];
  updated_global_config_events = bad_event ∷ [];
  global_config_update_times = 216 ∷ [];
}

finds :
    (fetch_update (node_of (bad_event ∷ []) 30) fresh ≡ ok (inl (found_at 30)))
    × (fetch_update (node_of (bad_event ∷ []) 40) fresh ≡ ok (inl (found_at 40)))
unfolding fetch_update fresh filter
finds = (refl, refl)

update-stuck_example :
    AllThrow engine models (node_of (bad_event ∷ []) 30 ∷ node_of (bad_event ∷ []) 40 ∷ []) fresh
update-stuck_example =
    update-stuck engine models (node_of (bad_event ∷ []) 30 ∷ node_of (bad_event ∷ []) 40 ∷ [])
      fresh
      (
        (found_at 30, finds.0, (bad_event, Memᴰ.head refl, bad_event-IsRejected)),
        ((found_at 40, finds.1, (bad_event, Memᴰ.head refl, bad_event-IsRejected)), tt),
      )
