-- ===== src/ConfigStore/Chains.antt =====
-- Chains that are enabled, and versions, of clients/AcrossConfigStoreClient/AcrossConfigStoreClient.ts.
use acrossclone.Prelude.{
  ℕ, Bool, ◌&&◌, not, List, [], ◌∷◌, ◌++◌, map, Option, none, some, nat_eq, string_eq, ltb, leb,
  ◌==◌, if◌then◌else◌, Result, ok, err, ◌>>=◌,
}
use acrossclone.Prelude.Int.{ℤ, pos, leb_ℤ, int_eq}
use acrossclone.Prelude.Search.{filter, find?, includes}
use acrossclone.Events.{sort_events_descending}
use acrossclone.Json.{Numeral, integer}
use acrossclone.ConfigStore.{
  ConfigStore, ConfigStoreError, invalid_block_range, TimedConfigUpdate, DisabledChainsUpdate,
  global_sortable, timed_sortable, disabled_sortable, route_model_sortable, target_sortable,
}
use acrossclone.ConfigStore.Queries.{up_to, by_timestamp, get_chain_id_indices_for_block}

abbrev pub chain_ids_of : Option DisabledChainsUpdate → List ℤ
chain_ids_of none = []
chain_ids_of (some update) = update.chain_ids

unfoldable pub get_disabled_chains_for_block : ConfigStore → (block_number : ℕ) → List ℤ
unfolding find? sort_events_descending
get_disabled_chains_for_block s block_number =
    chain_ids_of
      (find? (up_to block_number) (sort_events_descending s.cumulative_disabled_chain_updates))

-- The chains that the disabled chains leave over.
abbrev pub without : List ℤ → List ℕ → List ℕ
without disabled chains = filter (λ chain. not (includes disabled (pos chain))) chains

unfoldable pub get_enabled_chains : ConfigStore → (block : ℕ) → Result ConfigStoreError (List ℕ)
unfolding get_disabled_chains_for_block get_chain_id_indices_for_block filter includes
get_enabled_chains s block = do
  chains ← get_chain_id_indices_for_block s block
  ok (without (get_disabled_chains_for_block s block) chains)

-- The inner `forEach`: the chains, disabled before, that an update no longer disables.
unfoldable pub push_enabled : List ℤ → DisabledChainsUpdate → List ℤ → List ℤ
unfolding includes
push_enabled [] e enabled = enabled
push_enabled (disabled ∷ rest) e enabled =
    push_enabled rest e
      (if includes e.chain_ids disabled then enabled else enabled ++ disabled ∷ [])

-- The outer `forEach`
unfoldable pub push_all_enabled : List ℤ → List DisabledChainsUpdate → List ℤ → List ℤ
unfolding push_enabled
push_all_enabled disabled [] enabled = enabled
push_all_enabled disabled (e ∷ updates) enabled =
    push_all_enabled disabled updates (push_enabled disabled e enabled)

-- `e.blockNumber <= toBlock && e.blockNumber >= fromBlock`
abbrev pub in_block_range : (from_block to_block : ℕ) → DisabledChainsUpdate → Bool
in_block_range from_block to_block e = leb e.block_number to_block && leb from_block e.block_number

unfoldable pub get_enabled_chains_in_block_range :
    ConfigStore → (from_block to_block : ℕ) → Result ConfigStoreError (List ℕ)
unfolding get_disabled_chains_for_block get_chain_id_indices_for_block filter includes
    push_all_enabled
get_enabled_chains_in_block_range s from_block to_block =
    if ltb to_block from_block then err invalid_block_range else do
      let disabled = get_disabled_chains_for_block s from_block
      chains ← get_chain_id_indices_for_block s to_block
      let updates = filter (in_block_range from_block to_block) s.cumulative_disabled_chain_updates
      let enabled = push_all_enabled disabled updates (map pos (without disabled chains))
      ok (filter (λ chain. includes enabled (pos chain)) chains)

abbrev pub default_config_store_version : ℤ
default_config_store_version = pos 0

abbrev pub version_of : Option (TimedConfigUpdate ℤ) → ℤ
version_of none = default_config_store_version
version_of (some update) = update.value

unfoldable pub get_config_store_version_for_timestamp : ConfigStore → (timestamp : ℕ) → ℤ
unfolding find?
get_config_store_version_for_timestamp s timestamp =
    version_of (find? (by_timestamp timestamp) s.cumulative_config_store_version_updates)

unfoldable pub get_config_store_version_for_block : ConfigStore → (block_number : ℕ) → ℤ
unfolding find?
get_config_store_version_for_block s block_number =
    version_of (find? (up_to block_number) s.cumulative_config_store_version_updates)

unfoldable pub has_valid_config_store_version_for_timestamp : ConfigStore → (timestamp : ℕ) → Bool
unfolding get_config_store_version_for_timestamp
has_valid_config_store_version_for_timestamp s timestamp =
    leb_ℤ (get_config_store_version_for_timestamp s timestamp) s.config_store_version

-- UMIP-157 keeps chain 1 out of the disabled chains.
unfoldable pub is_disabled_chain : Numeral → Option ℤ
is_disabled_chain (integer n) = if n == pos 1 then none else some n
is_disabled_chain _ = none

unfoldable pub filter_disabled_chains : List Numeral → List ℤ
unfolding is_disabled_chain
filter_disabled_chains [] = []
filter_disabled_chains (chain ∷ chains) =
    let rest = filter_disabled_chains chains in
    elim (is_disabled_chain chain) [ none ↦ rest | some n ↦ n ∷ rest ]
