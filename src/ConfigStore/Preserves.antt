-- ===== src/ConfigStore/Preserves.antt =====
-- An update of the config store client keeps its lists well-formed, also where it throws half-way.
use acrossclone.Prelude.{
  ℕ, ◌≡◌, refl, sym, ap, ◌∙◌, subst, List, [], ◌∷◌, Option, none, some, nat_eq, get_or, ◌==◌,
  Result, ok, err, >>=-eq-ok, ok-inj, ◌⊎◌, inl, inr, Outcome, and_then, length, All-append, arith,
  Bool-cases, Option-cases,
}
use acrossclone.Prelude.Int.{ℤ, leb_ℤ, int_eq}
use acrossclone.Json.{
  Numeral, not_a_number, integer, fraction, Json, array, other_json, Engine, is_array_text,
  remove_quotes_and_spaces,
}
use acrossclone.Events.Pages.{EventSearchConfig}
use acrossclone.BaseClient.{
  BaseClientError, update_search_config, UpdateFailureReason, already_updated, bad_request,
  rpc_error,
}
use acrossclone.ConfigStore.{ConfigStore, ConfigStoreError, RateModels, TimedConfigUpdate}
use acrossclone.ConfigStore.Loops.{
  global_event_sortable, token_event_sortable, GlobalConfigStoreKey,
  max_relayer_repayment_leaf_size, max_pool_rebalance_leaf_size, version, disabled_chains,
  chain_id_indices, lite_chain_id_indices, other_key, GlobalConfigEvent, TokenConfigEvent,
  ConfigStoreNode, add_token_config, add_token_configs, is_kept_from, checked_chain_indices,
  previous_indices, add_chain_indices, add_lite_chain_indices, last_version, add_version,
  add_disabled_chains, add_global_config, add_global_configs,
}
use acrossclone.ConfigStore.Update.{
  ConfigStoreUpdateSuccess, resolve_chain_id, query_sorted, block_times, fetch_events,
  fetch_searched, fetch_update, update_dictionary, finish_update, apply_update, update,
  new_config_store_client,
}
use acrossclone.ConfigStore.WellFormed.{
  IsPrefix, IsWellFormed, IsUnique, IsGrowing-append, SparesMainnet, checked_chain_indices-IsUnique,
  is_kept_from-IsPrefix, previous_indices-last, filter_disabled_chains-SparesMainnet,
}

-- What the loop over token configs leaves alone.
abbrev pub SameConfigs : ConfigStore → ConfigStore → Type 0
SameConfigs t s =
    (t.base ≡ s.base)
    × (t.chain_id ≡ s.chain_id)
    × (t.chain_id_indices_updates ≡ s.chain_id_indices_updates)
    × (t.lite_chain_indices_updates ≡ s.lite_chain_indices_updates)
    × (t.cumulative_config_store_version_updates ≡ s.cumulative_config_store_version_updates)
    × (t.cumulative_disabled_chain_updates ≡ s.cumulative_disabled_chain_updates)

add_token_config-SameConfigs :
    (engine : Engine) (node : ConfigStoreNode) (e : TokenConfigEvent) (s : ConfigStore)
    → SameConfigs (add_token_config engine node e s) s
unfolding add_token_config
add_token_config-SameConfigs engine node e s = ground arith

pub add_token_configs-SameConfigs :
    (engine : Engine) (node : ConfigStoreNode) (events : List TokenConfigEvent) (s : ConfigStore)
    → SameConfigs (add_token_configs engine node events s) s
unfolding add_token_configs
add_token_configs-SameConfigs engine node [] s = (refl, refl, refl, refl, refl, refl)
add_token_configs-SameConfigs engine node (e ∷ events) s =
    let (a0, a1, a2, a3, a4, a5) = add_token_config-SameConfigs engine node e s in
    let (b0, b1, b2, b3, b4, b5) =
      add_token_configs-SameConfigs engine node events (add_token_config engine node e s) in
    (b0 ∙ a0, b1 ∙ a1, b2 ∙ a2, b3 ∙ a3, b4 ∙ a4, b5 ∙ a5)

module _ (engine : Engine) (chain_id : ℕ) where
  SameConfigs-IsWellFormed :
      (t s : ConfigStore) → SameConfigs t s → IsWellFormed chain_id s → IsWellFormed chain_id t
  SameConfigs-IsWellFormed t s (e0, e1, e2, e3, e4, e5) w = record {
    chain = λ id e. w.chain id (sym e1 ∙ e);
    indices = rw e2 w.indices;
    lite = rw e3 w.lite;
    versions = rw e4 w.versions;
    disabled = rw e5 w.disabled;
  }

  add_chain_indices-IsWellFormed :
      (e : GlobalConfigEvent) (s : ConfigStore)
      → IsWellFormed chain_id s
      → IsWellFormed chain_id (add_chain_indices engine chain_id e s)
  unfolding add_chain_indices
  add_chain_indices-IsWellFormed e s w =
      elim (Option-cases (engine.json_parse (remove_quotes_and_spaces e.value))) [
        | inl bad ↦ rw (add_chain_indices, bad) w
        | inr (json, parsed) ↦ elim (Option-cases (checked_chain_indices json)) [
          | inl bad ↦ rw (add_chain_indices, parsed, bad) w
          | inr (xs, good) ↦ elim (Bool-cases (is_kept_from 0 (previous_indices chain_id s) xs)) [
            | inr lost ↦ rw (add_chain_indices, parsed, good, lost) w
            | inl kept ↦
                rw (add_chain_indices, parsed, good, kept)
                  (record {
                    chain = w.chain;
                    indices =
                        IsGrowing-append _ s.chain_id_indices_updates _ w.indices
                          (subst (λ p. IsPrefix p xs) (previous_indices-last chain_id s)
                            (is_kept_from-IsPrefix 0 (previous_indices chain_id s) xs kept))
                          (checked_chain_indices-IsUnique json good);
                    lite = w.lite;
                    versions = w.versions;
                    disabled = w.disabled;
                  })
          ]
        ]
      ]

  add_lite_chain_indices-IsWellFormed :
      (timestamp : ℕ) (e : GlobalConfigEvent) (s : ConfigStore)
      → IsWellFormed chain_id s
      → IsWellFormed chain_id (add_lite_chain_indices engine timestamp e s).0
  unfolding add_lite_chain_indices
  add_lite_chain_indices-IsWellFormed timestamp e s w = elim (Bool-cases (is_array_text e.value)) [
    | inr odd ↦ rw (add_lite_chain_indices, odd) w
    | inl fits ↦ elim (Option-cases (engine.json_parse (remove_quotes_and_spaces e.value))) [
      | inl bad ↦ rw (add_lite_chain_indices, fits, bad) w
      | inr (json, parsed) ↦ elim (Option-cases (checked_chain_indices json)) [
        | inl bad ↦ rw (add_lite_chain_indices, fits, parsed, bad) w
        | inr (xs, good) ↦
            rw (add_lite_chain_indices, fits, parsed, good)
              (record {
                chain = w.chain;
                indices = w.indices;
                lite =
                    All-append (λ (u : TimedConfigUpdate (List ℕ)). IsUnique u.value)
                      s.lite_chain_indices_updates _ w.lite
                      (checked_chain_indices-IsUnique json good, tt);
                versions = w.versions;
                disabled = w.disabled;
              })
      ]
    ]
  ]

  add_version-IsWellFormed :
      (timestamp : ℕ) (e : GlobalConfigEvent) (s : ConfigStore)
      → IsWellFormed chain_id s
      → IsWellFormed chain_id (add_version engine timestamp e s)
  unfolding add_version
  add_version-IsWellFormed timestamp e s w = by_number (engine.number e.value) refl
    where
      by_number :
          (n : Numeral)
          → engine.number e.value ≡ n
          → IsWellFormed chain_id (add_version engine timestamp e s)
      by_number not_a_number same = rw (add_version, same) w
      by_number (fraction text) same = rw (add_version, same) w
      by_number (integer value) same =
          let updates = s.cumulative_config_store_version_updates in
          elim (Bool-cases (leb_ℤ value (last_version updates))) [
            | inl low ↦ rw (add_version, same, low) w
            | inr high ↦
                rw (add_version, same, high)
                  (record {
                    chain = w.chain;
                    indices = w.indices;
                    lite = w.lite;
                    versions = (high, w.versions);
                    disabled = w.disabled;
                  })
          ]

  add_disabled_chains-IsWellFormed :
      (e : GlobalConfigEvent) (s : ConfigStore)
      → IsWellFormed chain_id s
      → IsWellFormed chain_id (add_disabled_chains engine e s)
  unfolding add_disabled_chains
  add_disabled_chains-IsWellFormed e s w = by_json (engine.json_parse e.value) refl
    where
      by_json :
          (json : Option Json)
          → engine.json_parse e.value ≡ json
          → IsWellFormed chain_id (add_disabled_chains engine e s)
      by_json none same = rw (add_disabled_chains, same) w
      by_json (some other_json) same = rw (add_disabled_chains, same) w
      by_json (some (array xs)) same =
          rw (add_disabled_chains, same)
            (record {
              chain = w.chain;
              indices = w.indices;
              lite = w.lite;
              versions = w.versions;
              disabled =
                  All-append SparesMainnet s.cumulative_disabled_chain_updates _ w.disabled
                    (filter_disabled_chains-SparesMainnet xs, tt);
            })

  add_global_config-IsWellFormed :
      (timestamp : ℕ) (e : GlobalConfigEvent) (s : ConfigStore)
      → IsWellFormed chain_id s
      → IsWellFormed chain_id (add_global_config engine chain_id timestamp e s).0
  unfolding add_global_config
  add_global_config-IsWellFormed timestamp e s w = by_key e.key refl
    where
      by_key :
          (key : GlobalConfigStoreKey)
          → e.key ≡ key
          → IsWellFormed chain_id (add_global_config engine chain_id timestamp e s).0
      by_key max_relayer_repayment_leaf_size same =
          rw (add_global_config, same)
            (record {
              chain = w.chain;
              indices = w.indices;
              lite = w.lite;
              versions = w.versions;
              disabled = w.disabled;
            })
      by_key max_pool_rebalance_leaf_size same =
          rw (add_global_config, same)
            (record {
              chain = w.chain;
              indices = w.indices;
              lite = w.lite;
              versions = w.versions;
              disabled = w.disabled;
            })
      by_key lite_chain_id_indices same =
          rw (add_global_config, same) (add_lite_chain_indices-IsWellFormed timestamp e s w)
      by_key chain_id_indices same =
          rw (add_global_config, same) (add_chain_indices-IsWellFormed e s w)
      by_key version same = rw (add_global_config, same) (add_version-IsWellFormed timestamp e s w)
      by_key disabled_chains same =
          rw (add_global_config, same) (add_disabled_chains-IsWellFormed e s w)
      by_key other_key same = rw (add_global_config, same) w

  and_then-IsWellFormed :
      (o : Outcome ConfigStoreError ConfigStore)
      (step : ConfigStore → Outcome ConfigStoreError ConfigStore)
      → IsWellFormed chain_id o.0
      → ((s : ConfigStore) → IsWellFormed chain_id s → IsWellFormed chain_id (step s).0)
      → IsWellFormed chain_id (and_then o step).0
  and_then-IsWellFormed (s, none) step w next = next s w
  and_then-IsWellFormed (s, some e) step w next = w

  add_global_configs-IsWellFormed :
      (events : List GlobalConfigEvent) (timestamps : List ℕ) (s : ConfigStore)
      → IsWellFormed chain_id s
      → IsWellFormed chain_id (add_global_configs engine chain_id events timestamps s).0
  unfolding add_global_configs
  add_global_configs-IsWellFormed [] timestamps s w = w
  add_global_configs-IsWellFormed (e ∷ events) [] s w = w
  add_global_configs-IsWellFormed (e ∷ events) (timestamp ∷ timestamps) s w =
      and_then-IsWellFormed (add_global_config engine chain_id timestamp e s)
        (add_global_configs engine chain_id events timestamps)
        (add_global_config-IsWellFormed timestamp e s w)
        (λ t v. add_global_configs-IsWellFormed events timestamps t v)

  update_dictionary-IsWellFormed :
      (models : RateModels) (s : ConfigStore)
      → IsWellFormed chain_id s
      → IsWellFormed chain_id (update_dictionary models s).0
  unfolding update_dictionary
  update_dictionary-IsWellFormed models s w =
      elim (Bool-cases (models.accepts_events s.cumulative_rate_model_updates)) [
        | inl takes ↦
            rw (update_dictionary, takes)
              (record {
                chain = w.chain;
                indices = w.indices;
                lite = w.lite;
                versions = w.versions;
                disabled = w.disabled;
              })
        | inr throws ↦ rw (update_dictionary, throws) w
      ]

  finish_update-IsWellFormed :
      (u : ConfigStoreUpdateSuccess) (s : ConfigStore)
      → u.chain_id ≡ chain_id
      → IsWellFormed chain_id s
      → IsWellFormed chain_id (finish_update u s).0
  unfolding finish_update
  finish_update-IsWellFormed u s same w = record {
    chain = λ id e. chosen s.chain_id id w.chain e;
    indices = w.indices;
    lite = w.lite;
    versions = w.versions;
    disabled = w.disabled;
  }
    where
      chosen :
          (known : Option ℕ) (id : ℕ)
          → ((i : ℕ) → known ≡ some i → i ≡ chain_id)
          → some (get_or known u.chain_id) ≡ some id
          → id ≡ chain_id
      chosen none id h e = cc
      chosen (some i) id h e = h id e

pub apply_update-IsWellFormed :
    (engine : Engine) (models : RateModels) (node : ConfigStoreNode) (u : ConfigStoreUpdateSuccess)
    (s : ConfigStore)
    → IsWellFormed u.chain_id s
    → IsWellFormed u.chain_id (apply_update engine models node u s).0
unfolding apply_update
apply_update-IsWellFormed engine models node u s w =
    let id = u.chain_id in
    let globals = u.updated_global_config_events in
    let times = u.global_config_update_times in
    let tokens = add_token_configs engine node u.updated_token_config_events s in
    let w1 =
      SameConfigs-IsWellFormed engine id tokens s
        (add_token_configs-SameConfigs engine node u.updated_token_config_events s) w in
    let w2 = add_global_configs-IsWellFormed engine id globals times tokens w1 in
    let added = add_global_configs engine id globals times tokens in
    let w3 =
      and_then-IsWellFormed engine id added (update_dictionary models) w2
        (update_dictionary-IsWellFormed engine id models) in
    let w4 =
      and_then-IsWellFormed engine id (and_then added (update_dictionary models)) (finish_update u)
        w3 (λ t v. finish_update-IsWellFormed engine id u t refl v) in
    elim (Bool-cases (length globals == length times)) [
      | inl alike ↦ rw (apply_update, alike) w4
      | inr odd ↦ rw (apply_update, odd) w
    ]

-- The store is on chain `chain_id`, and so is the node that it asks.
abbrev pub OnChain : ConfigStoreNode → (chain_id : ℕ) → Type 0
OnChain node chain_id = (id : ℕ) → node.network_chain_id ≡ ok id → id ≡ chain_id

fetch_events-inv :
    (node : ConfigStoreNode) (id : ℕ) (search : EventSearchConfig) (u : ConfigStoreUpdateSuccess)
    → fetch_events node id search ≡ ok u
    → (u.chain_id ≡ id)
      × (block_times node u.updated_global_config_events ≡ ok u.global_config_update_times)
unfolding fetch_events
fetch_events-inv node id search u e =
    let (tokens, e1, f1) = >>=-eq-ok (query_sorted node.token_configs search) _ e in
    let (globals, e2, f2) = >>=-eq-ok (query_sorted node.global_configs search) _ f1 in
    let (times, e3, f3) = >>=-eq-ok (block_times node globals) _ f2 in
    let same = ok-inj f3 in
    (
      sym (ap (λ (v : ConfigStoreUpdateSuccess). v.chain_id) same),
      subst
          (λ (v : ConfigStoreUpdateSuccess).
            block_times node v.updated_global_config_events ≡ ok v.global_config_update_times)
          same e3,
    )

fetch_searched-inv :
    (node : ConfigStoreNode) (id : ℕ) (u : ConfigStoreUpdateSuccess)
    (r : Result BaseClientError (EventSearchConfig ⊎ UpdateFailureReason))
    → fetch_searched node id r ≡ ok (inl u)
    → (u.chain_id ≡ id)
      × (block_times node u.updated_global_config_events ≡ ok u.global_config_update_times)
unfolding fetch_searched
fetch_searched-inv node id u (err e) f = cc
fetch_searched-inv node id u (ok (inr reason)) f = cc
fetch_searched-inv node id u (ok (inl search)) f =
    let (v, e, g) = >>=-eq-ok (fetch_events node id search) _ f in
    let same : v ≡ u = cc in
    fetch_events-inv node id search u (e ∙ ap (λ (x : ConfigStoreUpdateSuccess). ok x) same)

pub fetch_update-inv :
    (node : ConfigStoreNode) (s : ConfigStore) (u : ConfigStoreUpdateSuccess)
    → fetch_update node s ≡ ok (inl u)
    → (resolve_chain_id node s ≡ ok u.chain_id)
      × (block_times node u.updated_global_config_events ≡ ok u.global_config_update_times)
unfolding fetch_update
fetch_update-inv node s u e =
    let (id, e1, f1) = >>=-eq-ok (resolve_chain_id node s) _ e in
    let (same, times) =
      fetch_searched-inv node id u (update_search_config s.base node.block_number) f1 in
    (e1 ∙ ap ok (sym same), times)

resolve_chain_id-OnChain :
    (node : ConfigStoreNode) (s : ConfigStore) (chain_id id : ℕ)
    → OnChain node chain_id
    → IsWellFormed chain_id s
    → resolve_chain_id node s ≡ ok id
    → id ≡ chain_id
unfolding resolve_chain_id
resolve_chain_id-OnChain node s chain_id id on w e = elim (Option-cases s.chain_id) [
  | inl new ↦ on id (rw (resolve_chain_id, new) at e)
  | inr (i, known) ↦
      let found : ◌≡◌ {A = Result ConfigStoreError ℕ} (ok i) (ok id) =
        rw (resolve_chain_id, known) at e in
      w.chain id (known ∙ ap some (ok-inj found))
]

-- Whatever events an update finds, and also where it throws half-way, it keeps a store well-formed:
-- each array of chain id indices extends the one before it and has no duplicates, the first extends
-- the implicit indices of the store's chain; no lite chain array has duplicates; each version
-- is above 0 and above all earlier ones; no update disables chain 1. The node and the store are on
-- one chain.
pub update-IsWellFormed :
    (engine : Engine) (models : RateModels) (node : ConfigStoreNode) (chain_id : ℕ)
    (s : ConfigStore)
    → OnChain node chain_id
    → IsWellFormed chain_id s
    → IsWellFormed chain_id (update engine models node s).0
unfolding update
update-IsWellFormed engine models node chain_id s on w = by_fetch (fetch_update node s) refl
  where
    by_fetch :
        (r : Result ConfigStoreError (ConfigStoreUpdateSuccess ⊎ UpdateFailureReason))
        → fetch_update node s ≡ r
        → IsWellFormed chain_id (update engine models node s).0
    by_fetch (err e) f = rw (update, f) w
    by_fetch (ok (inr already_updated)) f = rw (update, f) w
    by_fetch (ok (inr bad_request)) f = rw (update, f) w
    by_fetch (ok (inr rpc_error)) f = rw (update, f) w
    by_fetch (ok (inl u)) f =
        let (resolved, times) = fetch_update-inv node s u f in
        let same = resolve_chain_id-OnChain node s chain_id u.chain_id on w resolved in
        let kept = apply_update-IsWellFormed engine models node u s in
        rw (update, f)
          (subst (λ id. IsWellFormed id s → IsWellFormed id (apply_update engine models node u s).0)
            same kept w)

-- The constructor's store is well-formed for every chain.
pub new_config_store_client-IsWellFormed :
    (from_block : ℕ) (to_block max_block_look_back : Option ℕ) (config_store_version : ℤ)
    (chain_id : ℕ)
    → IsWellFormed chain_id
        (new_config_store_client from_block to_block max_block_look_back config_store_version)
unfolding new_config_store_client
new_config_store_client-IsWellFormed from_block to_block max_look_back config_version chain_id =
    record { chain = λ id e. cc; indices = tt; lite = tt; versions = tt; disabled = tt }
