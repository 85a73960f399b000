-- ===== src/ConfigStore/Stuck.antt =====
-- An array of lite chains that JSON.parse rejects stops the config store client for good.
use acrossclone.Prelude.{
  ℕ, suc, ◌≡◌, ◌≢◌, refl, ap, ◌∙◌, subst, true, List, [], ◌∷◌, none, some, nat_eq, ◌==◌, ok,
  >>=-eq-ok, ok-inj, inl, Outcome, and_then, length, All, arith, Memᴰ,
}
use mathlib.Core.List.Memᴰ
use acrossclone.Json.{Engine, is_array_text, remove_quotes_and_spaces}
use acrossclone.ConfigStore.{ConfigStore, ConfigStoreError, syntax_error, RateModels}
use acrossclone.ConfigStore.Loops.{
  lite_chain_id_indices, GlobalConfigEvent, ConfigStoreNode, add_token_configs, add_chain_indices,
  add_lite_chain_indices, add_version, add_disabled_chains, add_global_config, add_global_configs,
}
use acrossclone.ConfigStore.Update.{
  ConfigStoreUpdateSuccess, block_times, resolve_chain_id, fetch_update, update_dictionary,
  finish_update, apply_update, update,
}
use acrossclone.ConfigStore.Preserves.{add_token_configs-SameConfigs, fetch_update-inv}

-- An update of the lite chains whose text the regular expression takes and JSON.parse does not,
-- such as `[01]`.
pub record IsRejected (engine : Engine) (e : GlobalConfigEvent) : Type 0 where
  pub lite : e.key ≡ lite_chain_id_indices
  pub matches : is_array_text e.value ≡ true
  pub rejected : engine.json_parse (remove_quotes_and_spaces e.value) ≡ none

-- The range of the next update and the chain are as before.
abbrev SameRange : ConfigStore → ConfigStore → Type 0
SameRange t s = (t.base ≡ s.base) × (t.chain_id ≡ s.chain_id)

module _ (engine : Engine) (chain_id : ℕ) where
  add_chain_indices-SameRange :
      (e : GlobalConfigEvent) (s : ConfigStore)
      → SameRange (add_chain_indices engine chain_id e s) s
  unfolding add_chain_indices
  add_chain_indices-SameRange e s = ground arith

  add_lite_chain_indices-SameRange :
      (timestamp : ℕ) (e : GlobalConfigEvent) (s : ConfigStore)
      → SameRange (add_lite_chain_indices engine timestamp e s).0 s
  unfolding add_lite_chain_indices
  add_lite_chain_indices-SameRange timestamp e s = ground arith

  add_version-SameRange :
      (timestamp : ℕ) (e : GlobalConfigEvent) (s : ConfigStore)
      → SameRange (add_version engine timestamp e s) s
  unfolding add_version
  add_version-SameRange timestamp e s = ground arith

  add_disabled_chains-SameRange :
      (e : GlobalConfigEvent) (s : ConfigStore) → SameRange (add_disabled_chains engine e s) s
  unfolding add_disabled_chains
  add_disabled_chains-SameRange e s = ground arith

  add_global_config-SameRange :
      (timestamp : ℕ) (e : GlobalConfigEvent) (s : ConfigStore)
      → SameRange (add_global_config engine chain_id timestamp e s).0 s
  unfolding add_global_config
  add_global_config-SameRange timestamp e s = ground (
    arith,
    add_chain_indices-SameRange e s,
    add_lite_chain_indices-SameRange timestamp e s,
    add_version-SameRange timestamp e s,
    add_disabled_chains-SameRange e s,
  )

  and_then-SameRange :
      (o : Outcome ConfigStoreError ConfigStore)
      (step : ConfigStore → Outcome ConfigStoreError ConfigStore) (s : ConfigStore)
      → SameRange o.0 s
      → ((t : ConfigStore) → SameRange (step t).0 t)
      → SameRange (and_then o step).0 s
  and_then-SameRange (t, none) step s same next = ((next t).0 ∙ same.0, (next t).1 ∙ same.1)
  and_then-SameRange (t, some e) step s same next = same

  add_global_configs-SameRange :
      (events : List GlobalConfigEvent) (timestamps : List ℕ) (s : ConfigStore)
      → SameRange (add_global_configs engine chain_id events timestamps s).0 s
  unfolding add_global_configs
  add_global_configs-SameRange [] timestamps s = (refl, refl)
  add_global_configs-SameRange (e ∷ events) [] s = (refl, refl)
  add_global_configs-SameRange (e ∷ events) (timestamp ∷ timestamps) s =
      and_then-SameRange (add_global_config engine chain_id timestamp e s)
        (add_global_configs engine chain_id events timestamps) s
        (add_global_config-SameRange timestamp e s) (add_global_configs-SameRange events timestamps)

  add_global_config-rejects :
      (timestamp : ℕ) (e : GlobalConfigEvent) (s : ConfigStore)
      → IsRejected engine e
      → add_global_config engine chain_id timestamp e s ≡ (s, some syntax_error)
  unfolding add_global_config add_lite_chain_indices
  add_global_config-rejects timestamp e s bad =
      rw (add_global_config, bad.lite) (rw (add_lite_chain_indices, bad.matches, bad.rejected) refl)

  and_then-thrown :
      (o : Outcome ConfigStoreError ConfigStore)
      (step : ConfigStore → Outcome ConfigStoreError ConfigStore)
      → ((s : ConfigStore) → (step s).1 ≢ none)
      → (and_then o step).1 ≢ none
  and_then-thrown (t, none) step throws = throws t
  and_then-thrown (t, some e) step throws = λ h. cc

  add_global_configs-throws :
      (events : List GlobalConfigEvent) (timestamps : List ℕ) (s : ConfigStore)
      (e : GlobalConfigEvent)
      → length events ≡ length timestamps
      → Memᴰ e events
      → IsRejected engine e
      → (add_global_configs engine chain_id events timestamps s).1 ≢ none
  unfolding add_global_configs
  add_global_configs-throws [] timestamps s e same m bad = absurd (Memᴰ.not-nil m)
  add_global_configs-throws (f ∷ events) [] s e same m bad = absurd (omega arith)
  add_global_configs-throws (f ∷ events) (timestamp ∷ timestamps) s e same (Memᴰ.head here) bad =
      let first : IsRejected engine f = subst (IsRejected engine) here bad in
      rw (add_global_config-rejects timestamp f s first) (λ h. cc)
  add_global_configs-throws (f ∷ events) (timestamp ∷ timestamps) s e same (Memᴰ.tail m) bad =
      and_then-thrown (add_global_config engine chain_id timestamp f s)
        (add_global_configs engine chain_id events timestamps)
        (λ t. add_global_configs-throws events timestamps t e (omega arith) m bad)

and_then_stops :
    (o : Outcome ConfigStoreError ConfigStore)
    (step : ConfigStore → Outcome ConfigStoreError ConfigStore)
    → o.1 ≢ none
    → and_then o step ≡ o
and_then_stops (t, none) step thrown = absurd (thrown refl)
and_then_stops (t, some e) step thrown = refl

length-block_times :
    (node : ConfigStoreNode) (events : List GlobalConfigEvent) (times : List ℕ)
    → block_times node events ≡ ok times
    → length events ≡ length times
unfolding block_times
length-block_times node [] times e = ap length (ok-inj e)
length-block_times node (f ∷ events) times e =
    let (timestamp, e1, f1) = >>=-eq-ok (node.timestamp_of_block f.block_number) _ e in
    let (rest, e2, f2) = >>=-eq-ok (block_times node events) _ f1 in
    ap suc (length-block_times node events rest e2) ∙ ap length (ok-inj f2)

abbrev Throws : ConfigStoreNode → Engine → RateModels → ConfigStore → Type 0
Throws node engine models s =
    ((update engine models node s).1 ≢ none) × SameRange (update engine models node s).0 s

apply_update-Throws :
    (engine : Engine) (models : RateModels) (node : ConfigStoreNode) (s : ConfigStore)
    (u : ConfigStoreUpdateSuccess) (e : GlobalConfigEvent)
    → length u.updated_global_config_events ≡ length u.global_config_update_times
    → Memᴰ e u.updated_global_config_events
    → IsRejected engine e
    → ((apply_update engine models node u s).1 ≢ none)
      × SameRange (apply_update engine models node u s).0 s
unfolding apply_update
apply_update-Throws engine models node s u e same m bad =
    let globals = u.updated_global_config_events in
    let times = u.global_config_update_times in
    let tokens = add_token_configs engine node u.updated_token_config_events s in
    let (base, chain, e2, e3, e4, e5) =
      add_token_configs-SameConfigs engine node u.updated_token_config_events s in
    let added = add_global_configs engine u.chain_id globals times tokens in
    let thrown = add_global_configs-throws engine u.chain_id globals times tokens e same m bad in
    let (added_base, added_chain) =
      add_global_configs-SameRange engine u.chain_id globals times tokens in
    let first = and_then_stops added (update_dictionary models) thrown in
    let all : and_then (and_then added (update_dictionary models)) (finish_update u) ≡ added =
      ap (λ o. and_then o (finish_update u)) first
      ∙ and_then_stops added (finish_update u) thrown in
    let alike : length globals == length times ≡ true = rw same ((nat_eq.same_iff _ _).1 refl) in
    rw (apply_update, alike, all) (thrown, (added_base ∙ base, added_chain ∙ chain))

update-Throws :
    (engine : Engine) (models : RateModels) (node : ConfigStoreNode) (s : ConfigStore)
    (u : ConfigStoreUpdateSuccess) (e : GlobalConfigEvent)
    → fetch_update node s ≡ ok (inl u)
    → Memᴰ e u.updated_global_config_events
    → IsRejected engine e
    → Throws node engine models s
unfolding update
update-Throws engine models node s u e fetched m bad =
    let (resolved, times) = fetch_update-inv node s u fetched in
    let same = length-block_times node u.updated_global_config_events _ times in
    rw (update, fetched) (apply_update-Throws engine models node s u e same m bad)

fetch_update-SameRange :
    (node : ConfigStoreNode) (t s : ConfigStore)
    → SameRange t s
    → fetch_update node t ≡ fetch_update node s
unfolding fetch_update resolve_chain_id
fetch_update-SameRange node t s (base, chain) =
    rw (fetch_update, resolve_chain_id, base, chain) refl

-- What an update by the node finds for the store, with such an event among it.
abbrev pub FindsRejected : Engine → ConfigStore → ConfigStoreNode → Type 0
FindsRejected engine s node =
    (u : ConfigStoreUpdateSuccess) × (fetch_update node s ≡ ok (inl u))
    × ((e : GlobalConfigEvent) × Memᴰ e u.updated_global_config_events × IsRejected engine e)

-- Updates in turn, by nodes that may answer differently, that all throw and leave the client with
-- the range of its next search, not updated if it was not.
abbrev pub AllThrow : Engine → RateModels → List ConfigStoreNode → ConfigStore → Type 0
AllThrow engine models [] s = Unit
AllThrow engine models (node ∷ nodes) s =
    ((update engine models node s).1 ≢ none)
    × ((update engine models node s).0.base ≡ s.base)
    × AllThrow engine models nodes (update engine models node s).0

AllThrow-SameRange :
    (engine : Engine) (models : RateModels) (nodes : List ConfigStoreNode) (t s : ConfigStore)
    → SameRange t s
    → All (FindsRejected engine s) nodes
    → AllThrow engine models nodes t
AllThrow-SameRange engine models [] t s same found = tt
AllThrow-SameRange engine models (node ∷ nodes) t s same ((u, fetched, (e, m, bad)), found) =
    let (thrown, (base, chain)) =
      update-Throws engine models node t u e (fetch_update-SameRange node t s same ∙ fetched) m
        bad in
    (
      thrown,
      base,
      AllThrow-SameRange engine models nodes (update engine models node t).0 s
          (base ∙ same.0, chain ∙ same.1) found,
    )

-- If the range that a client searches next has an update of the lite chains whose text the regular
-- expression takes and JSON.parse rejects, then every further update throws, however many
-- are made, and leaves the range and `isUpdated` as they are.
pub update-stuck :
    (engine : Engine) (models : RateModels) (nodes : List ConfigStoreNode) (s : ConfigStore)
    → All (FindsRejected engine s) nodes
    → AllThrow engine models nodes s
update-stuck engine models nodes s found =
    AllThrow-SameRange engine models nodes s s (refl, refl) found
