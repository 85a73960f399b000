-- ===== src/ConfigStore/Queries.antt =====
-- The look-ups of clients/AcrossConfigStoreClient/AcrossConfigStoreClient.ts.
use Prim.Native.String.{String, ◌++◌ as append_text}
use acrossclone.Prelude.{
  ℕ, Bool, ◌&&◌, List, [], ◌∷◌, Option, none, some, nat_eq, string_eq, leb, get_or, ◌==◌,
  if◌then◌else◌, Result, ok, err, ◌>>=◌,
}
use acrossclone.Prelude.Int.{pos, int_eq}
use acrossclone.Prelude.Search.{find?, includes}
use acrossclone.Prelude.Dict.{lookup}
use acrossclone.Events.{Sortable, sort_events_descending}
use acrossclone.Json.{Numeral}
use acrossclone.ConfigStore.{
  ConfigStore, ConfigStoreError, used_before_update, no_max_refund_count, no_max_l1_token_count,
  invalid_rate_model, GlobalConfigUpdate, TimedConfigUpdate, SpokePoolTargetBalance, RateModel,
  RateModels, global_sortable, timed_sortable, disabled_sortable, route_model_sortable,
  target_sortable,
}

-- `x ?? throw`
abbrev pub or_throw {ℓ} : {A : Type ℓ} → ConfigStoreError → Option A → Result ConfigStoreError A
or_throw e none = err e
or_throw e (some x) = ok x

-- `this.x.blockNumber <= blockNumber`, the test of the searches below.
abbrev pub up_to {ℓ} : {A : Type ℓ} ⦃s : Sortable A⦄ → (block_number : ℕ) → A → Bool
up_to ⦃s⦄ block_number x = leb (s.place x).block_number block_number

abbrev pub value_of {ℓ} : {V : Type ℓ} → Option (GlobalConfigUpdate V) → Option V
value_of none = none
value_of (some update) = some update.value

abbrev pub timed_value_of {ℓ} : {V : Type ℓ} → Option (TimedConfigUpdate V) → Option V
timed_value_of none = none
timed_value_of (some update) = some update.value

abbrev pub protocol_default_chain_id_indices : List ℕ
protocol_default_chain_id_indices = 1 ∷ 10 ∷ 137 ∷ 288 ∷ 42161 ∷ []

unfoldable pub implicit_chain_id_indices : Option ℕ → Result ConfigStoreError (List ℕ)
implicit_chain_id_indices none = err used_before_update
implicit_chain_id_indices (some chain_id) =
    ok (if 1 == chain_id then protocol_default_chain_id_indices else chain_id ∷ [])

unfoldable pub get_chain_id_indices_for_block :
    ConfigStore → (block_number : ℕ) → Result ConfigStoreError (List ℕ)
unfolding implicit_chain_id_indices find? sort_events_descending
get_chain_id_indices_for_block s block_number =
    elim (value_of
      (find? (up_to block_number) (sort_events_descending s.chain_id_indices_updates))) [
        | some indices ↦ ok indices
        | none ↦ implicit_chain_id_indices s.chain_id
      ]

unfoldable pub get_lite_chain_id_indices_for_block : ConfigStore → (block_number : ℕ) → List ℕ
unfolding find? sort_events_descending
get_lite_chain_id_indices_for_block s block_number =
    get_or
      (timed_value_of
        (find? (up_to block_number) (sort_events_descending s.lite_chain_indices_updates)))
      []

abbrev pub by_timestamp {ℓ} : {V : Type ℓ} → (timestamp : ℕ) → TimedConfigUpdate V → Bool
by_timestamp timestamp update = leb update.timestamp timestamp

unfoldable pub get_lite_chain_id_indices_for_timestamp : ConfigStore → (timestamp : ℕ) → List ℕ
unfolding find? sort_events_descending
get_lite_chain_id_indices_for_timestamp s timestamp =
    get_or
      (timed_value_of
        (find? (by_timestamp timestamp) (sort_events_descending s.lite_chain_indices_updates)))
      []

unfoldable pub is_chain_lite_chain_at_timestamp : ConfigStore → (chain_id timestamp : ℕ) → Bool
unfolding get_lite_chain_id_indices_for_timestamp includes
is_chain_lite_chain_at_timestamp s chain_id timestamp =
    includes (get_lite_chain_id_indices_for_timestamp s timestamp) chain_id

unfoldable pub get_spoke_target_balances_for_block :
    ConfigStore → (l1_token : String) → (chain_id block_number : ℕ) → SpokePoolTargetBalance
unfolding find? sort_events_descending lookup
get_spoke_target_balances_for_block s l1_token chain_id block_number =
    let zero_balance : SpokePoolTargetBalance = record { target = pos 0; threshold = pos 0 } in
    elim (find? (λ config. config.l1_token == l1_token && up_to block_number config)
      (sort_events_descending s.cumulative_spoke_target_balance_updates)) [
        | none ↦ zero_balance
        | some config ↦ get_or (lookup chain_id config.spoke_target_balances) zero_balance
      ]

unfoldable pub get_max_refund_count_for_relayer_refund_leaf_for_block :
    ConfigStore → (block_number : ℕ) → Result ConfigStoreError Numeral
unfolding find? sort_events_descending
get_max_refund_count_for_relayer_refund_leaf_for_block s block_number =
    or_throw no_max_refund_count (
      value_of
        (find? (up_to block_number) (sort_events_descending s.cumulative_max_refund_count_updates)))

unfoldable pub get_max_l1_token_count_for_pool_rebalance_leaf_for_block :
    ConfigStore → (block_number : ℕ) → Result ConfigStoreError Numeral
unfolding find? sort_events_descending
get_max_l1_token_count_for_pool_rebalance_leaf_for_block s block_number =
    or_throw no_max_l1_token_count (
      value_of (
        find? (up_to block_number)
          (sort_events_descending s.cumulative_max_l1_token_count_updates)))

unfoldable pub get_route_rate_model_for_block_number :
    RateModels
    → ConfigStore
    → (l1_token route : String) → (block_number : Option ℕ)
    → Result ConfigStoreError (Option RateModel)
unfolding find? sort_events_descending lookup
get_route_rate_model_for_block_number models s l1_token route block_number =
    elim (find? (λ config. up_to (get_or block_number 0) config && config.l1_token == l1_token)
      (sort_events_descending s.cumulative_route_rate_model_updates)) [
        | none ↦ ok none
        | some config ↦ elim (lookup route config.route_rate_model) [
          | none ↦ ok none
          | some text ↦ elim (models.parse_rate_model text) [
            | none ↦ err invalid_rate_model
            | some model ↦ ok (some model)
          ]
        ]
      ]

-- The chains are given as the texts that the template prints.
unfoldable pub get_rate_model_for_block_number :
    RateModels
    → ConfigStore
    → (l1_token origin_chain_id destination_chain_id : String) → (block_number : Option ℕ)
    → Result ConfigStoreError RateModel
unfolding get_route_rate_model_for_block_number
get_rate_model_for_block_number models s l1_token origin_chain_id destination_chain_id
      block_number =
    do
      let route = append_text origin_chain_id (append_text "-" destination_chain_id)
      model ← get_route_rate_model_for_block_number models s l1_token route block_number
      elim model [
        | some route_model ↦ ok route_model
        | none ↦
            or_throw invalid_rate_model
              (models.get_rate_model s.rate_model_dictionary l1_token block_number)
      ]
