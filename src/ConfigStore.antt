-- ===== src/ConfigStore.antt =====
-- The state of clients/AcrossConfigStoreClient/AcrossConfigStoreClient.ts, and its queries. UMA's
-- rate models are an interface.
pub mod Queries
pub mod Chains
pub mod Loops
pub mod Update
pub mod WellFormed
pub mod Preserves
pub mod Indices
pub mod Enabled
pub mod Versions
pub mod Rates
pub mod Stuck
mod Tests
use Prim.Native.String.{String}
use acrossclone.Prelude.{
  ℕ, zero, suc, ◌+◌, ◌≡◌, refl, Bool, true, false, ◌&&◌, not, List, [], ◌∷◌, ◌++◌, map, Option,
  none, some, Eq, nat_eq, string_eq, ltb, leb, get_or, ◌==◌, if◌then◌else◌, Result, ok, err, ◌>>=◌,
}
use acrossclone.Prelude.Int.{ℤ, pos, leb_ℤ, ltb_ℤ}
use acrossclone.Prelude.Search.{filter, find?, includes}
use acrossclone.Prelude.Dict.{Dict, lookup}
use acrossclone.BaseClient.{BaseClient}
use acrossclone.Events.{EventPlace, Sortable, sort_events_descending}
use acrossclone.Json.{Numeral, Engine}

pub data ConfigStoreError : Type 0 where
  used_before_update no_max_refund_count no_max_l1_token_count : ConfigStoreError
  invalid_block_range invalid_rate_model : ConfigStoreError
  update_failed events_mismatch invalid_search_range query_failed : ConfigStoreError
  syntax_error rate_models_rejected : ConfigStoreError

-- `GlobalConfigUpdate<Value>`
pub record GlobalConfigUpdate {ℓ} (V : Type ℓ) : Type ℓ where
  pub place : EventPlace
  pub open place use *
  pub value : V

-- `ConfigStoreVersionUpdate<Value>` and `LiteChainsIdListUpdate<Value>`
pub record TimedConfigUpdate {ℓ} (V : Type ℓ) : Type ℓ where
  pub place : EventPlace
  pub open place use *
  pub value : V
  pub timestamp : ℕ

pub record DisabledChainsUpdate : Type 0 where
  pub place : EventPlace
  pub open place use *
  pub chain_ids : List ℤ

-- A rate model or a route's rate models, as texts.
pub record RateModelEvent : Type 0 where
  pub place : EventPlace
  pub open place use *
  pub rate_model : String
  pub l1_token : String

pub record RouteRateModelUpdate : Type 0 where
  pub place : EventPlace
  pub open place use *
  pub route_rate_model : Dict String String
  pub l1_token : String

pub record SpokePoolTargetBalance : Type 0 where
  pub target : ℤ
  pub threshold : ℤ

pub record SpokeTargetBalanceUpdate : Type 0 where
  pub place : EventPlace
  pub open place use *
  pub spoke_target_balances : Dict ℕ SpokePoolTargetBalance
  pub l1_token : String

module _ {ℓ} {V : Type ℓ} where
  instance abbrev pub global_sortable : Sortable (GlobalConfigUpdate V)
  global_sortable = record { place = λ e. e.place }

  instance abbrev pub timed_sortable : Sortable (TimedConfigUpdate V)
  timed_sortable = record { place = λ e. e.place }

instance abbrev pub disabled_sortable : Sortable DisabledChainsUpdate
disabled_sortable = record { place = λ e. e.place }

instance abbrev pub route_model_sortable : Sortable RouteRateModelUpdate
route_model_sortable = record { place = λ e. e.place }

instance abbrev pub target_sortable : Sortable SpokeTargetBalanceUpdate
target_sortable = record { place = λ e. e.place }

-- The state of AcrossConfigStoreClient. Its rate model dictionary is told by the events that it was
-- last given.
pub record ConfigStore : Type 0 where
  pub base : BaseClient
  pub open base use *
  pub cumulative_rate_model_updates : List RateModelEvent
  pub cumulative_route_rate_model_updates : List RouteRateModelUpdate
  pub cumulative_max_refund_count_updates : List (GlobalConfigUpdate Numeral)
  pub cumulative_max_l1_token_count_updates : List (GlobalConfigUpdate Numeral)
  pub chain_id_indices_updates : List (GlobalConfigUpdate (List ℕ))
  pub lite_chain_indices_updates : List (TimedConfigUpdate (List ℕ))
  pub cumulative_spoke_target_balance_updates : List SpokeTargetBalanceUpdate
  pub cumulative_config_store_version_updates : List (TimedConfigUpdate ℤ)
  pub cumulative_disabled_chain_updates : List DisabledChainsUpdate
  pub rate_model_dictionary : List RateModelEvent
  pub has_latest_config_store_version : Bool
  pub chain_id : Option ℕ
  pub config_store_version : ℤ

pub record RateModel : Type 0 where
  pub u_bar : String
  pub r0 : String
  pub r1 : String
  pub r2 : String

-- UMA's `parseAndReturnRateModelFromString` (`none` where it throws) and the dictionary's
-- `updateWithEvents` (whether it takes the events) and `getRateModelForBlockNumber`.
pub record RateModels : Type 0 where
  pub parse_rate_model : String → Option RateModel
  pub accepts_events : List RateModelEvent → Bool
  pub get_rate_model : List RateModelEvent → (l1_token : String) → Option ℕ → Option RateModel
