-- ===== src/ConfigStore/Rates.antt =====
-- getRateModelForBlockNumber without a block number.
use Prim.Native.String.{String}
use acrossclone.Prelude.{
  ◌<◌, ◌≡◌, refl, true, ◌&&◌, none, string_eq, ◌==◌, inl, inr, arith, Option-cases, Memᴰ,
}
use acrossclone.Prelude.Search.{find?}
use acrossclone.Events.{sort_events_descending}
use acrossclone.Events.Order.{find?-descending}
use acrossclone.ConfigStore.{
  ConfigStore, RateModels, invalid_rate_model, RouteRateModelUpdate, route_model_sortable,
}
use acrossclone.ConfigStore.Queries.{
  up_to, or_throw, get_route_rate_model_for_block_number, get_rate_model_for_block_number,
}

-- Without a block number the rate models of routes are passed over, whatever they are, where all were
-- set after block 0: the answer is that of the rate model dictionary, asked without a block number.
pub get_rate_model_for_block_number-ignores_routes :
    (models : RateModels) (s : ConfigStore) (l1_token origin destination : String)
    → ((u : RouteRateModelUpdate)
        → Memᴰ u s.cumulative_route_rate_model_updates
        → 0 < u.block_number)
    → get_rate_model_for_block_number models s l1_token origin destination none
      ≡ or_throw invalid_rate_model (models.get_rate_model s.rate_model_dictionary l1_token none)
unfolding get_rate_model_for_block_number get_route_rate_model_for_block_number
get_rate_model_for_block_number-ignores_routes models s l1_token origin destination later =
    let updates = s.cumulative_route_rate_model_updates in
    let test = λ (u : RouteRateModelUpdate). up_to 0 u && u.l1_token == l1_token in
    elim (Option-cases (find? test (sort_events_descending updates))) [
      | inl e ↦ rw (get_rate_model_for_block_number, get_route_rate_model_for_block_number, e) refl
      | inr (u, e) ↦
          let found = find?-descending test updates e in
          let positive = later u found.listed in
          let passed : up_to 0 u && u.l1_token == l1_token ≡ true = found.passes in
          absurd (ground arith)
    ]
