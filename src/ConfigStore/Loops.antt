-- ===== src/ConfigStore/Loops.antt =====
-- The two loops of `update` in clients/AcrossConfigStoreClient/AcrossConfigStoreClient.ts, over token
-- configs and global configs. Logging is left out.
use Prim.Native.String.{String}
use acrossclone.Prelude.{
  ℕ, ◌+◌, Bool, true, false, ◌&&◌, not, List, [], ◌∷◌, ◌++◌, Option, none, some, nat_eq, get_or,
  ◌==◌, if◌then◌else◌, Result, Outcome, and_then, length, get_elem?, get_last?,
}
use acrossclone.Prelude.Int.{ℤ, pos, leb_ℤ, ltb_ℤ}
use acrossclone.Prelude.Dict.{Dict}
use acrossclone.Arrays.{dedup_array}
use acrossclone.Events.{EventPlace, Sortable}
use acrossclone.Events.Pages.{QueryError}
use acrossclone.Json.{
  Numeral, not_a_number, integer, fraction, Json, array, other_json, Engine, is_nan,
  positive_integers, is_array_text, remove_quotes_and_spaces, floor, to_bn,
}
use acrossclone.ConfigStore.{
  ConfigStore, ConfigStoreError, syntax_error, GlobalConfigUpdate, TimedConfigUpdate,
  SpokePoolTargetBalance,
}
use acrossclone.ConfigStore.Queries.{protocol_default_chain_id_indices, value_of}
use acrossclone.ConfigStore.Chains.{default_config_store_version, filter_disabled_chains}

-- `GLOBAL_CONFIG_STORE_KEYS`, which the contract has as padded texts, and the keys that the client
-- does not know.
pub data GlobalConfigStoreKey : Type 0 where
  max_relayer_repayment_leaf_size max_pool_rebalance_leaf_size : GlobalConfigStoreKey
  version disabled_chains chain_id_indices lite_chain_id_indices other_key : GlobalConfigStoreKey

pub record GlobalConfigEvent : Type 0 where
  pub place : EventPlace
  pub open place use *
  pub key : GlobalConfigStoreKey
  pub value : String

pub record TokenConfigEvent : Type 0 where
  pub place : EventPlace
  pub open place use *
  pub key : String
  pub value : String

instance abbrev pub global_event_sortable : Sortable GlobalConfigEvent
global_event_sortable = record { place = λ e. e.place }

instance abbrev pub token_event_sortable : Sortable TokenConfigEvent
token_event_sortable = record { place = λ e. e.place }

-- `ParsedTokenConfig`: the rate models are the texts that `JSON.stringify` gives; the entries of a
-- target balance are `none` where they are missing.
pub record ParsedTokenConfig : Type 0 where
  pub rate_model : Option String
  pub route_rate_model : Option (Dict String String)
  pub spoke_target_balances : Option (Dict ℕ (Option String × Option String))

-- What the node and the contract answer during one update, and how the value of a token's config is
-- parsed: `JSON.parse` with a reviver that floors the numbers.
pub record ConfigStoreNode : Type 0 where
  pub block_number : ℕ
  pub network_chain_id : Result ConfigStoreError ℕ
  pub token_configs : ℕ → ℕ → ℕ → Result QueryError (List TokenConfigEvent)
  pub global_configs : ℕ → ℕ → ℕ → Result QueryError (List GlobalConfigEvent)
  pub timestamp_of_block : ℕ → Result ConfigStoreError ℕ
  pub parse_token_config : String → ParsedTokenConfig

-- `max(toBN(text), toBN(0))`; `none` where `toBN` throws.
abbrev pub bn_or_0 : Option ℤ → Option ℤ
bn_or_0 none = none
bn_or_0 (some n) = some (if ltb_ℤ n (pos 0) then pos 0 else n)

abbrev pub parse_balance : Engine → Option String × Option String → Option SpokePoolTargetBalance
unfolding to_bn
parse_balance engine (some target, some threshold) = elim (bn_or_0 (to_bn engine floor target)) [
  | none ↦ none
  | some m ↦ elim (bn_or_0 (to_bn engine floor threshold)) [
    | none ↦ none
    | some n ↦ some (record { target = m; threshold = n })
  ]
]
parse_balance engine _ = none

-- `Object.entries(..).map(..)`; one entry that throws throws for all.
unfoldable pub parse_balances :
    Engine → Dict ℕ (Option String × Option String) → Option (Dict ℕ SpokePoolTargetBalance)
unfolding to_bn
parse_balances engine [] = some []
parse_balances engine ((chain, texts) ∷ entries) =
    let rest = parse_balances engine entries in
    elim (parse_balance engine texts) [
      | none ↦ none
      | some balance ↦ elim rest [
        | none ↦ none
        | some balances ↦ some ((chain, balance) ∷ balances)
      ]
    ]

-- The body of the loop over token configs. Where the target balances throw, the rate model stays.
unfoldable pub add_token_config :
    Engine → ConfigStoreNode → TokenConfigEvent → ConfigStore → ConfigStore
unfolding parse_balances
add_token_config engine node e s =
    let parsed = node.parse_token_config e.value in
    elim parsed.rate_model [
      | none ↦ s
      | some text ↦
          let rated : ConfigStore = record s {
            cumulative_rate_model_updates =
                s.cumulative_rate_model_updates
                ++ record { place = e.place; rate_model = text; l1_token = e.key } ∷ [];
          } in
          elim (parse_balances engine (get_or parsed.spoke_target_balances [])) [
            | none ↦ rated
            | some balances ↦ record rated {
              cumulative_spoke_target_balance_updates =
                  rated.cumulative_spoke_target_balance_updates
                  ++ record { place = e.place; spoke_target_balances = balances; l1_token = e.key }
                    ∷ [];
              cumulative_route_rate_model_updates =
                  rated.cumulative_route_rate_model_updates
                  ++ record {
                    place = e.place;
                    route_rate_model = get_or parsed.route_rate_model [];
                    l1_token = e.key;
                  }
                    ∷ [];
            }
          ]
    ]

unfoldable pub add_token_configs :
    Engine → ConfigStoreNode → List TokenConfigEvent → ConfigStore → ConfigStore
unfolding add_token_config
add_token_configs engine node [] s = s
add_token_configs engine node (e ∷ events) s =
    add_token_configs engine node events (add_token_config engine node e s)

abbrev is_some_and : Option ℕ → ℕ → Bool
is_some_and none n = false
is_some_and (some m) n = m == n

-- `previousUpdate.every((chainId, idx) => chainIndices[idx] === chainId)`, from an index on.
unfoldable pub is_kept_from : (idx : ℕ) → (previous chain_indices : List ℕ) → Bool
is_kept_from idx [] chain_indices = true
is_kept_from idx (chain ∷ previous) chain_indices =
    is_some_and (get_elem? chain_indices idx) chain && is_kept_from (idx + 1) previous chain_indices

-- `new Set(chainIndices).size !== chainIndices.length`
unfoldable pub has_duplicates : List ℕ → Bool
unfolding dedup_array
has_duplicates xs = not (length (dedup_array xs) == length xs)

-- An array of chain ids without duplicates, or `none`.
unfoldable pub checked_chain_indices : Json → Option (List ℕ)
unfolding positive_integers has_duplicates
checked_chain_indices json = elim (positive_integers json) [
  | none ↦ none
  | some indices ↦ if has_duplicates indices then none else some indices
]

-- `this.chainIdIndicesUpdates.at(-1)?.value ?? this.implicitChainIdIndices(chainId)`
unfoldable pub previous_indices : (chain_id : ℕ) → ConfigStore → List ℕ
previous_indices chain_id s = elim (value_of (get_last? s.chain_id_indices_updates)) [
  | some indices ↦ indices
  | none ↦ if 1 == chain_id then protocol_default_chain_id_indices else chain_id ∷ []
]

unfoldable pub add_chain_indices :
    Engine → (chain_id : ℕ) → GlobalConfigEvent → ConfigStore → ConfigStore
unfolding remove_quotes_and_spaces checked_chain_indices is_kept_from previous_indices
add_chain_indices engine chain_id e s =
    elim (engine.json_parse (remove_quotes_and_spaces e.value)) [
      | none ↦ s
      | some json ↦ elim (checked_chain_indices json) [
        | none ↦ s
        | some indices ↦
            if is_kept_from 0 (previous_indices chain_id s) indices
            then record s {
              chain_id_indices_updates =
                  s.chain_id_indices_updates ++ record { place = e.place; value = indices } ∷ [];
            }
            else s
      ]
    ]

-- This `JSON.parse` stands outside of a `try` block.
unfoldable pub add_lite_chain_indices :
    Engine
    → (timestamp : ℕ) → GlobalConfigEvent
    → ConfigStore
    → Outcome ConfigStoreError ConfigStore
unfolding is_array_text remove_quotes_and_spaces checked_chain_indices
add_lite_chain_indices engine timestamp e s =
    if not (is_array_text e.value)
    then (s, none)
    else elim (engine.json_parse (remove_quotes_and_spaces e.value)) [
      | none ↦ (s, some syntax_error)
      | some json ↦ elim (checked_chain_indices json) [
        | none ↦ (s, none)
        | some indices ↦ (
          record s {
            lite_chain_indices_updates =
                s.lite_chain_indices_updates
                ++ record { place = e.place; value = indices; timestamp = timestamp } ∷ [];
          },
          none,
        )
      ]
    ]

-- The highest version so far, which stands in front.
abbrev pub last_version : List (TimedConfigUpdate ℤ) → ℤ
last_version [] = default_config_store_version
last_version (update ∷ updates) = update.value

unfoldable pub add_version :
    Engine → (timestamp : ℕ) → GlobalConfigEvent → ConfigStore → ConfigStore
add_version engine timestamp e s = elim (engine.number e.value) [
  | not_a_number ↦ s
  | fraction text ↦ s
  | integer value ↦
      let updates = s.cumulative_config_store_version_updates in
      if leb_ℤ value (last_version updates) then s else record s {
        cumulative_config_store_version_updates =
            record { place = e.place; value = value; timestamp = timestamp } ∷ updates;
      }
]

-- `JSON.parse(args.value) as number[]`; what is no array has no `filter`.
unfoldable pub add_disabled_chains : Engine → GlobalConfigEvent → ConfigStore → ConfigStore
unfolding filter_disabled_chains
add_disabled_chains engine e s = elim (engine.json_parse e.value) [
  | none ↦ s
  | some other_json ↦ s
  | some (array chains) ↦ record s {
    cumulative_disabled_chain_updates =
        s.cumulative_disabled_chain_updates
        ++ record { place = e.place; chain_ids = filter_disabled_chains chains } ∷ [];
  }
]

abbrev pub push_number :
    Engine
    → GlobalConfigEvent
    → List (GlobalConfigUpdate Numeral)
    → List (GlobalConfigUpdate Numeral)
unfolding is_nan
push_number engine e updates =
    let value = engine.number e.value in
    if is_nan value then updates else updates ++ record { place = e.place; value = value } ∷ []

-- The body of the loop over global configs.
unfoldable pub add_global_config :
    Engine
    → (chain_id timestamp : ℕ) → GlobalConfigEvent
    → ConfigStore
    → Outcome ConfigStoreError ConfigStore
unfolding add_chain_indices add_lite_chain_indices add_version add_disabled_chains is_nan
add_global_config engine chain_id timestamp e s = elim e.key [
  | max_relayer_repayment_leaf_size ↦ (
    record s {
      cumulative_max_refund_count_updates =
          push_number engine e s.cumulative_max_refund_count_updates;
    },
    none,
  )
  | lite_chain_id_indices ↦ add_lite_chain_indices engine timestamp e s
  | chain_id_indices ↦ (add_chain_indices engine chain_id e s, none)
  | max_pool_rebalance_leaf_size ↦ (
    record s {
      cumulative_max_l1_token_count_updates =
          push_number engine e s.cumulative_max_l1_token_count_updates;
    },
    none,
  )
  | version ↦ (add_version engine timestamp e s, none)
  | disabled_chains ↦ (add_disabled_chains engine e s, none)
  | other_key ↦ (s, none)
]

unfoldable pub add_global_configs :
    Engine
    → (chain_id : ℕ) → List GlobalConfigEvent
    → (timestamps : List ℕ) → ConfigStore
    → Outcome ConfigStoreError ConfigStore
unfolding add_global_config
add_global_configs engine chain_id (e ∷ events) (timestamp ∷ timestamps) s =
    and_then (add_global_config engine chain_id timestamp e s)
      (add_global_configs engine chain_id events timestamps)
add_global_configs engine chain_id _ _ s = (s, none)
