-- ===== src/SpokePool/Loops.antt =====
-- The loops of `update` in clients/SpokePoolClient.ts over the events of each kind.
use Prim.Native.String.{String}
use acrossclone.Prelude.{
  ℕ, Bool, false, List, [], ◌∷◌, map, Option, none, some, ltb, ◌==◌, nat_eq, string_eq,
  if◌then◌else◌, Result, ok, err, ◌>>=◌, Outcome, length,
}
use acrossclone.Prelude.Dict.{lookup, insert, alter}
use acrossclone.Events.{SortableEvent, Sortable}
use acrossclone.Objects.{assign_array, assign_array_at, assign_flag_at}
use acrossclone.HubPool.{max_safe_integer}
use acrossclone.HubPool.Tokens.{get_l2_token_for_deposit}
use acrossclone.ConfigStore.Queries.{is_chain_lite_chain_at_timestamp}
use acrossclone.SpokePool.{
  SpokePool, SpokePoolError, hub_pool_failed, type_error, RelayData, Deposit, DepositWithBlock,
  FillWithBlock, SpeedUp, SlowFillRequestWithBlock, RelayerRefundExecutionWithBlock, DepositHash,
  deposit_hash_eq,
}
use acrossclone.SpokePool.Queries.{
  get_deposit_hash, append_max_speed_up_signature_to_deposit, get_executed_refund_leaf_l2_token,
}

-- `V3FundsDeposited`. The event has no origin chain: that of its relay data is overwritten.
pub record V3FundsDepositedEvent : Type 0 where
  pub event : SortableEvent
  pub open event use *
  pub relay_data : RelayData
  pub open relay_data use *
  pub destination_chain_id : ℕ
  pub quote_timestamp : ℕ

-- `RequestedSpeedUpV3Deposit`, likewise.
pub record SpeedUpEvent : Type 0 where
  pub event : SortableEvent
  pub open event use *
  pub speed_up : SpeedUp

-- `EnabledDepositRoute`
pub record EnabledDepositRouteEvent : Type 0 where
  pub event : SortableEvent
  pub open event use *
  pub origin_token : String
  pub destination_chain_id : ℕ
  pub enabled : Bool

instance abbrev pub funds_deposited_sortable : Sortable V3FundsDepositedEvent
funds_deposited_sortable = record { place = λ e. e.place }

instance abbrev pub speed_up_sortable : Sortable SpeedUpEvent
speed_up_sortable = record { place = λ e. e.place }

instance abbrev pub deposit_route_sortable : Sortable EnabledDepositRouteEvent
deposit_route_sortable = record { place = λ e. e.place }

abbrev pub zero_address : String
zero_address = "0x0000000000000000000000000000000000000000"

unfoldable pub is_lite_chain : SpokePool → (chain_id timestamp : ℕ) → Bool
unfolding is_chain_lite_chain_at_timestamp
is_lite_chain s chain_id timestamp = elim s.hub [
  | none ↦ false
  | some clients ↦ is_chain_lite_chain_at_timestamp clients.config_store chain_id timestamp
]

unfoldable pub is_origin_lite_chain : SpokePool → Deposit → Bool
unfolding is_lite_chain
is_origin_lite_chain s deposit = is_lite_chain s deposit.origin_chain_id deposit.quote_timestamp

unfoldable pub is_destination_lite_chain : SpokePool → Deposit → Bool
unfolding is_lite_chain
is_destination_lite_chain s deposit =
    is_lite_chain s deposit.destination_chain_id deposit.quote_timestamp

unfoldable pub get_destination_token_for_deposit :
    SpokePool → Deposit → (quote_block_number : Option ℕ) → Result SpokePoolError String
unfolding get_l2_token_for_deposit
get_destination_token_for_deposit s deposit quote_block_number = elim s.hub [
  | none ↦ ok zero_address
  | some clients ↦
      elim (get_l2_token_for_deposit clients.hub_pool
        (record {
          origin_chain_id = deposit.origin_chain_id;
          destination_chain_id = deposit.destination_chain_id;
          input_token = deposit.input_token;
          quote_block_number = quote_block_number;
        })
        none) [ err e ↦ err hub_pool_failed | ok token ↦ ok token ]
]

-- The blocks that `batchComputeRealizedLpFeePct` finds for the deposits.
unfoldable pub batch_quote_blocks :
    SpokePool → List V3FundsDepositedEvent → Result SpokePoolError (List ℕ)
batch_quote_blocks s events = elim s.hub [
  | none ↦ ok (map (λ e. max_safe_integer) events)
  | some clients ↦
      if ltb 0 (length events)
      then clients.quote_blocks (map (λ e. e.quote_timestamp) events)
      else ok []
]

-- The deposit of an event on the client's chain, before its output token is looked up.
abbrev pub raw_deposit : SpokePool → V3FundsDepositedEvent → Deposit
raw_deposit s e = record {
  relay_data = record e.relay_data { origin_chain_id = s.chain_id };
  destination_chain_id = e.destination_chain_id;
  quote_timestamp = e.quote_timestamp;
  updated = record {
    speed_up_signature = none;
    updated_recipient = none;
    updated_output_amount = none;
    updated_message = none;
  };
  from_lite_chain = false;
  to_lite_chain = false;
}

-- With an output token of 0 the token of the destination chain is meant.
unfoldable pub resolve_output_token :
    SpokePool → Deposit → (quote_block_number : Option ℕ) → Result SpokePoolError String
unfolding get_destination_token_for_deposit
resolve_output_token s deposit quote_block_number =
    if deposit.output_token == zero_address
    then get_destination_token_for_deposit s deposit quote_block_number
    else ok deposit.output_token

-- The properties that are not part of the event. `quote_for_token` is the quote block with which the
-- token is looked up.
unfoldable pub to_deposit :
    SpokePool
    → (quote_for_token : Option ℕ) → (quote_block_number : ℕ) → V3FundsDepositedEvent
    → Result SpokePoolError DepositWithBlock
unfolding resolve_output_token is_origin_lite_chain is_destination_lite_chain
to_deposit s quote_for_token quote_block_number e = do
  let raw = raw_deposit s e
  output_token ← resolve_output_token s raw quote_for_token
  ok (record {
    event = e.event;
    deposit = record raw {
      relay_data = record raw.relay_data { output_token = output_token };
      from_lite_chain = is_origin_lite_chain s raw;
      to_lite_chain = is_destination_lite_chain s raw;
    };
    quote_block_number = quote_block_number;
  })

-- The first deposit of a hash is kept.
unfoldable pub add_deposit : DepositWithBlock → SpokePool → SpokePool
unfolding lookup alter get_deposit_hash
add_deposit deposit s =
    let deposit_hash = get_deposit_hash deposit.deposit_id deposit.origin_chain_id in
    elim (lookup deposit_hash s.deposit_hashes) [
      | some _ ↦ s
      | none ↦ record s {
        deposit_hashes = insert deposit_hash deposit s.deposit_hashes;
        earliest_deposit_id_queried =
            if ltb deposit.deposit_id s.earliest_deposit_id_queried
            then deposit.deposit_id
            else s.earliest_deposit_id_queried;
        latest_deposit_id_queried =
            if ltb s.latest_deposit_id_queried deposit.deposit_id
            then deposit.deposit_id
            else s.latest_deposit_id_queried;
      }
    ]

-- The loop over `V3FundsDeposited`.
unfoldable pub add_deposits :
    List V3FundsDepositedEvent
    → (quote_blocks : List ℕ) → SpokePool
    → Outcome SpokePoolError SpokePool
unfolding to_deposit add_deposit
add_deposits [] quote_blocks s = (s, none)
add_deposits (e ∷ events) [] s = (s, some type_error)
add_deposits (e ∷ events) (quote_block ∷ quote_blocks) s =
    elim (to_deposit s (some quote_block) quote_block e) [
      | err thrown ↦ (s, some thrown)
      | ok deposit ↦ add_deposits events quote_blocks (add_deposit deposit s)
    ]

-- The stored deposit of a hash, if there is one, with the speed-ups that are known by now.
unfoldable pub refresh_deposit : DepositHash → SpokePool → SpokePool
unfolding lookup alter append_max_speed_up_signature_to_deposit
refresh_deposit deposit_hash s = elim (lookup deposit_hash s.deposit_hashes) [
  | none ↦ s
  | some deposit ↦ record s {
    deposit_hashes =
        insert deposit_hash (append_max_speed_up_signature_to_deposit s deposit) s.deposit_hashes;
  }
]

-- The body of the loop over `RequestedSpeedUpV3Deposit`.
unfoldable pub add_speed_up : SpeedUpEvent → SpokePool → SpokePool
unfolding assign_array_at refresh_deposit get_deposit_hash
add_speed_up e s =
    let speed_up = record e.speed_up { origin_chain_id = s.chain_id } in
    refresh_deposit (get_deposit_hash speed_up.deposit_id speed_up.origin_chain_id) (record s {
      speed_ups =
          assign_array_at speed_up.depositor speed_up.deposit_id (speed_up ∷ []) s.speed_ups;
    })

unfoldable pub add_speed_ups : List SpeedUpEvent → SpokePool → SpokePool
unfolding add_speed_up
add_speed_ups [] s = s
add_speed_ups (e ∷ events) s = add_speed_ups events (add_speed_up e s)

-- The first request of a hash is kept.
unfoldable pub add_slow_fill_request :
    (hash : RelayData → ℕ → String) → SlowFillRequestWithBlock → SpokePool → SpokePool
unfolding lookup alter
add_slow_fill_request hash e s =
    let relay_data_hash = hash e.relay_data s.chain_id in
    elim (lookup relay_data_hash s.slow_fill_requests) [
      | some _ ↦ s
      | none ↦ record s {
        slow_fill_requests =
            insert relay_data_hash (record e { destination_chain_id = s.chain_id })
              s.slow_fill_requests;
      }
    ]

unfoldable pub add_slow_fill_requests :
    (hash : RelayData → ℕ → String) → List SlowFillRequestWithBlock → SpokePool → SpokePool
unfolding add_slow_fill_request
add_slow_fill_requests hash [] s = s
add_slow_fill_requests hash (e ∷ events) s =
    add_slow_fill_requests hash events (add_slow_fill_request hash e s)

unfoldable pub add_fill : FillWithBlock → SpokePool → SpokePool
unfolding assign_array get_deposit_hash
add_fill e s =
    let fill : FillWithBlock = record e { destination_chain_id = s.chain_id } in
    record s {
      fills = assign_array fill.origin_chain_id (fill ∷ []) s.fills;
      deposit_hashes_to_fills =
          assign_array (get_deposit_hash fill.deposit_id fill.origin_chain_id) (fill ∷ [])
            s.deposit_hashes_to_fills;
    }

-- The loop over `FilledV3Relay`.
unfoldable pub add_fills : List FillWithBlock → SpokePool → SpokePool
unfolding add_fill
add_fills [] s = s
add_fills (e ∷ events) s = add_fills events (add_fill e s)

-- The loop over `EnabledDepositRoute`.
unfoldable pub add_routes : List EnabledDepositRouteEvent → SpokePool → SpokePool
unfolding assign_flag_at
add_routes [] s = s
add_routes (e ∷ events) s = add_routes events (record s {
  deposit_routes = assign_flag_at e.origin_token e.destination_chain_id e.enabled s.deposit_routes;
})

-- The body of the loop over `ExecutedRelayerRefundRoot`.
unfoldable pub to_refund : RelayerRefundExecutionWithBlock → RelayerRefundExecutionWithBlock
unfolding get_executed_refund_leaf_l2_token
to_refund e = record e {
  l2_token_address = get_executed_refund_leaf_l2_token e.chain_id e.l2_token_address;
}
