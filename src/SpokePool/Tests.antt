-- ===== src/SpokePool/Tests.antt =====
-- A SpokePool client's first update, and the theorems on the client at it.
use Prim.Native.String.{String, ◌++◌ as append_text}
use acrossclone.Prelude.{
  ℕ, ◌*◌, ◌/◌, ◌≤◌, ◌<◌, ◌≡◌, refl, true, [], ◌∷◌, Option, none, some, ok, arith, string_eq, nat_eq,
  ◌↔◌, ◌⊎◌, length, not, false, Memᴰ,
}
use acrossclone.Prelude.Int.{ℤ, pos, leb_ℤ}
use acrossclone.Prelude.Search.{filter, find_last?}
use acrossclone.Prelude.Dict.{lookup}
use acrossclone.Events.{SortableEvent}
use acrossclone.Events.Pages.{within}
use acrossclone.Objects.{empty_object, is_truthy}
use acrossclone.SpokePool.{
  SpokePool, RelayData, Deposit, DepositWithBlock, FillWithBlock, SpeedUp, fast_fill,
  deposit_hash_eq, fill_sortable, slow_fill_sortable, relay_sortable, refund_sortable,
  bridged_sortable,
}
use acrossclone.SpokePool.Queries.{
  get_deposit, get_deposit_for_fill, get_fills, is_valid_fill, with_speed_up,
  append_max_speed_up_signature_to_deposit, get_valid_unfilled_amount_for_deposit,
}
use acrossclone.SpokePool.Loops.{
  V3FundsDepositedEvent, SpeedUpEvent, EnabledDepositRouteEvent, funds_deposited_sortable,
  speed_up_sortable, deposit_route_sortable, add_routes,
}
use acrossclone.SpokePool.Find.{DepositCalls}
use acrossclone.SpokePool.Update.{SpokePoolNode, known_event_names, update, new_spoke_pool_client}
use acrossclone.SpokePool.Extends.{IsIndexed, SameDeposit}
use acrossclone.SpokePool.Keeps.{
  update-IsIndexed, update-keeps_deposit, new_spoke_pool_client-IsIndexed,
}
use acrossclone.SpokePool.Matching.{
  IsFillOf, get_deposit_for_fill_iff, fills_of, get_valid_unfilled_amount_for_deposit-eq,
}
use acrossclone.SpokePool.SpeedUps.{
  IsLowest, speed_ups_for, append_max_speed_up_signature_to_deposit-IsLowest,
}
use acrossclone.SpokePool.Routes.{route_at, is_for, enabled_by, add_routes-last}
use acrossclone.DepositUtils.{found, query_historical_deposit_for_fill}
use acrossclone.DepositUtils.Historical.{
  IsKnown, query_historical_deposit_for_fill-fits, query_historical_deposit_for_fill_iff,
}

abbrev hash : RelayData → ℕ → String
hash r chain = append_text r.depositor (append_text r.recipient r.message)

abbrev event_at : (block log : ℕ) → SortableEvent
event_at block log = record {
  place = record { block_number = block; transaction_index = 0; log_index = log };
  transaction_hash = "0xab";
}

abbrev relay_of : (origin id : ℕ) → (output : ℤ) → (message : String) → RelayData
relay_of origin id output message = record {
  origin_chain_id = origin;
  depositor = "0xa";
  recipient = "0xb";
  deposit_id = id;
  input_token = "0xdai";
  input_amount = pos 110;
  output_token = "0xdai10";
  output_amount = output;
  message = message;
  fill_deadline = 500;
  exclusive_relayer = "0x0";
  exclusivity_deadline = 0;
}

abbrev deposit_at : (block id : ℕ) → (output : ℤ) → (message : String) → V3FundsDepositedEvent
deposit_at block id output message = record {
  event = event_at block 0;
  relay_data = relay_of 0 id output message;
  destination_chain_id = 1;
  quote_timestamp = 200;
}

abbrev speed_up_at : (block id : ℕ) → (output : ℤ) → SpeedUpEvent
speed_up_at block id output = record {
  event = event_at block 1;
  speed_up = record {
    depositor = "0xa";
    depositor_signature = "0x51";
    deposit_id = id;
    origin_chain_id = 0;
    updated_recipient = "0xc";
    updated_output_amount = output;
    updated_message = "0x";
  };
}

abbrev fill_at : (block origin id : ℕ) → (message : String) → FillWithBlock
fill_at block origin id message = record {
  event = event_at block 2;
  relay_data = relay_of origin id (pos 100) message;
  destination_chain_id = 0;
  relayer = "0xd";
  repayment_chain_id = 1;
  relay_execution_info = record {
    updated_recipient = "0xb";
    updated_output_amount = pos 100;
    updated_message = message;
    fill_type = fast_fill;
  };
}

abbrev route_event : (block : ℕ) → EnabledDepositRouteEvent
route_event block = record {
  event = event_at block 3;
  origin_token = "0xdai";
  destination_chain_id = 1;
  enabled = true;
}

-- The second deposit with id 3 comes too late; both speed-ups of deposit 3 lower its output.
abbrev node : SpokePoolNode
node = record {
  block_number = 60;
  number_of_deposits = λ block. ok (block / 7);
  get_current_time = λ block. ok (block * 12);
  routes = λ _ from to. ok (filter (within from to) (route_event 10 ∷ route_event 12 ∷ []));
  bridged = λ _ from to. ok [];
  relays = λ _ from to. ok [];
  refunds = λ _ from to. ok [];
  deposits = λ _ from to. ok (
      filter (within from to) (
        deposit_at 20 3 (pos 100) "0x"
        ∷ deposit_at 21 3 (pos 40) "0x"
        ∷ deposit_at 30 5 (pos 70) "0x01"
        ∷ []));
  speed_ups = λ _ from to. ok (
      filter (within from to)
        (speed_up_at 25 3 (pos 90) ∷ speed_up_at 26 3 (pos 95) ∷ speed_up_at 35 5 (pos 80) ∷ []));
  slow_fills = λ _ from to. ok [];
  fills =
      λ _ from to. ok (filter (within from to) (fill_at 40 1 7 "0x" ∷ fill_at 41 1 7 "0x99" ∷ []));
}

abbrev fresh : SpokePool
unfolding new_spoke_pool_client
fresh = new_spoke_pool_client none 10 5 15 none none

abbrev updated : SpokePool
unfolding update fresh filter lookup
updated = (update hash node known_event_names fresh).0

abbrev amount_of : Option DepositWithBlock → Option ℤ
amount_of none = none
amount_of (some d) = d.updated_output_amount

updated_deposits :
    (amount_of (get_deposit updated 3) ≡ some (pos 90))
    × (amount_of (get_deposit updated 5) ≡ none)
    × (updated.earliest_deposit_id_queried ≡ 3)
    × (updated.latest_deposit_id_queried ≡ 5)
    × (length (get_fills updated) ≡ 2)
unfolding updated get_deposit get_fills
updated_deposits = (refl, refl, refl, refl, refl)

-- Enabling a route twice leaves an empty object, which is not the Boolean of the type.
updated_route : route_at "0xdai" 1 updated.deposit_routes ≡ some empty_object
unfolding updated lookup
updated_route = refl

fresh-IsIndexed : IsIndexed fresh
unfolding fresh
fresh-IsIndexed = new_spoke_pool_client-IsIndexed none 10 5 15 none none

update-IsIndexed_example : IsIndexed (update hash node known_event_names fresh).0
update-IsIndexed_example = update-IsIndexed hash node known_event_names fresh fresh-IsIndexed

updated-IsIndexed : IsIndexed updated
unfolding updated
updated-IsIndexed = update-IsIndexed hash node known_event_names fresh fresh-IsIndexed

-- Deposit 3 as the client stores it.
abbrev stored : DepositWithBlock
stored = record {
  event = event_at 20 0;
  deposit = record {
    relay_data = relay_of 10 3 (pos 100) "0x";
    destination_chain_id = 1;
    quote_timestamp = 200;
    updated = record {
      speed_up_signature = some "0x51";
      updated_recipient = some "0xc";
      updated_output_amount = some (pos 90);
      updated_message = some "0x";
    };
    from_lite_chain = false;
    to_lite_chain = false;
  };
  quote_block_number = 0x1f_ffff_ffff_ffff;
}

stored_known : get_deposit updated 3 ≡ some stored
unfolding updated get_deposit
stored_known = refl

-- The node some blocks later, with a lower speed-up of deposit 3.
abbrev later_node : SpokePoolNode
later_node = record node {
  block_number = 90;
  speed_ups = λ _ from to. ok (filter (within from to) (speed_up_at 80 3 (pos 60) ∷ []));
}

update-keeps_deposit_example :
    (e : DepositWithBlock) × (get_deposit (update hash later_node known_event_names updated).0 3
      ≡ some e)
    × SameDeposit e stored
update-keeps_deposit_example =
    update-keeps_deposit hash later_node known_event_names updated 3 stored stored_known

abbrev fill : FillWithBlock
fill = record (fill_at 50 10 3 "0x") { destination_chain_id = 1 }

get_deposit_for_fill_iff_example : (get_deposit_for_fill hash updated fill ≡ some stored) ↔ (
    (fill.origin_chain_id ≡ updated.chain_id)
    × (get_deposit updated fill.deposit_id ≡ some stored)
    × IsFillOf hash fill stored)
get_deposit_for_fill_iff_example =
    get_deposit_for_fill_iff hash updated fill stored updated-IsIndexed

-- A deposit on chain 1 with id 7, of which the client has one valid fill and one other.
abbrev incoming : Deposit
incoming = record stored.deposit {
  relay_data = relay_of 1 7 (pos 100) "0x";
  destination_chain_id = 10;
}

get_valid_unfilled_amount_for_deposit-eq_example :
    let r = get_valid_unfilled_amount_for_deposit hash updated incoming in
    (r.fill_count ≡ length (filter (is_valid_fill hash incoming) (fills_of updated incoming)))
    × (r.invalid_fills
        ≡ filter (λ f. not (is_valid_fill hash incoming f)) (fills_of updated incoming))
    × (r.fill_count ≡ 0 → r.unfilled_amount ≡ incoming.output_amount)
    × (0 < r.fill_count → r.unfilled_amount ≡ pos 0)
get_valid_unfilled_amount_for_deposit-eq_example =
    get_valid_unfilled_amount_for_deposit-eq hash updated incoming

one_valid :
    let r = get_valid_unfilled_amount_for_deposit hash updated incoming in
    (r.fill_count ≡ 1) × (length r.invalid_fills ≡ 1)
unfolding updated get_valid_unfilled_amount_for_deposit
one_valid = (refl, refl)

append_max_speed_up_signature_to_deposit-IsLowest_example :
    ((append_max_speed_up_signature_to_deposit updated stored ≡ stored)
      × ((v : SpeedUp)
          → Memᴰ v (speed_ups_for updated stored)
          → leb_ℤ stored.output_amount v.updated_output_amount ≡ true))
    ⊎ ((u : SpeedUp) × IsLowest (speed_ups_for updated stored) stored u
        × (append_max_speed_up_signature_to_deposit updated stored ≡ with_speed_up u stored))
append_max_speed_up_signature_to_deposit-IsLowest_example =
    append_max_speed_up_signature_to_deposit-IsLowest updated stored

add_routes-last_example :
    is_truthy (route_at "0xdai" 1 (add_routes (route_event 70 ∷ []) updated).deposit_routes)
    ≡ enabled_by
        (find_last? (is_for "0xdai" 1) (route_event 70 ∷ []))
        (is_truthy (route_at "0xdai" 1 updated.deposit_routes))
add_routes-last_example = add_routes-last (route_event 70 ∷ []) updated "0xdai" 1

abbrev calls : DepositCalls
calls = record {
  deposit_id_at_block = λ block. ok 0;
  deposit_events = λ destination id depositor attempt from to. ok [];
}

query_runs : query_historical_deposit_for_fill hash calls none updated fill ≡ ok (found stored)
unfolding updated query_historical_deposit_for_fill
query_runs = refl

query_historical_deposit_for_fill-fits_example : IsFillOf hash fill stored
query_historical_deposit_for_fill-fits_example =
    query_historical_deposit_for_fill-fits hash updated fill calls none stored query_runs

fill-IsKnown : IsKnown updated fill
unfolding updated
fill-IsKnown = record {
  updated = refl;
  origin = refl;
  from_first = omega arith;
  to_last = omega arith;
}

fill_queried : (updated.earliest_deposit_id_queried ≤ 3) × (3 ≤ updated.latest_deposit_id_queried)
unfolding updated
fill_queried = omega arith

query_historical_deposit_for_fill_iff_example :
    (query_historical_deposit_for_fill hash calls none updated fill ≡ ok (found stored))
    ↔ (get_deposit_for_fill hash updated fill ≡ some stored)
query_historical_deposit_for_fill_iff_example =
    query_historical_deposit_for_fill_iff hash updated fill calls none stored updated-IsIndexed
      fill-IsKnown fill_queried
