-- ===== src/RateDictionary.antt =====
-- RateModelDictionary of lpFeeCalculator/rateModel.ts. ethers' `getAddress` and what `JSON.parse`
-- makes of a text are parameters.
pub mod Entries
pub mod Newest
mod Tests
use Prim.Native.String.{String}
use acrossclone.Prelude.{
  ℕ, zero, suc, Bool, true, false, ◌&&◌, List, [], ◌∷◌, ◌++◌, map, reverse, Option, none, some,
  get_or, ltb, leb, string_eq, if◌then◌else◌, Result, ok, err, ◌>>=◌, get_last?,
}
use acrossclone.Prelude.Dict.{Dict, keys, lookup}
use acrossclone.Prelude.Search.{find?, includes, every}
use acrossclone.Objects.{array_of, assign_array}
use acrossclone.Events.{EventPlace, Sortable, sort_events_ascending}

pub data RateError : Type 0 where
  not_initialized bad_address no_events before_first_event no_events_before : RateError
  not_an_object missing_key unexpected_key : RateError

pub record RateModelEvent : Type 0 where
  pub place : EventPlace
  pub open place use *
  pub rate_model : String
  pub l1_token : String

instance abbrev pub rate_event_sortable : Sortable RateModelEvent
rate_event_sortable = record { place = λ e. e.place }

pub record RateEntry : Type 0 where
  pub block_number : ℕ
  pub rate_model : String

abbrev pub RateModelEventsDictionary : Type 0
RateModelEventsDictionary = Dict String (List RateEntry)

-- `getAddress` (`none` where it throws), and the object that `JSON.parse` makes of a text, whose
-- values are of a type `V` (`none` where it throws, or makes null).
pub record Parsers (V : Type 0) : Type 0 where
  pub get_address : String → Option String
  pub json_object : String → Option (Dict String V)

pub record ParsedRateModel (V : Type 0) : Type 0 where
  pub u_bar : V
  pub r0 : V
  pub r1 : V
  pub r2 : V

abbrev pub or_throw {ℓ} : {A : Type ℓ} → RateError → Option A → Result RateError A
or_throw thrown none = err thrown
or_throw thrown (some a) = ok a

abbrev pub check : Bool → RateError → Result RateError (Unit {0})
check passed thrown = if passed then ok tt else err thrown

abbrev pub expected_rate_model_keys : List String
expected_rate_model_keys = "UBar" ∷ "R0" ∷ "R1" ∷ "R2" ∷ []

abbrev pub entry_of : RateModelEvent → RateEntry
entry_of e = record { block_number = e.block_number; rate_model = e.rate_model }

-- `this.rateModelDictionary[token].slice(-1)[0]`, or the last entry up to a block
unfoldable pub entry_in : List RateEntry → Option ℕ → Result RateError RateEntry
unfolding find?
entry_in [] block = err no_events
entry_in (first ∷ entries) none = or_throw no_events (get_last? (first ∷ entries))
entry_in (first ∷ entries) (some zero) = or_throw no_events (get_last? (first ∷ entries))
entry_in (first ∷ entries) (some (suc n)) =
    if ltb (suc n) first.block_number
    then err before_first_event
    else or_throw no_events_before
        (find? (λ entry. leb entry.block_number (suc n)) (reverse (first ∷ entries)))

-- `_throwIfNotInitialized`
unfoldable pub throw_if_not_initialized : RateModelEventsDictionary → Result RateError (Unit {0})
throw_if_not_initialized [] = err not_initialized
throw_if_not_initialized (entry ∷ d) = ok tt

-- The callback of `map` in `getL1TokensFromRateModel`.
unfoldable pub has_rate_model : Option ℕ → List RateEntry → Bool
has_rate_model none entries = true
has_rate_model (some zero) entries = true
has_rate_model (some (suc n)) entries =
    elim (find? (λ entry. leb entry.block_number (suc n)) entries) [
      | none ↦ false
      | some entry ↦ true
    ]

module _ {V : Type 0} (p : Parsers V) where
  -- The loop of `createRateModelEventDictionary`.
  unfoldable pub add_events :
      List RateModelEvent → RateModelEventsDictionary → Result RateError RateModelEventsDictionary
  unfolding assign_array
  add_events [] d = ok d
  add_events (e ∷ events) d = or_throw bad_address (p.get_address e.l1_token) >>= λ token.
      add_events events (assign_array token (entry_of e ∷ []) d)

  -- `createRateModelEventDictionary`: its comparator is that of `sortEventsAscending`.
  unfoldable pub create_rate_model_event_dictionary :
      List RateModelEvent → Result RateError RateModelEventsDictionary
  unfolding add_events sort_events_ascending
  create_rate_model_event_dictionary events = add_events (sort_events_ascending events) []

  -- `parseAndReturnRateModelFromString`
  unfoldable pub parse_and_return_rate_model_from_string :
      String → Result RateError (ParsedRateModel V)
  unfolding every includes lookup
  parse_and_return_rate_model_from_string text = do
    parsed ← or_throw not_an_object (p.json_object text)
    present ← check (every (includes (keys parsed)) expected_rate_model_keys) missing_key
    known ← check (every (includes expected_rate_model_keys) (keys parsed)) unexpected_key
    u_bar ← or_throw missing_key (lookup "UBar" parsed)
    r0 ← or_throw missing_key (lookup "R0" parsed)
    r1 ← or_throw missing_key (lookup "R1" parsed)
    r2 ← or_throw missing_key (lookup "R2" parsed)
    ok (record { u_bar = u_bar; r0 = r0; r1 = r1; r2 = r2 })

  -- The entry that `getRateModelForBlockNumber` parses.
  unfoldable pub get_rate_entry :
      RateModelEventsDictionary → String → Option ℕ → Result RateError RateEntry
  get_rate_entry d l1_token block = do
    initialized ← throw_if_not_initialized d
    token ← or_throw bad_address (p.get_address l1_token)
    entry_in (array_of token d) block

  -- `getRateModelForBlockNumber`
  unfoldable pub get_rate_model_at_block :
      RateModelEventsDictionary → String → Option ℕ → Result RateError (ParsedRateModel V)
  get_rate_model_at_block d l1_token block = do
    entry ← get_rate_entry d l1_token block
    parse_and_return_rate_model_from_string entry.rate_model

  unfoldable pub l1_tokens_of :
      RateModelEventsDictionary → Option ℕ → List String → Result RateError (List String)
  unfolding has_rate_model
  l1_tokens_of d block [] = ok []
  l1_tokens_of d block (key ∷ rest) = do
    token ← or_throw bad_address (p.get_address key)
    tokens ← l1_tokens_of d block rest
    ok (if has_rate_model block (array_of token d) then token ∷ tokens else tokens)

  -- `getL1TokensFromRateModel`; an address that is a key has itself as its address.
  unfoldable pub get_l1_tokens_from_rate_model :
      RateModelEventsDictionary → Option ℕ → Result RateError (List String)
  unfolding l1_tokens_of
  get_l1_tokens_from_rate_model d block = do
    initialized ← throw_if_not_initialized d
    l1_tokens_of d block (keys d)
