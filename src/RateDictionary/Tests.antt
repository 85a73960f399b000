-- ===== src/RateDictionary/Tests.antt =====
-- Runs of the rate model dictionary.
use Prim.Native.String.{String}
use acrossclone.Prelude.{ℕ, ◌≡◌, ◌⊎◌, refl, false, List, [], ◌∷◌, Memᴰ, some, ok, err}
use acrossclone.Prelude.Dict.{lookup}
use acrossclone.Prelude.Search.{find?}
use acrossclone.Events.Order.{IsNewest}
use acrossclone.RateDictionary.{
  RateError, unexpected_key, RateModelEvent, rate_event_sortable, RateModelEventsDictionary,
  Parsers, entry_of, create_rate_model_event_dictionary, get_rate_entry, get_rate_model_at_block,
  entry_in, throw_if_not_initialized, parse_and_return_rate_model_from_string,
  get_l1_tokens_from_rate_model,
}
use acrossclone.RateDictionary.Newest.{is_candidate, get_rate_model_at_block-IsNewest}

-- Every text is an address; every text parses to an object with a key too many.
abbrev parsers : Parsers String
parsers = record {
  get_address = λ s. some s;
  json_object = λ s. some (("UBar", s) ∷ ("R0", s) ∷ ("R1", s) ∷ ("R2", s) ∷ ("R3", s) ∷ []);
}

abbrev event : ℕ → String → String → RateModelEvent
event block text token = record {
  place = record { block_number = block; transaction_index = 0; log_index = 0 };
  rate_model = text;
  l1_token = token;
}

abbrev events : List RateModelEvent
events = event 30 "c" "weth" ∷ event 10 "a" "weth" ∷ event 15 "x" "usdc" ∷ event 20 "b" "weth" ∷ []

abbrev dictionary : RateModelEventsDictionary
dictionary =
    (
      "weth",
      entry_of (event 10 "a" "weth")
          ∷ entry_of (event 20 "b" "weth")
          ∷ entry_of (event 30 "c" "weth")
          ∷ [],
    )
    ∷ ("usdc", entry_of (event 15 "x" "usdc") ∷ [])
    ∷ []

create_rate_model_event_dictionary_runs :
    create_rate_model_event_dictionary parsers events ≡ ok dictionary
unfolding create_rate_model_event_dictionary
create_rate_model_event_dictionary_runs = refl

get_rate_entry_runs :
    get_rate_entry parsers dictionary "weth" (some 25) ≡ ok (entry_of (event 20 "b" "weth"))
unfolding get_rate_entry throw_if_not_initialized lookup entry_in
get_rate_entry_runs = refl

get_l1_tokens_from_rate_model_runs :
    get_l1_tokens_from_rate_model parsers dictionary (some 12) ≡ ok ("weth" ∷ [])
unfolding get_l1_tokens_from_rate_model throw_if_not_initialized lookup find?
get_l1_tokens_from_rate_model_runs = refl

parse_and_return_rate_model_from_string_runs :
    parse_and_return_rate_model_from_string parsers "1" ≡ err unexpected_key
unfolding parse_and_return_rate_model_from_string
parse_and_return_rate_model_from_string_runs = refl

-- Every text parses to a rate model of that text.
abbrev plain_parsers : Parsers String
plain_parsers = record {
  get_address = λ s. some s;
  json_object = λ s. some (("UBar", s) ∷ ("R0", s) ∷ ("R1", s) ∷ ("R2", s) ∷ []);
}

plain_dictionary_runs : create_rate_model_event_dictionary plain_parsers events ≡ ok dictionary
unfolding create_rate_model_event_dictionary
plain_dictionary_runs = refl

get_rate_model_at_block_runs :
    get_rate_model_at_block plain_parsers dictionary "weth" (some 25)
    ≡ ok (record { u_bar = "b"; r0 = "b"; r1 = "b"; r2 = "b" })
unfolding get_rate_model_at_block get_rate_entry parse_and_return_rate_model_from_string
    throw_if_not_initialized lookup entry_in
get_rate_model_at_block_runs = refl

get_rate_model_at_block-IsNewest_example :
    ((e : RateModelEvent) × (get_rate_model_at_block plain_parsers dictionary "weth" (some 25)
        ≡ parse_and_return_rate_model_from_string plain_parsers e.rate_model)
      × IsNewest (is_candidate plain_parsers "weth" 25) events e)
    ⊎ ((thrown : RateError) × (get_rate_model_at_block plain_parsers dictionary "weth" (some 25)
          ≡ err thrown)
        × ((e : RateModelEvent) → Memᴰ e events → is_candidate plain_parsers "weth" 25 e ≡ false))
get_rate_model_at_block-IsNewest_example =
    get_rate_model_at_block-IsNewest plain_parsers events dictionary "weth" "weth" 24
      plain_dictionary_runs refl
