-- ===== src/Json.antt =====
-- What the config store client reads of texts: utils/NumberUtils.ts, isArrayOf of
-- utils/ArrayUtils.ts, toBN of utils/BigNumberUtils.ts and the regular expressions of
-- clients/AcrossConfigStoreClient/AcrossConfigStoreClient.ts. `JSON.parse`, `Number` and ethers'
-- `BigNumber.from` are an interface.
use Prim.Native.String.{String, [], ◌∷◌}
use Prim.Native.Char.{Char, code}
use acrossclone.Prelude.{
  ℕ, suc, ◌≡◌, refl, Bool, true, false, ◌&&◌, ◌||◌, Option, none, some, leb, ◌==◌, nat_eq,
  if◌then◌else◌,
}
use acrossclone.Prelude.Int.{ℤ, pos, ◌+ℤ◌}
use mathlib.Core.List.{List, [] as nil, ◌∷◌ as cons}

-- A JavaScript number: NaN, an integer, or one that is no integer, told by its text.
pub data Numeral : Type 0 where
  not_a_number : Numeral
  integer : ℤ → Numeral
  fraction : String → Numeral

-- What `JSON.parse` returns, as far as an array of numbers is concerned. An element that is no
-- number is `not_a_number`.
pub data Json : Type 0 where
  array : List Numeral → Json
  other_json : Json

-- `JSON.parse` (`none` where it throws), `Number` of a text, and `BigNumber.from` of a text (`none`
-- where it throws).
pub record Engine : Type 0 where
  pub json_parse : String → Option Json
  pub number : String → Numeral
  pub big_number : String → Option ℤ

-- `isNaN`
unfoldable pub is_nan : Numeral → Bool
is_nan not_a_number = true
is_nan (integer n) = false
is_nan (fraction text) = false

unfoldable pub is_integer : Numeral → Bool
is_integer not_a_number = false
is_integer (integer n) = true
is_integer (fraction text) = false

-- `isPositiveInteger`, with the number that it finds.
unfoldable pub positive_integer : Numeral → Option ℕ
positive_integer (integer (pos (suc n))) = some (suc n)
positive_integer _ = none

abbrev cons_some : Option ℕ → Option (List ℕ) → Option (List ℕ)
cons_some (some n) (some ns) = some (cons n ns)
cons_some _ _ = none

abbrev all_positive : List Numeral → Option (List ℕ)
unfolding positive_integer
all_positive nil = some nil
all_positive (cons x xs) = cons_some (positive_integer x) (all_positive xs)

-- `isArrayOf<number>(value, isPositiveInteger)`, with the array that it finds.
unfoldable pub positive_integers : Json → Option (List ℕ)
unfolding positive_integer
positive_integers (array xs) = all_positive xs
positive_integers other_json = none

-- `\s`
unfoldable pub is_space : Char → Bool
is_space c =
    let n = code c in
    leb 9 n && leb n 13
    || n == 32
    || n == 160
    || n == 0x1680
    || leb 0x2000 n && leb n 0x200a
    || n == 0x2028
    || n == 0x2029
    || n == 0x202f
    || n == 0x205f
    || n == 0x3000
    || n == 0xfeff

-- `["']`
unfoldable pub is_quote : Char → Bool
is_quote c = code c == 34 || code c == 39

unfoldable pub is_digit : Char → Bool
is_digit c = leb 48 (code c) && leb (code c) 57

-- `text.replace(/['"\s]/g, "")`
unfoldable pub remove_quotes_and_spaces : String → String
unfolding is_quote is_space
remove_quotes_and_spaces [] = []
remove_quotes_and_spaces (c ∷ text) =
    let rest = remove_quotes_and_spaces text in if is_quote c || is_space c then rest else c ∷ rest

-- How far `/^\s*["']?\[(\d+(,\d+)*)?\]["']?\s*$/` has matched a text.
pub data ArrayText : Type 0 where
  at_spaces at_bracket at_first at_digits at_comma at_quote at_end : ArrayText

-- The next character; no two ways to go on share a character.
unfoldable pub match_char : ArrayText → Char → Option ArrayText
unfolding is_space is_quote is_digit
match_char at_spaces c =
    if is_space c
    then some at_spaces
    else if is_quote c
    then some at_bracket
    else if code c == 91
    then some at_first
    else none
match_char at_bracket c = if code c == 91 then some at_first else none
match_char at_first c =
    if is_digit c then some at_digits else if code c == 93 then some at_quote else none
match_char at_digits c =
    if is_digit c
    then some at_digits
    else if code c == 44
    then some at_comma
    else if code c == 93
    then some at_quote
    else none
match_char at_comma c = if is_digit c then some at_digits else none
match_char at_quote c = if is_quote c then some at_end else if is_space c then some at_end else none
match_char at_end c = if is_space c then some at_end else none

unfoldable pub match_array_text : ArrayText → String → Bool
unfolding match_char
match_array_text at_quote [] = true
match_array_text at_end [] = true
match_array_text _ [] = false
match_array_text state (c ∷ text) = elim (match_char state c) [
  | none ↦ false
  | some next ↦ match_array_text next text
]

-- `/^\s*["']?\[(\d+(,\d+)*)?\]["']?\s*$/.test(text)`
unfoldable pub is_array_text : String → Bool
unfolding match_array_text
is_array_text = match_array_text at_spaces

pub data Rounding : Type 0 where
  floor round ceil : Rounding

-- The parts of a text before its first point and between that and the next.
abbrev until_point : String → String
until_point [] = []
until_point (c ∷ text) = let rest = until_point text in if code c == 46 then [] else c ∷ rest

abbrev after_point : String → Option String
after_point [] = none
after_point (c ∷ text) = let rest = after_point text in if code c == 46 then some text else rest

-- `parseInt(decimal[0]) >= 5`; no text follows a point that ends the number.
abbrev is_at_least_5 : String → Bool
is_at_least_5 [] = false
is_at_least_5 (c ∷ text) = leb 53 (code c) && leb (code c) 57

abbrev rounds_up : Rounding → String → Bool
rounds_up floor decimal = false
rounds_up round decimal = is_at_least_5 decimal
rounds_up ceil [] = false
rounds_up ceil (c ∷ text) = true

-- `toBN` of a text; `none` where `BigNumber.from` throws.
unfoldable pub to_bn : Engine → Rounding → String → Option ℤ
to_bn engine rounding num = elim (after_point num) [
  | none ↦ engine.big_number num
  | some rest ↦ elim (engine.big_number (until_point num)) [
    | none ↦ none
    | some n ↦ some (n +ℤ pos (if rounds_up rounding (until_point rest) then 1 else 0))
  ]
]

is_array_text_runs : is_array_text " \"[1,10,137]\"" ≡ true
unfolding is_array_text
is_array_text_runs = refl

is_array_text_rejects : is_array_text "[1, 10]" ≡ false
unfolding is_array_text
is_array_text_rejects = refl

remove_quotes_and_spaces_runs : remove_quotes_and_spaces "\"[1, 10]\" " ≡ "[1,10]"
unfolding remove_quotes_and_spaces
remove_quotes_and_spaces_runs = refl
