-- ===== src/Prelude/Text.antt =====
-- `toLowerCase` on the letters of ASCII, which are all that an address has.
use Prim.Native.String.{String, [], ◌∷◌}
use Prim.Native.Char.{Char, code}
use mathlib.Core.Path.{◌≡◌, refl}
use acrossclone.Prelude.Tests.{nat_beq, if◌then◌else◌}

-- The letter of the second text that stands where `c` stands in the first.
counterpart : Char → String → String → Char
counterpart c (u ∷ us) (l ∷ ls) = if nat_beq (code c) (code u) then l else counterpart c us ls
counterpart c _ _ = c

unfoldable pub to_lower_case : String → String
unfolding counterpart
to_lower_case [] = []
to_lower_case (c ∷ s) =
    counterpart c "ABCDEFGHIJKLMNOPQRSTUVWXYZ" "abcdefghijklmnopqrstuvwxyz" ∷ to_lower_case s

to_lower_case_runs : to_lower_case "0xAbF9z" ≡ "0xabf9z"
unfolding to_lower_case
to_lower_case_runs = refl
