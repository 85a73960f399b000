-- ===== src/Arrays/Tests.antt =====
-- Runs of the searches from the right, and their theorem at a concrete array.
use acrossclone.Prelude.{ℕ, ◌≡◌, refl, false, List, [], ◌∷◌, some, none, All, leb}
use acrossclone.Arrays.{find_last_index, IsLastIndex}
use acrossclone.Arrays.Laws.{find_last_index-IsLastIndex}

abbrev sizes : List ℕ
sizes = 3 ∷ 8 ∷ 2 ∷ 9 ∷ []

find_last_index_runs : find_last_index (λ n. leb n 3) sizes ≡ some 2
unfolding find_last_index
find_last_index_runs = refl

find_last_index-IsLastIndex_example :
    ((i : ℕ) → find_last_index (λ n. leb n 3) sizes ≡ some i → IsLastIndex (λ n. leb n 3) sizes i)
    × (find_last_index (λ n. leb n 3) sizes ≡ none → All (λ n. leb n 3 ≡ false) sizes)
find_last_index-IsLastIndex_example = find_last_index-IsLastIndex (λ n. leb n 3) sizes
