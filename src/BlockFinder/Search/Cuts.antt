-- ===== src/BlockFinder/Search/Cuts.antt =====
-- The arrays that getBlockForTimestamp of utils/BlockUtils.ts cuts at an index.
use acrossclone.Prelude.{
  ℕ, zero, suc, ◌≤◌, ◌<◌, ◌≡◌, sym, subst, false, List, [], ◌∷◌, Memᴰ, none, some, inl, inr, nat_eq,
  Option-cases, arith, All, get_elem?, get_last?, take, drop,
}
use acrossclone.Prelude.Search.{All-mem, mem-get_elem?}
use mathlib.Core.List.Memᴰ
use acrossclone.BlockFinder.{Block}
use acrossclone.BlockFinder.Search.{is_too_early, get_before}
use acrossclone.BlockFinder.Search.Cache.{IsIncreasing, IsOrderedBy}
use acrossclone.BlockFinder.Search.Back.{Covers}

-- Where an array is cut before and from an index.
pub get_before-All :
    (P : Block → Type 0) (bs : List Block) (i : ℕ) {b : Block}
    → All P (take i bs)
    → get_before bs i ≡ some b
    → P b
get_before-All P bs zero h e = cc
get_before-All P [] (suc i) h e = cc
get_before-All P (c ∷ bs) (suc zero) h e = subst P (ground arith) h.0
get_before-All P (c ∷ bs) (suc (suc i)) h e = get_before-All P bs (suc i) h.1 e

pub get_elem?-All :
    (P : Block → Type 0) (bs : List Block) (i : ℕ) {b : Block}
    → All P (drop i bs)
    → get_elem? bs i ≡ some b
    → P b
get_elem?-All P [] i h e = cc
get_elem?-All P (c ∷ bs) zero h e = subst P (ground arith) h.0
get_elem?-All P (c ∷ bs) (suc i) h e = get_elem?-All P bs i h e

pub get_before-lt :
    (bs : List Block) (i : ℕ) {b c : Block}
    → IsIncreasing bs
    → get_before bs i ≡ some b
    → get_elem? bs i ≡ some c
    → b.number < c.number
get_before-lt bs zero inc e h = cc
get_before-lt [] (suc i) inc e h = cc
get_before-lt (a ∷ bs) (suc zero) {b} {c} inc e h =
    let same : a ≡ b = ground arith in
    rw (sym same) (All-mem (λ d. a.number < d.number) bs inc.0 (mem-get_elem? bs 0 h))
get_before-lt (a ∷ bs) (suc (suc i)) inc e h = get_before-lt bs (suc i) inc.1 e h

-- There is a block at an index before which all blocks are too early.
pub get_elem?-exists :
    (timestamp : ℕ) (bs : List Block) (i : ℕ) {b : Block}
    → All (λ c. c.timestamp < timestamp) (take i bs)
    → Memᴰ b bs
    → timestamp ≤ b.timestamp
    → get_elem? bs i ≡ none
    → ⊥
get_elem?-exists timestamp [] i h m late e = Memᴰ.not-nil m
get_elem?-exists timestamp (c ∷ bs) zero h m late e = cc
get_elem?-exists timestamp (c ∷ bs) (suc i) {b} h (Memᴰ.head same) late e =
    let early : b.timestamp < timestamp = rw same h.0 in omega arith
get_elem?-exists timestamp (c ∷ bs) (suc i) h (Memᴰ.tail m) late e =
    get_elem?-exists timestamp bs i h.1 m late e

pub get_before-exists :
    (bs : List Block) (i : ℕ) {c : Block}
    → get_elem? bs (suc i) ≡ some c
    → get_before bs (suc i) ≡ none
    → ⊥
get_before-exists [] i h e = cc
get_before-exists (a ∷ bs) zero h e = cc
get_before-exists (a ∷ bs) (suc i) h e = get_before-exists bs i h e

pub get_elem?-0-le :
    (bs : List Block) {b c : Block}
    → IsOrderedBy (λ d. d.timestamp) bs
    → get_elem? bs 0 ≡ some b
    → Memᴰ c bs
    → b.timestamp ≤ c.timestamp
get_elem?-0-le [] h e m = cc
get_elem?-0-le (a ∷ bs) {b} {c} h e (Memᴰ.head same) =
    let here : a ≡ b = ground arith in rw (same, sym here) (omega arith)
get_elem?-0-le (a ∷ bs) {b} {c} h e (Memᴰ.tail m) =
    let here : a ≡ b = ground arith in
    rw (sym here) (All-mem (λ d. a.timestamp ≤ d.timestamp) bs h.0 m)

pub get_last?-Covers :
    (timestamp : ℕ) (bs : List Block) {b : Block}
    → get_last? bs ≡ some b
    → timestamp ≤ b.timestamp
    → Covers timestamp bs
get_last?-Covers timestamp [] e h = cc
get_last?-Covers timestamp (a ∷ []) {b} e h =
    let here : a ≡ b = ground arith in (b, Memᴰ.head (sym here), h)
get_last?-Covers timestamp (a ∷ c ∷ bs) e h =
    let rest = get_last?-Covers timestamp (c ∷ bs) e h in (rest.0, Memᴰ.tail rest.1, rest.2)

pub is_too_early-Covers :
    (timestamp : ℕ) (bs : List Block) → is_too_early timestamp bs ≡ false → Covers timestamp bs
is_too_early-Covers timestamp bs e = elim (Option-cases (get_last? bs)) [
  | inl missing ↦ absurd (ground arith)
  | inr (b, last) ↦ get_last?-Covers timestamp bs last (ground arith)
]
