-- ===== src/BlockFinder/Search/Cache.antt =====
-- The finder's cache: blocks of the chain, in the order of their numbers.
use acrossclone.Prelude.{
  ℕ, zero, suc, ◌≤◌, ◌<◌, ◌≡◌, ◌≢◌, refl, List, [], ◌∷◌, Memᴰ, some, nat_eq, arith, All, get_elem?,
  take, drop,
}
use acrossclone.Prelude.Int.{pos, ◌-ℤ◌}
use acrossclone.Prelude.Search.{All-map}
use acrossclone.BlockFinder.{Block, Lodash, World, splice_in}
use mathlib.Core.List.Memᴰ

-- A block of the chain whose blocks up to `head` have the timestamps `ts`.
abbrev pub IsGenuine : (ℕ → ℕ) → ℕ → Block → Type 0
IsGenuine ts head b = (b.timestamp ≡ ts b.number) × (b.number ≤ head)

abbrev pub IsOrderedBy : (Block → ℕ) → List Block → Type 0
IsOrderedBy key [] = Unit
IsOrderedBy key (b ∷ bs) = All (λ c. key b ≤ key c) bs × IsOrderedBy key bs

abbrev pub IsIncreasing : List Block → Type 0
IsIncreasing [] = Unit
IsIncreasing (b ∷ bs) = All (λ c. b.number < c.number) bs × IsIncreasing bs

pub record IsCache (ts : ℕ → ℕ) (head : ℕ) (bs : List Block) : Type 0 where
  pub genuine : All (IsGenuine ts head) bs
  pub increasing : IsIncreasing bs

-- What lodash documents: `clamp` stays within its bounds, and of an ordered array `sortedIndexBy`
-- tells the first index at which the value can be inserted.
pub record IsLodash (l : Lodash) : Type 0 where
  pub clamps :
      (n low high : ℕ) → low ≤ high → (low ≤ l.clamp n low high) × (l.clamp n low high ≤ high)
  pub splits :
      (key : Block → ℕ) (bs : List Block) (n : ℕ)
      → IsOrderedBy key bs
      → let i = l.sorted_index_by key bs n in
        All (λ b. key b < n) (take i bs) × All (λ b. n ≤ key b) (drop i bs)

-- The provider serves the chain with timestamps `ts` up to the block `head`: they never fall.
pub record IsChain (w : World) (ts : ℕ → ℕ) (head : ℕ) : Type 0 where
  pub lodash : IsLodash w.lodash
  pub grows : (a b : ℕ) → a ≤ b → ts a ≤ ts b
  pub answers :
      (n : ℕ) → n ≤ head → w.get_block (pos n) ≡ some (record { number = n; timestamp = ts n })
  pub newest : w.latest ≡ some (record { number = head; timestamp = ts head })
  -- The two blocks that the average block time is taken from.
  pub measures :
      (high low : Block) × (w.get_block (pos w.block_number -ℤ pos 10) ≡ some high)
      × (w.get_block ((pos w.block_number -ℤ pos 10) -ℤ pos 120) ≡ some low)

pub IsIncreasing→IsOrderedBy : (bs : List Block) → IsIncreasing bs → IsOrderedBy (λ b. b.number) bs
IsIncreasing→IsOrderedBy [] h = tt
IsIncreasing→IsOrderedBy (b ∷ bs) h =
    (All-map (λ c l. omega (arith, l)) bs h.0, IsIncreasing→IsOrderedBy bs h.1)

module _ (ts : ℕ → ℕ) (head : ℕ) (grows : (a b : ℕ) → a ≤ b → ts a ≤ ts b) where
  later_block :
      (b : Block) (bs : List Block)
      → IsGenuine ts head b
      → All (IsGenuine ts head) bs
      → All (λ c. b.number < c.number) bs
      → All (λ c. b.timestamp ≤ c.timestamp) bs
  later_block b [] g h l = tt
  later_block b (c ∷ bs) g h l =
      let up : ts b.number ≤ ts c.number = grows b.number c.number (omega (arith, l.0)) in
      (rw (g.0, h.0.0) up, later_block b bs g h.1 l.1)

  pub IsCache→IsOrderedBy :
      (bs : List Block)
      → All (IsGenuine ts head) bs
      → IsIncreasing bs
      → IsOrderedBy (λ b. b.timestamp) bs
  IsCache→IsOrderedBy [] g h = tt
  IsCache→IsOrderedBy (b ∷ bs) g h = (later_block b bs g.0 g.1 h.0, IsCache→IsOrderedBy bs g.1 h.1)

-- Where the number is not at its index, all blocks from there are later.
pub drop_later :
    (n i : ℕ) (bs : List Block)
    → IsIncreasing bs
    → All (λ b. n ≤ b.number) (drop i bs)
    → ((b : Block) → get_elem? bs i ≡ some b → b.number ≢ n)
    → All (λ b. n < b.number) (drop i bs)
drop_later n zero [] inc h miss = tt
drop_later n zero (b ∷ bs) inc h miss =
    let other : b.number ≢ n = miss b refl in
    let first : n < b.number = omega (arith, h.0) in
    (first, All-map (λ c l. omega (arith, l, first)) bs inc.0)
drop_later n (suc i) [] inc h miss = tt
drop_later n (suc i) (b ∷ bs) inc h miss = drop_later n i bs inc.1 h miss

pub All-splice_in {κ} :
    (P : Block → Type κ) (i : ℕ) (c : Block) (bs : List Block)
    → P c
    → All P bs
    → All P (splice_in i c bs)
unfolding splice_in
All-splice_in P zero c bs p h = (p, h)
All-splice_in P (suc i) c [] p h = (p, tt)
All-splice_in P (suc i) c (b ∷ bs) p h = (h.0, All-splice_in P i c bs p h.1)

pub splice_in-IsIncreasing :
    (i : ℕ) (c : Block) (bs : List Block)
    → IsIncreasing bs
    → All (λ b. b.number < c.number) (take i bs)
    → All (λ b. c.number < b.number) (drop i bs)
    → IsIncreasing (splice_in i c bs)
unfolding splice_in
splice_in-IsIncreasing zero c bs inc before after = (after, inc)
splice_in-IsIncreasing (suc i) c [] inc before after = (tt, tt)
splice_in-IsIncreasing (suc i) c (b ∷ bs) inc before after = (
  All-splice_in (λ d. b.number < d.number) i c bs before.0 inc.0,
  splice_in-IsIncreasing i c bs inc.1 before.1 after,
)

pub mem-splice_in : (i : ℕ) (c : Block) (bs : List Block) → Memᴰ c (splice_in i c bs)
unfolding splice_in
mem-splice_in zero c bs = Memᴰ.head refl
mem-splice_in (suc i) c [] = Memᴰ.head refl
mem-splice_in (suc i) c (b ∷ bs) = Memᴰ.tail (mem-splice_in i c bs)

pub splice_in-keeps :
    (i : ℕ) (c : Block) (bs : List Block) {b : Block} → Memᴰ b bs → Memᴰ b (splice_in i c bs)
unfolding splice_in
splice_in-keeps zero c bs m = Memᴰ.tail m
splice_in-keeps (suc i) c [] m = absurd (Memᴰ.not-nil m)
splice_in-keeps (suc i) c (a ∷ bs) (Memᴰ.head e) = Memᴰ.head e
splice_in-keeps (suc i) c (a ∷ bs) (Memᴰ.tail m) = Memᴰ.tail (splice_in-keeps i c bs m)
