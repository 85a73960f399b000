-- ===== src/BlockFinder/Search/Fetch.antt =====
-- getBlock and getLatestBlock of utils/BlockUtils.ts answer with the chain's blocks and keep the
-- cache in order.
use acrossclone.Prelude.{
  ℕ, ◌≤◌, ◌≡◌, ◌≢◌, refl, sym, ap, Memᴰ, Option, none, some, inl, inr, ◌==◌, nat_eq, nat_beq_iff,
  Bool-cases, Option-cases, ok, err, ok-inj, arith, get_elem?,
}
use acrossclone.Prelude.Search.{All-mem, mem-get_elem?}
use acrossclone.BlockFinder.{
  Block, World, Finder, Call, then_call, splice_in, at_number, number_index, cached_block,
  store_block, get_block, get_latest_block,
}
use acrossclone.BlockFinder.Search.Cache.{
  IsGenuine, IsCache, IsChain, IsIncreasing→IsOrderedBy, drop_later, All-splice_in,
  splice_in-IsIncreasing, mem-splice_in, splice_in-keeps,
}

-- The finder `g` is `f` with more blocks of the chain in its cache.
pub record Grows (ts : ℕ → ℕ) (head : ℕ) (f g : Finder) : Type 0 where
  pub cache : IsCache ts head g.blocks
  pub kept : (b : Block) → Memᴰ b f.blocks → Memᴰ b g.blocks

pub Grows-trans :
    {ts : ℕ → ℕ} {head : ℕ} {f g h : Finder}
    → Grows ts head f g
    → Grows ts head g h
    → Grows ts head f h
Grows-trans p q = record { cache = q.cache; kept = λ b m. q.kept b (p.kept b m) }

pub then_call-ok {ℓ κ} :
    {A : Type ℓ} {B : Type κ} (c : Call A) (next : Finder → A → Call B) {a : A}
    → c.1 ≡ ok a
    → then_call c next ≡ next c.0 a
then_call-ok (f, ok b) next e = ap (next f) (ok-inj e)
then_call-ok (f, err thrown) next e = cc

-- The call returns the block of this number, which is in the cache now.
pub record Gets (ts : ℕ → ℕ) (head number : ℕ) (f : Finder) (c : Call Block) : Type 0 where
  pub found : Block
  pub returns : c.1 ≡ ok found
  pub genuine : IsGenuine ts head found
  pub numbered : found.number ≡ number
  pub cached : Memᴰ found c.0.blocks
  pub grown : Grows ts head f c.0

at_number-some :
    (number : ℕ) (o : Option Block) {b : Block}
    → at_number number o ≡ some b
    → (o ≡ some b) × (b.number ≡ number)
at_number-some number none e = cc
at_number-some number (some c) {b} e = elim (Bool-cases (c.number == number)) [
  | inl hit ↦
      let same : c ≡ b = ground arith in
      (ap some same, rw (sym same) ((nat_beq_iff c.number number).0 hit))
  | inr miss ↦ absurd (ground arith)
]

at_number-none :
    (number : ℕ) (o : Option Block) {b : Block}
    → at_number number o ≡ none
    → o ≡ some b
    → b.number ≢ number
at_number-none number none e h same = cc
at_number-none number (some c) {b} e h same =
    let here : c ≡ b = ground arith in
    let hit = (nat_beq_iff c.number number).1 (rw here same) in ground arith

module _ {w : World} {ts : ℕ → ℕ} {head : ℕ} (chain : IsChain w ts head) where
  hit-Gets :
      (number : ℕ) (f : Finder) {b : Block}
      → IsCache ts head f.blocks
      → cached_block w number f.blocks ≡ some b
      → Gets ts head number f (f, ok b)
  hit-Gets number f {b} c e =
      let hit = at_number-some number (get_elem? f.blocks (number_index w number f.blocks)) e in
      let m = mem-get_elem? f.blocks (number_index w number f.blocks) hit.0 in
      record {
        found = b;
        returns = refl;
        genuine = All-mem (IsGenuine ts head) f.blocks c.genuine m;
        numbered = hit.1;
        cached = m;
        grown = record { cache = c; kept = λ b m. m };
      }

  miss-Gets :
      (number : ℕ) (block : Block) (f : Finder)
      → IsCache ts head f.blocks
      → IsGenuine ts head block
      → block.number ≡ number
      → cached_block w number f.blocks ≡ none
      → Gets ts head number f (
        record f { blocks = splice_in (number_index w number f.blocks) block f.blocks },
        ok block,
      )
  miss-Gets number block f c g e miss =
      let i = number_index w number f.blocks in
      let parts =
        chain.lodash.splits (λ b. b.number) f.blocks number
          (IsIncreasing→IsOrderedBy f.blocks c.increasing) in
      let after =
        drop_later number i f.blocks c.increasing parts.1
          (λ b h. at_number-none number (get_elem? f.blocks i) miss h) in
      record {
        found = block;
        returns = refl;
        genuine = g;
        numbered = e;
        cached = mem-splice_in i block f.blocks;
        grown = record {
          cache = record {
            genuine = All-splice_in (IsGenuine ts head) i block f.blocks g c.genuine;
            increasing =
                splice_in-IsIncreasing i block f.blocks c.increasing (rw e parts.0) (rw e after);
          };
          kept = λ b m. splice_in-keeps i block f.blocks m;
        };
      }

  store_block-Gets :
      (number : ℕ) (block : Block) (f : Finder)
      → IsCache ts head f.blocks
      → IsGenuine ts head block
      → block.number ≡ number
      → let stored = store_block w number block f in Gets ts head number f (stored.0, ok stored.1)
  unfolding store_block
  store_block-Gets number block f c g e = elim (Option-cases (cached_block w number f.blocks)) [
    | inl miss ↦ rw (miss, store_block) (miss-Gets number block f c g e miss)
    | inr (b, hit) ↦ rw (hit, store_block) (hit-Gets number f c hit)
  ]

  pub get_block-Gets :
      (number : ℕ) (f : Finder)
      → IsCache ts head f.blocks
      → number ≤ head
      → Gets ts head number f (get_block w number f)
  unfolding get_block
  get_block-Gets number f c low = elim (Option-cases (cached_block w number f.blocks)) [
    | inl miss ↦
        rw (miss, chain.answers number low, get_block)
          (store_block-Gets number (record { number = number; timestamp = ts number }) f c
            (refl, low) refl)
    | inr (b, hit) ↦ rw (hit, get_block) (hit-Gets number f c hit)
  ]

  pub get_latest_block-Gets :
      (f : Finder) → IsCache ts head f.blocks → Gets ts head head f (get_latest_block w f)
  unfolding get_latest_block
  get_latest_block-Gets f c = rw chain.newest (
      store_block-Gets head (record { number = head; timestamp = ts head }) f c (refl, omega arith)
        refl)
