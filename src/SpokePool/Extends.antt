-- ===== src/SpokePool/Extends.antt =====
-- What every step of an update of the SpokePool client leaves true of its deposits and fills.
use acrossclone.Prelude.{
  ℕ, ◌≤◌, ◌≡◌, refl, sym, ap, ◌∙◌, List, [], ◌∷◌, some, nat_eq, string_eq, inl, inr, All, arith,
  Bool-cases,
}
use acrossclone.Prelude.Int.{leb_ℤ}
use acrossclone.Prelude.Dict.{lookup}
use acrossclone.Objects.{array_of}
use acrossclone.SpokePool.{
  SpokePool, DepositWithBlock, FillWithBlock, SpeedUp, DepositHash, deposit_hash_eq,
}
use acrossclone.SpokePool.Queries.{get_deposit_hash, max_speed_up, apply_speed_ups}

-- The two differ at most in what a speed-up writes.
abbrev pub SameDeposit : DepositWithBlock → DepositWithBlock → Type 0
SameDeposit e d =
    (e.event ≡ d.event)
    × (e.relay_data ≡ d.relay_data)
    × (e.destination_chain_id ≡ d.destination_chain_id)
    × (e.quote_timestamp ≡ d.quote_timestamp)
    × (e.from_lite_chain ≡ d.from_lite_chain)
    × (e.to_lite_chain ≡ d.to_lite_chain)
    × (e.quote_block_number ≡ d.quote_block_number)

pub SameDeposit-refl : (d : DepositWithBlock) → SameDeposit d d
SameDeposit-refl d = (refl, refl, refl, refl, refl, refl, refl)

SameDeposit-trans : (c d e : DepositWithBlock) → SameDeposit d c → SameDeposit e d → SameDeposit e c
SameDeposit-trans c d e (a0, a1, a2, a3, a4, a5, a6) (b0, b1, b2, b3, b4, b5, b6) =
    (b0 ∙ a0, b1 ∙ a1, b2 ∙ a2, b3 ∙ a3, b4 ∙ a4, b5 ∙ a5, b6 ∙ a6)

-- A deposit stands under its own hash, comes from the client's chain, and its id is within the ids
-- that were queried.
pub record IsOwn (s : SpokePool) (k : DepositHash) (d : DepositWithBlock) : Type 0 where
  pub key : k ≡ get_deposit_hash d.deposit_id d.origin_chain_id
  pub origin : d.origin_chain_id ≡ s.chain_id
  pub low : s.earliest_deposit_id_queried ≤ d.deposit_id
  pub high : d.deposit_id ≤ s.latest_deposit_id_queried

-- A fill stands under the hash of its deposit, and was made on the client's chain.
abbrev pub IsOwnFill : ℕ → DepositHash → FillWithBlock → Type 0
IsOwnFill chain_id k f =
    (k ≡ get_deposit_hash f.deposit_id f.origin_chain_id) × (f.destination_chain_id ≡ chain_id)

pub record IsIndexed (s : SpokePool) : Type 0 where
  pub deposits :
      (k : DepositHash) (d : DepositWithBlock) → lookup k s.deposit_hashes ≡ some d → IsOwn s k d
  pub fills :
      (k : DepositHash) → All (IsOwnFill s.chain_id k) (array_of k s.deposit_hashes_to_fills)

-- A later state of the client: it keeps the deposits, but for speed-ups, and the index.
pub record Extends (s t : SpokePool) : Type 0 where
  pub chain : t.chain_id ≡ s.chain_id
  pub keeps :
      (k : DepositHash) (d : DepositWithBlock)
      → lookup k s.deposit_hashes ≡ some d
      → (e : DepositWithBlock) × (lookup k t.deposit_hashes ≡ some e) × SameDeposit e d
  pub indexed : IsIndexed s → IsIndexed t

pub Extends-refl : (s : SpokePool) → Extends s s
Extends-refl s = record {
  chain = refl;
  keeps = λ k d e. (d, e, SameDeposit-refl d);
  indexed = λ i. i;
}

pub Extends-trans : (s t u : SpokePool) → Extends s t → Extends t u → Extends s u
Extends-trans s t u x y = record {
  chain = y.chain ∙ x.chain;
  keeps = λ k d e.
      let (d1, e1, same1) = x.keeps k d e in
      let (d2, e2, same2) = y.keeps k d1 e1 in (d2, e2, SameDeposit-trans d d1 d2 same1 same2);
  indexed = λ i. y.indexed (x.indexed i);
}

-- A step that touches neither the deposits nor the fills by deposit.
pub Untouched-Extends :
    (s t : SpokePool)
    → t.deposit_hashes ≡ s.deposit_hashes
    → t.deposit_hashes_to_fills ≡ s.deposit_hashes_to_fills
    → t.chain_id ≡ s.chain_id
    → t.earliest_deposit_id_queried ≡ s.earliest_deposit_id_queried
    → t.latest_deposit_id_queried ≡ s.latest_deposit_id_queried
    → Extends s t
Untouched-Extends s t hashes fills chain earliest latest = record {
  chain = chain;
  keeps = λ k d e. (d, ap (lookup k) hashes ∙ e, SameDeposit-refl d);
  indexed = λ i. record {
    deposits = λ k d e.
        let own = i.deposits k d (ap (lookup k) (sym hashes) ∙ e) in
        record {
          key = own.key;
          origin = own.origin ∙ sym chain;
          low = omega (arith, own.low);
          high = omega (arith, own.high);
        };
    fills = λ k. rw (chain, fills) (i.fills k);
  };
}

pub apply_speed_ups-SameDeposit :
    (us : List SpeedUp) (d : DepositWithBlock) → SameDeposit (apply_speed_ups us d) d
unfolding apply_speed_ups
apply_speed_ups-SameDeposit [] d = SameDeposit-refl d
apply_speed_ups-SameDeposit (u ∷ us) d =
    elim (Bool-cases (leb_ℤ d.output_amount (max_speed_up u us).updated_output_amount)) [
      | inl high ↦ rw (apply_speed_ups, high) (SameDeposit-refl d)
      | inr low ↦ rw (apply_speed_ups, low) (SameDeposit-refl d)
    ]
