-- ===== src/SpokePool/Steps.antt =====
-- The loops of `update` in clients/SpokePoolClient.ts keep the deposits and the index.
use acrossclone.Prelude.{
  ℕ, ◌≡◌, refl, sym, ap, ◌∙◌, subst, true, false, List, [], ◌∷◌, Option, none, some, ltb, nat_eq,
  string_eq, ◌==◌, if◌then◌else◌, inl, inr, ok, All, All-append, arith, Bool-cases, Option-cases,
  Result-cases, ok-inj, >>=-eq-ok, ◌⊎◌,
}
use acrossclone.Prelude.Dict.{Dict, lookup, insert, alter, lookup-alter_self, lookup-alter_ne}
use acrossclone.Objects.{array_of, array_at, array_of-assign_array}
use acrossclone.SpokePool.{
  SpokePool, RelayData, DepositWithBlock, FillWithBlock, DepositHash, deposit_hash_eq,
}
use acrossclone.SpokePool.Queries.{get_deposit_hash, append_max_speed_up_signature_to_deposit}
use acrossclone.SpokePool.Loops.{
  V3FundsDepositedEvent, resolve_output_token, raw_deposit, to_deposit, add_deposit, add_deposits,
  refresh_deposit, SpeedUpEvent, add_speed_up, add_speed_ups, add_fill, add_fills,
}
use acrossclone.SpokePool.Extends.{
  SameDeposit, SameDeposit-refl, IsOwn, IsOwnFill, IsIndexed, Extends, Extends-refl, Extends-trans,
  Untouched-Extends, apply_speed_ups-SameDeposit,
}

-- The deposits of the table after one was put under a hash.
lookup-insert_cases :
    (j k : DepositHash) (v : DepositWithBlock) (d : Dict DepositHash DepositWithBlock)
    (w : DepositWithBlock)
    → lookup j (insert k v d) ≡ some w
    → ((k == j) ≡ true) × (v ≡ w) ⊎ ((k == j) ≡ false) × (lookup j d ≡ some w)
lookup-insert_cases j k v d w e = elim (Bool-cases (k == j)) [
  | inl hit ↦
      let same : k ≡ j = (deposit_hash_eq.same_iff k j).0 hit in
      let here = lookup-alter_self k (λ (_ : Option DepositWithBlock). v) d in
      let found : some v ≡ some w = sym here ∙ ap (λ i. lookup i (insert k v d)) same ∙ e in
      inl (hit, cc)
  | inr miss ↦ inr (miss, sym (lookup-alter_ne j k (λ _. v) d miss) ∙ e)
]

-- The state with a deposit put under its hash, and the range of ids widened to it.
abbrev with_deposit : DepositWithBlock → SpokePool → SpokePool
unfolding alter get_deposit_hash
with_deposit d s = record s {
  deposit_hashes = insert (get_deposit_hash d.deposit_id d.origin_chain_id) d s.deposit_hashes;
  earliest_deposit_id_queried =
      if ltb d.deposit_id s.earliest_deposit_id_queried
      then d.deposit_id
      else s.earliest_deposit_id_queried;
  latest_deposit_id_queried =
      if ltb s.latest_deposit_id_queried d.deposit_id
      then d.deposit_id
      else s.latest_deposit_id_queried;
}

with_deposit-Extends :
    (d : DepositWithBlock) (s : SpokePool)
    → d.origin_chain_id ≡ s.chain_id
    → lookup (get_deposit_hash d.deposit_id d.origin_chain_id) s.deposit_hashes ≡ none
    → Extends s (with_deposit d s)
unfolding with_deposit
with_deposit-Extends d s origin new = record {
  chain = refl;
  keeps = keeps;
  indexed = λ i. record { deposits = deposits i; fills = i.fills };
}
  where
    keeps :
        (k : DepositHash) (e : DepositWithBlock)
        → lookup k s.deposit_hashes ≡ some e
        → (f : DepositWithBlock) × (lookup k (with_deposit d s).deposit_hashes ≡ some f)
          × SameDeposit f e
    keeps k e known = elim (Bool-cases (get_deposit_hash d.deposit_id d.origin_chain_id == k)) [
      | inl hit ↦
          let here = get_deposit_hash d.deposit_id d.origin_chain_id in
          let same : here ≡ k = (deposit_hash_eq.same_iff here k).0 hit in
          let clash : none ≡ some e = sym new ∙ ap (λ i. lookup i s.deposit_hashes) same ∙ known in
          cc
      | inr miss ↦ (
        e,
        lookup-alter_ne k (get_deposit_hash d.deposit_id d.origin_chain_id) (λ _. d)
              s.deposit_hashes miss
            ∙ known,
        SameDeposit-refl e,
      )
    ]

    added : IsOwn (with_deposit d s) (get_deposit_hash d.deposit_id d.origin_chain_id) d
    added = record { key = refl; origin = origin; low = ground arith; high = ground arith }

    widened : (k : DepositHash) (e : DepositWithBlock) → IsOwn s k e → IsOwn (with_deposit d s) k e
    widened k e own =
        let low = own.low in
        let high = own.high in
        record { key = own.key; origin = own.origin; low = ground arith; high = ground arith }

    deposits :
        IsIndexed s
        → (k : DepositHash) (e : DepositWithBlock)
        → lookup k (with_deposit d s).deposit_hashes ≡ some e
        → IsOwn (with_deposit d s) k e
    deposits i k e found =
        let here = get_deposit_hash d.deposit_id d.origin_chain_id in
        elim (lookup-insert_cases k here d s.deposit_hashes e found) [
          | inl (hit, is) ↦ subst (IsOwn (with_deposit d s) k) is (
              subst (λ j. IsOwn (with_deposit d s) j d) ((deposit_hash_eq.same_iff here k).0 hit)
                added)
          | inr (miss, known) ↦ widened k e (i.deposits k e known)
        ]

pub add_deposit-Extends :
    (d : DepositWithBlock) (s : SpokePool)
    → d.origin_chain_id ≡ s.chain_id
    → Extends s (add_deposit d s)
unfolding add_deposit with_deposit
add_deposit-Extends d s origin =
    elim (Option-cases
      (lookup (get_deposit_hash d.deposit_id d.origin_chain_id) s.deposit_hashes)) [
        | inl new ↦ rw (add_deposit, new) (with_deposit-Extends d s origin new)
        | inr (e, known) ↦ rw (add_deposit, known) (Extends-refl s)
      ]

add_deposit-chain_id :
    (d : DepositWithBlock) (s : SpokePool) → (add_deposit d s).chain_id ≡ s.chain_id
unfolding add_deposit
add_deposit-chain_id d s = ground arith

to_deposit-origin :
    (s : SpokePool) (quote_for_token : Option ℕ) (quote_block : ℕ) (e : V3FundsDepositedEvent)
    (d : DepositWithBlock)
    → to_deposit s quote_for_token quote_block e ≡ ok d
    → d.origin_chain_id ≡ s.chain_id
unfolding to_deposit
to_deposit-origin s quote_for_token quote_block e d h =
    let (token, e1, f1) =
      >>=-eq-ok (resolve_output_token s (raw_deposit s e) quote_for_token) _ h in
    sym (ap (λ (x : DepositWithBlock). x.origin_chain_id) (ok-inj f1))

pub add_deposits-Extends :
    (events : List V3FundsDepositedEvent) (quote_blocks : List ℕ) (s : SpokePool)
    → Extends s (add_deposits events quote_blocks s).0
unfolding add_deposits
add_deposits-Extends [] quote_blocks s = Extends-refl s
add_deposits-Extends (e ∷ events) [] s = Extends-refl s
add_deposits-Extends (e ∷ events) (quote_block ∷ quote_blocks) s =
    elim (Result-cases (to_deposit s (some quote_block) quote_block e)) [
      | inr (thrown, f) ↦ rw (add_deposits, f) (Extends-refl s)
      | inl (d, f) ↦
          let origin = to_deposit-origin s (some quote_block) quote_block e d f in
          let rest = add_deposits-Extends events quote_blocks (add_deposit d s) in
          rw (add_deposits, f)
            (Extends-trans s (add_deposit d s) _ (add_deposit-Extends d s origin) rest)
    ]

-- A deposit is replaced by one that differs in what a speed-up writes.
abbrev replaced : DepositHash → DepositWithBlock → SpokePool → SpokePool
unfolding alter
replaced k now s = record s { deposit_hashes = insert k now s.deposit_hashes }

module _ (s : SpokePool) (k : DepositHash) (d now : DepositWithBlock) where
  SameDeposit-IsOwn :
      (j : DepositHash) → SameDeposit now d → IsOwn s j d → IsOwn (replaced k now s) j now
  unfolding replaced
  SameDeposit-IsOwn j (e0, relay, e2, e3, e4, e5, e6) own =
      let id : now.deposit_id ≡ d.deposit_id = ap (λ (r : RelayData). r.deposit_id) relay in
      let chain : now.origin_chain_id ≡ d.origin_chain_id =
        ap (λ (r : RelayData). r.origin_chain_id) relay in
      record {
        key = rw (id, chain) own.key;
        origin = chain ∙ own.origin;
        low = rw id own.low;
        high = rw id own.high;
      }

  replaced-Extends :
      lookup k s.deposit_hashes ≡ some d → SameDeposit now d → Extends s (replaced k now s)
  unfolding replaced
  replaced-Extends known same = record {
    chain = refl;
    keeps = keeps;
    indexed = λ i. record { deposits = deposits i; fills = i.fills };
  }
    where
      keeps :
          (j : DepositHash) (e : DepositWithBlock)
          → lookup j s.deposit_hashes ≡ some e
          → (f : DepositWithBlock) × (lookup j (replaced k now s).deposit_hashes ≡ some f)
            × SameDeposit f e
      keeps j e listed = elim (Bool-cases (k == j)) [
        | inl hit ↦
            let here : k ≡ j = (deposit_hash_eq.same_iff k j).0 hit in
            let both : some d ≡ some e =
              sym known ∙ ap (λ i. lookup i s.deposit_hashes) here ∙ listed in
            let is : d ≡ e = cc in
            (
              now,
              ap (λ i. lookup i (insert k now s.deposit_hashes)) (sym here)
                  ∙ lookup-alter_self k (λ _. now) s.deposit_hashes,
              subst (SameDeposit now) is same,
            )
        | inr miss ↦
            (e, lookup-alter_ne j k (λ _. now) s.deposit_hashes miss ∙ listed, SameDeposit-refl e)
      ]

      deposits :
          IsIndexed s
          → (j : DepositHash) (e : DepositWithBlock)
          → lookup j (replaced k now s).deposit_hashes ≡ some e
          → IsOwn (replaced k now s) j e
      deposits i j e found = elim (lookup-insert_cases j k now s.deposit_hashes e found) [
        | inl (hit, is) ↦ subst (IsOwn (replaced k now s) j) is (
            subst (λ h. IsOwn (replaced k now s) h now) ((deposit_hash_eq.same_iff k j).0 hit)
              (SameDeposit-IsOwn k same (i.deposits k d known)))
        | inr (miss, listed) ↦
            let own = i.deposits j e listed in
            record { key = own.key; origin = own.origin; low = own.low; high = own.high }
      ]

refresh_deposit-Extends : (k : DepositHash) (s : SpokePool) → Extends s (refresh_deposit k s)
unfolding refresh_deposit append_max_speed_up_signature_to_deposit replaced
refresh_deposit-Extends k s = elim (Option-cases (lookup k s.deposit_hashes)) [
  | inl new ↦ rw (refresh_deposit, new) (Extends-refl s)
  | inr (d, known) ↦
      rw (refresh_deposit, known)
        (replaced-Extends s k d (append_max_speed_up_signature_to_deposit s d) known
          (apply_speed_ups-SameDeposit (array_at d.depositor d.deposit_id s.speed_ups) d))
]

add_speed_up-Extends : (e : SpeedUpEvent) (s : SpokePool) → Extends s (add_speed_up e s)
unfolding add_speed_up
add_speed_up-Extends e s =
    Extends-trans s _ (add_speed_up e s) (Untouched-Extends s _ refl refl refl refl refl)
      (refresh_deposit-Extends _ _)

pub add_speed_ups-Extends :
    (events : List SpeedUpEvent) (s : SpokePool) → Extends s (add_speed_ups events s)
unfolding add_speed_ups
add_speed_ups-Extends [] s = Extends-refl s
add_speed_ups-Extends (e ∷ events) s =
    Extends-trans s (add_speed_up e s) _ (add_speed_up-Extends e s)
      (add_speed_ups-Extends events (add_speed_up e s))

add_fill-Extends : (e : FillWithBlock) (s : SpokePool) → Extends s (add_fill e s)
unfolding add_fill
add_fill-Extends e s = record {
  chain = refl;
  keeps = λ k d known. (d, known, SameDeposit-refl d);
  indexed = λ i. record {
    deposits = λ k d known.
        let own = i.deposits k d known in
        record { key = own.key; origin = own.origin; low = own.low; high = own.high };
    fills = fills i;
  };
}
  where
    fill : FillWithBlock
    fill = record e { destination_chain_id = s.chain_id }

    here : DepositHash
    here = get_deposit_hash e.deposit_id e.origin_chain_id

    added : (k : DepositHash) → All (IsOwnFill s.chain_id k) (if here == k then fill ∷ [] else [])
    added k = elim (Bool-cases (here == k)) [
      | inl hit ↦ rw hit ((sym ((deposit_hash_eq.same_iff here k).0 hit), refl), tt)
      | inr miss ↦ rw miss tt
    ]

    fills :
        IsIndexed s
        → (k : DepositHash)
        → All (IsOwnFill s.chain_id k) (array_of k (add_fill e s).deposit_hashes_to_fills)
    fills i k = rw (array_of-assign_array k here (fill ∷ []) s.deposit_hashes_to_fills) (
        All-append (IsOwnFill s.chain_id k) (array_of k s.deposit_hashes_to_fills) _ (i.fills k)
          (added k))

pub add_fills-Extends :
    (events : List FillWithBlock) (s : SpokePool) → Extends s (add_fills events s)
unfolding add_fills
add_fills-Extends [] s = Extends-refl s
add_fills-Extends (e ∷ events) s =
    Extends-trans s (add_fill e s) _ (add_fill-Extends e s)
      (add_fills-Extends events (add_fill e s))
