-- ===== src/HubPool/Tokens/Equivalence.antt =====
-- areTokensEquivalent: when it holds, and that it does not depend on the order of the tokens.
use Prim.Native.String.{String}
use text.Mathlib.TextEquality.{eq_iff}
use mathlib.Core.Bool.{false≢true}
use text.Mathlib.TextPositions.{eq_refl}
use acrossclone.Prelude.{
  ℕ, ◌≡◌, ◌↔◌, refl, sym, ap, ◌∙◌, Bool, true, false, ◌&&◌, inl, inr, arith, if◌then◌else◌, ◌==◌,
  string_eq, Result, ok, err, ◌>>=◌, Bool-cases, Bool-eq,
}
use acrossclone.HubPool.{HubPool, HubPoolError}
use acrossclone.HubPool.Tokens.{
  get_l2_token_for_l1_token_at_block, get_l1_token_for_l2_token_at_block, or_false,
  are_tokens_equivalent,
}

-- The body of the function, over the results of its look-ups.
module _ (a b : String) where
  abbrev back : Result HubPoolError String → Result HubPoolError String → Result HubPoolError Bool
  back p q = p >>= λ x. q >>= λ y. ok ((a == x) && (b == y))

  abbrev forth :
      (to_a to_b : String → Result HubPoolError String)
      → Result HubPoolError String
      → Result HubPoolError String
      → Bool
  forth to_a to_b p q =
      or_false (p >>= λ x. q >>= λ y. if x == y then back (to_a x) (to_b y) else ok false)

  back-true :
      (p q : Result HubPoolError String) → or_false (back p q) ≡ true ↔ (p ≡ ok a) × (q ≡ ok b)
  back-true (ok x) (ok y) = (
    λ h. (ap ok (sym ((eq_iff a x).0 (ground arith))), ap ok (sym ((eq_iff b y).0 (ground arith)))),
    λ (h, k). ground (arith, eq_iff a x, eq_iff b y),
  )
  back-true (ok x) (err e) = (λ h. cc, λ h. cc)
  back-true (err e) q = (λ h. cc, λ h. cc)

  forth-true :
      (to_a to_b : String → Result HubPoolError String) (p q : Result HubPoolError String)
      → forth to_a to_b p q ≡ true
      → (x : String) × (p ≡ ok x) × (q ≡ ok x) × (to_a x ≡ ok a) × (to_b x ≡ ok b)
  forth-true to_a to_b (ok x) (ok y) h = elim (Bool-cases (x == y)) [
    | inl same ↦
        let e : x ≡ y = (eq_iff x y).0 same in
        let r = (back-true (to_a x) (to_b y)).0 (rw same at h) in
        (x, refl, ap ok (sym e), r.0, ap to_b e ∙ r.1)
    | inr other ↦ absurd (false≢true (rw other at h))
  ]
  forth-true to_a to_b (ok x) (err e) h = cc
  forth-true to_a to_b (err e) q h = cc

module _ (h : HubPool) (token_a : String) (chain_a : ℕ) (token_b : String) (chain_b block : ℕ) where
  -- Two tokens are equivalent at a block exactly when they resolve to one HubPool token and that
  -- resolves back to each of them on its chain.
  pub are_tokens_equivalent_iff :
      are_tokens_equivalent h token_a chain_a token_b chain_b block ≡ true
      ↔ (l1_token : String) × (get_l1_token_for_l2_token_at_block h token_a chain_a block
          ≡ ok l1_token)
        × (get_l1_token_for_l2_token_at_block h token_b chain_b block ≡ ok l1_token)
        × (get_l2_token_for_l1_token_at_block h l1_token chain_a block ≡ ok token_a)
        × (get_l2_token_for_l1_token_at_block h l1_token chain_b block ≡ ok token_b)
  unfolding are_tokens_equivalent
  are_tokens_equivalent_iff = (
    λ e.
        forth-true token_a token_b (λ x. get_l2_token_for_l1_token_at_block h x chain_a block)
          (λ x. get_l2_token_for_l1_token_at_block h x chain_b block) _ _ e,
    λ (x, a, b, back_a, back_b).
        rw (a, b, back_a, back_b, ◌>>=◌)
          (ground (arith, eq_refl x, eq_refl token_a, eq_refl token_b)),
  )

-- The order of the two tokens does not matter.
pub are_tokens_equivalent_comm :
    (h : HubPool) (token_a : String) (chain_a : ℕ) (token_b : String) (chain_b block : ℕ)
    → are_tokens_equivalent h token_a chain_a token_b chain_b block
      ≡ are_tokens_equivalent h token_b chain_b token_a chain_a block
are_tokens_equivalent_comm h token_a chain_a token_b chain_b block =
    Bool-eq _ _
      (λ e.
        let (x, a, b, back_a, back_b) =
          (are_tokens_equivalent_iff h token_a chain_a token_b chain_b block).0 e in
        (are_tokens_equivalent_iff h token_b chain_b token_a chain_a block).1
          (x, b, a, back_b, back_a))
      (λ e.
        let (x, a, b, back_a, back_b) =
          (are_tokens_equivalent_iff h token_b chain_b token_a chain_a block).0 e in
        (are_tokens_equivalent_iff h token_a chain_a token_b chain_b block).1
          (x, b, a, back_b, back_a))
