-- ===== src/SpokePool/Routes.antt =====
-- The deposit routes: the newest event of a route says whether it is enabled.
use Prim.Native.String.{String}
use acrossclone.Prelude.{
  ℕ, ◌≡◌, refl, sym, ap, ◌∙◌, Bool, true, false, ◌&&◌, List, [], ◌∷◌, Option, none, some, ◌==◌,
  nat_eq, string_eq, get_or, if◌then◌else◌, inl, inr, Bool-cases, Option-cases,
}
use acrossclone.Prelude.Search.{find_last?}
use acrossclone.Prelude.Dict.{Dict, lookup, alter, lookup-alter_self, lookup-alter_ne}
use acrossclone.Objects.{FlagEntry, flag, empty_object, is_truthy, assign_flag, assign_flag_at}
use acrossclone.SpokePool.{SpokePool}
use acrossclone.SpokePool.Loops.{EnabledDepositRouteEvent, add_routes}

abbrev pub Routes : Type 0
Routes = Dict String (Dict ℕ FlagEntry)

-- The entry of a route.
abbrev pub route_at :
    (origin_token : String) → (destination_chain_id : ℕ) → Routes → Option FlagEntry
route_at origin_token destination_chain_id routes =
    lookup destination_chain_id (get_or (lookup origin_token routes) [])

assign_flag_truthy :
    (value : Bool) (old : Option FlagEntry) → is_truthy (some (assign_flag value old)) ≡ value
assign_flag_truthy true none = refl
assign_flag_truthy false none = refl
assign_flag_truthy true (some (flag true)) = refl
assign_flag_truthy true (some (flag false)) = refl
assign_flag_truthy false (some (flag true)) = refl
assign_flag_truthy false (some (flag false)) = refl
assign_flag_truthy true (some empty_object) = refl
assign_flag_truthy false (some empty_object) = refl

lookup-alter {ℓ} :
    {V : Type ℓ} (j k : ℕ) (f : Option V → V) (d : Dict ℕ V)
    → lookup j (alter k f d) ≡ (if k == j then some (f (lookup k d)) else lookup j d)
lookup-alter j k f d = elim (Bool-cases (k == j)) [
  | inl hit ↦
      let same : k ≡ j = (nat_eq.same_iff k j).0 hit in
      rw hit (ap (λ i. lookup i (alter k f d)) (sym same) ∙ lookup-alter_self k f d)
  | inr miss ↦ rw miss (lookup-alter_ne j k f d miss)
]

route_at-assign_flag_at :
    (i j : String) (l k : ℕ) (value : Bool) (d : Routes)
    → is_truthy (route_at i l (assign_flag_at j k value d))
      ≡ (if j == i && k == l then value else is_truthy (route_at i l d))
unfolding assign_flag_at
route_at-assign_flag_at i j l k value d =
    let extend =
      λ (inner : Option (Dict ℕ FlagEntry)). alter k (assign_flag value) (get_or inner []) in
    elim (Bool-cases (j == i)) [
      | inr miss ↦ rw (miss, lookup-alter_ne i j extend d miss) refl
      | inl hit ↦
          let same : j ≡ i = (string_eq.same_iff j i).0 hit in
          let here : lookup i (alter j extend d) ≡ some (extend (lookup i d)) =
            ap (λ t. lookup t (alter j extend d)) (sym same)
            ∙ lookup-alter_self j extend d
            ∙ ap (λ t. some (extend (lookup t d))) same in
          let inner = get_or (lookup i d) [] in
          rw (hit, here)
            (elim (Bool-cases (k == l)) [
              | inl at ↦
                  let chain : k ≡ l = (nat_eq.same_iff k l).0 at in
                  rw (at, lookup-alter l k (assign_flag value) inner, at)
                    (assign_flag_truthy value (lookup k inner))
              | inr off ↦ rw (off, lookup-alter l k (assign_flag value) inner, off) refl
            ])
    ]

-- Whether an event is one of the route.
abbrev pub is_for : (origin_token : String) → (chain : ℕ) → EnabledDepositRouteEvent → Bool
is_for origin_token chain e = e.origin_token == origin_token && e.destination_chain_id == chain

abbrev pub enabled_by : Option EnabledDepositRouteEvent → Bool → Bool
enabled_by none before = before
enabled_by (some e) before = e.enabled

enabled_by-cons :
    (p : EnabledDepositRouteEvent → Bool) (e : EnabledDepositRouteEvent)
    (events : List EnabledDepositRouteEvent) (before : Bool)
    → enabled_by (find_last? p (e ∷ events)) before
      ≡ enabled_by (find_last? p events) (if p e then e.enabled else before)
unfolding find_last?
enabled_by-cons p e events before = elim (Option-cases (find_last? p events)) [
  | inr (f, later) ↦ rw (later, find_last?) refl
  | inl none_later ↦ elim (Bool-cases (p e)) [
    | inl hit ↦ rw (none_later, hit, find_last?) refl
    | inr miss ↦ rw (none_later, miss, find_last?) refl
  ]
]

-- After the loop over `EnabledDepositRoute` events a route's entry counts as true exactly when the
-- last of the events for that route enables it, or, without such an event, when it did before.
pub add_routes-last :
    (events : List EnabledDepositRouteEvent) (s : SpokePool) (origin_token : String) (chain : ℕ)
    → is_truthy (route_at origin_token chain (add_routes events s).deposit_routes)
      ≡ enabled_by
          (find_last? (is_for origin_token chain) events)
          (is_truthy (route_at origin_token chain s.deposit_routes))
unfolding add_routes find_last?
add_routes-last [] s origin_token chain = refl
add_routes-last (e ∷ events) s origin_token chain =
    let t = record s {
      deposit_routes =
          assign_flag_at e.origin_token e.destination_chain_id e.enabled s.deposit_routes;
    } in
    let rest = add_routes-last events t origin_token chain in
    let first =
      route_at-assign_flag_at origin_token e.origin_token chain e.destination_chain_id e.enabled
        s.deposit_routes in
    rest
    ∙ ap (enabled_by (find_last? (is_for origin_token chain) events)) first
    ∙ sym (enabled_by-cons (is_for origin_token chain) e events _)
