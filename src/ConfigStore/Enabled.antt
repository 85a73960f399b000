-- ===== src/ConfigStore/Enabled.antt =====
-- Which chains are enabled: getEnabledChains and getEnabledChainsInBlockRange.
use acrossclone.Prelude.{
  ℕ, ◌≤◌, ◌≡◌, refl, sym, ap, subst, Bool, true, false, not, List, [], ◌∷◌, ◌++◌, map, some, nat_eq,
  ltb, get_or, ok, ◌⊎◌, ◌↔◌, inl, inr, arith, Bool-cases, Option-cases, Memᴰ, All,
}
use mathlib.Core.List.Memᴰ
use acrossclone.Prelude.Int.{ℤ, pos, int_eq}
use acrossclone.Prelude.Search.{
  filter, filter-mem, mem-filter, find?, includes, includes-mem, mem-includes, All-mem,
}
use acrossclone.Events.{sort_events_descending}
use acrossclone.Events.Order.{find?-descending}
use acrossclone.ConfigStore.{ConfigStore, DisabledChainsUpdate, disabled_sortable}
use acrossclone.ConfigStore.Queries.{up_to, value_of, get_chain_id_indices_for_block}
use acrossclone.ConfigStore.Chains.{
  get_disabled_chains_for_block, without, get_enabled_chains, push_enabled, push_all_enabled,
  in_block_range, get_enabled_chains_in_block_range,
}
use acrossclone.ConfigStore.WellFormed.{IsWellFormed, implicit_indices, SparesMainnet}
use acrossclone.ConfigStore.Indices.{
  latest_at, get_chain_id_indices_for_block-eq, value_of-latest_at,
}

-- The chain is in the first array, or the update drops it from the chains that were disabled.
push_enabled-mem :
    (disabled : List ℤ) (e : DisabledChainsUpdate) (enabled : List ℤ) (x : ℤ)
    → Memᴰ x (push_enabled disabled e enabled)
    → Memᴰ x enabled ⊎ (includes e.chain_ids x ≡ false)
unfolding push_enabled
push_enabled-mem [] e enabled x m = inl m
push_enabled-mem (d ∷ disabled) e enabled x m = elim (Bool-cases (includes e.chain_ids d)) [
  | inl still ↦ push_enabled-mem disabled e enabled x (rw still at m)
  | inr dropped ↦ elim (push_enabled-mem disabled e (enabled ++ d ∷ []) x (rw dropped at m)) [
    | inr free ↦ inr free
    | inl here ↦ elim (Memᴰ.append_cases enabled here) [
      | inl before ↦ inl before
      | inr last ↦ inr (only last dropped)
    ]
  ]
]
  where
    only : Memᴰ x (d ∷ []) → includes e.chain_ids d ≡ false → includes e.chain_ids x ≡ false
    only (Memᴰ.head same) dropped = rw same dropped
    only (Memᴰ.tail m) dropped = absurd (Memᴰ.not-nil m)

mem-push_enabled_kept :
    (disabled : List ℤ) (e : DisabledChainsUpdate) (enabled : List ℤ) (x : ℤ)
    → Memᴰ x enabled
    → Memᴰ x (push_enabled disabled e enabled)
unfolding push_enabled
mem-push_enabled_kept [] e enabled x m = m
mem-push_enabled_kept (d ∷ disabled) e enabled x m = elim (Bool-cases (includes e.chain_ids d)) [
  | inl still ↦ rw still (mem-push_enabled_kept disabled e enabled x m)
  | inr dropped ↦
      rw dropped (mem-push_enabled_kept disabled e (enabled ++ d ∷ []) x (Memᴰ.append_left _ m))
]

mem-push_enabled_free :
    (disabled : List ℤ) (e : DisabledChainsUpdate) (enabled : List ℤ) (x : ℤ)
    → Memᴰ x disabled
    → includes e.chain_ids x ≡ false
    → Memᴰ x (push_enabled disabled e enabled)
unfolding push_enabled
mem-push_enabled_free [] e enabled x m free = absurd (Memᴰ.not-nil m)
mem-push_enabled_free (d ∷ disabled) e enabled x (Memᴰ.head same) free =
    let dropped : includes e.chain_ids d ≡ false = rw (sym same) free in
    rw dropped (
      mem-push_enabled_kept disabled e (enabled ++ d ∷ []) x
        (Memᴰ.append_right enabled (Memᴰ.head same)))
mem-push_enabled_free (d ∷ disabled) e enabled x (Memᴰ.tail m) free =
    elim (Bool-cases (includes e.chain_ids d)) [
      | inl still ↦ rw still (mem-push_enabled_free disabled e enabled x m free)
      | inr dropped ↦ rw dropped (mem-push_enabled_free disabled e (enabled ++ d ∷ []) x m free)
    ]

-- Some update of the list does not disable the chain.
abbrev pub Freed : List DisabledChainsUpdate → ℤ → Type 0
Freed updates x = (u : DisabledChainsUpdate) × Memᴰ u updates × (includes u.chain_ids x ≡ false)

push_all_enabled-mem :
    (disabled : List ℤ) (updates : List DisabledChainsUpdate) (enabled : List ℤ) (x : ℤ)
    → Memᴰ x (push_all_enabled disabled updates enabled)
    → Memᴰ x enabled ⊎ Freed updates x
unfolding push_all_enabled
push_all_enabled-mem disabled [] enabled x m = inl m
push_all_enabled-mem disabled (e ∷ updates) enabled x m =
    elim (push_all_enabled-mem disabled updates (push_enabled disabled e enabled) x m) [
      | inr (u, listed, free) ↦ inr (u, Memᴰ.tail listed, free)
      | inl here ↦ elim (push_enabled-mem disabled e enabled x here) [
        | inl before ↦ inl before
        | inr free ↦ inr (e, Memᴰ.head refl, free)
      ]
    ]

mem-push_all_enabled_kept :
    (disabled : List ℤ) (updates : List DisabledChainsUpdate) (enabled : List ℤ) (x : ℤ)
    → Memᴰ x enabled
    → Memᴰ x (push_all_enabled disabled updates enabled)
unfolding push_all_enabled
mem-push_all_enabled_kept disabled [] enabled x m = m
mem-push_all_enabled_kept disabled (e ∷ updates) enabled x m =
    mem-push_all_enabled_kept disabled updates _ x (mem-push_enabled_kept disabled e enabled x m)

mem-push_all_enabled_free :
    (disabled : List ℤ) (updates : List DisabledChainsUpdate) (enabled : List ℤ) (x : ℤ)
    (u : DisabledChainsUpdate)
    → Memᴰ x disabled
    → Memᴰ u updates
    → includes u.chain_ids x ≡ false
    → Memᴰ x (push_all_enabled disabled updates enabled)
unfolding push_all_enabled
mem-push_all_enabled_free disabled [] enabled x u m n free = absurd (Memᴰ.not-nil n)
mem-push_all_enabled_free disabled (e ∷ updates) enabled x u m (Memᴰ.head same) free =
    let here : includes e.chain_ids x ≡ false =
      subst (λ (v : DisabledChainsUpdate). includes v.chain_ids x ≡ false) same free in
    mem-push_all_enabled_kept disabled updates _ x
      (mem-push_enabled_free disabled e enabled x m here)
mem-push_all_enabled_free disabled (e ∷ updates) enabled x u m (Memᴰ.tail n) free =
    mem-push_all_enabled_free disabled updates _ x u m n free

-- The chain is not disabled at the first block, or an update in the range does not disable it.
abbrev pub IsEnabledWithin : ConfigStore → (from to : ℕ) → (chain : ℕ) → Type 0
IsEnabledWithin s from to chain =
    (includes (get_disabled_chains_for_block s from) (pos chain) ≡ false)
    ⊎ ((u : DisabledChainsUpdate) × Memᴰ u s.cumulative_disabled_chain_updates
        × (from ≤ u.block_number)
        × (u.block_number ≤ to)
        × (includes u.chain_ids (pos chain) ≡ false))

mem-map_pos : (xs : List ℕ) (x : ℕ) → Memᴰ x xs → Memᴰ (pos x) (map pos xs)
mem-map_pos [] x m = absurd (Memᴰ.not-nil m)
mem-map_pos (y ∷ xs) x (Memᴰ.head same) = Memᴰ.head (ap pos same)
mem-map_pos (y ∷ xs) x (Memᴰ.tail m) = Memᴰ.tail (mem-map_pos xs x m)

map_pos-mem : (xs : List ℕ) (x : ℕ) → Memᴰ (pos x) (map pos xs) → Memᴰ x xs
map_pos-mem [] x m = absurd (Memᴰ.not-nil m)
map_pos-mem (y ∷ xs) x (Memᴰ.head same) = Memᴰ.head (cc)
map_pos-mem (y ∷ xs) x (Memᴰ.tail m) = Memᴰ.tail (map_pos-mem xs x m)

not-true : (b : Bool) → not b ≡ true → b ≡ false
not-true b h = ground arith

in_block_range-le :
    (from to : ℕ) (u : DisabledChainsUpdate)
    → in_block_range from to u ≡ true
    → (from ≤ u.block_number) × (u.block_number ≤ to)
in_block_range-le from to u h = (ground arith, ground arith)

le-in_block_range :
    (from to : ℕ) (u : DisabledChainsUpdate)
    → from ≤ u.block_number
    → u.block_number ≤ to
    → in_block_range from to u ≡ true
le-in_block_range from to u h k = ground arith

module _ (s : ConfigStore) (from to : ℕ) (indices : List ℕ) where
  abbrev range_enabled : List ℤ
  range_enabled =
      push_all_enabled (get_disabled_chains_for_block s from)
        (filter (in_block_range from to) s.cumulative_disabled_chain_updates)
        (map pos (without (get_disabled_chains_for_block s from) indices))

  range_enabled-IsEnabledWithin :
      (chain : ℕ) → Memᴰ (pos chain) range_enabled → IsEnabledWithin s from to chain
  range_enabled-IsEnabledWithin chain m =
      let disabled = get_disabled_chains_for_block s from in
      let updates = filter (in_block_range from to) s.cumulative_disabled_chain_updates in
      elim (push_all_enabled-mem disabled updates (map pos (without disabled indices)) (pos chain)
        m) [
          | inl here ↦
              let (listed, free) = filter-mem _ indices (map_pos-mem _ chain here) in
              inl (not-true _ free)
          | inr (u, listed, free) ↦
              let (known, inside) = filter-mem (in_block_range from to) _ listed in
              let (low, high) = in_block_range-le from to u inside in
              inr (u, known, low, high, free)
        ]

  mem-range_enabled :
      (chain : ℕ)
      → Memᴰ chain indices
      → IsEnabledWithin s from to chain
      → Memᴰ (pos chain) range_enabled
  mem-range_enabled chain listed within =
      let disabled = get_disabled_chains_for_block s from in
      let updates = filter (in_block_range from to) s.cumulative_disabled_chain_updates in
      elim (Bool-cases (includes disabled (pos chain))) [
        | inr free ↦
            mem-push_all_enabled_kept disabled updates _ (pos chain)
              (mem-map_pos _ chain (mem-filter _ indices listed (rw free refl)))
        | inl off ↦ elim within [
          | inl free ↦ absurd (cc)
          | inr (u, known, low, high, free) ↦
              mem-push_all_enabled_free disabled updates _ (pos chain) u
                (includes-mem disabled (pos chain) off)
                (mem-filter (in_block_range from to) _ known (le-in_block_range from to u low high))
                free
        ]
      ]

-- On a range that does not end before it starts, getEnabledChainsInBlockRange gives exactly those
-- of the chains known at its last block that are not disabled at its first block, or that an update in the range
-- does not disable.
pub get_enabled_chains_in_block_range-mem :
    (s : ConfigStore) (from to : ℕ) (indices : List ℕ)
    → from ≤ to
    → get_chain_id_indices_for_block s to ≡ ok indices
    → (chains : List ℕ) × (get_enabled_chains_in_block_range s from to ≡ ok chains)
      × ((chain : ℕ) → Memᴰ chain chains ↔ (Memᴰ chain indices × IsEnabledWithin s from to chain))
unfolding get_enabled_chains_in_block_range
get_enabled_chains_in_block_range-mem s from to indices le known =
    let enabled = range_enabled s from to indices in
    let chains = filter (λ chain. includes enabled (pos chain)) indices in
    let valid : ltb to from ≡ false = ground arith in
    (
      chains,
      rw (get_enabled_chains_in_block_range, valid, known) refl,
      λ chain. (
        λ m.
            let (listed, on) = filter-mem _ indices m in
            (
              listed,
              range_enabled-IsEnabledWithin s from to indices chain
                  (includes-mem enabled (pos chain) on),
            ),
        λ (listed, within). mem-filter _ indices listed (
            mem-includes enabled (pos chain)
              (mem-range_enabled s from to indices chain listed within)),
      ),
    )

disabled-SparesMainnet :
    (s : ConfigStore) (block : ℕ)
    → All SparesMainnet s.cumulative_disabled_chain_updates
    → includes (get_disabled_chains_for_block s block) (pos 1) ≡ false
unfolding get_disabled_chains_for_block includes
disabled-SparesMainnet s block h =
    elim (Option-cases
      (find? (up_to block) (sort_events_descending s.cumulative_disabled_chain_updates))) [
        | inl e ↦ rw (get_disabled_chains_for_block, e) refl
        | inr (u, e) ↦
            rw (get_disabled_chains_for_block, e)
              (All-mem SparesMainnet _ h
                (find?-descending (up_to block) s.cumulative_disabled_chain_updates e).listed)
      ]

-- In a well-formed store on mainnet, which knows its chain, mainnet is enabled at every block and
-- in every range of blocks, and neither query throws.
pub get_enabled_chains-has_mainnet :
    (s : ConfigStore) (from to : ℕ)
    → IsWellFormed 1 s
    → s.chain_id ≡ some 1
    → from ≤ to
    → ((at_block : List ℕ) × (get_enabled_chains s to ≡ ok at_block) × Memᴰ 1 at_block)
      × ((in_range : List ℕ) × (get_enabled_chains_in_block_range s from to ≡ ok in_range)
          × Memᴰ 1 in_range)
unfolding get_enabled_chains
get_enabled_chains-has_mainnet s from to w known le =
    let indices = get_or (value_of (latest_at s to)) (implicit_indices 1) in
    let (rest, extends) = value_of-latest_at s 1 w to in
    let listed : Memᴰ 1 indices = subst (Memᴰ 1) (sym extends) (Memᴰ.head refl) in
    let found = get_chain_id_indices_for_block-eq s 1 to known in
    let (chains, range, exact) = get_enabled_chains_in_block_range-mem s from to indices le found in
    (
      (
        without (get_disabled_chains_for_block s to) indices,
        rw (get_enabled_chains, found) refl,
        mem-filter _ indices listed (rw (disabled-SparesMainnet s to w.disabled) refl),
      ),
      (chains, range, (exact 1).1 (listed, inl (disabled-SparesMainnet s from w.disabled))),
    )
