-- ===== src/HubPool/Balances/Newest.antt =====
-- Every client that its updates lead to has a running balance for every token, chain and block.
use Prim.Native.String.{String}
use acrossclone.Prelude.{
  ℕ, zero, suc, ◌*◌, ◌≤◌, ◌<◌, ◌≡◌, refl, sym, ap, ◌∙◌, subst, true, false, ◌||◌, List, [], ◌∷◌,
  map, some, nat_eq, string_eq, ◌==◌, if◌then◌else◌, ltb, Bool-cases, Option-cases, Result-cases,
  ◌⊎◌, ltb→lt, inl, inr, ok, arith, ok-inj, length, get_elem?, take, drop, length-take, length-drop,
  Memᴰ,
}
use acrossclone.Prelude.Int.{ℤ, pos}
use acrossclone.Prelude.Search.{includes, index_of, index_of-get_elem?, index_of-none, find?}
use acrossclone.Prelude.Text.{to_lower_case}
use acrossclone.Arrays.Laws.{lt_of_get_elem?}
use acrossclone.Events.{sort_events_descending}
use acrossclone.Events.Order.{IsNewest, find?-descending, find?-descending_none}
use acrossclone.HubPool.{HubPool, ExecutedRootBundle, executed_sortable}
use acrossclone.HubPool.Events.{HubPoolEvents}
use acrossclone.HubPool.Balances.{
  lower_tokens, is_balance_leaf, get_running_balance_for_token,
  get_running_balance_before_block_for_chain,
}
use acrossclone.HubPool.Loops.{split_balances}
use acrossclone.HubPool.Update.Fetch.{IsOrderedLog}
use acrossclone.HubPool.Update.Steps.{split_all}
use acrossclone.HubPool.Update.Runs.{HubPoolConfig, Run, Run-IsMirror}

-- A leaf with one balance of each kind for each of its tokens.
abbrev pub IsSplit : ExecutedRootBundle → Type 0
IsSplit leaf =
    (length leaf.running_balances ≡ length leaf.l1_tokens)
    × (length leaf.incentive_balances ≡ length leaf.l1_tokens)

length-map : {A : Type 0} {B : Type 0} (f : A → B) (xs : List A) → length (map f xs) ≡ length xs
length-map f [] = refl
length-map f (x ∷ xs) = ap suc (length-map f xs)

get_elem?-of_lt :
    {A : Type 0} (xs : List A) (i : ℕ) → i < length xs → (x : A) × (get_elem? xs i ≡ some x)
get_elem?-of_lt [] i p = absurd (omega arith)
get_elem?-of_lt (x ∷ xs) zero p = (x, refl)
get_elem?-of_lt (x ∷ xs) (suc i) p = get_elem?-of_lt xs i (omega arith)

mem-cons : {A : Type 0} {x y : A} {ys : List A} → Memᴰ x (y ∷ ys) → (x ≡ y) ⊎ Memᴰ x ys
mem-cons (Memᴰ.head same) = inl same
mem-cons (Memᴰ.tail m) = inr m

balances_cases :
    (e : ExecutedRootBundle)
    → (length e.running_balances == length e.l1_tokens
        || length e.running_balances == length e.l1_tokens * 2)
      ≡ true
    → (length e.running_balances ≡ length e.l1_tokens)
      ⊎ (length e.running_balances ≡ length e.l1_tokens * 2)
balances_cases e fine = ground arith

not_less : (a b : ℕ) → ltb a b ≡ false → b ≤ a
not_less a b h = ground arith

incentive_length :
    (e : ExecutedRootBundle)
    → (length e.running_balances == length e.l1_tokens
        || length e.running_balances == length e.l1_tokens * 2)
      ≡ true
    → length (
        if ltb (length e.l1_tokens) (length e.running_balances)
        then drop (length e.l1_tokens) e.running_balances
        else map (λ _. pos 0) e.running_balances)
      ≡ length e.l1_tokens
incentive_length e fine =
    let n = length e.l1_tokens in
    elim (Bool-cases (ltb n (length e.running_balances))) [
      | inl more ↦
          rw more (
            omega (arith, length-drop n e.running_balances, balances_cases e fine, ltb→lt n _ more))
      | inr same ↦ rw same (
          omega (
            arith,
            length-map (λ (_ : ℤ). pos 0) e.running_balances,
            balances_cases e fine,
            not_less n _ same,
          ))
    ]

split_balances-IsSplit : (e leaf : ExecutedRootBundle) → split_balances e ≡ ok leaf → IsSplit leaf
unfolding split_balances
split_balances-IsSplit e leaf h =
    let n = length e.l1_tokens in
    let balances = length e.running_balances in
    elim (Bool-cases (balances == n || balances == n * 2)) [
      | inr wrong ↦ let clash = (rw (split_balances, wrong) at h) in cc
      | inl fine ↦
          let same = ok-inj (rw (split_balances, fine) at h) in
          let first : length (take n e.running_balances) ≡ n =
            omega (arith, length-take n e.running_balances, balances_cases e fine) in
          subst IsSplit same (first, incentive_length e fine)
    ]

split_all-IsSplit :
    (ignored : List ℕ) (events : List ExecutedRootBundle) (leaf : ExecutedRootBundle)
    → Memᴰ leaf (split_all ignored events)
    → IsSplit leaf
unfolding split_all
split_all-IsSplit ignored [] leaf m = elim m [ ]
split_all-IsSplit ignored (e ∷ events) leaf m =
    let rest = split_all-IsSplit ignored events leaf in
    elim (Bool-cases (includes ignored e.block_number)) [
      | inl skipped ↦ rest (rw skipped at m)
      | inr kept ↦ elim (Result-cases (split_balances e)) [
        | inl (head, found) ↦ elim (mem-cons (rw (kept, found) at m)) [
          | inl same ↦ subst IsSplit (sym same) (split_balances-IsSplit e head found)
          | inr later ↦ rest later
        ]
        | inr (thrown, found) ↦ rest (rw (kept, found) at m)
      ]
    ]

-- A leaf that is split gives both balances of each of its tokens.
abbrev pub GivesBalances : String → ExecutedRootBundle → ℤ → ℤ → Type 0
GivesBalances l1_token leaf running incentive =
    (index : ℕ) × (get_elem? (lower_tokens leaf) index ≡ some (to_lower_case l1_token))
    × (get_elem? leaf.running_balances index ≡ some running)
    × (get_elem? leaf.incentive_balances index ≡ some incentive)

is_balance_leaf-includes :
    (block chain : ℕ) (l1_token : String) (leaf : ExecutedRootBundle)
    → is_balance_leaf block chain l1_token leaf ≡ true
    → includes (lower_tokens leaf) (to_lower_case l1_token) ≡ true
unfolding is_balance_leaf
is_balance_leaf-includes block chain l1_token leaf h = ground arith

get_running_balance_for_token-GivesBalances :
    (l1_token : String) (leaf : ExecutedRootBundle)
    → IsSplit leaf
    → includes (lower_tokens leaf) (to_lower_case l1_token) ≡ true
    → (running : ℤ) × (incentive : ℤ) × (get_running_balance_for_token l1_token (some leaf)
        ≡ (some running, some incentive))
      × GivesBalances l1_token leaf running incentive
unfolding get_running_balance_for_token
get_running_balance_for_token-GivesBalances l1_token leaf split listed =
    let tokens = lower_tokens leaf in
    let token = to_lower_case l1_token in
    elim (Option-cases (index_of tokens token)) [
      | inl missing ↦ let clash = sym listed ∙ index_of-none tokens token missing in cc
      | inr (index, found) ↦
          let at = index_of-get_elem? tokens token found in
          let bound = lt_of_get_elem? tokens index at in
          let size = length-map to_lower_case leaf.l1_tokens in
          let (running, r) = get_elem?-of_lt leaf.running_balances index (omega (arith, split.0)) in
          let (incentive, i) =
            get_elem?-of_lt leaf.incentive_balances index (omega (arith, split.1)) in
          (
            running,
            incentive,
            rw (get_running_balance_for_token, found, r, i) refl,
            (index, at, r, i),
          )
    ]

-- What a running balance is: the balances of a newest leaf by the block for the chain and the
-- token, or 0 if there is no such leaf.
abbrev pub IsRunningBalance :
    HubPool → (block chain : ℕ) → String → (running incentive : ℤ) → Type 0
IsRunningBalance h block chain l1_token running incentive =
    ((leaf : ExecutedRootBundle) × IsNewest (is_balance_leaf block chain l1_token)
        h.executed_root_bundles leaf
      × GivesBalances l1_token leaf running incentive)
    ⊎ (((leaf : ExecutedRootBundle)
          → Memᴰ leaf h.executed_root_bundles
          → is_balance_leaf block chain l1_token leaf ≡ false)
        × (running ≡ pos 0)
        × (incentive ≡ pos 0))

-- For every client that updates from an ordered log lead to, whose first search does not start
-- before the deployment, a running balance is defined for every block, chain and
-- token: it is that of a newest leaf by the block that names the token, or 0 if there is none.
pub get_running_balance_before_block_for_chain-IsRunningBalance :
    (log : HubPoolEvents) (c : HubPoolConfig) (h : HubPool) (block chain : ℕ) (l1_token : String)
    → c.deployment_block ≤ c.from_block
    → IsOrderedLog log
    → Run log c h
    → (running : ℤ) × (incentive : ℤ) × (get_running_balance_before_block_for_chain h block chain
          l1_token
        ≡ (some running, some incentive))
      × IsRunningBalance h block chain l1_token running incentive
unfolding get_running_balance_before_block_for_chain
get_running_balance_before_block_for_chain-IsRunningBalance log c h block chain l1_token p ordered
      run =
    let m = Run-IsMirror log c h p ordered run in
    let test = is_balance_leaf block chain l1_token in
    let leaves = h.executed_root_bundles in
    elim (Option-cases (find? test (sort_events_descending leaves))) [
      | inl missing ↦ (
        pos 0,
        pos 0,
        rw (get_running_balance_before_block_for_chain, missing) refl,
        inr (find?-descending_none test leaves missing, refl, refl),
      )
      | inr (leaf, found) ↦
          let newest = find?-descending test leaves found in
          let split =
            split_all-IsSplit h.ignored_hub_executed_bundles _ leaf
              (subst (λ ls. Memᴰ leaf ls) m.executed newest.listed) in
          let listed = is_balance_leaf-includes block chain l1_token leaf newest.passes in
          let (running, incentive, same, gives) =
            get_running_balance_for_token-GivesBalances l1_token leaf split listed in
          (
            running,
            incentive,
            rw (get_running_balance_before_block_for_chain, found) same,
            inl (leaf, newest, gives),
          )
    ]
