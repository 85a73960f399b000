-- ===== src/Events.antt =====
-- interfaces/Common.ts and the orderings of utils/EventUtils.ts.
pub mod Order
pub mod Pages
mod Tests
use acrossclone.Prelude.{ℕ, ◌≡◌, Bool, List, map, not, ltb, ◌==◌, nat_eq, if◌then◌else◌}
use acrossclone.Prelude.Int.{ℤ, sub_ℕ}
use acrossclone.Prelude.Sort.{sort_by}
use Prim.Native.String.{String}

-- What the orderings read of an event: its block, its transaction in the block, its log in that.
pub record EventPlace : Type 0 where
  pub block_number : ℕ
  pub transaction_index : ℕ
  pub log_index : ℕ

pub record SortableEvent : Type 0 where
  pub place : EventPlace
  pub open place use *
  pub transaction_hash : String

-- `T extends SortableEvent`
pub record Sortable {ℓ} (A : Type ℓ) : Type ℓ where
  pub place : A → EventPlace

-- The block number of an event of such a type.
abbrev pub block_of {ℓ} : {A : Type ℓ} ⦃s : Sortable A⦄ → A → ℕ
block_of ⦃s⦄ x = (s.place x).block_number

instance abbrev pub place_sortable : Sortable EventPlace
place_sortable = record { place = λ p. p }

instance abbrev pub event_sortable : Sortable SortableEvent
event_sortable = record { place = λ e. e.place }

-- The comparator of `sortEventsAscendingInPlace`.
unfoldable pub compare_ascending : EventPlace → EventPlace → ℤ
compare_ascending ex ey =
    if not (ex.block_number == ey.block_number)
    then sub_ℕ ex.block_number ey.block_number
    else if not (ex.transaction_index == ey.transaction_index)
    then sub_ℕ ex.transaction_index ey.transaction_index
    else sub_ℕ ex.log_index ey.log_index

-- The comparator of `sortEventsDescendingInPlace`.
unfoldable pub compare_descending : EventPlace → EventPlace → ℤ
compare_descending ex ey =
    if not (ex.block_number == ey.block_number)
    then sub_ℕ ey.block_number ex.block_number
    else if not (ex.transaction_index == ey.transaction_index)
    then sub_ℕ ey.transaction_index ex.transaction_index
    else sub_ℕ ey.log_index ex.log_index

-- Whether `ex` is older than `ey`.
unfoldable pub is_event_older : EventPlace → EventPlace → Bool
is_event_older ex ey =
    if not (ex.block_number == ey.block_number)
    then ltb ex.block_number ey.block_number
    else if not (ex.transaction_index == ey.transaction_index)
    then ltb ex.transaction_index ey.transaction_index
    else ltb ex.log_index ey.log_index

module _ {ℓ} {A : Type ℓ} ⦃s : Sortable A⦄ where
  unfoldable pub sort_events_ascending : List A → List A
  unfolding sort_by compare_ascending
  sort_events_ascending = sort_by λ x y. compare_ascending (s.place x) (s.place y)

  unfoldable pub sort_events_descending : List A → List A
  unfolding sort_by compare_descending
  sort_events_descending = sort_by λ x y. compare_descending (s.place x) (s.place y)
