-- ===== src/BaseClient.antt =====
-- clients/BaseAbstractClient.ts: how far a client has searched, and the range of its next search.
use acrossclone.Prelude.{
  ℕ, ◌≤◌, ◌≡◌, Bool, ◌&&◌, not, Option, none, some, ltb, if◌then◌else◌, arith, Result, ok, err, ◌⊎◌,
  inl, inr,
}
use acrossclone.Events.Pages.{EventSearchConfig}

pub data UpdateFailureReason : Type 0 where
  already_updated bad_request rpc_error : UpdateFailureReason

pub data BaseClientError : Type 0 where
  invalid_search_config not_reversible : BaseClientError

-- `search_to_block` and `max_block_look_back` are those of `eventSearchConfig`.
pub record BaseClient : Type 0 where
  pub first_block_to_search : ℕ
  pub latest_block_searched : ℕ
  pub search_to_block : Option ℕ
  pub max_block_look_back : Option ℕ
  pub is_updated : Bool

-- The setter of `isUpdated`.
unfoldable pub set_is_updated : BaseClient → Bool → Result BaseClientError BaseClient
set_is_updated c value =
    if c.is_updated && not value then err not_reversible else ok (record c { is_updated = value })

abbrev pub search_config : BaseClient → (to_block : ℕ) → EventSearchConfig
search_config c to_block = record {
  from_block = c.first_block_to_search;
  to_block = to_block;
  max_block_look_back = c.max_block_look_back;
}

-- `block_number` is what `provider.getBlockNumber()` answers.
unfoldable pub update_search_config :
    BaseClient
    → (block_number : ℕ) → Result BaseClientError (EventSearchConfig ⊎ UpdateFailureReason)
update_search_config c block_number = elim c.search_to_block [
  | some to_block ↦
      if ltb to_block c.first_block_to_search
      then err invalid_search_config
      else ok (inl (search_config c to_block))
  | none ↦
      if ltb block_number c.first_block_to_search
      then ok (inr already_updated)
      else ok (inl (search_config c block_number))
]

-- A search that `update_search_config` gives starts at the client's first block to search and does
-- not end before it; it ends at the block that was set, or at the provider's.
pub update_search_config-range :
    (c : BaseClient) (block_number : ℕ) (search : EventSearchConfig)
    → update_search_config c block_number ≡ ok (inl search)
    → (search ≡ search_config c search.to_block) × (c.first_block_to_search ≤ search.to_block)
unfolding update_search_config
update_search_config-range c block_number search e = ground arith
