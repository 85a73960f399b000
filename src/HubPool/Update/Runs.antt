-- ===== src/HubPool/Update/Runs.antt =====
-- A client from its constructor on, through any number of updates.
use acrossclone.Prelude.{ℕ, ◌-◌, ◌≤◌, ◌≡◌, refl, Bool, false, List, [], Option, none, min}
use acrossclone.HubPool.{HubPool}
use acrossclone.HubPool.Events.{HubPoolNode, HubPoolEvents, all_events}
use acrossclone.HubPool.Update.{update}
use acrossclone.HubPool.Update.Fetch.{IsHonestNode, IsOrderedLog}
use acrossclone.HubPool.Update.Mirror.{IsMirror}
use acrossclone.HubPool.Update.Preserves.{update-IsMirror}
use acrossclone.Prelude.Search.{filter}
use acrossclone.Prelude.Dict.{lookup}
use acrossclone.HubPool.Update.Steps.{split_all}

pub record HubPoolConfig : Type 0 where
  pub deployment_block : ℕ
  pub chain_id : ℕ
  pub from_block : ℕ
  pub to_block : Option ℕ
  pub max_block_look_back : Option ℕ
  pub ignored_hub_executed_bundles : List ℕ
  pub ignored_hub_proposed_bundles : List ℕ

-- The constructor. `Math.min(deploymentBlock - 1, 0)` is 0 for a deployment block above 0; for block
-- 0 it is -1, where the model has 0.
unfoldable pub new_hub_pool_client : HubPoolConfig → HubPool
new_hub_pool_client c = record {
  base = record {
    first_block_to_search = c.from_block;
    latest_block_searched = min (c.deployment_block - 1) 0;
    search_to_block = c.to_block;
    max_block_look_back = c.max_block_look_back;
    is_updated = false;
  };
  l1_tokens_to_destination_tokens = [];
  l1_tokens = [];
  lp_tokens = [];
  proposed_root_bundles = [];
  canceled_root_bundles = [];
  disputed_root_bundles = [];
  executed_root_bundles = [];
  cross_chain_contracts = [];
  l1_tokens_to_destination_tokens_with_block = [];
  pending_root_bundle = none;
  current_time = none;
  deployment_block = c.deployment_block;
  chain_id = c.chain_id;
  ignored_hub_executed_bundles = c.ignored_hub_executed_bundles;
  ignored_hub_proposed_bundles = c.ignored_hub_proposed_bundles;
}

new_hub_pool_client-IsMirror :
    (log : HubPoolEvents) (c : HubPoolConfig)
    → c.deployment_block ≤ c.from_block
    → IsMirror log c.from_block (new_hub_pool_client c)
unfolding new_hub_pool_client filter split_all lookup
new_hub_pool_client-IsMirror log c p = record {
  deployed = p;
  reached = λ e. cc;
  next = refl;
  proposed = refl;
  canceled = refl;
  disputed = refl;
  executed = refl;
  contracts = λ chain. refl;
  mappings = λ l1_token chain. refl;
}

-- The clients that updates for all events lead to, each of which returns. The node may be in
-- another state at each update, but always serves the log.
pub data Run (log : HubPoolEvents) (c : HubPoolConfig) : HubPool → Type 0 where
  created : Run log c (new_hub_pool_client c)
  then_update :
      {h h' : HubPool}
      → Run log c h
      → (node : HubPoolNode) (store_updated : Bool) → IsHonestNode log node
      → update node store_updated all_events h ≡ (h', none)
      → Run log c h'

-- After any number of updates that return, from the constructor on, the client is a mirror of the
-- log up to the last block it has searched, if at each update the node serves that log, which lists
-- each kind of event by block, and the first search does not start before the deployment.
pub Run-IsMirror :
    (log : HubPoolEvents) (c : HubPoolConfig) (h : HubPool)
    → c.deployment_block ≤ c.from_block
    → IsOrderedLog log
    → Run log c h
    → IsMirror log c.from_block h
Run-IsMirror log c h p ordered created = new_hub_pool_client-IsMirror log c p
Run-IsMirror log c h' p ordered (then_update {h = h} run node store_updated honest e) =
    update-IsMirror log c.from_block node store_updated h h' honest ordered
      (Run-IsMirror log c h p ordered run) e
