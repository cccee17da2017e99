-- ===== src/FreeNode.antt =====
-- src/free_node_manager.rs: the `FreeNodeManager`, over the types `E` of endpoint ids, `G` of group
-- ids, `S` of slave group ids and `C` of coordinator ids. What the source draws from `io_ctx.rand()`
-- is an argument: the ids of the `k`th new slave group. `ctx.is_leader()` and the leadership of the
-- master group are arguments too.
pub mod Process
pub mod Grants
pub mod Counts
use r_universal_db.Base.{
  ℕ, zero, suc, ◌+◌, Bool, true, false, Option, none, some, List, [], ◌∷◌, ◌++◌, ltb, leb, eqb,
  length, if◌then◌else◌, Ord, ◌==◌, ◌≺◌, Result, ok, panic, out_of_fuel, ◌>>=◌, unwrap, add_u32,
}
use r_universal_db.BTreeMap.{BTreeMap, get, insert, remove, keys}
use r_universal_db.BTreeSet.{add, delete}
use r_universal_db.Paxos.Message.{LeadershipId, lid_eq}

abbrev pub heartbeat_dead_threshold : ℕ
heartbeat_dead_threshold = 6

abbrev pub heartbeat_backup_value : ℕ
heartbeat_backup_value = 3

pub data FreeNodeType : Type 0 where
  new_slave_free_node reconfig_free_node : FreeNodeType

pub record FreeNodeManagerPlm (E G S C : Type 0) : Type 0 where
  pub new_slave_groups : BTreeMap S (List E × List C)
  pub new_nodes : List (E × FreeNodeType)
  pub nodes_dead : List E
  pub granted_reconfig_eids : BTreeMap G (List E)

pub record FreeNodeManager (E G : Type 0) : Type 0 where
  pub free_nodes : BTreeMap E FreeNodeType
  pub pending_new_free_nodes : List (E × FreeNodeType)
  pub free_node_heartbeat : BTreeMap E ℕ
  pub requested_reconfig_eids : BTreeMap G ℕ

-- What `handle_plm` does to `io_ctx`: messages to a node, and the trace of a created group.
pub data FreeNodeEffect (E S : Type 0) : Type 0 where
  free_node_registered : E → LeadershipId E → FreeNodeEffect E S
  shutdown_node : E → FreeNodeEffect E S
  slave_created : S → LeadershipId E → FreeNodeEffect E S

-- `*count = value` for every node.
unfoldable pub set_counts : {E : Type 0} → ℕ → BTreeMap E ℕ → BTreeMap E ℕ
set_counts value [] = []
set_counts value ((eid, count) ∷ m) = (eid, value) ∷ set_counts value m

-- `*count += 1` for every node.
unfoldable pub count_up : {E : Type 0} → BTreeMap E ℕ → BTreeMap E ℕ
count_up [] = []
count_up ((eid, count) ∷ m) = (eid, add_u32 count 1) ∷ count_up m

-- The nodes whose count has reached the threshold.
unfoldable pub dead_nodes : {E : Type 0} → BTreeMap E ℕ → List E
dead_nodes [] = []
dead_nodes ((eid, count) ∷ m) =
    if leb heartbeat_dead_threshold count then eid ∷ dead_nodes m else dead_nodes m

-- The first `n` of the nodes that are left, if there are as many.
unfoldable pub take_eids : {E : Type 0} → ℕ → List E → Option (List E × List E)
take_eids zero eids = some ([], eids)
take_eids (suc n) [] = none
take_eids (suc n) (eid ∷ eids) = elim (take_eids n eids) [
  | none ↦ none
  | some (taken, rest) ↦ some (eid ∷ taken, rest)
]

module _ {E G : Type 0} ⦃o : Ord E⦄ where
  unfoldable pub new : FreeNodeManager E G
  new = record {
    free_nodes = [];
    pending_new_free_nodes = [];
    free_node_heartbeat = [];
    requested_reconfig_eids = [];
  }

module _ {E : Type 0} ⦃o : Ord E⦄ where
  -- The loop of `create_reconfig`.
  unfoldable pub fresh_counts : BTreeMap E ℕ → BTreeMap E FreeNodeType → BTreeMap E ℕ
  fresh_counts counts [] = counts
  fresh_counts counts ((eid, node_type) ∷ m) = fresh_counts (insert eid 0 counts) m

  -- Into the set for reconfigurations, or into the one for new slave groups.
  unfoldable pub add_available : E → FreeNodeType → List E × List E → List E × List E
  add_available eid reconfig_free_node (reconfig, slave) = (add eid reconfig, slave)
  add_available eid new_slave_free_node (reconfig, slave) = (reconfig, add eid slave)

  -- The first loop, over the free nodes with a recent heartbeat.
  unfoldable pub add_recent :
      BTreeMap E ℕ → List (E × FreeNodeType) → List E × List E → Result (List E × List E)
  add_recent heartbeat [] available = ok available
  add_recent heartbeat ((eid, node_type) ∷ nodes) available =
      unwrap (get eid heartbeat) >>= λ count. add_recent heartbeat nodes (
        if ltb count heartbeat_backup_value
        then add_available eid node_type available
        else available)

  -- The second loop, over the free nodes and the new ones.
  unfoldable pub add_nodes : List (E × FreeNodeType) → List E × List E → List E × List E
  add_nodes [] available = available
  add_nodes ((eid, node_type) ∷ nodes) available =
      add_nodes nodes (add_available eid node_type available)

  unfoldable pub drop_dead : List E → List E × List E → List E × List E
  drop_dead [] available = available
  drop_dead (eid ∷ dead) (reconfig, slave) = drop_dead dead (delete eid reconfig, delete eid slave)

  -- The nodes that will be free once the PLm is inserted.
  unfoldable pub available_nodes :
      BTreeMap E ℕ
      → BTreeMap E FreeNodeType
      → List (E × FreeNodeType)
      → List E
      → Result (List E × List E)
  available_nodes heartbeat free_nodes new_nodes dead =
      add_recent heartbeat free_nodes ([], []) >>= λ recent.
      ok (drop_dead dead (add_nodes (free_nodes ++ new_nodes) recent))

module _ {E G : Type 0} ⦃og : Ord G⦄ where
  -- The loop over the requests: what is granted, and the requests that stay.
  unfoldable pub grant_requests :
      BTreeMap G ℕ
      → List E
      → BTreeMap G (List E)
      → BTreeMap G ℕ
      → BTreeMap G (List E) × BTreeMap G ℕ
  grant_requests [] eids granted requested = (granted, requested)
  grant_requests ((gid, count) ∷ requests) eids granted requested = elim (take_eids count eids) [
    | none ↦ (granted, requested)
    | some (taken, rest) ↦
        grant_requests requests rest (insert gid taken granted) (remove gid requested)
  ]

module _ {E S C : Type 0} ⦃os : Ord S⦄ where
  -- The loop that makes new slave groups: the `k`th has the ids `sids k` and `cids k`.
  unfoldable pub new_groups :
      ℕ
      → ℕ
      → (ℕ → S)
      → (ℕ → List C)
      → ℕ
      → List E
      → BTreeMap S (List E × List C)
      → Result (BTreeMap S (List E × List C))
  new_groups zero size sids cids k eids groups = out_of_fuel
  new_groups (suc fuel) size sids cids k eids groups = elim (take_eids size eids) [
    | none ↦ ok groups
    | some (taken, rest) ↦
        new_groups fuel size sids cids (k + 1) rest (insert (sids k) (taken, cids k) groups)
  ]

module _ {E G : Type 0} ⦃o : Ord E⦄ where
  unfoldable pub create_reconfig : BTreeMap E FreeNodeType → FreeNodeManager E G
  create_reconfig free_nodes = record {
    free_nodes = free_nodes;
    pending_new_free_nodes = [];
    free_node_heartbeat = fresh_counts [] free_nodes;
    requested_reconfig_eids = [];
  }

  unfoldable pub handle_heartbeat :
      LeadershipId E → FreeNodeManager E G → LeadershipId E → E → FreeNodeManager E G
  handle_heartbeat master_lid f cur_lid sender = elim (get sender f.free_node_heartbeat) [
    | none ↦ f
    | some count ↦
        if lid_eq cur_lid master_lid
        then record f { free_node_heartbeat = insert sender 0 f.free_node_heartbeat }
        else f
  ]

  unfoldable pub handle_timer : Bool → FreeNodeManager E G → FreeNodeManager E G
  handle_timer is_leader f =
      if is_leader then record f { free_node_heartbeat = count_up f.free_node_heartbeat } else f

  unfoldable pub leader_changed : Bool → FreeNodeManager E G → FreeNodeManager E G
  leader_changed is_leader f = if is_leader then f else record f {
    pending_new_free_nodes = [];
    free_node_heartbeat = set_counts heartbeat_backup_value f.free_node_heartbeat;
    requested_reconfig_eids = [];
  }

  -- `self.free_nodes.remove(&eid); self.free_node_heartbeat.remove(&eid);`
  unfoldable pub remove_node : FreeNodeManager E G → E → FreeNodeManager E G
  remove_node f eid = record f {
    free_nodes = remove eid f.free_nodes;
    free_node_heartbeat = remove eid f.free_node_heartbeat;
  }

  unfoldable pub remove_nodes : FreeNodeManager E G → List E → FreeNodeManager E G
  remove_nodes f [] = f
  remove_nodes f (eid ∷ eids) = remove_nodes (remove_node f eid) eids
