-- ===== src/FreeNode/Process.antt =====
-- src/free_node_manager.rs: the requests to a `FreeNodeManager`, `handle_plm` and `process`. The
-- order of `(EndpointId, FreeNodeType)`, which sorts the pending nodes, is an instance argument.
use mathlib.Core.List.{map}
use r_universal_db.Base.{
  ℕ, suc, Bool, List, [], ◌∷◌, ◌++◌, length, if◌then◌else◌, Ord, Result, ok, panic, ◌>>=◌,
}
use r_universal_db.BTreeMap.{BTreeMap, insert}
use r_universal_db.BTreeSet.{add}
use r_universal_db.Paxos.Message.{LeadershipId}
use r_universal_db.FreeNode.{
  FreeNodeType, FreeNodeManagerPlm, FreeNodeManager, FreeNodeEffect, free_node_registered,
  shutdown_node, slave_created, dead_nodes, available_nodes, grant_requests, new_groups,
  remove_nodes,
}

-- `request_new_eids`, and the entry of a node that registers.
unfoldable pub request_new_eids :
    {E G : Type 0} ⦃og : Ord G⦄ → FreeNodeManager E G → G → ℕ → FreeNodeManager E G
request_new_eids f gid count = record f {
  requested_reconfig_eids = insert gid count f.requested_reconfig_eids;
}

unfoldable pub handle_register :
    {E G : Type 0} ⦃op : Ord (E × FreeNodeType)⦄
    → FreeNodeManager E G
    → E
    → FreeNodeType
    → FreeNodeManager E G
handle_register f sender node_type = record f {
  pending_new_free_nodes = add (sender, node_type) f.pending_new_free_nodes;
}

-- A message to every node of a list, if this node is the leader.
abbrev pub to_all :
    {E S : Type 0} → Bool → (E → FreeNodeEffect E S) → List E → List (FreeNodeEffect E S)
to_all is_leader message eids = if is_leader then map message eids else []

module _ {E G : Type 0} ⦃o : Ord E⦄ where
  unfoldable pub add_new_nodes : FreeNodeManager E G → List (E × FreeNodeType) → FreeNodeManager E G
  add_new_nodes f [] = f
  add_new_nodes f ((eid, node_type) ∷ nodes) =
      add_new_nodes
        (record f {
          free_nodes = insert eid node_type f.free_nodes;
          free_node_heartbeat = insert eid 0 f.free_node_heartbeat;
        })
        nodes

  unfoldable pub remove_granted : FreeNodeManager E G → BTreeMap G (List E) → FreeNodeManager E G
  remove_granted f [] = f
  remove_granted f ((gid, eids) ∷ granted) = remove_granted (remove_nodes f eids) granted

module _ {E G S C : Type 0} ⦃o : Ord E⦄ where
  -- `eids.get(0).unwrap()` panics for a group without nodes.
  unfoldable pub remove_groups :
      FreeNodeManager E G
      → BTreeMap S (List E × List C)
      → List (FreeNodeEffect E S)
      → Result (FreeNodeManager E G × List (FreeNodeEffect E S))
  remove_groups f [] effects = ok (f, effects)
  remove_groups f ((sid, ([], cids)) ∷ groups) effects = panic
  remove_groups f ((sid, (eid ∷ eids, cids)) ∷ groups) effects =
      remove_groups (remove_nodes f (eid ∷ eids)) groups
        (effects ++ slave_created sid (record { gen = 0; eid = eid }) ∷ [])

  unfoldable pub handle_plm :
      Bool
      → LeadershipId E
      → FreeNodeManager E G
      → FreeNodeManagerPlm E G S C
      → Result (FreeNodeManager E G × List (FreeNodeEffect E S) × BTreeMap S (List E × List C))
  handle_plm is_leader master_lid f plm =
      let registered =
        to_all is_leader (λ eid. free_node_registered eid master_lid)
          (map (λ n. n.0) plm.new_nodes) in
      let shut = to_all is_leader (λ eid. shutdown_node eid) plm.nodes_dead in
      let f' =
        remove_granted (remove_nodes (add_new_nodes f plm.new_nodes) plm.nodes_dead)
          plm.granted_reconfig_eids in
      remove_groups f' plm.new_slave_groups (registered ++ shut) >>= λ r.
      ok (r.0, r.1, plm.new_slave_groups)

module _ {E G S C : Type 0} ⦃o : Ord E⦄ ⦃og : Ord G⦄ ⦃os : Ord S⦄ where
  -- The new manager and the PLm; the nodes granted for reconfigurations, which are returned, are a
  -- field of the PLm. A `slave_group_size` of 0 loops for ever in the source.
  unfoldable pub process :
      ℕ
      → (ℕ → S)
      → (ℕ → List C)
      → FreeNodeManager E G
      → Result (FreeNodeManager E G × FreeNodeManagerPlm E G S C)
  process slave_group_size sids cids f =
      let dead = dead_nodes f.free_node_heartbeat in
      available_nodes f.free_node_heartbeat f.free_nodes f.pending_new_free_nodes dead
      >>= λ available.
          let granted =
            grant_requests f.requested_reconfig_eids available.0 [] f.requested_reconfig_eids in
          new_groups (suc (length available.1)) slave_group_size sids cids 0 available.1 []
          >>= λ groups. ok (
            record f { pending_new_free_nodes = []; requested_reconfig_eids = granted.1 },
            record {
              new_slave_groups = groups;
              new_nodes = f.pending_new_free_nodes;
              nodes_dead = dead;
              granted_reconfig_eids = granted.0;
            },
          )
