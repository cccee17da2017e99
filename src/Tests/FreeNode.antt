-- ===== src/Tests/FreeNode.antt =====
-- The theorems on the free node manager at two free nodes, 4 and 5, of which 5 is dead.
use r_universal_db.Base.{ℕ, ◌≡◌, refl, not, ◌&&◌, List, [], ◌∷◌, ◌++◌, nat_ord, arith, Keeps, ok}
use r_universal_db.BTreeMap.{get}
use r_universal_db.BTreeSet.{member, add}
use r_universal_db.FreeNode.{
  FreeNodeManager, FreeNodeType, reconfig_free_node, new_slave_free_node, available_nodes,
  add_recent, add_nodes, add_available, drop_dead, new_groups,
}
use r_universal_db.FreeNode.Grants.{
  has_node, of_type, available_nodes_lem, AllSized, new_groups_lem,
}

abbrev free : List (ℕ × FreeNodeType)
free = (4, reconfig_free_node) ∷ (5, reconfig_free_node) ∷ []

available_nodes_example :
    Keeps
      (λ available.
        (eid : ℕ) (t : FreeNodeType)
        → member eid (of_type t available)
          ≡ (not (member eid (5 ∷ [])) && has_node eid t (free ++ (6, new_slave_free_node) ∷ [])))
      (available_nodes ((4, 4) ∷ (5, 6) ∷ []) free ((6, new_slave_free_node) ∷ []) (5 ∷ []))
available_nodes_example =
    available_nodes_lem ((4, 4) ∷ (5, 6) ∷ []) free ((6, new_slave_free_node) ∷ []) (5 ∷ [])

-- Node 4 was silent for four periods, the backup value is three, and still it is available.
silent_is_available :
    available_nodes {E = ℕ} ((4, 4) ∷ []) ((4, reconfig_free_node) ∷ []) [] [] ≡ ok (4 ∷ [], [])
unfolding available_nodes add_recent add_nodes add_available drop_dead add get
silent_is_available = refl

new_groups_example :
    (made : List (ℕ × (List ℕ × List ℕ))) × (new_groups 6 2
        (λ k. k)
        (λ k. k ∷ [])
        0
        (4 ∷ 5 ∷ 6 ∷ 7 ∷ 8 ∷ [])
        []
      ≡ ok made)
    × AllSized 2 made
new_groups_example = new_groups_lem 2 (λ k. k) (λ k. k ∷ []) (4 ∷ 5 ∷ 6 ∷ 7 ∷ 8 ∷ []) (omega arith)

-- Node 5 is dead, node 6 is pending, and group 9 wants a node.
abbrev manager : FreeNodeManager ℕ ℕ
manager = record {
  free_nodes = free;
  pending_new_free_nodes = (6, new_slave_free_node) ∷ [];
  free_node_heartbeat = (4, 1) ∷ (5, 6) ∷ [];
  requested_reconfig_eids = (9, 1) ∷ [];
}
