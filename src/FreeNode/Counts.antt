-- ===== src/FreeNode/Counts.antt =====
-- The heartbeat counts of a `FreeNodeManager`, which `process` unwraps.
use r_universal_db.Base.{◌≡◌, is_none, List, Ord}
use r_universal_db.BTreeMap.{BTreeMap, get}
use r_universal_db.FreeNode.{FreeNodeManager}

module _ {E G : Type 0} ⦃o : Ord E⦄ where
  -- Exactly the free nodes have a heartbeat count.
  abbrev pub HasCounts : FreeNodeManager E G → Type 0
  HasCounts f = (eid : E) → is_none (get eid f.free_node_heartbeat) ≡ is_none (get eid f.free_nodes)
