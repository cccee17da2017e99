-- ===== src/Network/Delivery.antt =====
-- When a `NetworkDriver` delivers: at once from the known leadership, and after the change of
-- leadership, in the order of arrival, what was held back.
use r_universal_db.Base.{ℕ, ◌≤◌, ◌<◌, ◌≡◌, ◌↔◌, some, List, [], ◌∷◌, Ord, arith, Result, ok, ◌>>=◌}
use r_universal_db.BTreeMap.{get}
use r_universal_db.Paxos.Message.{LeadershipId}
use r_universal_db.Network.{
  RemoteMessage, VersionedValue, RemoteLeaderChanged, LeaderMap, NetworkDriver, Received,
  sync_groups, sort_message, receive,
}

module _ {G E P : Type 0} ⦃o : Ord G⦄ where
  -- For a message to the current leadership of this group, from a group with a buffer: it is
  -- delivered exactly if nothing of its group is held back and it has the generation that the
  -- leader map has for the group.
  pub receive-delivers_iff :
      (this_gid : G) (leader_map : VersionedValue (LeaderMap G E))
      (changes : List (RemoteLeaderChanged G E)) (d : NetworkDriver G E P) (m : RemoteMessage G E P)
      (this_lid cur : LeadershipId E) (buffer : List (RemoteMessage G E P)) (r : Received G E P)
      → get this_gid leader_map.value ≡ some this_lid
      → this_lid.gen ≤ m.to_lid.gen
      → get m.from_gid leader_map.value ≡ some cur
      → get m.from_gid (sync_groups d leader_map).network_buffer ≡ some buffer
      → receive this_gid leader_map changes d m ≡ ok r
      → (r.delivered ≡ some m.payload) ↔ ((buffer ≡ []) × (m.from_lid.gen ≡ cur.gen))
  unfolding receive sort_message
  receive-delivers_iff this_gid leader_map changes d m this_lid cur [] r a b c e h = ground arith
  receive-delivers_iff this_gid leader_map changes d m this_lid cur (x ∷ buffer) r a b c e h =
      ground arith

  -- The messages of a sequence, received one after the other.
  unfoldable pub receive_all :
      G
      → VersionedValue (LeaderMap G E)
      → Received G E P
      → List (RemoteMessage G E P)
      → Result (Received G E P)
  receive_all this_gid leader_map r [] = ok r
  receive_all this_gid leader_map r (m ∷ ms) =
      receive this_gid leader_map r.changes r.driver m >>= λ s. receive_all this_gid leader_map s ms

  -- A message to this node's leadership from the generation `gen` of the group `gid`.
  abbrev pub IsFrom : G → ℕ → LeadershipId E → RemoteMessage G E P → Type 0
  IsFrom gid gen this_lid m =
      (m.from_gid ≡ gid) × (m.from_lid.gen ≡ gen) × (this_lid.gen ≤ m.to_lid.gen)

  module _ (this_gid : G) (leader_map : VersionedValue (LeaderMap G E))
      (this_lid cur : LeadershipId E) (gid : G) (gen : ℕ)
      (known : get this_gid leader_map.value ≡ some this_lid)
      (leader : get gid leader_map.value ≡ some cur) (newer : cur.gen < gen) where
    -- What is held back for the group.
    abbrev Holds : NetworkDriver G E P → List (RemoteMessage G E P) → Type 0
    Holds d ms = (leader_map.gen ≤ d.gen) × (get gid d.network_buffer ≡ some ms)
