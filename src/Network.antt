-- ===== src/Network.antt =====
-- src/network_driver.rs: the `NetworkDriver`, over the types `G` of group ids, `E` of endpoint ids
-- and `P` of payloads. The `debug_assert!`s are no part of a release build: they are hypotheses.
pub mod Buffers
pub mod Delivery
use r_universal_db.Base.{
  ℕ, Bool, true, false, Option, none, some, List, [], ◌∷◌, ◌++◌, map, ltb, eqb, if◌then◌else◌,
  is_some, Ord, Result, ok, panic, ◌>>=◌, unwrap,
}
use r_universal_db.BTreeMap.{BTreeMap, get, insert, remove}
use r_universal_db.Paxos.Message.{LeadershipId}

pub record RemoteMessage (G E P : Type 0) : Type 0 where
  pub payload : P
  pub from_lid : LeadershipId E
  pub from_gid : G
  pub to_lid : LeadershipId E
  pub to_gid : G

-- src/common.rs: a value and the generation that counts its updates.
pub record VersionedValue (T : Type 0) : Type 0 where
  pub gen : ℕ
  pub value : T

pub record RemoteLeaderChanged (G E : Type 0) : Type 0 where
  pub gid : G
  pub lid : LeadershipId E

abbrev pub LeaderMap : Type 0 → Type 0 → Type 0
LeaderMap G E = BTreeMap G (LeadershipId E)

abbrev pub Buffer : Type 0 → Type 0 → Type 0 → Type 0
Buffer G E P = BTreeMap G (List (RemoteMessage G E P))

pub record NetworkDriver (G E P : Type 0) : Type 0 where
  pub network_buffer : Buffer G E P
  pub gen : ℕ

-- What `receive` leaves: the driver, `ctx.remote_leader_changes`, and the payload to deliver.
pub record Received (G E P : Type 0) : Type 0 where
  pub driver : NetworkDriver G E P
  pub changes : List (RemoteLeaderChanged G E)
  pub delivered : Option P

module _ {G E P : Type 0} where
  -- The loop of `leader_changed`.
  unfoldable pub clear_buffers : Buffer G E P → Buffer G E P
  clear_buffers [] = []
  clear_buffers ((gid, buffer) ∷ m) = (gid, []) ∷ clear_buffers m

  unfoldable pub leader_changed : NetworkDriver G E P → NetworkDriver G E P
  leader_changed d = record d { network_buffer = clear_buffers d.network_buffer }

module _ {G E P : Type 0} ⦃o : Ord G⦄ where
  -- The loop of `new`.
  unfoldable pub empty_buffers : Buffer G E P → LeaderMap G E → Buffer G E P
  empty_buffers m [] = m
  empty_buffers m ((gid, lid) ∷ leaders) = empty_buffers (insert gid [] m) leaders

  unfoldable pub new : VersionedValue (LeaderMap G E) → NetworkDriver G E P
  new leader_map = record {
    network_buffer = empty_buffers [] leader_map.value;
    gen = leader_map.gen;
  }

  -- `receive`: a buffer for each group of the leader map that has none.
  unfoldable pub add_groups : Buffer G E P → LeaderMap G E → Buffer G E P
  add_groups m [] = m
  add_groups m ((gid, lid) ∷ leaders) =
      add_groups (if is_some (get gid m) then m else insert gid [] m) leaders

  -- `removed_gids`: the groups with a buffer that the leader map does not have.
  unfoldable pub removed_groups : LeaderMap G E → Buffer G E P → List G
  removed_groups leaders [] = []
  removed_groups leaders ((gid, buffer) ∷ m) =
      if is_some (get gid leaders) then removed_groups leaders m else gid ∷ removed_groups leaders m

  unfoldable pub remove_groups : Buffer G E P → List G → Buffer G E P
  remove_groups m [] = m
  remove_groups m (gid ∷ gids) = remove_groups (remove gid m) gids

  unfoldable pub sync_groups :
      NetworkDriver G E P → VersionedValue (LeaderMap G E) → NetworkDriver G E P
  sync_groups d leader_map =
      let m = add_groups d.network_buffer leader_map.value in
      if ltb d.gen leader_map.gen
      then record {
        network_buffer = remove_groups m (removed_groups leader_map.value m);
        gen = leader_map.gen;
      }
      else d

  abbrev pub put_buffer : NetworkDriver G E P → G → List (RemoteMessage G E P) → NetworkDriver G E P
  put_buffer d gid buffer = record d { network_buffer = insert gid buffer d.network_buffer }

  abbrev pub change_of : RemoteMessage G E P → RemoteLeaderChanged G E
  change_of m = record { gid = m.from_gid; lid = m.from_lid }

  -- The end of `receive`, for the buffer of the sender and the leadership that the map has of it.
  unfoldable pub sort_message :
      NetworkDriver G E P
      → List (RemoteLeaderChanged G E)
      → RemoteMessage G E P
      → List (RemoteMessage G E P)
      → Option (LeadershipId E)
      → Result (Received G E P)
  sort_message d changes m (first ∷ buffer) lid =
      if ltb m.from_lid.gen first.from_lid.gen
      then ok (record { driver = d; changes = changes; delivered = none })
      else if eqb m.from_lid.gen first.from_lid.gen
      then ok (record {
        driver = put_buffer d m.from_gid ((first ∷ buffer) ++ m ∷ []);
        changes = changes;
        delivered = none;
      })
      else ok (record {
        driver = put_buffer d m.from_gid (m ∷ []);
        changes = changes ++ change_of m ∷ [];
        delivered = none;
      })
  sort_message d changes m [] lid = unwrap lid >>= λ cur.
      if ltb m.from_lid.gen cur.gen
      then ok (record { driver = d; changes = changes; delivered = none })
      else if eqb m.from_lid.gen cur.gen
      then ok (record { driver = d; changes = changes; delivered = some m.payload })
      else ok (record {
        driver = put_buffer d m.from_gid (m ∷ []);
        changes = changes ++ change_of m ∷ [];
        delivered = none;
      })

  unfoldable pub receive :
      G
      → VersionedValue (LeaderMap G E)
      → List (RemoteLeaderChanged G E)
      → NetworkDriver G E P
      → RemoteMessage G E P
      → Result (Received G E P)
  receive this_gid leader_map changes d m = unwrap (get this_gid leader_map.value) >>= λ this_lid.
      if ltb m.to_lid.gen this_lid.gen
      then ok (record { driver = sync_groups d leader_map; changes = changes; delivered = none })
      else (unwrap (get m.from_gid (sync_groups d leader_map).network_buffer) >>= λ buffer.
          sort_message (sync_groups d leader_map) changes m buffer
            (get m.from_gid leader_map.value))

  unfoldable pub deliver_blocked_messages :
      NetworkDriver G E P → G → LeadershipId E → NetworkDriver G E P × List P
  deliver_blocked_messages d from_gid from_lid = elim (get from_gid d.network_buffer) [
    | none ↦ (d, [])
    | some buffer ↦ elim buffer [
      | [] ↦ (d, [])
      | first ∷ rest ↦
          if ltb first.from_lid.gen from_lid.gen
          then (put_buffer d from_gid [], [])
          else if eqb from_lid.gen first.from_lid.gen
          then (put_buffer d from_gid [], map (λ m. m.payload) (first ∷ rest))
          else (d, [])
    ]
  ]
