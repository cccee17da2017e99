-- ===== src/Paxos/Group/Dead.antt =====
-- Which nodes of a group `get_maybe_dead` names.
use r_universal_db.Base.{
  ℕ, ◌+◌, ◌*◌, ◌^◌, ◌%◌, ◌≤◌, ◌<◌, ◌≡◌, refl, false, not, ◌&&◌, ◌||◌, ◌⊎◌, List, [], ◌∷◌, ◌++◌,
  length, length-append, ltb, Ord, ◌==◌, arith, Bool-cases, inl, inr,
}
use r_universal_db.BTreeMap.{BTreeMap}
use r_universal_db.Paxos.State.{PaxosDriver}
use r_universal_db.Paxos.Group.{
  contains, strict_minority, paxos_group_size, max_reconfig_size, maybe_dead_loop, get_maybe_dead,
}

max_reconfig_size-majority :
    {E B : Type 0} ⦃o : Ord E⦄ (d : PaxosDriver E B)
    → 0 < length d.paxos_nodes
    → length d.paxos_nodes < 2 ^ 32
    → (max_reconfig_size d ≡ 0)
      ⊎ (2 * (max_reconfig_size d + d.paxos_config.max_failable) < length d.paxos_nodes)
unfolding max_reconfig_size strict_minority paxos_group_size
max_reconfig_size-majority d p h = ground arith

module _ {E B : Type 0} ⦃o : Ord E⦄ (d : PaxosDriver E B) (cur_eid : E) where
  contains-append :
      (xs : List E) (y eid : E) → contains (xs ++ y ∷ []) eid ≡ (contains xs eid || y == eid)
  unfolding contains
  contains-append [] y eid = ground arith
  contains-append (x ∷ xs) y eid = ground (arith, contains-append xs y eid)

  max_reconfig_size-lt : max_reconfig_size d < 2 ^ 32
  unfolding max_reconfig_size strict_minority paxos_group_size
  max_reconfig_size-lt = ground arith

  maybe_dead_loop_lem :
      (dead : List E) (m : BTreeMap E ℕ)
      → contains dead cur_eid ≡ false
      → length dead ≤ max_reconfig_size d
      → (contains (maybe_dead_loop d cur_eid dead m) cur_eid ≡ false)
        × (length (maybe_dead_loop d cur_eid dead m) ≤ max_reconfig_size d)
  unfolding maybe_dead_loop
  maybe_dead_loop_lem dead [] h k = (h, k)
  maybe_dead_loop_lem dead ((eid, index) ∷ m) h k =
      let takes =
        not (eid == cur_eid)
        && (ltb (length dead % 2 ^ 32) (max_reconfig_size d)
            && ltb (index + d.paxos_config.remote_next_index_thresh) d.next_index) in
      elim (Bool-cases takes) [
        | inl t ↦ rw t (
            maybe_dead_loop_lem (dead ++ eid ∷ []) m
              (ground (arith, contains-append dead eid cur_eid))
              (ground (arith, length-append dead (eid ∷ []), max_reconfig_size-lt)))
        | inr f ↦ rw f (maybe_dead_loop_lem dead m h k)
      ]

  -- In a group with nodes, of less than 2^32, get_maybe_dead never names the given node, and either
  -- names none, or the nodes that it names and as many as may fail are together a strict minority.
  pub get_maybe_dead_lem :
      0 < length d.paxos_nodes
      → length d.paxos_nodes < 2 ^ 32
      → (contains (get_maybe_dead d cur_eid) cur_eid ≡ false)
        × ((length (get_maybe_dead d cur_eid) ≡ 0)
            ⊎ (2 * (length (get_maybe_dead d cur_eid) + d.paxos_config.max_failable)
                < length d.paxos_nodes))
  unfolding get_maybe_dead contains
  get_maybe_dead_lem p h =
      let (apart, few) = maybe_dead_loop_lem [] d.remote_next_indices refl (omega arith) in
      elim (max_reconfig_size-majority d p h) [
        | inl zero ↦ (apart, inl (omega (arith, zero, few)))
        | inr minor ↦ (apart, inr (omega (arith, minor, few)))
      ]
