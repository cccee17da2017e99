-- ===== src/Paxos/Group.antt =====
-- src/paxos.rs: how a `PaxosDriver` is made, its getters, the utilities for reconfiguration and
-- those for `StartNewNode`.
pub mod Handover
pub mod Dead
use r_universal_db.Base.{
  ℕ, ◌+◌, ◌-◌, ◌/◌, ◌%◌, ◌^◌, Bool, true, false, not, ◌&&◌, ◌||◌, none, some, List, [], ◌∷◌, ◌++◌,
  map, ltb, leb, eqb, if◌then◌else◌, length, Ord, nat_ord, ◌==◌, Result, ok, panic, ◌>>=◌, unwrap,
}
use r_universal_db.BTreeMap.{BTreeMap, insert, keys}
use r_universal_db.Paxos.Message.{PlEntry, StartNewNode, new_node_started}
use r_universal_db.Paxos.State.{PaxosDriver, PaxosConfig, InstanceEntry, send, Step}

-- The loop of `has_unsent_unconfirmed`.
unfoldable pub any_unsent : {E : Type 0} → BTreeMap E Bool → Bool
any_unsent [] = false
any_unsent ((eid, did_send_start) ∷ m) = not did_send_start || any_unsent m

-- The loop that collects the nodes without a `StartNewNode`, and the one that marks them.
unfoldable pub unsent : {E : Type 0} → BTreeMap E Bool → List E
unsent [] = []
unsent ((eid, did_send_start) ∷ m) = if did_send_start then unsent m else eid ∷ unsent m

unfoldable pub mark_sent : {E : Type 0} → BTreeMap E Bool → BTreeMap E Bool
mark_sent [] = []
mark_sent ((eid, did_send_start) ∷ m) = (eid, true) ∷ mark_sent m

-- Without its first and only occurrence: `BTreeSet::remove` on the elements in order.
unfoldable pub set_remove : {E : Type 0} ⦃o : Ord E⦄ → E → List E → List E
set_remove a [] = []
set_remove a (b ∷ s) = if b == a then s else b ∷ set_remove a s

unfoldable pub init_indices : {E : Type 0} ⦃o : Ord E⦄ → BTreeMap E ℕ → List E → BTreeMap E ℕ
init_indices m [] = m
init_indices m (node ∷ nodes) = init_indices (insert node 0 m) nodes

unfoldable pub unsent_from : {E : Type 0} ⦃o : Ord E⦄ → BTreeMap E Bool → List E → BTreeMap E Bool
unsent_from m [] = m
unsent_from m (eid ∷ eids) = unsent_from (insert eid false m) eids

-- `size / 2 - 1` at an even size: at 0 the `u32` wraps.
unfoldable pub strict_minority : ℕ → ℕ
strict_minority size = if eqb (size % 2) 0 then (size / 2 + 2 ^ 32 - 1) % 2 ^ 32 else size / 2

-- `Vec::contains`.
unfoldable pub contains : {E : Type 0} ⦃o : Ord E⦄ → List E → E → Bool
contains [] eid = false
contains (x ∷ xs) eid = x == eid || contains xs eid

module _ {E B : Type 0} ⦃o : Ord E⦄ where
  -- `paxos_nodes[0]` panics on an empty group.
  unfoldable pub create_initial : List E → PaxosConfig → Result (PaxosDriver E B)
  create_initial [] config = panic
  create_initial (first ∷ nodes) config = ok (record {
    paxos_config = config;
    paxos_nodes = first ∷ nodes;
    remote_next_indices = init_indices [] (first ∷ nodes);
    next_index = 0;
    paxos_instances = [];
    buffered_messages = [];
    leader = record { gen = 0; eid = first };
    leader_heartbeat = 0;
    unconfirmed_eids = [];
    next_insert = none;
  })

  unfoldable pub known_instances :
      BTreeMap ℕ (InstanceEntry (PlEntry E B))
      → BTreeMap ℕ (ℕ × PlEntry E B)
      → BTreeMap ℕ (InstanceEntry (PlEntry E B))
  known_instances m [] = m
  known_instances m ((index, rnd_val) ∷ vals) =
      known_instances
        (insert index (record { instance_state = none; learned_rnd_val = some rnd_val }) m) vals

  unfoldable pub create_reconfig : E → StartNewNode E B → PaxosConfig → Step E B
  create_reconfig this_eid start config = record {
    driver = record {
      paxos_config = config;
      paxos_nodes = start.paxos_nodes;
      remote_next_indices = start.remote_next_indices;
      next_index = start.next_index;
      paxos_instances = known_instances [] start.paxos_instance_vals;
      buffered_messages = [];
      leader = start.leader;
      leader_heartbeat = 0;
      unconfirmed_eids = unsent_from [] (set_remove this_eid start.unconfirmed_eids);
      next_insert = none;
    };
    effects = map (λ eid. send eid (new_node_started this_eid)) start.paxos_nodes;
    entries = [];
  }

  unfoldable pub is_leader : E → PaxosDriver E B → Bool
  is_leader this_eid d = d.leader.eid == this_eid

  -- `len() as u32`
  unfoldable pub paxos_group_size : PaxosDriver E B → ℕ
  paxos_group_size d = length d.paxos_nodes % 2 ^ 32

  unfoldable pub max_reconfig_size : PaxosDriver E B → ℕ
  unfolding strict_minority paxos_group_size
  max_reconfig_size d =
      let failable = d.paxos_config.max_failable in
      let minority = strict_minority (paxos_group_size d) in
      if leb failable minority then minority - failable else 0

  -- The loop of `get_maybe_dead`; `dead` is `maybe_dead_eids`.
  unfoldable pub maybe_dead_loop : PaxosDriver E B → E → List E → BTreeMap E ℕ → List E
  maybe_dead_loop d cur_eid dead [] = dead
  maybe_dead_loop d cur_eid dead ((eid, index) ∷ m) =
      maybe_dead_loop d cur_eid
        (if not (eid == cur_eid)
            && (ltb (length dead % 2 ^ 32) (max_reconfig_size d)
                && ltb (index + d.paxos_config.remote_next_index_thresh) d.next_index)
          then dead ++ eid ∷ []
          else dead)
        m

  unfoldable pub get_maybe_dead : PaxosDriver E B → E → List E
  get_maybe_dead d cur_eid = maybe_dead_loop d cur_eid [] d.remote_next_indices

  unfoldable pub has_unsent_unconfirmed : PaxosDriver E B → Bool
  has_unsent_unconfirmed d = any_unsent d.unconfirmed_eids

  -- The loop over the instances, up to the first index that is not below `next_index`.
  unfoldable pub learned_below :
      ℕ
      → BTreeMap ℕ (InstanceEntry (PlEntry E B))
      → BTreeMap ℕ (ℕ × PlEntry E B)
      → Result (BTreeMap ℕ (ℕ × PlEntry E B))
  learned_below next_index [] vals = ok vals
  learned_below next_index ((index, e) ∷ m) vals =
      let rest = do
        rnd_val ← unwrap e.learned_rnd_val
        learned_below next_index m (insert index rnd_val vals)
      in if ltb index next_index then rest else ok vals

  unfoldable pub mk_start_new_node :
      E → PaxosDriver E B → Result (PaxosDriver E B × StartNewNode E B × List E)
  mk_start_new_node this_eid d = do
    vals ← learned_below d.next_index d.paxos_instances []
    ok (
      record d { unconfirmed_eids = mark_sent d.unconfirmed_eids },
      record {
        sender_eid = this_eid;
        paxos_nodes = d.paxos_nodes;
        remote_next_indices = d.remote_next_indices;
        next_index = d.next_index;
        paxos_instance_vals = vals;
        unconfirmed_eids = keys d.unconfirmed_eids;
        leader = d.leader;
      },
      unsent d.unconfirmed_eids,
    )

  unfoldable pub contains_nodes : PaxosDriver E B → List E → Bool
  contains_nodes d [] = true
  contains_nodes d (eid ∷ eids) = contains d.paxos_nodes eid && contains_nodes d eids
