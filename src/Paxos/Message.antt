-- ===== src/Paxos/Message.antt =====
-- src/message.rs: the messages between the Paxos drivers, over the type `E` of `EndpointId` and the
-- type `B` of a bundle. `Rnd` (u32), `PLIndex` (u128) and `Gen` (u64) are numbers.
use r_universal_db.Base.{ℕ, Bool, Option, List, Ord, ◌==◌, ◌&&◌, eqb}
use r_universal_db.BTreeMap.{BTreeMap}

-- src/common.rs
pub record LeadershipId (E : Type 0) : Type 0 where
  pub gen : ℕ
  pub eid : E

abbrev pub lid_eq : {E : Type 0} ⦃o : Ord E⦄ → LeadershipId E → LeadershipId E → Bool
lid_eq a b = eqb a.gen b.gen && (a.eid == b.eid)

pub record ReconfigBundle (E B : Type 0) : Type 0 where
  pub rem_eids : List E
  pub new_eids : List E
  pub bundle : B

pub data PlEntry (E B : Type 0) : Type 0 where
  bundle_entry : B → PlEntry E B
  reconfig_bundle : ReconfigBundle E B → PlEntry E B
  leader_changed : LeadershipId E → PlEntry E B

-- `Option<(Rnd, ValT)>` of an acceptor.
abbrev pub Vote : Type 0 → Type 0
Vote T = Option (ℕ × T)

pub data PaxosMessage (T : Type 0) : Type 0 where
  prepare : ℕ → PaxosMessage T
  promise : ℕ → Vote T → PaxosMessage T
  accept : ℕ → T → PaxosMessage T
  learn : ℕ → PaxosMessage T

pub record MultiPaxosMessage (E B : Type 0) : Type 0 where
  pub sender_eid : E
  pub paxos_nodes : List E
  pub index : ℕ
  pub paxos_message : PaxosMessage (PlEntry E B)

pub record StartNewNode (E B : Type 0) : Type 0 where
  pub sender_eid : E
  pub paxos_nodes : List E
  pub remote_next_indices : BTreeMap E ℕ
  pub next_index : ℕ
  pub paxos_instance_vals : BTreeMap ℕ (ℕ × PlEntry E B)
  pub unconfirmed_eids : List E
  pub leader : LeadershipId E

pub data PaxosDriverMessage (E B : Type 0) : Type 0 where
  multi_paxos : MultiPaxosMessage E B → PaxosDriverMessage E B
  is_leader_msg : LeadershipId E → PaxosDriverMessage E B
  inform_learned : E → BTreeMap ℕ ℕ → PaxosDriverMessage E B
  log_sync_request : E → ℕ → PaxosDriverMessage E B
  log_sync_response : List (ℕ × ℕ × PlEntry E B) → PaxosDriverMessage E B
  next_index_request : E → PaxosDriverMessage E B
  next_index_response : E → ℕ → PaxosDriverMessage E B
  start_new_node : StartNewNode E B → PaxosDriverMessage E B
  new_node_started : E → PaxosDriverMessage E B
