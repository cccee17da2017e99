-- ===== src/Paxos/State.antt =====
-- src/paxos.rs: the state of a `PaxosDriver`, and the effects of its methods on the context
-- (`PaxosContextBase`): messages that are sent and timer events that are deferred.
use r_universal_db.Base.{ℕ, Bool, Option, none, List, []}
use r_universal_db.BTreeMap.{BTreeMap}
use r_universal_db.Paxos.Message.{
  LeadershipId, PlEntry, ReconfigBundle, Vote, MultiPaxosMessage, PaxosDriverMessage, bundle_entry,
  reconfig_bundle,
}

pub record Proposal (T : Type 0) : Type 0 where
  pub crnd : ℕ
  pub cval : T
  pub promises : List (Vote T)

pub record ProposerState (T : Type 0) : Type 0 where
  pub proposals : BTreeMap ℕ (Proposal T)
  pub latest_crnd : ℕ

pub record AcceptorState (T : Type 0) : Type 0 where
  pub rnd : ℕ
  pub vrnd_vval : Vote T

pub record LearnerState : Type 0 where
  pub learned : BTreeMap ℕ ℕ
  pub learned_vrnd : Option ℕ

pub record PaxosInstance (T : Type 0) : Type 0 where
  pub proposer_state : ProposerState T
  pub acceptor_state : AcceptorState T
  pub learner_state : LearnerState

unfoldable pub new_instance : {T : Type 0} → PaxosInstance T
new_instance = record {
  proposer_state = record { proposals = []; latest_crnd = 0 };
  acceptor_state = record { rnd = 0; vrnd_vval = none };
  learner_state = record { learned = []; learned_vrnd = none };
}

pub record PaxosConfig : Type 0 where
  pub heartbeat_threshold : ℕ
  pub heartbeat_period_ms : ℕ
  pub next_index_period_ms : ℕ
  pub retry_defer_time_ms : ℕ
  pub proposal_increment : ℕ
  pub remote_next_index_thresh : ℕ
  pub max_failable : ℕ

-- A `UUID` is a number.
pub data PaxosTimerEvent : Type 0 where
  retry_insert_event : ℕ → PaxosTimerEvent
  leader_heartbeat_event : PaxosTimerEvent
  next_index_event : PaxosTimerEvent

pub data UserPlEntry (E B : Type 0) : Type 0 where
  user_bundle : B → UserPlEntry E B
  user_reconfig : ReconfigBundle E B → UserPlEntry E B

unfoldable pub convert : {E B : Type 0} → UserPlEntry E B → PlEntry E B
convert (user_bundle b) = bundle_entry b
convert (user_reconfig r) = reconfig_bundle r

pub record InstanceEntry (T : Type 0) : Type 0 where
  pub instance_state : Option (PaxosInstance T)
  pub learned_rnd_val : Vote T

pub record PaxosDriver (E B : Type 0) : Type 0 where
  pub paxos_config : PaxosConfig
  pub paxos_nodes : List E
  pub remote_next_indices : BTreeMap E ℕ
  pub next_index : ℕ
  pub paxos_instances : BTreeMap ℕ (InstanceEntry (PlEntry E B))
  pub buffered_messages : BTreeMap ℕ (List (MultiPaxosMessage E B))
  pub leader : LeadershipId E
  pub leader_heartbeat : ℕ
  pub unconfirmed_eids : BTreeMap E Bool
  pub next_insert : Option (ℕ × UserPlEntry E B)

-- The calls of the context: `ctx.send` and `ctx.defer`.
pub data Effect (E B : Type 0) : Type 0 where
  send : E → PaxosDriverMessage E B → Effect E B
  defer : ℕ → PaxosTimerEvent → Effect E B

-- What a method leaves: the driver, the effects in their order, and the entries it returns.
pub record Step (E B : Type 0) : Type 0 where
  pub driver : PaxosDriver E B
  pub effects : List (Effect E B)
  pub entries : List (PlEntry E B)

abbrev pub quiet : {E B : Type 0} → PaxosDriver E B → Step E B
quiet d = record { driver = d; effects = []; entries = [] }
