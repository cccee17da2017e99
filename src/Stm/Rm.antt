-- ===== src/Stm/Rm.antt =====
-- src/stmpaxos2pc_rm.rs: one RM of a transaction, `STMPaxos2PCRMOuter`. What its `Inner` does to
-- the context is in the state `C`; the effects are what the outer part does, in order.
pub mod Handler
pub mod Container
pub mod Answer
use r_universal_db.Base.{Bool, Option, none, some, List, []}
use r_universal_db.Value.{Str}
use r_universal_db.Stm.{TmPayloadTypes, Prepared, TmMessage}

-- `trait RMPayloadTypes`, for the payloads `T` of the TM.
pub record RmPayloadTypes (T : TmPayloadTypes) : Type 1 where
  pub CommitActionData : Type 0
  pub RmPreparedPlm : Type 0
  pub RmCommittedPlm : Type 0
  pub RmAbortedPlm : Type 0

pub data RmPlm (T : TmPayloadTypes) (R : RmPayloadTypes T) : Type 0 where
  rm_prepared_plm : Str → T.TmPath → R.RmPreparedPlm → RmPlm T R
  rm_committed_plm : Str → R.RmCommittedPlm → RmPlm T R
  rm_aborted_plm : Str → R.RmAbortedPlm → RmPlm T R

-- `trait STMPaxos2PCRMInner`.
pub record RmInner (T : TmPayloadTypes) (R : RmPayloadTypes T) (I C : Type 0) : Type 0 where
  pub new_inner : C → T.Prepare → I × C
  pub new_follower : C → R.RmPreparedPlm → I × C
  pub mk_closed : T.ClosedReply
  pub mk_prepared_plm : I → C → Option R.RmPreparedPlm × I × C
  pub prepared_plm_inserted : I → C → T.PreparedReply × I × C
  pub mk_committed_plm : I → C → T.Commit → R.RmCommittedPlm × I × C
  pub committed_plm_inserted : I → C → Str → R.RmCommittedPlm → R.CommitActionData × I × C
  pub mk_aborted_plm : I → C → R.RmAbortedPlm × I × C
  pub aborted_plm_inserted : I → C → I × C
  pub inner_reconfig_snapshot : I → I

pub data RmState (T : TmPayloadTypes) : Type 0 where
  following working inserting_prepared : RmState T
  prepared : Prepared T → RmState T
  inserting_committed inserting_prepared_aborted inserting_aborted : RmState T

pub data RmAction (T : TmPayloadTypes) (R : RmPayloadTypes T) : Type 0 where
  wait : RmAction T R
  exit : Option R.CommitActionData → RmAction T R

pub record RmOuter (T : TmPayloadTypes) (I : Type 0) : Type 0 where
  pub query_id : Str
  pub tm : T.TmPath
  pub follower : Option (Prepared T)
  pub state : RmState T
  pub inner : I

pub data RmEffect (T : TmPayloadTypes) (R : RmPayloadTypes T) : Type 0 where
  push_plm : RmPlm T R → RmEffect T R
  send_to_tm : T.TmPath → TmMessage T → RmEffect T R

pub record RmStep (T : TmPayloadTypes) (R : RmPayloadTypes T) (I C : Type 0) : Type 0 where
  pub es : RmOuter T I
  pub ctx : C
  pub effects : List (RmEffect T R)
  pub action : RmAction T R

abbrev pub quiet :
    {T : TmPayloadTypes} {R : RmPayloadTypes T} {I C : Type 0} → RmOuter T I → C → RmStep T R I C
quiet es ctx = record { es = es; ctx = ctx; effects = []; action = wait }

-- The fields that a step sets.
abbrev pub in_state : {T : TmPayloadTypes} {I : Type 0} → RmOuter T I → RmState T → I → RmOuter T I
in_state es st i = record {
  query_id = es.query_id;
  tm = es.tm;
  follower = es.follower;
  state = st;
  inner = i;
}
