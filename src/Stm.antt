-- ===== src/Stm.antt =====
-- src/stmpaxos2pc_tm.rs: the messages of the commit protocol of schema changes (STMPaxos2PC),
-- between a transaction manager (TM) and its resource managers (RMs). Each runs on a Paxos group.
pub mod Tm
pub mod Rm
use r_universal_db.Base.{Option, List, Ord}
use r_universal_db.BTreeMap.{BTreeMap}
use r_universal_db.Value.{Str}

-- `trait TMPayloadTypes`, with `to_gid` of the paths of the RMs.
pub record TmPayloadTypes : Type 1 where
  pub RmPath : Type 0
  pub TmPath : Type 0
  pub GroupId : Type 0
  pub to_gid : RmPath → GroupId
  pub PreparedPlm : Type 0
  pub CommittedPlm : Type 0
  pub AbortedPlm : Type 0
  pub ClosedPlm : Type 0
  pub Prepare : Type 0
  pub Abort : Type 0
  pub Commit : Type 0
  pub PreparedReply : Type 0
  pub AbortedReply : Type 0
  pub ClosedReply : Type 0

-- A `QueryId` is a string.
pub data TmPlm (T : TmPayloadTypes) : Type 0 where
  prepared_plm : Str → T.PreparedPlm → TmPlm T
  committed_plm : Str → T.CommittedPlm → TmPlm T
  aborted_plm : Str → T.AbortedPlm → TmPlm T
  closed_plm : Str → T.ClosedPlm → TmPlm T

-- The query, the TM, and the payload.
pub data RmMessage (T : TmPayloadTypes) : Type 0 where
  prepare_msg : Str → T.TmPath → T.Prepare → RmMessage T
  abort_msg : Str → T.TmPath → T.Abort → RmMessage T
  commit_msg : Str → T.TmPath → T.Commit → RmMessage T

pub record Prepared (T : TmPayloadTypes) : Type 0 where
  pub query_id : Str
  pub rm : T.RmPath
  pub payload : T.PreparedReply

pub record Closed (T : TmPayloadTypes) : Type 0 where
  pub query_id : Str
  pub rm : T.RmPath
  pub payload : T.ClosedReply

pub data TmMessage (T : TmPayloadTypes) : Type 0 where
  prepared_msg : Prepared T → TmMessage T
  aborted_msg : Str → T.AbortedReply → TmMessage T
  closed_msg : Closed T → TmMessage T
