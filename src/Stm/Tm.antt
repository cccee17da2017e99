-- ===== src/Stm/Tm.antt =====
-- src/stmpaxos2pc_tm.rs: the TM of one transaction, `STMPaxos2PCTMOuter`. What its `Inner` does to
-- the context is in the state `C`; the effects are what the outer part does, in order.
pub mod Handler
pub mod Leader
pub mod Calls
pub mod Consistent
pub mod Agree
pub mod Invariant
pub mod Decision
pub mod Budget
pub mod Commit
pub mod Held
pub mod Snapshot
pub mod Phase
pub mod Refinement
pub mod Container
use r_universal_db.Base.{
  Bool, true, false, Option, none, some, List, [], ◌∷◌, ◌++◌, if◌then◌else◌, Ord, ◌==◌, Result, ok,
  panic, ◌>>=◌, unwrap,
}
use r_universal_db.BTreeMap.{BTreeMap, get, insert}
use r_universal_db.BTreeSet.{member, add, delete}
use r_universal_db.Value.{Str}
use r_universal_db.Stm.{
  TmPayloadTypes, TmPlm, prepared_plm, committed_plm, aborted_plm, closed_plm, RmMessage,
  prepare_msg, abort_msg, commit_msg, Prepared, Closed,
}

-- `trait STMPaxos2PCTMInner`: each call may change the inner state and the context.
pub record TmInner (T : TmPayloadTypes) (I C : Type 0) : Type 0 where
  pub new_follower : C → T.PreparedPlm → I × C
  pub mk_prepared_plm : I → C → T.PreparedPlm × I × C
  pub prepared_plm_inserted : I → C → BTreeMap T.RmPath T.Prepare × I × C
  pub mk_committed_plm : I → C → BTreeMap T.RmPath T.PreparedReply → T.CommittedPlm × I × C
  pub committed_plm_inserted : I → C → Str → T.CommittedPlm → BTreeMap T.RmPath T.Commit × I × C
  pub mk_aborted_plm : I → C → T.AbortedPlm × I × C
  pub aborted_plm_inserted : I → C → BTreeMap T.RmPath T.Abort × I × C
  pub mk_closed_plm : I → C → T.ClosedPlm × I × C
  pub closed_plm_inserted : I → C → Str → T.ClosedPlm → I × C
  pub inner_leader_changed : I → C → I × C
  pub inner_reconfig_snapshot : I → I

pub data FollowerState (T : TmPayloadTypes) : Type 0 where
  follow_preparing : BTreeMap T.RmPath T.Prepare → FollowerState T
  follow_committed : BTreeMap T.RmPath T.Commit → FollowerState T
  follow_aborted : BTreeMap T.RmPath T.Abort → FollowerState T

-- `preparing` has the RMs that remain and the answers so far.
pub data State (T : TmPayloadTypes) : Type 0 where
  following start waiting_insert_tm_prepared insert_tm_preparing : State T
  preparing : List T.RmPath → BTreeMap T.RmPath T.PreparedReply → State T
  inserting_tm_committed : State T
  committed : List T.RmPath → State T
  inserting_tm_aborted : State T
  aborted : List T.RmPath → State T
  inserting_tm_closed : State T

pub data TmAction : Type 0 where
  wait exit : TmAction

pub record TmOuter (T : TmPayloadTypes) (I : Type 0) : Type 0 where
  pub query_id : Str
  pub follower : Option (FollowerState T)
  pub state : State T
  pub inner : I

pub data TmEffect (T : TmPayloadTypes) : Type 0 where
  push_plm : TmPlm T → TmEffect T
  send_to_rm : T.RmPath → RmMessage T → TmEffect T

pub record TmStep (T : TmPayloadTypes) (I C : Type 0) : Type 0 where
  pub es : TmOuter T I
  pub ctx : C
  pub effects : List (TmEffect T)
  pub action : TmAction

abbrev pub quiet : {T : TmPayloadTypes} {I C : Type 0} → TmOuter T I → C → TmStep T I C
quiet es ctx = record { es = es; ctx = ctx; effects = []; action = wait }

-- The loop of the `advance_to_*` functions: the messages, and the set of the RMs.
unfoldable pub send_all :
    {T : TmPayloadTypes} {P : Type 0} → (P → RmMessage T) → BTreeMap T.RmPath P → List (TmEffect T)
send_all mk [] = []
send_all mk ((rm, payload) ∷ payloads) = send_to_rm rm (mk payload) ∷ send_all mk payloads

unfoldable pub rm_set : {K P : Type 0} ⦃o : Ord K⦄ → BTreeMap K P → List K → List K
rm_set [] rms_remaining = rms_remaining
rm_set ((rm, payload) ∷ payloads) rms_remaining = rm_set payloads (add rm rms_remaining)

module _ {T : TmPayloadTypes} {I : Type 0} where
  -- The fields that a step sets.
  abbrev pub in_state : TmOuter T I → State T → I → TmOuter T I
  in_state es st i = record {
    query_id = es.query_id;
    follower = es.follower;
    state = st;
    inner = i;
  }

  abbrev pub following_with : TmOuter T I → FollowerState T → I → TmOuter T I
  following_with es f i = record {
    query_id = es.query_id;
    follower = some f;
    state = es.state;
    inner = i;
  }

module _ {T : TmPayloadTypes} {I C : Type 0} where
  -- The push of a PLm, after which `st` waits for its insertion.
  abbrev pub inserting : TmOuter T I → State T → TmPlm T → I × C → TmStep T I C
  inserting es st plm (i, c) = record {
    es = in_state es st i;
    ctx = c;
    effects = push_plm plm ∷ [];
    action = wait;
  }

  abbrev pub leaving : TmOuter T I → I × C → TmStep T I C
  leaving es (i, c) = record { es = in_state es es.state i; ctx = c; effects = []; action = exit }

module _ {T : TmPayloadTypes} {I C : Type 0} ⦃o : Ord T.RmPath⦄ (tm : T.TmPath) where
  -- After `advance_to_prepared`, with `tm` as `ctx.mk_node_path()`.
  unfoldable pub advance_to_prepared : TmOuter T I → C → BTreeMap T.RmPath T.Prepare → TmStep T I C
  advance_to_prepared es ctx prepare_payloads = record {
    es = record {
      query_id = es.query_id;
      follower = some (follow_preparing prepare_payloads);
      state = preparing (rm_set prepare_payloads []) [];
      inner = es.inner;
    };
    ctx = ctx;
    effects = send_all (λ payload. prepare_msg es.query_id tm payload) prepare_payloads;
    action = wait;
  }

  unfoldable pub advance_to_committed : TmOuter T I → C → BTreeMap T.RmPath T.Commit → TmStep T I C
  advance_to_committed es ctx commit_payloads = record {
    es = record {
      query_id = es.query_id;
      follower = some (follow_committed commit_payloads);
      state = committed (rm_set commit_payloads []);
      inner = es.inner;
    };
    ctx = ctx;
    effects = send_all (λ payload. commit_msg es.query_id tm payload) commit_payloads;
    action = wait;
  }

  unfoldable pub advance_to_aborted : TmOuter T I → C → BTreeMap T.RmPath T.Abort → TmStep T I C
  advance_to_aborted es ctx abort_payloads = record {
    es = record {
      query_id = es.query_id;
      follower = some (follow_aborted abort_payloads);
      state = aborted (rm_set abort_payloads []);
      inner = es.inner;
    };
    ctx = ctx;
    effects = send_all (λ payload. abort_msg es.query_id tm payload) abort_payloads;
    action = wait;
  }
