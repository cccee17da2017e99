-- ===== src/Stm/Rm/Container.antt =====
-- src/stmpaxos2pc_rm.rs: the RMs of a node by the ids of their transactions. The caller acts on the
-- action that comes back with the id.
use r_universal_db.Base.{
  nat_ord, list_ord, Bool, true, false, none, some, List, [], ◌∷◌, Result, ok, ◌>>=◌, unwrap,
}
use r_universal_db.BTreeMap.{BTreeMap, get, insert}
use r_universal_db.Value.{Str}
use r_universal_db.Stm.{TmPayloadTypes, RmMessage, prepare_msg, abort_msg, commit_msg}
use r_universal_db.Stm.Rm.{
  RmPayloadTypes, RmPlm, rm_prepared_plm, rm_committed_plm, rm_aborted_plm, RmInner, working,
  RmAction, wait, RmOuter, RmEffect, send_to_tm, RmStep,
}
use r_universal_db.Stm.Rm.Handler.{
  closed_for, handle_prepare, handle_commit, handle_abort, init_follower, handle_prepared_plm,
  handle_committed_plm, handle_aborted_plm,
}

pub record RmRun (T : TmPayloadTypes) (R : RmPayloadTypes T) (I C : Type 0) : Type 0 where
  pub con : BTreeMap Str (RmOuter T I)
  pub ctx : C
  pub effects : List (RmEffect T R)
  pub query_id : Str
  pub action : RmAction T R

-- `STMPaxos2PCRMOuter::new`.
abbrev pub new : {T : TmPayloadTypes} {I : Type 0} → Str → T.TmPath → I → RmOuter T I
new query_id tm inner = record {
  query_id = query_id;
  tm = tm;
  follower = none;
  state = working;
  inner = inner;
}

abbrev pub update :
    {T : TmPayloadTypes} {R : RmPayloadTypes T} {I C : Type 0}
    → Str
    → BTreeMap Str (RmOuter T I)
    → RmStep T R I C
    → RmRun T R I C
update query_id con step = record {
  con = insert query_id step.es con;
  ctx = step.ctx;
  effects = step.effects;
  query_id = query_id;
  action = step.action;
}

module _ {T : TmPayloadTypes} {R : RmPayloadTypes T} {I C : Type 0} (inner : RmInner T R I C)
    (this_rm : T.RmPath) where
  abbrev pub prepared_inserted_at :
      Bool
      → C
      → BTreeMap Str (RmOuter T I)
      → Str
      → T.TmPath
      → R.RmPreparedPlm
      → Result (RmRun T R I C)
  prepared_inserted_at true ctx con query_id tm payload = unwrap (get query_id con) >>= λ es.
      ok (update query_id con (handle_prepared_plm inner this_rm es ctx))
  prepared_inserted_at false ctx con query_id tm payload =
      let (i, c) = inner.new_follower ctx payload in
      let (outer, c2) = init_follower inner this_rm (new query_id tm i) c in
      ok (record {
        con = insert query_id outer con;
        ctx = c2;
        effects = [];
        query_id = query_id;
        action = wait;
      })

  unfoldable pub handle_rm_plm :
      Bool → C → BTreeMap Str (RmOuter T I) → RmPlm T R → Result (RmRun T R I C)
  handle_rm_plm is_leader ctx con (rm_prepared_plm query_id tm payload) =
      prepared_inserted_at is_leader ctx con query_id tm payload
  handle_rm_plm is_leader ctx con (rm_committed_plm query_id payload) =
      unwrap (get query_id con) >>= λ es.
      ok (update query_id con (handle_committed_plm inner this_rm es ctx query_id payload))
  handle_rm_plm is_leader ctx con (rm_aborted_plm query_id payload) =
      unwrap (get query_id con) >>= λ es.
      ok (update query_id con (handle_aborted_plm inner this_rm es ctx))

  -- A `Closed` for a transaction that is over.
  abbrev pub answer_closed : C → BTreeMap Str (RmOuter T I) → Str → T.TmPath → RmRun T R I C
  answer_closed ctx con query_id tm = record {
    con = con;
    ctx = ctx;
    effects = send_to_tm tm (closed_for inner this_rm query_id) ∷ [];
    query_id = query_id;
    action = wait;
  }

  unfoldable pub handle_rm_msg : C → BTreeMap Str (RmOuter T I) → RmMessage T → RmRun T R I C
  handle_rm_msg ctx con (prepare_msg query_id tm payload) = elim (get query_id con) [
    | some es ↦ update query_id con (handle_prepare inner this_rm es ctx)
    | none ↦
        let (i, c) = inner.new_inner ctx payload in
        record {
          con = insert query_id (new query_id tm i) con;
          ctx = c;
          effects = [];
          query_id = query_id;
          action = wait;
        }
  ]
  handle_rm_msg ctx con (abort_msg query_id tm payload) = elim (get query_id con) [
    | some es ↦ update query_id con (handle_abort inner this_rm es ctx)
    | none ↦ answer_closed ctx con query_id tm
  ]
  handle_rm_msg ctx con (commit_msg query_id tm payload) = elim (get query_id con) [
    | some es ↦ update query_id con (handle_commit inner this_rm es ctx payload)
    | none ↦ answer_closed ctx con query_id tm
  ]
