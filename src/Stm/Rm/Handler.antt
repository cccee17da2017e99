-- ===== src/Stm/Rm/Handler.antt =====
-- src/stmpaxos2pc_rm.rs: the calls of an RM. `this_rm` is `ctx.mk_node_path()`.
use r_universal_db.Base.{
  Bool, Option, none, some, List, [], ◌∷◌, if◌then◌else◌, Result, ok, ◌>>=◌, unwrap,
}
use r_universal_db.Value.{Str}
use r_universal_db.Stm.{TmPayloadTypes, Prepared, TmMessage, prepared_msg, closed_msg}
use r_universal_db.Stm.Rm.{
  RmPayloadTypes, rm_prepared_plm, rm_committed_plm, rm_aborted_plm, RmInner, RmState, following,
  working, inserting_prepared, prepared, inserting_committed, inserting_prepared_aborted,
  inserting_aborted, wait, exit, RmOuter, RmEffect, push_plm, send_to_tm, RmStep, quiet, in_state,
}

module _ {T : TmPayloadTypes} {R : RmPayloadTypes T} {I C : Type 0} (inner : RmInner T R I C)
    (this_rm : T.RmPath) where
  -- `send_closed`, with its `Closed` for a query.
  abbrev pub closed_for : Str → TmMessage T
  closed_for query_id =
      closed_msg (record { query_id = query_id; rm = this_rm; payload = inner.mk_closed })

  abbrev pub leaving :
      RmOuter T I → C → List (RmEffect T R) → Option R.CommitActionData → RmStep T R I C
  leaving es ctx effects data_of = record {
    es = es;
    ctx = ctx;
    effects = effects;
    action = exit data_of;
  }

  abbrev pub sending : RmOuter T I → C → List (RmEffect T R) → RmStep T R I C
  sending es ctx effects = record { es = es; ctx = ctx; effects = effects; action = wait }

  abbrev pub prepare_in : RmState T → RmOuter T I → C → RmStep T R I C
  prepare_in (prepared msg) es ctx = sending es ctx (send_to_tm es.tm (prepared_msg msg) ∷ [])
  prepare_in _ es ctx = quiet es ctx

  unfoldable pub handle_prepare : RmOuter T I → C → RmStep T R I C
  handle_prepare es ctx = prepare_in es.state es ctx

  abbrev pub commit_in : RmState T → RmOuter T I → C → T.Commit → RmStep T R I C
  commit_in (prepared msg) es ctx commit =
      let (payload, i, c) = inner.mk_committed_plm es.inner ctx commit in
      sending (in_state es inserting_committed i) c
        (push_plm (rm_committed_plm es.query_id payload) ∷ [])
  commit_in _ es ctx commit = quiet es ctx

  unfoldable pub handle_commit : RmOuter T I → C → T.Commit → RmStep T R I C
  handle_commit es ctx commit = commit_in es.state es ctx commit

  -- The push of an Aborted PLm.
  abbrev pub aborting : RmOuter T I → C → RmStep T R I C
  aborting es ctx =
      let (payload, i, c) = inner.mk_aborted_plm es.inner ctx in
      sending (in_state es inserting_aborted i) c
        (push_plm (rm_aborted_plm es.query_id payload) ∷ [])

  abbrev pub abort_in : RmState T → RmOuter T I → C → RmStep T R I C
  abort_in working es ctx = leaving es ctx (send_to_tm es.tm (closed_for es.query_id) ∷ []) none
  abort_in inserting_prepared es ctx = quiet (in_state es inserting_prepared_aborted es.inner) ctx
  abort_in (prepared msg) es ctx = aborting es ctx
  abort_in _ es ctx = quiet es ctx

  unfoldable pub handle_abort : RmOuter T I → C → RmStep T R I C
  handle_abort es ctx = abort_in es.state es ctx

  -- `_handle_prepared_plm`: the answer, the transaction that keeps it, and the context.
  abbrev pub make_prepared : RmOuter T I → C → Prepared T × RmOuter T I × C
  make_prepared es ctx =
      let (payload, i, c) = inner.prepared_plm_inserted es.inner ctx in
      let msg : Prepared T = record { query_id = es.query_id; rm = this_rm; payload = payload } in
      (
        msg,
        record {
          query_id = es.query_id;
          tm = es.tm;
          follower = some msg;
          state = es.state;
          inner = i;
        },
        c,
      )

  abbrev pub init_follower : RmOuter T I → C → RmOuter T I × C
  init_follower es ctx =
      let (msg, es2, c) = make_prepared es ctx in (in_state es2 following es2.inner, c)

  abbrev pub prepared_plm_in : RmState T → RmOuter T I → C → RmStep T R I C
  prepared_plm_in inserting_prepared es ctx =
      let (msg, es2, c) = make_prepared es ctx in
      sending (in_state es2 (prepared msg) es2.inner) c (send_to_tm es.tm (prepared_msg msg) ∷ [])
  prepared_plm_in inserting_prepared_aborted es ctx =
      let (msg, es2, c) = make_prepared es ctx in aborting es2 c
  prepared_plm_in _ es ctx = quiet es ctx

  unfoldable pub handle_prepared_plm : RmOuter T I → C → RmStep T R I C
  handle_prepared_plm es ctx = prepared_plm_in es.state es ctx

  abbrev pub committed_plm_in :
      RmState T → RmOuter T I → C → Str → R.RmCommittedPlm → RmStep T R I C
  committed_plm_in following es ctx query_id plm =
      let (action, i, c) = inner.committed_plm_inserted es.inner ctx query_id plm in
      leaving (in_state es es.state i) c [] (some action)
  committed_plm_in inserting_committed es ctx query_id plm =
      let (action, i, c) = inner.committed_plm_inserted es.inner ctx query_id plm in
      leaving (in_state es es.state i) c (send_to_tm es.tm (closed_for es.query_id) ∷ [])
        (some action)
  committed_plm_in _ es ctx query_id plm = quiet es ctx

  unfoldable pub handle_committed_plm : RmOuter T I → C → Str → R.RmCommittedPlm → RmStep T R I C
  handle_committed_plm es ctx query_id plm = committed_plm_in es.state es ctx query_id plm

  abbrev pub aborted_plm_in : RmState T → RmOuter T I → C → RmStep T R I C
  aborted_plm_in following es ctx =
      let (i, c) = inner.aborted_plm_inserted es.inner ctx in
      leaving (in_state es es.state i) c [] none
  aborted_plm_in inserting_aborted es ctx =
      let (i, c) = inner.aborted_plm_inserted es.inner ctx in
      leaving (in_state es es.state i) c (send_to_tm es.tm (closed_for es.query_id) ∷ []) none
  aborted_plm_in _ es ctx = quiet es ctx

  unfoldable pub handle_aborted_plm : RmOuter T I → C → RmStep T R I C
  handle_aborted_plm es ctx = aborted_plm_in es.state es ctx

  -- With the answer of `mk_prepared_plm`.
  abbrev pub inserting : RmOuter T I → Option R.RmPreparedPlm → I → C → RmStep T R I C
  inserting es none i c = quiet (in_state es es.state i) c
  inserting es (some payload) i c =
      sending (in_state es inserting_prepared i) c
        (push_plm (rm_prepared_plm es.query_id es.tm payload) ∷ [])

  abbrev pub start_in : RmState T → RmOuter T I → C → RmStep T R I C
  start_in working es ctx =
      let (plm, i, c) = inner.mk_prepared_plm es.inner ctx in inserting es plm i c
  start_in _ es ctx = quiet es ctx

  unfoldable pub start_inserting : RmOuter T I → C → RmStep T R I C
  start_inserting es ctx = start_in es.state es ctx

  abbrev pub leader_changed_in : RmState T → Bool → RmOuter T I → C → Result (RmStep T R I C)
  leader_changed_in following is_leader es ctx =
      if is_leader
      then (unwrap es.follower >>= λ msg. ok (quiet (in_state es (prepared msg) es.inner) ctx))
      else ok (quiet es ctx)
  leader_changed_in working is_leader es ctx = ok (leaving es ctx [] none)
  leader_changed_in inserting_prepared is_leader es ctx = ok (leaving es ctx [] none)
  leader_changed_in inserting_prepared_aborted is_leader es ctx = ok (leaving es ctx [] none)
  leader_changed_in _ is_leader es ctx = ok (quiet (in_state es following es.inner) ctx)

  unfoldable pub leader_changed : Bool → RmOuter T I → C → Result (RmStep T R I C)
  leader_changed is_leader es ctx = leader_changed_in es.state is_leader es ctx

  abbrev pub snapshot_in : RmState T → RmOuter T I → Option (RmOuter T I)
  snapshot_in working es = none
  snapshot_in inserting_prepared es = none
  snapshot_in inserting_prepared_aborted es = none
  snapshot_in _ es = some (in_state es following (inner.inner_reconfig_snapshot es.inner))

  unfoldable pub reconfig_snapshot : RmOuter T I → Option (RmOuter T I)
  reconfig_snapshot es = snapshot_in es.state es
