-- ===== src/Stm/Tm/Handler.antt =====
-- src/stmpaxos2pc_tm.rs: the messages to a TM, and the insertions of its PLms.
use r_universal_db.Base.{some, List, [], ◌∷◌, if◌then◌else◌, Ord}
use r_universal_db.BTreeMap.{BTreeMap, insert}
use r_universal_db.BTreeSet.{member, delete}
use r_universal_db.Value.{Str}
use r_universal_db.Stm.{TmPayloadTypes, committed_plm, aborted_plm, closed_plm, Prepared, Closed}
use r_universal_db.Stm.Tm.{
  TmInner, follow_preparing, follow_committed, follow_aborted, State, following,
  insert_tm_preparing, preparing, inserting_tm_committed, committed, inserting_tm_aborted, aborted,
  inserting_tm_closed, TmOuter, TmStep, quiet, advance_to_prepared, advance_to_committed,
  advance_to_aborted, in_state, following_with, inserting, leaving,
}

module _ {T : TmPayloadTypes} {I C : Type 0} ⦃o : Ord T.RmPath⦄ (inner : TmInner T I C)
    (tm : T.TmPath) where
  abbrev pub init_follower : TmOuter T I → C → TmOuter T I × C
  init_follower es ctx =
      let (prepare_payloads, i, c) = inner.prepared_plm_inserted es.inner ctx in
      (
        record {
          query_id = es.query_id;
          follower = some (follow_preparing prepare_payloads);
          state = following;
          inner = i;
        },
        c,
      )

  abbrev pub still_preparing :
      TmOuter T I → C → List T.RmPath → BTreeMap T.RmPath T.PreparedReply → TmStep T I C
  still_preparing es ctx [] replies =
      let (payload, i, c) = inner.mk_committed_plm es.inner ctx replies in
      inserting es inserting_tm_committed (committed_plm es.query_id payload) (i, c)
  still_preparing es ctx (rm ∷ rms) replies =
      quiet (in_state es (preparing (rm ∷ rms) replies) es.inner) ctx

  abbrev pub prepared_in : State T → TmOuter T I → C → Prepared T → TmStep T I C
  prepared_in (preparing rms_remaining replies) es ctx msg =
      if member msg.rm rms_remaining
      then still_preparing es ctx (delete msg.rm rms_remaining) (insert msg.rm msg.payload replies)
      else quiet es ctx
  prepared_in _ es ctx msg = quiet es ctx

  unfoldable pub handle_prepared : TmOuter T I → C → Prepared T → TmStep T I C
  handle_prepared es ctx msg = prepared_in es.state es ctx msg

  abbrev pub aborted_in : State T → TmOuter T I → C → TmStep T I C
  aborted_in (preparing rms_remaining replies) es ctx =
      let (payload, i, c) = inner.mk_aborted_plm es.inner ctx in
      inserting es inserting_tm_aborted (aborted_plm es.query_id payload) (i, c)
  aborted_in _ es ctx = quiet es ctx

  unfoldable pub handle_aborted : TmOuter T I → C → TmStep T I C
  handle_aborted es ctx = aborted_in es.state es ctx

  -- For what remains after a `Closed`, where `mk` is `committed` or `aborted`.
  abbrev pub still_closing :
      (List T.RmPath → State T) → TmOuter T I → C → List T.RmPath → TmStep T I C
  still_closing mk es ctx [] =
      let (payload, i, c) = inner.mk_closed_plm es.inner ctx in
      inserting es inserting_tm_closed (closed_plm es.query_id payload) (i, c)
  still_closing mk es ctx (rm ∷ rms) = quiet (in_state es (mk (rm ∷ rms)) es.inner) ctx

  abbrev pub closed_in : State T → TmOuter T I → C → Closed T → TmStep T I C
  closed_in (committed rms_remaining) es ctx msg =
      if member msg.rm rms_remaining
      then still_closing committed es ctx (delete msg.rm rms_remaining)
      else quiet es ctx
  closed_in (aborted rms_remaining) es ctx msg =
      if member msg.rm rms_remaining
      then still_closing aborted es ctx (delete msg.rm rms_remaining)
      else quiet es ctx
  closed_in _ es ctx msg = quiet es ctx

  unfoldable pub handle_closed : TmOuter T I → C → Closed T → TmStep T I C
  handle_closed es ctx msg = closed_in es.state es ctx msg

  abbrev pub prepared_plm_in : State T → TmOuter T I → C → TmStep T I C
  prepared_plm_in insert_tm_preparing es ctx =
      let (prepare_payloads, i, c) = inner.prepared_plm_inserted es.inner ctx in
      advance_to_prepared tm (in_state es es.state i) c prepare_payloads
  prepared_plm_in _ es ctx = quiet es ctx

  unfoldable pub handle_prepared_plm : TmOuter T I → C → TmStep T I C
  handle_prepared_plm es ctx = prepared_plm_in es.state es ctx

  abbrev pub committed_plm_in : State T → TmOuter T I → C → Str → T.CommittedPlm → TmStep T I C
  committed_plm_in following es ctx query_id plm =
      let (commit_payloads, i, c) = inner.committed_plm_inserted es.inner ctx query_id plm in
      quiet (following_with es (follow_committed commit_payloads) i) c
  committed_plm_in inserting_tm_committed es ctx query_id plm =
      let (commit_payloads, i, c) = inner.committed_plm_inserted es.inner ctx query_id plm in
      advance_to_committed tm (in_state es es.state i) c commit_payloads
  committed_plm_in _ es ctx query_id plm = quiet es ctx

  unfoldable pub handle_committed_plm : TmOuter T I → C → Str → T.CommittedPlm → TmStep T I C
  handle_committed_plm es ctx query_id plm = committed_plm_in es.state es ctx query_id plm

  abbrev pub aborted_plm_in : State T → TmOuter T I → C → TmStep T I C
  aborted_plm_in following es ctx =
      let (abort_payloads, i, c) = inner.aborted_plm_inserted es.inner ctx in
      quiet (following_with es (follow_aborted abort_payloads) i) c
  aborted_plm_in inserting_tm_aborted es ctx =
      let (abort_payloads, i, c) = inner.aborted_plm_inserted es.inner ctx in
      advance_to_aborted tm (in_state es es.state i) c abort_payloads
  aborted_plm_in _ es ctx = quiet es ctx

  unfoldable pub handle_aborted_plm : TmOuter T I → C → TmStep T I C
  handle_aborted_plm es ctx = aborted_plm_in es.state es ctx

  abbrev pub closed_plm_in : State T → TmOuter T I → C → Str → T.ClosedPlm → TmStep T I C
  closed_plm_in following es ctx query_id plm =
      leaving es (inner.closed_plm_inserted es.inner ctx query_id plm)
  closed_plm_in inserting_tm_closed es ctx query_id plm =
      leaving es (inner.closed_plm_inserted es.inner ctx query_id plm)
  closed_plm_in _ es ctx query_id plm = quiet es ctx

  unfoldable pub handle_closed_plm : TmOuter T I → C → Str → T.ClosedPlm → TmStep T I C
  handle_closed_plm es ctx query_id plm = closed_plm_in es.state es ctx query_id plm
