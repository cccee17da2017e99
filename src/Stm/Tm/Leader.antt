-- ===== src/Stm/Tm/Leader.antt =====
-- src/stmpaxos2pc_tm.rs: the start of a transaction, and changes of leaders and of the group.
use r_universal_db.Base.{
  Bool, Option, none, some, List, [], ◌∷◌, if◌then◌else◌, Ord, ◌==◌, Result, ok, ◌>>=◌, unwrap,
}
use r_universal_db.BTreeMap.{BTreeMap, get}
use r_universal_db.Stm.{TmPayloadTypes, prepared_plm, RmMessage, prepare_msg, abort_msg, commit_msg}
use r_universal_db.Stm.Tm.{
  TmInner, FollowerState, follow_preparing, follow_committed, follow_aborted, State, following,
  start, waiting_insert_tm_prepared, insert_tm_preparing, preparing, committed, aborted, wait,
  TmOuter, TmEffect, send_to_rm, TmStep, quiet, advance_to_prepared, advance_to_committed,
  advance_to_aborted, in_state, inserting, leaving,
}

-- The loop of `remote_leader_changed`: `mk` makes the message to an RM of the group again.
unfoldable pub resend :
    {T : TmPayloadTypes} {P : Type 0} ⦃o : Ord T.RmPath⦄ ⦃g : Ord T.GroupId⦄
    → (P → RmMessage T)
    → BTreeMap T.RmPath P
    → T.GroupId
    → List T.RmPath
    → Result (List (TmEffect T))
resend mk payloads gid [] = ok []
resend {T} mk payloads gid (rm ∷ rms) =
    let rest = resend mk payloads gid rms in
    if T.to_gid rm == gid
    then (unwrap (get rm payloads) >>= λ payload.
        rest >>= λ effects. ok (send_to_rm rm (mk payload) ∷ effects))
    else rest

module _ {T : TmPayloadTypes} {I C : Type 0} ⦃o : Ord T.RmPath⦄ (inner : TmInner T I C)
    (tm : T.TmPath) where
  abbrev pub start_in : State T → TmOuter T I → C → TmStep T I C
  start_in waiting_insert_tm_prepared es ctx =
      let (payload, i, c) = inner.mk_prepared_plm es.inner ctx in
      inserting es insert_tm_preparing (prepared_plm es.query_id payload) (i, c)
  start_in _ es ctx = quiet es ctx

  unfoldable pub start_inserting : TmOuter T I → C → TmStep T I C
  start_inserting es ctx = start_in es.state es ctx

  -- At a new leader, from what it has followed.
  abbrev pub take_over : FollowerState T → TmOuter T I → C → TmStep T I C
  take_over (follow_preparing prepare_payloads) es ctx =
      advance_to_prepared tm es ctx prepare_payloads
  take_over (follow_committed commit_payloads) es ctx =
      advance_to_committed tm es ctx commit_payloads
  take_over (follow_aborted abort_payloads) es ctx = advance_to_aborted tm es ctx abort_payloads

  abbrev pub step_down : TmOuter T I → I × C → TmStep T I C
  step_down es (i, c) = quiet (in_state es following i) c

  abbrev pub leader_changed_in : State T → Bool → TmOuter T I → C → Result (TmStep T I C)
  leader_changed_in following is_leader es ctx =
      if is_leader
      then (unwrap es.follower >>= λ follower. ok (take_over follower es ctx))
      else ok (quiet es ctx)
  leader_changed_in start is_leader es ctx =
      ok (leaving es (inner.inner_leader_changed es.inner ctx))
  leader_changed_in waiting_insert_tm_prepared is_leader es ctx =
      ok (leaving es (inner.inner_leader_changed es.inner ctx))
  leader_changed_in insert_tm_preparing is_leader es ctx =
      ok (leaving es (inner.inner_leader_changed es.inner ctx))
  leader_changed_in _ is_leader es ctx = ok (step_down es (inner.inner_leader_changed es.inner ctx))

  unfoldable pub leader_changed : Bool → TmOuter T I → C → Result (TmStep T I C)
  leader_changed is_leader es ctx = leader_changed_in es.state is_leader es ctx

  abbrev pub snapshot_in : State T → TmOuter T I → Option (TmOuter T I)
  snapshot_in start es = none
  snapshot_in waiting_insert_tm_prepared es = none
  snapshot_in insert_tm_preparing es = none
  snapshot_in _ es = some (in_state es following (inner.inner_reconfig_snapshot es.inner))

  unfoldable pub reconfig_snapshot : TmOuter T I → Option (TmOuter T I)
  reconfig_snapshot es = snapshot_in es.state es

-- `cast!(FollowerState::Preparing, follower)` and its companions.
abbrev pub cast_preparing :
    {T : TmPayloadTypes} → FollowerState T → Option (BTreeMap T.RmPath T.Prepare)
cast_preparing (follow_preparing payloads) = some payloads
cast_preparing _ = none

abbrev pub cast_committed :
    {T : TmPayloadTypes} → FollowerState T → Option (BTreeMap T.RmPath T.Commit)
cast_committed (follow_committed payloads) = some payloads
cast_committed _ = none

abbrev pub cast_aborted :
    {T : TmPayloadTypes} → FollowerState T → Option (BTreeMap T.RmPath T.Abort)
cast_aborted (follow_aborted payloads) = some payloads
cast_aborted _ = none

module _ {T : TmPayloadTypes} {I C : Type 0} ⦃o : Ord T.RmPath⦄ ⦃g : Ord T.GroupId⦄
    (tm : T.TmPath) where
  abbrev pub resent : TmOuter T I → C → Result (List (TmEffect T)) → Result (TmStep T I C)
  resent es ctx m =
      m >>= λ effects. ok (record { es = es; ctx = ctx; effects = effects; action = wait })

  abbrev pub remote_leader_changed_in :
      State T → TmOuter T I → C → T.GroupId → Result (TmStep T I C)
  remote_leader_changed_in (preparing rms_remaining replies) es ctx gid =
      unwrap es.follower >>= λ follower. unwrap (cast_preparing follower) >>= λ payloads.
      resent es ctx
        (resend (λ payload. prepare_msg es.query_id tm payload) payloads gid rms_remaining)
  remote_leader_changed_in (committed rms_remaining) es ctx gid = unwrap es.follower >>= λ follower.
      unwrap (cast_committed follower) >>= λ payloads.
      resent es ctx
        (resend (λ payload. commit_msg es.query_id tm payload) payloads gid rms_remaining)
  remote_leader_changed_in (aborted rms_remaining) es ctx gid = unwrap es.follower >>= λ follower.
      unwrap (cast_aborted follower) >>= λ payloads.
      resent es ctx
        (resend (λ payload. abort_msg es.query_id tm payload) payloads gid rms_remaining)
  remote_leader_changed_in _ es ctx gid = ok (quiet es ctx)

  unfoldable pub remote_leader_changed : TmOuter T I → C → T.GroupId → Result (TmStep T I C)
  remote_leader_changed es ctx gid = remote_leader_changed_in es.state es ctx gid
