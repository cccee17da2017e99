-- ===== src/Stm/Tm/Invariant.antt =====
-- The calls of a TM, one by one and in sequence.
use r_universal_db.Base.{
  Bool, true, false, Option, List, [], ◌∷◌, Ord, ◌==◌, ◌≡◌, refl, arith, Bool-cases, Option-cases,
  inl, inr, Result, ok,
}
use r_universal_db.BTreeMap.{BTreeMap, get}
use r_universal_db.Value.{Str}
use r_universal_db.Stm.{TmPayloadTypes, RmMessage, prepare_msg, commit_msg, abort_msg}
use r_universal_db.Stm.Tm.{
  TmInner, FollowerState, follow_preparing, follow_committed, follow_aborted, State, following,
  start, waiting_insert_tm_prepared, insert_tm_preparing, preparing, inserting_tm_committed,
  committed, inserting_tm_aborted, aborted, inserting_tm_closed, TmOuter, TmStep, TmEffect,
  send_to_rm, wait, advance_to_prepared, advance_to_committed, advance_to_aborted,
}
use r_universal_db.Stm.Tm.Leader.{leader_changed, remote_leader_changed, resend, take_over}
use r_universal_db.Stm.Tm.Consistent.{Covers, rm_set-Covers}
use r_universal_db.Stm.Tm.Calls.{
  TmCall, got_prepared, got_aborted, got_closed, prepared_inserted, committed_inserted,
  aborted_inserted, closed_inserted, next_bundle, own_leader_changed, group_leader_changed, call,
  run, add_effects, TmAction-cases,
}
use r_universal_db.Stm.Tm.Agree.{
  Agrees, tm_with, StepAgrees, handle_prepared-Agrees, handle_aborted-Agrees, handle_closed-Agrees,
  handle_prepared_plm-Agrees, handle_committed_plm-Agrees, handle_aborted_plm-Agrees,
  handle_closed_plm-Agrees, start_inserting-Agrees,
}

resend-Returns :
    {T : TmPayloadTypes} {P : Type 0} ⦃o : Ord T.RmPath⦄ ⦃g : Ord T.GroupId⦄ (mk : P → RmMessage T)
    (payloads : BTreeMap T.RmPath P) (gid : T.GroupId) (rms : List T.RmPath)
    → Covers payloads rms
    → (effects : List (TmEffect T)) × (resend mk payloads gid rms ≡ ok effects)
unfolding resend
resend-Returns mk payloads gid [] h = ([], refl)
resend-Returns {T} mk payloads gid (rm ∷ rms) h =
    let (rest, e) = resend-Returns mk payloads gid rms h.1 in
    elim (Bool-cases (T.to_gid rm == gid)) [
      | inl t ↦ elim (Option-cases (get rm payloads)) [
        | inl n ↦ absurd (ground (arith, h.0, n))
        | inr (p, s) ↦ (send_to_rm rm (mk p) ∷ rest, rw (t, s, e) refl)
      ]
      | inr f ↦ (rest, rw (f, e) refl)
    ]

module _ {T : TmPayloadTypes} {I C : Type 0} ⦃o : Ord T.RmPath⦄ ⦃g : Ord T.GroupId⦄
    (inner : TmInner T I C) (tm : T.TmPath) where
  -- The call returns, and the fields agree again.
  abbrev pub Goes : Result (TmStep T I C) → Type 0
  Goes m = (step : TmStep T I C) × (m ≡ ok step) × StepAgrees inner tm step

  take_over-Agrees :
      (x : FollowerState T) (es : TmOuter T I) (ctx : C)
      → StepAgrees inner tm (take_over inner tm x es ctx)
  unfolding advance_to_prepared advance_to_committed advance_to_aborted
  take_over-Agrees (follow_preparing p) es ctx = (p, refl, rm_set-Covers p)
  take_over-Agrees (follow_committed p) es ctx = (p, refl, rm_set-Covers p)
  take_over-Agrees (follow_aborted p) es ctx = (p, refl, rm_set-Covers p)

  leader_changed-Goes :
      (is_leader : Bool) (query_id : Str) (st : State T) (f : Option (FollowerState T)) (i : I)
      (ctx : C)
      → Agrees st f
      → Goes (leader_changed inner tm is_leader (tm_with query_id f st i) ctx)
  unfolding leader_changed
  leader_changed-Goes true q following f i ctx (x, e) = (
    take_over inner tm x (tm_with q f following i) ctx,
    rw e refl,
    take_over-Agrees x (tm_with q f following i) ctx,
  )
  leader_changed-Goes false q following f i ctx h = (_, refl, h)
  leader_changed-Goes b q (preparing rms replies) f i ctx (p, e, h) =
      (_, refl, (follow_preparing p, e))
  leader_changed-Goes b q (committed rms) f i ctx (p, e, h) = (_, refl, (follow_committed p, e))
  leader_changed-Goes b q (aborted rms) f i ctx (p, e, h) = (_, refl, (follow_aborted p, e))
  leader_changed-Goes b q inserting_tm_committed f i ctx (p, e) = (_, refl, (follow_preparing p, e))
  leader_changed-Goes b q inserting_tm_aborted f i ctx (p, e) = (_, refl, (follow_preparing p, e))
  leader_changed-Goes b q inserting_tm_closed f i ctx h = elim (Option-cases f) [
    | inl e ↦ absurd (ground (arith, e, h))
    | inr (x, e) ↦ (_, refl, (x, e))
  ]
  leader_changed-Goes b q start f i ctx h = (_, refl, h)
  leader_changed-Goes b q waiting_insert_tm_prepared f i ctx h = (_, refl, h)
  leader_changed-Goes b q insert_tm_preparing f i ctx h = (_, refl, h)

  abbrev sending :
      Str → State T → Option (FollowerState T) → I → C → List (TmEffect T) → TmStep T I C
  sending query_id st f i ctx effects = record {
    es = tm_with query_id f st i;
    ctx = ctx;
    effects = effects;
    action = wait;
  }

  remote_leader_changed-Goes :
      (gid : T.GroupId) (query_id : Str) (st : State T) (f : Option (FollowerState T)) (i : I)
      (ctx : C)
      → Agrees st f
      → Goes (remote_leader_changed tm (tm_with query_id f st i) ctx gid)
  unfolding remote_leader_changed
  remote_leader_changed-Goes gid q (preparing rms replies) f i ctx (p, e, h) =
      let (effects, r) = resend-Returns (λ payload. prepare_msg q tm payload) p gid rms h in
      (sending q (preparing rms replies) f i ctx effects, rw (e, r) refl, (p, e, h))
  remote_leader_changed-Goes gid q (committed rms) f i ctx (p, e, h) =
      let (effects, r) = resend-Returns (λ payload. commit_msg q tm payload) p gid rms h in
      (sending q (committed rms) f i ctx effects, rw (e, r) refl, (p, e, h))
  remote_leader_changed-Goes gid q (aborted rms) f i ctx (p, e, h) =
      let (effects, r) = resend-Returns (λ payload. abort_msg q tm payload) p gid rms h in
      (sending q (aborted rms) f i ctx effects, rw (e, r) refl, (p, e, h))
  remote_leader_changed-Goes gid q st f i ctx h = (_, refl, h)

  call-Goes :
      (es : TmOuter T I) (ctx : C) (c : TmCall T)
      → Agrees es.state es.follower
      → Goes (call inner tm es ctx c)
  unfolding call
  call-Goes es ctx (got_prepared msg) h =
      (_, refl, handle_prepared-Agrees inner tm es.query_id es.state es.follower es.inner ctx msg h)
  call-Goes es ctx got_aborted h =
      (_, refl, handle_aborted-Agrees inner tm es.query_id es.state es.follower es.inner ctx h)
  call-Goes es ctx (got_closed msg) h =
      (_, refl, handle_closed-Agrees inner tm es.query_id es.state es.follower es.inner ctx msg h)
  call-Goes es ctx prepared_inserted h =
      (_, refl, handle_prepared_plm-Agrees inner tm es.query_id es.state es.follower es.inner ctx h)
  call-Goes es ctx (committed_inserted q plm) h = (
    _,
    refl,
    handle_committed_plm-Agrees inner tm es.query_id es.state es.follower es.inner ctx q plm h,
  )
  call-Goes es ctx aborted_inserted h =
      (_, refl, handle_aborted_plm-Agrees inner tm es.query_id es.state es.follower es.inner ctx h)
  call-Goes es ctx (closed_inserted q plm) h = (
    _,
    refl,
    handle_closed_plm-Agrees inner tm es.query_id es.state es.follower es.inner ctx q plm h,
  )
  call-Goes es ctx next_bundle h =
      (_, refl, start_inserting-Agrees inner tm es.query_id es.state es.follower es.inner ctx h)
  call-Goes es ctx (own_leader_changed is_leader) h =
      leader_changed-Goes is_leader es.query_id es.state es.follower es.inner ctx h
  call-Goes es ctx (group_leader_changed gid) h =
      remote_leader_changed-Goes gid es.query_id es.state es.follower es.inner ctx h

  -- If the state of a TM agrees with what it keeps for a new leader, then no sequence of calls
  -- panics, and after it they agree again: the follower part is there exactly from the first
  -- insertion on, it is of the phase of the state, and has a payload for each RM that remains.
  pub run-Agrees :
      (calls : List (TmCall T)) (step : TmStep T I C)
      → StepAgrees inner tm step
      → Goes (run inner tm step calls)
  unfolding run
  run-Agrees [] step h = (step, refl, h)
  run-Agrees (c ∷ calls) step h = elim (TmAction-cases step.action) [
    | inl w ↦
        let (next, e, k) = call-Goes step.es step.ctx c h in
        rw (w, e) (run-Agrees calls (add_effects inner tm step.effects next) k)
    | inr x ↦ rw x (_, refl, h)
  ]
