-- ===== src/Stm/Tm/Budget.antt =====
-- What one call of a TM may decide.
use r_universal_db.Base.{
  ◌+◌, ◌≤◌, true, Option, List, [], ◌∷◌, Ord, ◌≡◌, arith, Bool-cases, inl, inr, ok, >>=-ok, unwrap,
  ok_injective,
}
use r_universal_db.BTreeMap.{BTreeMap, insert}
use r_universal_db.BTreeSet.{member, delete}
use r_universal_db.Value.{Str}
use r_universal_db.Stm.{
  TmPayloadTypes, RmMessage, prepare_msg, commit_msg, abort_msg, Prepared, Closed,
}
use r_universal_db.Stm.Tm.{
  TmInner, FollowerState, State, insert_tm_preparing, preparing, inserting_tm_committed, committed,
  inserting_tm_aborted, aborted, TmOuter, TmStep, advance_to_prepared, advance_to_committed,
  advance_to_aborted,
}
use r_universal_db.Stm.Tm.Handler.{
  handle_prepared, handle_aborted, handle_closed, handle_prepared_plm, handle_committed_plm,
  handle_aborted_plm, handle_closed_plm, still_preparing,
}
use r_universal_db.Stm.Tm.Leader.{
  start_inserting, remote_leader_changed, resend, resent, cast_preparing, cast_committed,
  cast_aborted,
}
use r_universal_db.Stm.Tm.Calls.{
  TmCall, got_prepared, got_aborted, got_closed, prepared_inserted, committed_inserted,
  aborted_inserted, closed_inserted, next_bundle, own_leader_changed, group_leader_changed, call,
}
use r_universal_db.Stm.Tm.Agree.{tm_with}
use r_universal_db.Stm.Tm.Decision.{
  decisions, decisions-send_all, decisions-resend, left, is_steady,
}

module _ {T : TmPayloadTypes} {I C : Type 0} ⦃o : Ord T.RmPath⦄ (inner : TmInner T I C)
    (tm : T.TmPath) where
  -- The decisions of the step, and what is left after it, are within what was left.
  abbrev pub Within : State T → TmStep T I C → Type 0
  Within st step = decisions step.effects + left step.es.state ≤ left st

  still_preparing-Within :
      (query_id : Str) (rms : List T.RmPath) (replies : BTreeMap T.RmPath T.PreparedReply)
      (st : State T) (f : Option (FollowerState T)) (i : I) (ctx : C)
      → decisions (still_preparing inner tm (tm_with query_id f st i) ctx rms replies).effects
          + left (still_preparing inner tm (tm_with query_id f st i) ctx rms replies).es.state
        ≤ 1
  unfolding decisions
  still_preparing-Within q [] replies st f i ctx = ground arith
  still_preparing-Within q (rm ∷ rms) replies st f i ctx = ground arith

  handle_prepared-Within :
      (query_id : Str) (st : State T) (f : Option (FollowerState T)) (i : I) (ctx : C)
      (msg : Prepared T)
      → Within st (handle_prepared inner tm (tm_with query_id f st i) ctx msg)
  unfolding handle_prepared decisions
  handle_prepared-Within q (preparing rms replies) f i ctx msg =
      elim (Bool-cases (member msg.rm rms)) [
        | inl m ↦ rw m (
            still_preparing-Within q (delete msg.rm rms) (insert msg.rm msg.payload replies)
              (preparing rms replies) f i ctx)
        | inr m ↦ rw m (ground arith)
      ]
  handle_prepared-Within q st f i ctx msg = ground arith

  handle_aborted-Within :
      (query_id : Str) (st : State T) (f : Option (FollowerState T)) (i : I) (ctx : C)
      → Within st (handle_aborted inner tm (tm_with query_id f st i) ctx)
  unfolding handle_aborted decisions
  handle_aborted-Within q (preparing rms replies) f i ctx = ground arith
  handle_aborted-Within q st f i ctx = ground arith

  handle_closed-Within :
      (query_id : Str) (st : State T) (f : Option (FollowerState T)) (i : I) (ctx : C)
      (msg : Closed T)
      → Within st (handle_closed inner tm (tm_with query_id f st i) ctx msg)
  unfolding handle_closed decisions
  handle_closed-Within q st f i ctx msg = ground arith

  handle_prepared_plm-Within :
      (query_id : Str) (st : State T) (f : Option (FollowerState T)) (i : I) (ctx : C)
      → Within st (handle_prepared_plm inner tm (tm_with query_id f st i) ctx)
  unfolding handle_prepared_plm advance_to_prepared decisions
  handle_prepared_plm-Within q insert_tm_preparing f i ctx = ground (
    arith,
    decisions-send_all {T = T} (λ payload. prepare_msg q tm payload)
        (inner.prepared_plm_inserted i ctx).0,
  )
  handle_prepared_plm-Within q st f i ctx = ground arith

  handle_committed_plm-Within :
      (query_id : Str) (st : State T) (f : Option (FollowerState T)) (i : I) (ctx : C)
      (plm_id : Str) (plm : T.CommittedPlm)
      → Within st (handle_committed_plm inner tm (tm_with query_id f st i) ctx plm_id plm)
  unfolding handle_committed_plm advance_to_committed decisions
  handle_committed_plm-Within q inserting_tm_committed f i ctx plm_id plm = ground (
    arith,
    decisions-send_all {T = T} (λ payload. commit_msg q tm payload)
        (inner.committed_plm_inserted i ctx plm_id plm).0,
  )
  handle_committed_plm-Within q st f i ctx plm_id plm = ground arith

  handle_aborted_plm-Within :
      (query_id : Str) (st : State T) (f : Option (FollowerState T)) (i : I) (ctx : C)
      → Within st (handle_aborted_plm inner tm (tm_with query_id f st i) ctx)
  unfolding handle_aborted_plm advance_to_aborted decisions
  handle_aborted_plm-Within q inserting_tm_aborted f i ctx = ground (
    arith,
    decisions-send_all {T = T} (λ payload. abort_msg q tm payload)
        (inner.aborted_plm_inserted i ctx).0,
  )
  handle_aborted_plm-Within q st f i ctx = ground arith

  handle_closed_plm-Within :
      (query_id : Str) (st : State T) (f : Option (FollowerState T)) (i : I) (ctx : C)
      (plm_id : Str) (plm : T.ClosedPlm)
      → Within st (handle_closed_plm inner tm (tm_with query_id f st i) ctx plm_id plm)
  unfolding handle_closed_plm decisions
  handle_closed_plm-Within q st f i ctx plm_id plm = ground arith

  start_inserting-Within :
      (query_id : Str) (st : State T) (f : Option (FollowerState T)) (i : I) (ctx : C)
      → Within st (start_inserting inner tm (tm_with query_id f st i) ctx)
  unfolding start_inserting decisions
  start_inserting-Within q st f i ctx = ground arith

module _ {T : TmPayloadTypes} {I C : Type 0} ⦃o : Ord T.RmPath⦄ ⦃g : Ord T.GroupId⦄
    (inner : TmInner T I C) (tm : T.TmPath) where
  resent-Within :
      {P : Type 0} (mk : P → RmMessage T) (payloads : BTreeMap T.RmPath P) (gid : T.GroupId)
      (rms : List T.RmPath) (es : TmOuter T I) (ctx : C) (step : TmStep T I C)
      → resent tm es ctx (resend mk payloads gid rms) ≡ ok step
      → Within inner tm es.state step
  resent-Within mk payloads gid rms es ctx step h =
      let (effects, e, k) = >>=-ok (resend mk payloads gid rms) _ step h in
      ground (arith, k, decisions-resend mk payloads gid rms effects e)

  remote_leader_changed-Within :
      (gid : T.GroupId) (query_id : Str) (st : State T) (f : Option (FollowerState T)) (i : I)
      (ctx : C) (step : TmStep T I C)
      → remote_leader_changed tm (tm_with query_id f st i) ctx gid ≡ ok step
      → Within inner tm st step
  unfolding remote_leader_changed decisions
  remote_leader_changed-Within gid q (preparing rms replies) f i ctx step h =
      let (x, e, k) = >>=-ok (unwrap f) _ step h in
      let (p, e', k') = >>=-ok (unwrap (cast_preparing x)) _ step k in
      resent-Within (λ payload. prepare_msg q tm payload) p gid rms
        (tm_with q f (preparing rms replies) i) ctx step k'
  remote_leader_changed-Within gid q (committed rms) f i ctx step h =
      let (x, e, k) = >>=-ok (unwrap f) _ step h in
      let (p, e', k') = >>=-ok (unwrap (cast_committed x)) _ step k in
      resent-Within (λ payload. commit_msg q tm payload) p gid rms (tm_with q f (committed rms) i)
        ctx step k'
  remote_leader_changed-Within gid q (aborted rms) f i ctx step h =
      let (x, e, k) = >>=-ok (unwrap f) _ step h in
      let (p, e', k') = >>=-ok (unwrap (cast_aborted x)) _ step k in
      resent-Within (λ payload. abort_msg q tm payload) p gid rms (tm_with q f (aborted rms) i) ctx
        step k'
  remote_leader_changed-Within gid q st f i ctx step h = ground (arith, h)

  pub call-Within :
      (es : TmOuter T I) (ctx : C) (c : TmCall T) (step : TmStep T I C)
      → is_steady c ≡ true
      → call inner tm es ctx c ≡ ok step
      → Within inner tm es.state step
  unfolding call
  call-Within es ctx (got_prepared msg) step s h =
      rw (← ok_injective _ step h)
        (handle_prepared-Within inner tm es.query_id es.state es.follower es.inner ctx msg)
  call-Within es ctx got_aborted step s h =
      rw (← ok_injective _ step h)
        (handle_aborted-Within inner tm es.query_id es.state es.follower es.inner ctx)
  call-Within es ctx (got_closed msg) step s h =
      rw (← ok_injective _ step h)
        (handle_closed-Within inner tm es.query_id es.state es.follower es.inner ctx msg)
  call-Within es ctx prepared_inserted step s h =
      rw (← ok_injective _ step h)
        (handle_prepared_plm-Within inner tm es.query_id es.state es.follower es.inner ctx)
  call-Within es ctx (committed_inserted q plm) step s h =
      rw (← ok_injective _ step h)
        (handle_committed_plm-Within inner tm es.query_id es.state es.follower es.inner ctx q plm)
  call-Within es ctx aborted_inserted step s h =
      rw (← ok_injective _ step h)
        (handle_aborted_plm-Within inner tm es.query_id es.state es.follower es.inner ctx)
  call-Within es ctx (closed_inserted q plm) step s h =
      rw (← ok_injective _ step h)
        (handle_closed_plm-Within inner tm es.query_id es.state es.follower es.inner ctx q plm)
  call-Within es ctx next_bundle step s h =
      rw (← ok_injective _ step h)
        (start_inserting-Within inner tm es.query_id es.state es.follower es.inner ctx)
  call-Within es ctx (own_leader_changed is_leader) step s h = absurd (cc)
  call-Within es ctx (group_leader_changed gid) step s h =
      remote_leader_changed-Within gid es.query_id es.state es.follower es.inner ctx step h
