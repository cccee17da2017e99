-- ===== src/Stm/Tm/Phase/Call.antt =====
-- The phase of a TM over one call.
use r_universal_db.Base.{
  true, Option, List, [], ◌∷◌, Ord, ◌≡◌, refl, sym, ap, ◌∙◌, Bool-cases, inl, inr, ok, ok_injective,
}
use r_universal_db.BTreeMap.{BTreeMap, insert}
use r_universal_db.BTreeSet.{member, delete}
use r_universal_db.Value.{Str}
use r_universal_db.Stm.{TmPayloadTypes, Prepared, Closed}
use r_universal_db.Stm.Tm.{
  TmInner, FollowerState, State, following, waiting_insert_tm_prepared, insert_tm_preparing,
  preparing, inserting_tm_committed, committed, inserting_tm_aborted, aborted, inserting_tm_closed,
  TmOuter, TmStep, advance_to_prepared, advance_to_committed, advance_to_aborted,
}
use r_universal_db.Stm.Tm.Handler.{
  handle_prepared, handle_aborted, handle_closed, handle_prepared_plm, handle_committed_plm,
  handle_aborted_plm, handle_closed_plm, still_preparing, still_closing,
}
use r_universal_db.Stm.Tm.Leader.{start_inserting}
use r_universal_db.Stm.Tm.Calls.{
  TmCall, got_prepared, got_aborted, got_closed, prepared_inserted, committed_inserted,
  aborted_inserted, closed_inserted, next_bundle, own_leader_changed, group_leader_changed, call,
}
use r_universal_db.Stm.Tm.Agree.{tm_with}
use r_universal_db.Stm.Tm.Phase.Leader.{phase-leader_changed, es-remote_leader_changed}
use r_universal_db.Stm.Tm.Phase.{
  is_prepared, is_committed, is_aborted, phase_of, replay_one, expects,
}

module _ {T : TmPayloadTypes} {I C : Type 0} ⦃o : Ord T.RmPath⦄ ⦃g : Ord T.GroupId⦄
    (inner : TmInner T I C) (tm : T.TmPath) where
  phase-still_preparing :
      (es : TmOuter T I) (ctx : C) (rms : List T.RmPath)
      (replies : BTreeMap T.RmPath T.PreparedReply)
      → (still_preparing inner tm es ctx rms replies).es.follower ≡ es.follower
  phase-still_preparing es ctx [] replies = refl
  phase-still_preparing es ctx (rm ∷ rms) replies = refl

  phase-still_closing :
      (mk : List T.RmPath → State T) (es : TmOuter T I) (ctx : C) (rms : List T.RmPath)
      → (still_closing inner tm mk es ctx rms).es.follower ≡ es.follower
  phase-still_closing mk es ctx [] = refl
  phase-still_closing mk es ctx (rm ∷ rms) = refl

  phase-handle_prepared :
      (q : Str) (st : State T) (f : Option (FollowerState T)) (i : I) (ctx : C) (msg : Prepared T)
      (next : TmStep T I C)
      → ok (handle_prepared inner tm (tm_with q f st i) ctx msg) ≡ ok next
      → phase_of next.es.follower ≡ phase_of f
  unfolding handle_prepared
  phase-handle_prepared q (preparing rms replies) f i ctx msg next h =
      elim (Bool-cases (member msg.rm rms)) [
        | inl m ↦
            ap (λ s. phase_of s.es.follower) (sym (ok_injective _ next (rw m at h)))
            ∙ ap phase_of (
                phase-still_preparing (tm_with q f (preparing rms replies) i) ctx
                  (delete msg.rm rms) (insert msg.rm msg.payload replies))
        | inr m ↦ ap (λ s. phase_of s.es.follower) (sym (ok_injective _ next (rw m at h)))
      ]
  phase-handle_prepared q st f i ctx msg next h =
      ap (λ s. phase_of s.es.follower) (sym (ok_injective _ next h))

  phase-handle_aborted :
      (q : Str) (st : State T) (f : Option (FollowerState T)) (i : I) (ctx : C)
      (next : TmStep T I C)
      → ok (handle_aborted inner tm (tm_with q f st i) ctx) ≡ ok next
      → phase_of next.es.follower ≡ phase_of f
  unfolding handle_aborted
  phase-handle_aborted q (preparing rms replies) f i ctx next h =
      ap (λ s. phase_of s.es.follower) (sym (ok_injective _ next h))
  phase-handle_aborted q st f i ctx next h =
      ap (λ s. phase_of s.es.follower) (sym (ok_injective _ next h))

  phase-handle_closed :
      (q : Str) (st : State T) (f : Option (FollowerState T)) (i : I) (ctx : C) (msg : Closed T)
      (next : TmStep T I C)
      → ok (handle_closed inner tm (tm_with q f st i) ctx msg) ≡ ok next
      → phase_of next.es.follower ≡ phase_of f
  unfolding handle_closed
  phase-handle_closed q (committed rms) f i ctx msg next h = elim (Bool-cases (member msg.rm rms)) [
    | inl m ↦
        ap (λ s. phase_of s.es.follower) (sym (ok_injective _ next (rw m at h)))
        ∙ ap phase_of
            (phase-still_closing committed (tm_with q f (committed rms) i) ctx (delete msg.rm rms))
    | inr m ↦ ap (λ s. phase_of s.es.follower) (sym (ok_injective _ next (rw m at h)))
  ]
  phase-handle_closed q (aborted rms) f i ctx msg next h = elim (Bool-cases (member msg.rm rms)) [
    | inl m ↦
        ap (λ s. phase_of s.es.follower) (sym (ok_injective _ next (rw m at h)))
        ∙ ap phase_of
            (phase-still_closing aborted (tm_with q f (aborted rms) i) ctx (delete msg.rm rms))
    | inr m ↦ ap (λ s. phase_of s.es.follower) (sym (ok_injective _ next (rw m at h)))
  ]
  phase-handle_closed q st f i ctx msg next h =
      ap (λ s. phase_of s.es.follower) (sym (ok_injective _ next h))

  phase-prepared_plm :
      (q : Str) (st : State T) (f : Option (FollowerState T)) (i : I) (ctx : C)
      (next : TmStep T I C)
      → expects st prepared_inserted ≡ true
      → ok (handle_prepared_plm inner tm (tm_with q f st i) ctx) ≡ ok next
      → phase_of next.es.follower ≡ is_prepared
  unfolding handle_prepared_plm advance_to_prepared
  phase-prepared_plm q insert_tm_preparing f i ctx next t h =
      ap (λ s. phase_of s.es.follower) (sym (ok_injective _ next h))
  phase-prepared_plm q st f i ctx next t h = absurd (cc)

  phase-committed_plm :
      (q : Str) (st : State T) (f : Option (FollowerState T)) (i : I) (ctx : C) (id : Str)
      (plm : T.CommittedPlm) (next : TmStep T I C)
      → expects st (committed_inserted id plm) ≡ true
      → ok (handle_committed_plm inner tm (tm_with q f st i) ctx id plm) ≡ ok next
      → phase_of next.es.follower ≡ is_committed
  unfolding handle_committed_plm advance_to_committed
  phase-committed_plm q following f i ctx id plm next t h =
      ap (λ s. phase_of s.es.follower) (sym (ok_injective _ next h))
  phase-committed_plm q inserting_tm_committed f i ctx id plm next t h =
      ap (λ s. phase_of s.es.follower) (sym (ok_injective _ next h))
  phase-committed_plm q st f i ctx id plm next t h = absurd (cc)

  phase-aborted_plm :
      (q : Str) (st : State T) (f : Option (FollowerState T)) (i : I) (ctx : C)
      (next : TmStep T I C)
      → expects st aborted_inserted ≡ true
      → ok (handle_aborted_plm inner tm (tm_with q f st i) ctx) ≡ ok next
      → phase_of next.es.follower ≡ is_aborted
  unfolding handle_aborted_plm advance_to_aborted
  phase-aborted_plm q following f i ctx next t h =
      ap (λ s. phase_of s.es.follower) (sym (ok_injective _ next h))
  phase-aborted_plm q inserting_tm_aborted f i ctx next t h =
      ap (λ s. phase_of s.es.follower) (sym (ok_injective _ next h))
  phase-aborted_plm q st f i ctx next t h = absurd (cc)

  phase-closed_plm :
      (q : Str) (st : State T) (f : Option (FollowerState T)) (i : I) (ctx : C) (id : Str)
      (plm : T.ClosedPlm) (next : TmStep T I C)
      → ok (handle_closed_plm inner tm (tm_with q f st i) ctx id plm) ≡ ok next
      → phase_of next.es.follower ≡ phase_of f
  unfolding handle_closed_plm
  phase-closed_plm q following f i ctx id plm next h =
      ap (λ s. phase_of s.es.follower) (sym (ok_injective _ next h))
  phase-closed_plm q inserting_tm_closed f i ctx id plm next h =
      ap (λ s. phase_of s.es.follower) (sym (ok_injective _ next h))
  phase-closed_plm q st f i ctx id plm next h =
      ap (λ s. phase_of s.es.follower) (sym (ok_injective _ next h))

  phase-start_inserting :
      (q : Str) (st : State T) (f : Option (FollowerState T)) (i : I) (ctx : C)
      (next : TmStep T I C)
      → ok (start_inserting inner tm (tm_with q f st i) ctx) ≡ ok next
      → phase_of next.es.follower ≡ phase_of f
  unfolding start_inserting
  phase-start_inserting q waiting_insert_tm_prepared f i ctx next h =
      ap (λ s. phase_of s.es.follower) (sym (ok_injective _ next h))
  phase-start_inserting q st f i ctx next h =
      ap (λ s. phase_of s.es.follower) (sym (ok_injective _ next h))

  pub phase-call :
      (c : TmCall T) (q : Str) (st : State T) (f : Option (FollowerState T)) (i : I) (ctx : C)
      (next : TmStep T I C)
      → expects st c ≡ true
      → call inner tm (tm_with q f st i) ctx c ≡ ok next
      → phase_of next.es.follower ≡ replay_one (phase_of f) c
  unfolding call
  phase-call (got_prepared msg) q st f i ctx next t h =
      phase-handle_prepared q st f i ctx msg next h
  phase-call got_aborted q st f i ctx next t h = phase-handle_aborted q st f i ctx next h
  phase-call (got_closed msg) q st f i ctx next t h = phase-handle_closed q st f i ctx msg next h
  phase-call prepared_inserted q st f i ctx next t h = phase-prepared_plm q st f i ctx next t h
  phase-call (committed_inserted id plm) q st f i ctx next t h =
      phase-committed_plm q st f i ctx id plm next t h
  phase-call aborted_inserted q st f i ctx next t h = phase-aborted_plm q st f i ctx next t h
  phase-call (closed_inserted id plm) q st f i ctx next t h =
      phase-closed_plm q st f i ctx id plm next h
  phase-call next_bundle q st f i ctx next t h = phase-start_inserting q st f i ctx next h
  phase-call (own_leader_changed b) q st f i ctx next t h =
      phase-leader_changed inner tm b q st f i ctx next h
  phase-call (group_leader_changed gid) q st f i ctx next t h =
      ap (λ es. phase_of es.follower) (es-remote_leader_changed inner tm gid q st f i ctx next h)
