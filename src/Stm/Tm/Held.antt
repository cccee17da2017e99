-- ===== src/Stm/Tm/Held.antt =====
-- A TM that waits for the answer of an RM.
use r_universal_db.Base.{
  Bool, true, false, Option, is_some, List, [], ◌∷◌, Ord, ◌==◌, ◌≡◌, refl, sym, ap, ◌∙◌, arith,
  Bool-cases, ◌⊎◌, inl, inr, ok, >>=-ok, unwrap, All, ok_injective,
}
use r_universal_db.BTreeMap.{BTreeMap, get, insert}
use r_universal_db.BTreeSet.{member, delete, member-delete}
use r_universal_db.Value.{Str}
use r_universal_db.Stm.{TmPayloadTypes, RmMessage, prepare_msg, Prepared}
use r_universal_db.Stm.Tm.{
  TmInner, FollowerState, State, preparing, TmOuter, TmStep, send_all, rm_set, advance_to_prepared,
}
use r_universal_db.Stm.Tm.Handler.{
  handle_prepared, handle_aborted, handle_closed, handle_prepared_plm, handle_committed_plm,
  handle_aborted_plm, handle_closed_plm, still_preparing,
}
use r_universal_db.Stm.Tm.Leader.{
  start_inserting, remote_leader_changed, resend, resent, cast_preparing,
}
use r_universal_db.Stm.Tm.Calls.{
  TmCall, got_prepared, got_aborted, own_leader_changed, group_leader_changed, call, run,
  add_effects, TmAction-cases, run-exit, run-wait,
}
use r_universal_db.Stm.Tm.Agree.{tm_with}
use r_universal_db.Stm.Tm.Decision.{
  commits, commits-le-decisions, commits-append, decisions-send_all, decisions-resend, left,
  is_steady,
}
use r_universal_db.Stm.Tm.Budget.{call-Within}
use r_universal_db.Stm.Tm.Consistent.{member-rm_set}

-- Whether a call brings the answer `Prepared` of an RM.
abbrev pub brings : {T : TmPayloadTypes} ⦃o : Ord T.RmPath⦄ → T.RmPath → TmCall T → Bool
brings rm (got_prepared msg) = msg.rm == rm
brings rm _ = false

abbrev pub waits_for : {T : TmPayloadTypes} ⦃o : Ord T.RmPath⦄ → T.RmPath → State T → Bool
waits_for rm (preparing rms replies) = member rm rms
waits_for rm _ = false

module _ {T : TmPayloadTypes} {I C : Type 0} ⦃o : Ord T.RmPath⦄ ⦃g : Ord T.GroupId⦄
    (inner : TmInner T I C) (tm : T.TmPath) where
  still_preparing-Waits :
      (rm : T.RmPath) (rms : List T.RmPath) (replies : BTreeMap T.RmPath T.PreparedReply)
      (es : TmOuter T I) (ctx : C)
      → member rm rms ≡ true
      → (waits_for rm (still_preparing inner tm es ctx rms replies).es.state ≡ true)
        × (commits (still_preparing inner tm es ctx rms replies).effects ≡ 0)
  unfolding commits member
  still_preparing-Waits rm [] replies es ctx m = absurd (ground (arith, m))
  still_preparing-Waits rm (k ∷ rms) replies es ctx m = (m, refl)

  -- The one step of a TM that waits for an RM.
  handle_prepared-Waits :
      (rm : T.RmPath) (query_id : Str) (st : State T) (f : Option (FollowerState T)) (i : I)
      (ctx : C) (msg : Prepared T)
      → waits_for rm st ≡ true
      → (msg.rm == rm) ≡ false
      → (waits_for rm (handle_prepared inner tm (tm_with query_id f st i) ctx msg).es.state ≡ true)
        × (commits (handle_prepared inner tm (tm_with query_id f st i) ctx msg).effects ≡ 0)
  unfolding handle_prepared commits
  handle_prepared-Waits rm q (preparing rms replies) f i ctx msg w n =
      elim (Bool-cases (member msg.rm rms)) [
        | inl m ↦ rw m (
            still_preparing-Waits rm (delete msg.rm rms) (insert msg.rm msg.payload replies)
              (tm_with q f (preparing rms replies) i) ctx
              (ground (arith, w, n, member-delete rm msg.rm rms)))
        | inr m ↦ rw m (w, refl)
      ]
  handle_prepared-Waits rm q st f i ctx msg w n = absurd (ground (arith, w))

  handle_aborted-Waits :
      (query_id : Str) (rms : List T.RmPath) (replies : BTreeMap T.RmPath T.PreparedReply)
      (f : Option (FollowerState T)) (i : I) (ctx : C)
      → (left (handle_aborted inner tm (tm_with query_id f (preparing rms replies) i) ctx).es.state
          ≡ 0)
        × (commits
              (handle_aborted inner tm (tm_with query_id f (preparing rms replies) i) ctx).effects
            ≡ 0)
  unfolding handle_aborted commits
  handle_aborted-Waits q rms replies f i ctx = (refl, refl)

  -- The TM waits for the RM, or has decided.
  abbrev pub IsHeld : T.RmPath → State T → Type 0
  IsHeld rm st = (waits_for rm st ≡ true) ⊎ (left st ≡ 0)

  resent-IsHeld :
      {P : Type 0} (rm : T.RmPath) (mk : P → RmMessage T) (payloads : BTreeMap T.RmPath P)
      (gid : T.GroupId) (rms : List T.RmPath) (es : TmOuter T I) (ctx : C) (next : TmStep T I C)
      → waits_for rm es.state ≡ true
      → resent tm es ctx (resend mk payloads gid rms) ≡ ok next
      → IsHeld rm next.es.state × (commits next.effects ≡ 0)
  resent-IsHeld rm mk payloads gid rms es ctx next w h =
      let (effects, e, k) = >>=-ok (resend mk payloads gid rms) _ next h in
      rw (← ok_injective _ next k) (
        inl w,
        ground
            (arith, decisions-resend mk payloads gid rms effects e, commits-le-decisions effects),
      )

  remote-IsHeld :
      (rm : T.RmPath) (gid : T.GroupId) (query_id : Str) (rms : List T.RmPath)
      (replies : BTreeMap T.RmPath T.PreparedReply) (f : Option (FollowerState T)) (i : I) (ctx : C)
      (next : TmStep T I C)
      → member rm rms ≡ true
      → remote_leader_changed tm (tm_with query_id f (preparing rms replies) i) ctx gid ≡ ok next
      → IsHeld rm next.es.state × (commits next.effects ≡ 0)
  unfolding remote_leader_changed
  remote-IsHeld rm gid q rms replies f i ctx next m h =
      let (x, e, k) = >>=-ok (unwrap f) _ next h in
      let (p, e', k') = >>=-ok (unwrap (cast_preparing x)) _ next k in
      resent-IsHeld rm (λ payload. prepare_msg q tm payload) p gid rms
        (tm_with q f (preparing rms replies) i) ctx next m k'

  waiting-IsHeld :
      (rm : T.RmPath) (c : TmCall T) (query_id : Str) (rms : List T.RmPath)
      (replies : BTreeMap T.RmPath T.PreparedReply) (f : Option (FollowerState T)) (i : I) (ctx : C)
      (next : TmStep T I C)
      → is_steady c ≡ true
      → brings rm c ≡ false
      → member rm rms ≡ true
      → call inner tm (tm_with query_id f (preparing rms replies) i) ctx c ≡ ok next
      → IsHeld rm next.es.state × (commits next.effects ≡ 0)
  unfolding call handle_closed handle_prepared_plm handle_committed_plm handle_aborted_plm
      handle_closed_plm start_inserting commits
  waiting-IsHeld rm (got_prepared msg) q rms replies f i ctx next s b m h =
      let (w, n) = handle_prepared-Waits rm q (preparing rms replies) f i ctx msg m b in
      rw (← ok_injective _ next h) (inl w, n)
  waiting-IsHeld rm got_aborted q rms replies f i ctx next s b m h =
      let (w, n) = handle_aborted-Waits q rms replies f i ctx in
      rw (← ok_injective _ next h) (inr w, n)
  waiting-IsHeld rm (own_leader_changed is_leader) q rms replies f i ctx next s b m h = absurd (cc)
  waiting-IsHeld rm (group_leader_changed gid) q rms replies f i ctx next s b m h =
      remote-IsHeld rm gid q rms replies f i ctx next m h
  waiting-IsHeld rm c q rms replies f i ctx next s b m h =
      rw (← ok_injective _ next h) (inl m, refl)

  call-IsHeld :
      (rm : T.RmPath) (c : TmCall T) (query_id : Str) (st : State T) (f : Option (FollowerState T))
      (i : I) (ctx : C) (next : TmStep T I C)
      → is_steady c ≡ true
      → brings rm c ≡ false
      → IsHeld rm st
      → call inner tm (tm_with query_id f st i) ctx c ≡ ok next
      → IsHeld rm next.es.state × (commits next.effects ≡ 0)
  call-IsHeld rm c q st f i ctx next s b (inr z) h =
      let w = call-Within inner tm (tm_with q f st i) ctx c next s h in
      (inr (ground (arith, w, z)), ground (arith, w, z, commits-le-decisions next.effects))
  call-IsHeld rm c q (preparing rms replies) f i ctx next s b (inl m) h =
      waiting-IsHeld rm c q rms replies f i ctx next s b m h
  call-IsHeld rm c q st f i ctx next s b (inl m) h = absurd (cc)

  run-IsHeld :
      (rm : T.RmPath) (calls : List (TmCall T)) (step last : TmStep T I C)
      → All (λ c. (is_steady c ≡ true) × (brings rm c ≡ false)) calls
      → IsHeld rm step.es.state
      → run inner tm step calls ≡ ok last
      → commits last.effects ≡ commits step.effects
  unfolding run
  run-IsHeld rm [] step last s k h = ap (λ l. commits l.effects) (sym (ok_injective step last h))
  run-IsHeld rm (c ∷ calls) step last s k h = elim (TmAction-cases step.action) [
    | inl w ↦
        let (next, e, r) =
          >>=-ok (call inner tm step.es step.ctx c) _ last
            (sym (run-wait inner tm step c calls w) ∙ h) in
        let es = step.es in
        let (k', n) =
          call-IsHeld rm c es.query_id es.state es.follower es.inner step.ctx next s.0.0 s.0.1 k
            e in
        let later = run-IsHeld rm calls (add_effects inner tm step.effects next) last s.1 k' r in
        ground (arith, later, n, commits-append step.effects next.effects)
    | inr x ↦
        ap (λ l. commits l.effects)
          (sym (ok_injective step last (sym (run-exit inner tm step (c ∷ calls) x) ∙ h)))
  ]

  -- A TM that has sent Prepare to its RMs does not push Committed before each of them has
  -- answered: if the leader does not change, and one of them has not sent Prepared, there is no
  -- such PLm among the effects, in whatever order the other messages come.
  pub commits-eq-zero :
      (es : TmOuter T I) (ctx : C) (prepare_payloads : BTreeMap T.RmPath T.Prepare) (rm : T.RmPath)
      (calls : List (TmCall T)) (last : TmStep T I C)
      → is_some (get rm prepare_payloads) ≡ true
      → All (λ c. (is_steady c ≡ true) × (brings rm c ≡ false)) calls
      → run inner tm (advance_to_prepared tm es ctx prepare_payloads) calls ≡ ok last
      → commits last.effects ≡ 0
  unfolding advance_to_prepared member
  commits-eq-zero es ctx payloads rm calls last p s h =
      let held : member rm (rm_set payloads []) ≡ true =
        ground (arith, p, member-rm_set rm payloads []) in
      let sent =
        decisions-send_all {T = T} (λ payload. prepare_msg es.query_id tm payload) payloads in
      let first = send_all {T = T} (λ payload. prepare_msg es.query_id tm payload) payloads in
      ground (
        arith,
        run-IsHeld rm calls (advance_to_prepared tm es ctx payloads) last s (inl held) h,
        commits-le-decisions first,
        sent,
      )
