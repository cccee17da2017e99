-- ===== src/Stm/Tm/Phase/Leader.antt =====
-- The phase of a TM over changes of leaders.
use r_universal_db.Base.{
  Bool, true, false, Option, none, some, List, Ord, ◌≡◌, refl, sym, ap, ◌∙◌, Result, ok, >>=-ok,
  unwrap, ok_injective,
}
use r_universal_db.Value.{Str}
use r_universal_db.Stm.{TmPayloadTypes}
use r_universal_db.Stm.Tm.{
  TmInner, FollowerState, follow_preparing, follow_committed, follow_aborted, State, following,
  preparing, committed, aborted, TmOuter, TmStep, TmEffect, advance_to_prepared,
  advance_to_committed, advance_to_aborted,
}
use r_universal_db.Stm.Tm.Leader.{
  leader_changed, remote_leader_changed, resent, take_over, cast_preparing, cast_committed,
  cast_aborted,
}
use r_universal_db.Stm.Tm.Agree.{tm_with}
use r_universal_db.Stm.Tm.Phase.{phase_of}

module _ {T : TmPayloadTypes} {I C : Type 0} ⦃o : Ord T.RmPath⦄ ⦃g : Ord T.GroupId⦄
    (inner : TmInner T I C) (tm : T.TmPath) where
  phase-take_over :
      (x : FollowerState T) (es : TmOuter T I) (ctx : C)
      → phase_of (take_over inner tm x es ctx).es.follower ≡ phase_of (some x)
  unfolding advance_to_prepared advance_to_committed advance_to_aborted
  phase-take_over (follow_preparing p) es ctx = refl
  phase-take_over (follow_committed p) es ctx = refl
  phase-take_over (follow_aborted p) es ctx = refl

  pub phase-leader_changed :
      (is_leader : Bool) (q : Str) (st : State T) (f : Option (FollowerState T)) (i : I) (ctx : C)
      (next : TmStep T I C)
      → leader_changed inner tm is_leader (tm_with q f st i) ctx ≡ ok next
      → phase_of next.es.follower ≡ phase_of f
  unfolding leader_changed
  phase-leader_changed true q following none i ctx next h = absurd (cc)
  phase-leader_changed true q following (some x) i ctx next h =
      ap (λ s. phase_of s.es.follower) (sym (ok_injective _ next h))
      ∙ phase-take_over x (tm_with q (some x) following i) ctx
  phase-leader_changed false q following f i ctx next h =
      ap (λ s. phase_of s.es.follower) (sym (ok_injective _ next h))
  phase-leader_changed b q st f i ctx next h =
      ap (λ s. phase_of s.es.follower) (sym (ok_injective _ next h))

  es-resent :
      (es : TmOuter T I) (ctx : C) (m : Result (List (TmEffect T))) (next : TmStep T I C)
      → resent tm es ctx m ≡ ok next
      → next.es ≡ es
  es-resent es ctx m next h =
      let (effects, e, k) = >>=-ok m _ next h in ap (λ s. s.es) (sym (ok_injective _ next k))

  pub es-remote_leader_changed :
      (gid : T.GroupId) (q : Str) (st : State T) (f : Option (FollowerState T)) (i : I) (ctx : C)
      (next : TmStep T I C)
      → remote_leader_changed tm (tm_with q f st i) ctx gid ≡ ok next
      → next.es ≡ tm_with q f st i
  unfolding remote_leader_changed
  es-remote_leader_changed gid q (preparing rms replies) f i ctx next h =
      let (x, e, k) = >>=-ok (unwrap f) _ next h in
      let (p, e', k') = >>=-ok (unwrap (cast_preparing x)) _ next k in
      es-resent (tm_with q f (preparing rms replies) i) ctx _ next k'
  es-remote_leader_changed gid q (committed rms) f i ctx next h =
      let (x, e, k) = >>=-ok (unwrap f) _ next h in
      let (p, e', k') = >>=-ok (unwrap (cast_committed x)) _ next k in
      es-resent (tm_with q f (committed rms) i) ctx _ next k'
  es-remote_leader_changed gid q (aborted rms) f i ctx next h =
      let (x, e, k) = >>=-ok (unwrap f) _ next h in
      let (p, e', k') = >>=-ok (unwrap (cast_aborted x)) _ next k in
      es-resent (tm_with q f (aborted rms) i) ctx _ next k'
  es-remote_leader_changed gid q st f i ctx next h = ap (λ s. s.es) (sym (ok_injective _ next h))
