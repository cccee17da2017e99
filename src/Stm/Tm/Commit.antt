-- ===== src/Stm/Tm/Commit.antt =====
-- The decisions of a TM in a sequence of calls under one leadership.
use r_universal_db.Base.{
  ◌+◌, ◌≤◌, true, List, [], ◌∷◌, Ord, ◌≡◌, sym, ◌∙◌, arith, inl, inr, ok, >>=-ok, All, ok_injective,
}
use r_universal_db.Stm.{TmPayloadTypes}
use r_universal_db.Stm.Tm.{TmInner, State, TmOuter, TmStep, quiet}
use r_universal_db.Stm.Tm.Calls.{TmCall, call, run, add_effects, TmAction-cases, run-exit, run-wait}
use r_universal_db.Stm.Tm.Decision.{decisions, decisions-append, left, is_steady}
use r_universal_db.Stm.Tm.Budget.{call-Within}

left-le-one : {T : TmPayloadTypes} (st : State T) → left st ≤ 1
left-le-one st = ground arith

module _ {T : TmPayloadTypes} {I C : Type 0} ⦃o : Ord T.RmPath⦄ ⦃g : Ord T.GroupId⦄
    (inner : TmInner T I C) (tm : T.TmPath) where
  run-Within :
      (calls : List (TmCall T)) (step last : TmStep T I C)
      → All (λ c. is_steady c ≡ true) calls
      → run inner tm step calls ≡ ok last
      → decisions last.effects + left last.es.state ≤ decisions step.effects + left step.es.state
  unfolding run
  run-Within [] step last s h = rw (← ok_injective step last h) (ground arith)
  run-Within (c ∷ calls) step last s h = elim (TmAction-cases step.action) [
    | inl w ↦
        let (next, e, k) =
          >>=-ok (call inner tm step.es step.ctx c) _ last
            (sym (run-wait inner tm step c calls w) ∙ h) in
        let later = run-Within calls (add_effects inner tm step.effects next) last s.1 k in
        ground (
          arith,
          later,
          call-Within inner tm step.es step.ctx c next s.0 e,
          decisions-append step.effects next.effects,
        )
    | inr x ↦
        rw (← ok_injective step last (sym (run-exit inner tm step (c ∷ calls) x) ∙ h))
          (ground arith)
  ]

  -- While the leader does not change, a TM pushes at most one of the PLms Committed and
  -- Aborted, and it pushes it at most once, whatever it receives and whatever is inserted.
  pub decisions-le-one :
      (es : TmOuter T I) (ctx : C) (calls : List (TmCall T)) (last : TmStep T I C)
      → All (λ c. is_steady c ≡ true) calls
      → run inner tm (quiet es ctx) calls ≡ ok last
      → decisions last.effects ≤ 1
  unfolding decisions
  decisions-le-one es ctx calls last s h =
      ground (arith, run-Within calls (quiet es ctx) last s h, left-le-one es.state)
