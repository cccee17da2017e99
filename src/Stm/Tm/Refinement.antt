-- ===== src/Stm/Tm/Refinement.antt =====
-- The follower part of a TM against the log of its group.
use r_universal_db.Base.{true, List, [], ◌∷◌, Ord, ◌≡◌, refl, ap, ◌∙◌, ok}
use r_universal_db.Stm.{TmPayloadTypes}
use r_universal_db.Stm.Tm.{TmInner, TmStep, wait}
use r_universal_db.Stm.Tm.Calls.{TmCall, call}
use r_universal_db.Stm.Tm.Phase.{Phase, phase_of, replay_one, expects}
use r_universal_db.Stm.Tm.Phase.Call.{phase-call}

unfoldable pub replay : {T : TmPayloadTypes} → Phase → List (TmCall T) → Phase
replay p [] = p
replay p (c ∷ calls) = replay (replay_one p c) calls

module _ {T : TmPayloadTypes} {I C : Type 0} ⦃o : Ord T.RmPath⦄ ⦃g : Ord T.GroupId⦄
    (inner : TmInner T I C) (tm : T.TmPath) where
  -- From a transaction, by calls that it expects, to a step that ends them.
  pub data TimedRun : TmStep T I C → List (TmCall T) → TmStep T I C → Type 0 where
    done : (step : TmStep T I C) → TimedRun step [] step
    more :
        (step next last : TmStep T I C) (c : TmCall T) (calls : List (TmCall T))
        → step.action ≡ wait
        → expects step.es.state c ≡ true
        → call inner tm step.es step.ctx c ≡ ok next
        → TimedRun next calls last
        → TimedRun step (c ∷ calls) last

  -- The phase of what a TM keeps for a new leader refines the log of the group: after any
  -- sequence of messages, leader changes and insertions, where a PLm is inserted only at a node
  -- that follows or that has pushed it, it is the phase that the insertions alone lead to.
  pub phase-TimedRun :
      (step last : TmStep T I C) (calls : List (TmCall T))
      → TimedRun step calls last
      → phase_of last.es.follower ≡ replay (phase_of step.es.follower) calls
  unfolding replay
  phase-TimedRun step last [] (done _) = refl
  phase-TimedRun step last (c ∷ calls) (more _ next _ _ _ w t e r) =
      let es = step.es in
      let one = phase-call inner tm c es.query_id es.state es.follower es.inner step.ctx next t e in
      phase-TimedRun next last calls r ∙ ap (λ p. replay p calls) one
