-- ===== src/Stm/Rm/Answer.antt =====
-- src/stmpaxos2pc_rm.rs: sequences of the calls of one RM, and what it answers.
use r_universal_db.Base.{
  Bool, Option, some, List, [], ◌∷◌, ◌++◌, ◌≡◌, refl, All, Result, ok, ◌>>=◌, ◌⊎◌, inl, inr,
}
use r_universal_db.Value.{Str}
use r_universal_db.Stm.{TmPayloadTypes, Prepared, prepared_msg}
use r_universal_db.Stm.Rm.{
  RmPayloadTypes, rm_prepared_plm, RmInner, RmState, following, prepared, inserting_committed,
  inserting_aborted, RmAction, wait, exit, RmOuter, RmEffect, push_plm, send_to_tm, RmStep,
}
use r_universal_db.Stm.Rm.Handler.{
  handle_prepare, handle_commit, handle_abort, handle_prepared_plm, handle_committed_plm,
  handle_aborted_plm, start_inserting, leader_changed,
}

pub data RmCall (T : TmPayloadTypes) (R : RmPayloadTypes T) : Type 0 where
  got_prepare got_abort prepared_inserted aborted_inserted next_bundle : RmCall T R
  got_commit : T.Commit → RmCall T R
  committed_inserted : Str → R.RmCommittedPlm → RmCall T R
  own_leader_changed : Bool → RmCall T R

pub RmAction-cases :
    {T : TmPayloadTypes} {R : RmPayloadTypes T} (a : RmAction T R)
    → (a ≡ wait) ⊎ ((action : Option R.CommitActionData) × (a ≡ exit action))
RmAction-cases wait = inl refl
RmAction-cases (exit action) = inr (action, refl)

module _ {T : TmPayloadTypes} {R : RmPayloadTypes T} {I C : Type 0} (inner : RmInner T R I C)
    (this_rm : T.RmPath) where
  unfoldable pub call : RmOuter T I → C → RmCall T R → Result (RmStep T R I C)
  call es ctx got_prepare = ok (handle_prepare inner this_rm es ctx)
  call es ctx (got_commit commit) = ok (handle_commit inner this_rm es ctx commit)
  call es ctx got_abort = ok (handle_abort inner this_rm es ctx)
  call es ctx prepared_inserted = ok (handle_prepared_plm inner this_rm es ctx)
  call es ctx (committed_inserted query_id plm) =
      ok (handle_committed_plm inner this_rm es ctx query_id plm)
  call es ctx aborted_inserted = ok (handle_aborted_plm inner this_rm es ctx)
  call es ctx next_bundle = ok (start_inserting inner this_rm es ctx)
  call es ctx (own_leader_changed is_leader) = leader_changed inner this_rm is_leader es ctx

  abbrev pub add_effects : List (RmEffect T R) → RmStep T R I C → RmStep T R I C
  add_effects effects step = record {
    es = step.es;
    ctx = step.ctx;
    effects = effects ++ step.effects;
    action = step.action;
  }

  -- A sequence of calls, which ends with the transaction.
  unfoldable pub run : RmStep T R I C → List (RmCall T R) → Result (RmStep T R I C)
  run step [] = ok step
  run step (c ∷ calls) = elim step.action [
    | exit action ↦ ok step
    | wait ↦ call step.es step.ctx c >>= λ next. run (add_effects step.effects next) calls
  ]

-- The states of an RM whose Prepared PLm, with the answer `msg`, is inserted.
abbrev pub Holds : {T : TmPayloadTypes} → Prepared T → RmState T → Type 0
Holds msg following = Unit
Holds msg (prepared m) = m ≡ msg
Holds msg inserting_committed = Unit
Holds msg inserting_aborted = Unit
Holds msg _ = ⊥

-- An effect that gives no other answer, and does not prepare again.
abbrev pub IsAnswer :
    {T : TmPayloadTypes} {R : RmPayloadTypes T} → Prepared T → RmEffect T R → Type 0
IsAnswer msg (send_to_tm tm (prepared_msg m)) = m ≡ msg
IsAnswer msg (push_plm (rm_prepared_plm query_id tm payload)) = ⊥
IsAnswer msg _ = Unit

abbrev pub rm_with :
    {T : TmPayloadTypes} {I : Type 0}
    → Str
    → T.TmPath
    → Option (Prepared T)
    → RmState T
    → I
    → RmOuter T I
rm_with query_id tm follower state inner = record {
  query_id = query_id;
  tm = tm;
  follower = follower;
  state = state;
  inner = inner;
}

module _ {T : TmPayloadTypes} {R : RmPayloadTypes T} {I C : Type 0} (inner : RmInner T R I C)
    (this_rm : T.RmPath) (msg : Prepared T) where
  -- The transaction holds the answer, in what is kept for a new leader and in the state.
  abbrev pub IsBound : RmOuter T I → Type 0
  IsBound es = (es.follower ≡ some msg) × Holds msg es.state

  abbrev pub StepIsBound : RmStep T R I C → Type 0
  StepIsBound step = IsBound step.es × All (IsAnswer msg) step.effects

  abbrev pub Goes : Result (RmStep T R I C) → Type 0
  Goes m = (step : RmStep T R I C) × (m ≡ ok step) × StepIsBound step
