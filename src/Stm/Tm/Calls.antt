-- ===== src/Stm/Tm/Calls.antt =====
-- src/stmpaxos2pc_tm.rs: sequences of the calls of one `STMPaxos2PCTMOuter`.
use r_universal_db.Base.{
  Bool, List, [], ◌∷◌, ◌++◌, Ord, Result, ok, ◌>>=◌, ◌≡◌, refl, ◌⊎◌, inl, inr,
}
use r_universal_db.Value.{Str}
use r_universal_db.Stm.{TmPayloadTypes, Prepared, Closed}
use r_universal_db.Stm.Tm.{TmInner, TmOuter, TmAction, wait, exit, TmStep, TmEffect}
use r_universal_db.Stm.Tm.Handler.{
  handle_prepared, handle_aborted, handle_closed, handle_prepared_plm, handle_committed_plm,
  handle_aborted_plm, handle_closed_plm,
}
use r_universal_db.Stm.Tm.Leader.{start_inserting, leader_changed, remote_leader_changed}

-- The calls: messages of the RMs, insertions of PLms, the next bundle, and changes of leaders.
pub data TmCall (T : TmPayloadTypes) : Type 0 where
  got_prepared : Prepared T → TmCall T
  got_aborted : TmCall T
  got_closed : Closed T → TmCall T
  prepared_inserted : TmCall T
  committed_inserted : Str → T.CommittedPlm → TmCall T
  aborted_inserted : TmCall T
  closed_inserted : Str → T.ClosedPlm → TmCall T
  next_bundle : TmCall T
  own_leader_changed : Bool → TmCall T
  group_leader_changed : T.GroupId → TmCall T

pub TmAction-cases : (a : TmAction) → (a ≡ wait) ⊎ (a ≡ exit)
TmAction-cases wait = inl refl
TmAction-cases exit = inr refl

module _ {T : TmPayloadTypes} {I C : Type 0} ⦃o : Ord T.RmPath⦄ ⦃g : Ord T.GroupId⦄
    (inner : TmInner T I C) (tm : T.TmPath) where
  unfoldable pub call : TmOuter T I → C → TmCall T → Result (TmStep T I C)
  call es ctx (got_prepared msg) = ok (handle_prepared inner tm es ctx msg)
  call es ctx got_aborted = ok (handle_aborted inner tm es ctx)
  call es ctx (got_closed msg) = ok (handle_closed inner tm es ctx msg)
  call es ctx prepared_inserted = ok (handle_prepared_plm inner tm es ctx)
  call es ctx (committed_inserted query_id plm) =
      ok (handle_committed_plm inner tm es ctx query_id plm)
  call es ctx aborted_inserted = ok (handle_aborted_plm inner tm es ctx)
  call es ctx (closed_inserted query_id plm) = ok (handle_closed_plm inner tm es ctx query_id plm)
  call es ctx next_bundle = ok (start_inserting inner tm es ctx)
  call es ctx (own_leader_changed is_leader) = leader_changed inner tm is_leader es ctx
  call es ctx (group_leader_changed gid) = remote_leader_changed tm es ctx gid

  abbrev pub add_effects : List (TmEffect T) → TmStep T I C → TmStep T I C
  add_effects effects step = record {
    es = step.es;
    ctx = step.ctx;
    effects = effects ++ step.effects;
    action = step.action;
  }

  -- A sequence of calls, which ends with the transaction.
  unfoldable pub run : TmStep T I C → List (TmCall T) → Result (TmStep T I C)
  run step [] = ok step
  run step (c ∷ calls) = elim step.action [
    | exit ↦ ok step
    | wait ↦ call step.es step.ctx c >>= λ next. run (add_effects step.effects next) calls
  ]

  pub run-exit :
      (step : TmStep T I C) (calls : List (TmCall T))
      → step.action ≡ exit
      → run step calls ≡ ok step
  unfolding run
  run-exit step [] x = refl
  run-exit step (c ∷ calls) x = rw x refl

  pub run-wait :
      (step : TmStep T I C) (c : TmCall T) (calls : List (TmCall T))
      → step.action ≡ wait
      → run step (c ∷ calls)
        ≡ (call step.es step.ctx c >>= λ next. run (add_effects step.effects next) calls)
  unfolding run
  run-wait step c calls w = rw w refl
