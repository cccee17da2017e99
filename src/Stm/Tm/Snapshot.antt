-- ===== src/Stm/Tm/Snapshot.antt =====
-- What a new node of the group starts from, against what the leader keeps.
use r_universal_db.Base.{false, Option, none, some, Ord, ◌≡◌, ◌≢◌, refl, ap, ◌∙◌, ok, ok_injective}
use r_universal_db.Value.{Str}
use r_universal_db.Stm.{TmPayloadTypes}
use r_universal_db.Stm.Tm.{
  TmInner, FollowerState, State, following, start, waiting_insert_tm_prepared, insert_tm_preparing,
  TmOuter, TmStep, wait, exit,
}
use r_universal_db.Stm.Tm.Leader.{leader_changed, reconfig_snapshot}
use r_universal_db.Stm.Tm.Agree.{tm_with}

-- The transaction after a step, unless the step ends it.
abbrev pub kept : {T : TmPayloadTypes} {I C : Type 0} → TmStep T I C → Option (TmOuter T I)
kept step = elim step.action [ wait ↦ some step.es | exit ↦ none ]

module _ {T : TmPayloadTypes} {I C : Type 0} ⦃o : Ord T.RmPath⦄ (inner : TmInner T I C)
    (tm : T.TmPath)
    (inner_snapshot : (i : I) (ctx : C)
      → inner.inner_reconfig_snapshot i ≡ (inner.inner_leader_changed i ctx).0) where
  leader-snapshot :
      (query_id : Str) (st : State T) (f : Option (FollowerState T)) (i : I) (ctx : C)
      (step : TmStep T I C)
      → st ≢ following
      → leader_changed inner tm false (tm_with query_id f st i) ctx ≡ ok step
      → reconfig_snapshot inner tm (tm_with query_id f st i) ≡ kept step
  unfolding leader_changed reconfig_snapshot
  leader-snapshot q following f i ctx step n h = absurd (n refl)
  leader-snapshot q start f i ctx step n h = ap kept (ok_injective _ step h)
  leader-snapshot q waiting_insert_tm_prepared f i ctx step n h = ap kept (ok_injective _ step h)
  leader-snapshot q insert_tm_preparing f i ctx step n h = ap kept (ok_injective _ step h)
  leader-snapshot q st f i ctx step n h =
      ap (λ j. some (tm_with q f following j)) (inner_snapshot i ctx)
      ∙ ap kept (ok_injective _ step h)

  -- If the inner part returns as its snapshot what it would be after losing the leadership, then
  -- so does a TM that is not following: reconfig_snapshot returns the transaction as
  -- leader_changed leaves it at a node that is no leader any more, and nothing exactly if
  -- leader_changed ends it.
  pub reconfig_snapshot_lem :
      (es : TmOuter T I) (ctx : C) (step : TmStep T I C)
      → es.state ≢ following
      → leader_changed inner tm false es ctx ≡ ok step
      → reconfig_snapshot inner tm es ≡ kept step
  reconfig_snapshot_lem es ctx step n h =
      leader-snapshot es.query_id es.state es.follower es.inner ctx step n h
