-- ===== src/Stm/Tm/Container.antt =====
-- src/stmpaxos2pc_tm.rs: the transactions of a TM, by their ids. A missing id is an `unwrap` of
-- `None`.
use r_universal_db.Base.{
  nat_ord, list_ord, Bool, true, false, none, some, List, [], ◌∷◌, ◌++◌, Ord, Result, ok, ◌>>=◌,
  unwrap,
}
use r_universal_db.BTreeMap.{BTreeMap, get, insert, remove, keys}
use r_universal_db.Value.{Str}
use r_universal_db.Stm.{
  TmPayloadTypes, TmPlm, prepared_plm, committed_plm, aborted_plm, closed_plm, TmMessage,
  prepared_msg, aborted_msg, closed_msg,
}
use r_universal_db.Stm.Tm.{TmInner, TmAction, wait, exit, TmOuter, start, TmEffect, TmStep}
use r_universal_db.Stm.Tm.Handler.{
  init_follower, handle_prepared, handle_aborted, handle_closed, handle_prepared_plm,
  handle_committed_plm, handle_aborted_plm, handle_closed_plm,
}
use r_universal_db.Stm.Tm.Leader.{
  start_inserting, leader_changed, remote_leader_changed, reconfig_snapshot,
}

-- The transactions, the context, and the effects of a call.
pub record TmRun (T : TmPayloadTypes) (I C : Type 0) : Type 0 where
  pub con : BTreeMap Str (TmOuter T I)
  pub ctx : C
  pub effects : List (TmEffect T)

unfoldable pub handle_action :
    {T : TmPayloadTypes} {I : Type 0}
    → Str
    → BTreeMap Str (TmOuter T I)
    → TmAction
    → BTreeMap Str (TmOuter T I)
handle_action query_id con wait = con
handle_action query_id con exit = remove query_id con

-- `STMPaxos2PCTMOuter::new`.
abbrev pub new : {T : TmPayloadTypes} {I : Type 0} → Str → I → TmOuter T I
new query_id inner = record { query_id = query_id; follower = none; state = start; inner = inner }

abbrev pub finish :
    {T : TmPayloadTypes} {I C : Type 0}
    → Str
    → BTreeMap Str (TmOuter T I)
    → TmStep T I C
    → TmRun T I C
finish query_id con step = record {
  con = handle_action query_id (insert query_id step.es con) step.action;
  ctx = step.ctx;
  effects = step.effects;
}

abbrev pub before :
    {T : TmPayloadTypes} {I C : Type 0} → List (TmEffect T) → TmRun T I C → TmRun T I C
before effects r = record { con = r.con; ctx = r.ctx; effects = effects ++ r.effects }

module _ {T : TmPayloadTypes} {I C : Type 0} ⦃o : Ord T.RmPath⦄ (inner : TmInner T I C)
    (tm : T.TmPath) where
  unfoldable pub handle_msg : C → BTreeMap Str (TmOuter T I) → TmMessage T → Result (TmRun T I C)
  handle_msg ctx con (prepared_msg msg) = unwrap (get msg.query_id con) >>= λ es.
      ok (finish msg.query_id con (handle_prepared inner tm es ctx msg))
  handle_msg ctx con (aborted_msg query_id payload) =
      unwrap (get query_id con) >>= λ es. ok (finish query_id con (handle_aborted inner tm es ctx))
  handle_msg ctx con (closed_msg msg) = unwrap (get msg.query_id con) >>= λ es.
      ok (finish msg.query_id con (handle_closed inner tm es ctx msg))

  -- The loop of `handle_bundle_processed`.
  unfoldable pub handle_bundle_processed : C → BTreeMap Str (TmOuter T I) → TmRun T I C
  handle_bundle_processed ctx [] = record { con = []; ctx = ctx; effects = [] }
  handle_bundle_processed ctx ((query_id, es) ∷ con) =
      let step = start_inserting inner tm es ctx in
      let rest = handle_bundle_processed step.ctx con in
      record {
        con = (query_id, step.es) ∷ rest.con;
        ctx = rest.ctx;
        effects = step.effects ++ rest.effects;
      }

  abbrev pub prepared_inserted_at :
      Bool → C → BTreeMap Str (TmOuter T I) → Str → T.PreparedPlm → Result (TmRun T I C)
  prepared_inserted_at true ctx con query_id payload = unwrap (get query_id con) >>= λ es.
      ok (finish query_id con (handle_prepared_plm inner tm es ctx))
  prepared_inserted_at false ctx con query_id payload =
      let (i, c) = inner.new_follower ctx payload in
      let (outer, c2) = init_follower inner tm (new query_id i) c in
      ok (record { con = insert query_id outer con; ctx = c2; effects = [] })

  unfoldable pub handle_plm : Bool → C → BTreeMap Str (TmOuter T I) → TmPlm T → Result (TmRun T I C)
  handle_plm is_leader ctx con (prepared_plm query_id payload) =
      prepared_inserted_at is_leader ctx con query_id payload
  handle_plm is_leader ctx con (committed_plm query_id payload) =
      unwrap (get query_id con) >>= λ es.
      ok (finish query_id con (handle_committed_plm inner tm es ctx query_id payload))
  handle_plm is_leader ctx con (aborted_plm query_id payload) = unwrap (get query_id con) >>= λ es.
      ok (finish query_id con (handle_aborted_plm inner tm es ctx))
  handle_plm is_leader ctx con (closed_plm query_id payload) = unwrap (get query_id con) >>= λ es.
      ok (finish query_id con (handle_closed_plm inner tm es ctx query_id payload))

  -- The loop of `handle_lc` over the ids.
  unfoldable pub lc_loop : Bool → C → BTreeMap Str (TmOuter T I) → List Str → Result (TmRun T I C)
  lc_loop is_leader ctx con [] = ok (record { con = con; ctx = ctx; effects = [] })
  lc_loop is_leader ctx con (query_id ∷ query_ids) = unwrap (get query_id con) >>= λ es.
      leader_changed inner tm is_leader es ctx >>= λ step.
      let now = finish query_id con step in
      lc_loop is_leader now.ctx now.con query_ids >>= λ r. ok (before now.effects r)

  unfoldable pub handle_lc : Bool → C → BTreeMap Str (TmOuter T I) → Result (TmRun T I C)
  handle_lc is_leader ctx con = lc_loop is_leader ctx con (keys con)

  -- The loop of `handle_reconfig_snapshot`, with the map `ess` so far.
  unfoldable pub snapshot_loop :
      BTreeMap Str (TmOuter T I) → BTreeMap Str (TmOuter T I) → BTreeMap Str (TmOuter T I)
  snapshot_loop ess [] = ess
  snapshot_loop ess ((query_id, es) ∷ con) = elim (reconfig_snapshot inner tm es) [
    | none ↦ snapshot_loop ess con
    | some snapshot ↦ snapshot_loop (insert query_id snapshot ess) con
  ]

  unfoldable pub handle_reconfig_snapshot : BTreeMap Str (TmOuter T I) → BTreeMap Str (TmOuter T I)
  handle_reconfig_snapshot con = snapshot_loop [] con

module _ {T : TmPayloadTypes} {I C : Type 0} ⦃o : Ord T.RmPath⦄ ⦃g : Ord T.GroupId⦄
    (tm : T.TmPath) where
  -- The loop of `handle_rlc` over the ids.
  unfoldable pub rlc_loop :
      C → BTreeMap Str (TmOuter T I) → T.GroupId → List Str → Result (TmRun T I C)
  rlc_loop ctx con gid [] = ok (record { con = con; ctx = ctx; effects = [] })
  rlc_loop ctx con gid (query_id ∷ query_ids) = unwrap (get query_id con) >>= λ es.
      remote_leader_changed tm es ctx gid >>= λ step.
      let now = finish query_id con step in
      rlc_loop now.ctx now.con gid query_ids >>= λ r. ok (before now.effects r)

  unfoldable pub handle_rlc : C → BTreeMap Str (TmOuter T I) → T.GroupId → Result (TmRun T I C)
  handle_rlc ctx con gid = rlc_loop ctx con gid (keys con)
