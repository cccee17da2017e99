-- ===== src/Stm/Tm/Phase.antt =====
-- The phase of a TM that its follower part shows.
pub mod Leader
pub mod Call
use r_universal_db.Base.{
  Bool, true, false, Option, none, some, List, [], ◌∷◌, Ord, ◌≡◌, refl, sym, ap, ◌∙◌, Bool-cases,
  inl, inr, Result, ok, >>=-ok, unwrap, ok_injective,
}
use r_universal_db.BTreeMap.{BTreeMap, insert}
use r_universal_db.BTreeSet.{member, delete}
use r_universal_db.Value.{Str}
use r_universal_db.Stm.{TmPayloadTypes, Prepared, Closed}
use r_universal_db.Stm.Tm.{
  TmInner, FollowerState, follow_preparing, follow_committed, follow_aborted, State, following,
  waiting_insert_tm_prepared, insert_tm_preparing, preparing, inserting_tm_committed, committed,
  inserting_tm_aborted, aborted, inserting_tm_closed, TmOuter, TmStep, TmEffect,
  advance_to_prepared, advance_to_committed, advance_to_aborted,
}
use r_universal_db.Stm.Tm.Handler.{
  handle_prepared, handle_aborted, handle_closed, handle_prepared_plm, handle_committed_plm,
  handle_aborted_plm, handle_closed_plm, still_preparing, still_closing,
}
use r_universal_db.Stm.Tm.Leader.{
  start_inserting, leader_changed, remote_leader_changed, resent, take_over, cast_preparing,
  cast_committed, cast_aborted,
}
use r_universal_db.Stm.Tm.Calls.{
  TmCall, got_prepared, got_aborted, got_closed, prepared_inserted, committed_inserted,
  aborted_inserted, closed_inserted, next_bundle, own_leader_changed, group_leader_changed, call,
}
use r_universal_db.Stm.Tm.Agree.{tm_with}

pub data Phase : Type 0 where
  unprepared is_prepared is_committed is_aborted : Phase

abbrev pub phase_of : {T : TmPayloadTypes} → Option (FollowerState T) → Phase
phase_of none = unprepared
phase_of (some (follow_preparing p)) = is_prepared
phase_of (some (follow_committed p)) = is_committed
phase_of (some (follow_aborted p)) = is_aborted

-- The abstract step: only insertions of PLms count.
abbrev pub replay_one : {T : TmPayloadTypes} → Phase → TmCall T → Phase
replay_one p prepared_inserted = is_prepared
replay_one p (committed_inserted query_id plm) = is_committed
replay_one p aborted_inserted = is_aborted
replay_one p c = p

-- A PLm is inserted only at a node that follows, or at the one that pushed it.
abbrev pub expects : {T : TmPayloadTypes} → State T → TmCall T → Bool
expects insert_tm_preparing prepared_inserted = true
expects st prepared_inserted = false
expects following (committed_inserted query_id plm) = true
expects inserting_tm_committed (committed_inserted query_id plm) = true
expects st (committed_inserted query_id plm) = false
expects following aborted_inserted = true
expects inserting_tm_aborted aborted_inserted = true
expects st aborted_inserted = false
expects st c = true
