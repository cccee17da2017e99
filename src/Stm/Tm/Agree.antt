-- ===== src/Stm/Tm/Agree.antt =====
-- The state of a TM and what it keeps for a new leader.
use r_universal_db.Base.{
  Bool, true, false, Option, none, some, List, [], ◌∷◌, Ord, ◌≡◌, refl, ap, Bool-cases, inl, inr,
}
use r_universal_db.BTreeMap.{BTreeMap, insert}
use r_universal_db.BTreeSet.{member, delete}
use r_universal_db.Value.{Str}
use r_universal_db.Stm.{TmPayloadTypes, Prepared, Closed}
use r_universal_db.Stm.Tm.{
  TmInner, FollowerState, follow_preparing, follow_committed, follow_aborted, State, following,
  start, waiting_insert_tm_prepared, insert_tm_preparing, preparing, inserting_tm_committed,
  committed, inserting_tm_aborted, aborted, inserting_tm_closed, TmOuter, TmStep,
  advance_to_prepared, advance_to_committed, advance_to_aborted,
}
use r_universal_db.Stm.Tm.Handler.{
  handle_prepared, handle_aborted, handle_closed, handle_prepared_plm, handle_committed_plm,
  handle_aborted_plm, handle_closed_plm, still_preparing, still_closing,
}
use r_universal_db.Stm.Tm.Leader.{start_inserting}
use r_universal_db.Stm.Tm.Consistent.{Covers, delete-Covers, rm_set-Covers}

-- The follower part is there from the insertion of the first PLm, it has the phase of the state,
-- and a payload for each RM that remains.
abbrev pub is_decided : {T : TmPayloadTypes} → Option (FollowerState T) → Bool
is_decided (some (follow_committed p)) = true
is_decided (some (follow_aborted p)) = true
is_decided _ = false

abbrev pub IsPreparing : {T : TmPayloadTypes} → Option (FollowerState T) → Type 0
IsPreparing {T} f = (p : BTreeMap T.RmPath T.Prepare) × (f ≡ some (follow_preparing p))

abbrev pub Agrees :
    {T : TmPayloadTypes} ⦃o : Ord T.RmPath⦄ → State T → Option (FollowerState T) → Type 0
Agrees {T} following f = (x : FollowerState T) × (f ≡ some x)
Agrees start f = f ≡ none
Agrees waiting_insert_tm_prepared f = f ≡ none
Agrees insert_tm_preparing f = f ≡ none
Agrees {T} (preparing rms replies) f =
    (p : BTreeMap T.RmPath T.Prepare) × (f ≡ some (follow_preparing p)) × Covers p rms
Agrees inserting_tm_committed f = IsPreparing f
Agrees {T} (committed rms) f =
    (p : BTreeMap T.RmPath T.Commit) × (f ≡ some (follow_committed p)) × Covers p rms
Agrees inserting_tm_aborted f = IsPreparing f
Agrees {T} (aborted rms) f =
    (p : BTreeMap T.RmPath T.Abort) × (f ≡ some (follow_aborted p)) × Covers p rms
Agrees inserting_tm_closed f = is_decided f ≡ true

-- The fields of a TM.
abbrev pub tm_with :
    {T : TmPayloadTypes} {I : Type 0} → Str → Option (FollowerState T) → State T → I → TmOuter T I
tm_with query_id follower state inner = record {
  query_id = query_id;
  follower = follower;
  state = state;
  inner = inner;
}

module _ {T : TmPayloadTypes} {I C : Type 0} ⦃o : Ord T.RmPath⦄ (inner : TmInner T I C)
    (tm : T.TmPath) where
  abbrev pub StepAgrees : TmStep T I C → Type 0
  StepAgrees step = Agrees step.es.state step.es.follower

  still_preparing-Agrees :
      (es : TmOuter T I) (ctx : C) (rms : List T.RmPath)
      (replies : BTreeMap T.RmPath T.PreparedReply) (p : BTreeMap T.RmPath T.Prepare)
      → es.follower ≡ some (follow_preparing p)
      → Covers p rms
      → StepAgrees (still_preparing inner tm es ctx rms replies)
  still_preparing-Agrees es ctx [] replies p e h = (p, e)
  still_preparing-Agrees es ctx (rm ∷ rms) replies p e h = (p, e, h)

  pub handle_prepared-Agrees :
      (query_id : Str) (st : State T) (f : Option (FollowerState T)) (i : I) (ctx : C)
      (msg : Prepared T)
      → Agrees st f
      → StepAgrees (handle_prepared inner tm (tm_with query_id f st i) ctx msg)
  unfolding handle_prepared
  handle_prepared-Agrees q (preparing rms replies) f i ctx msg (p, e, h) =
      elim (Bool-cases (member msg.rm rms)) [
        | inl m ↦ rw m (
            still_preparing-Agrees (tm_with q f (preparing rms replies) i) ctx (delete msg.rm rms)
              (insert msg.rm msg.payload replies) p e (delete-Covers p msg.rm rms h))
        | inr m ↦ rw m (p, e, h)
      ]
  handle_prepared-Agrees q st f i ctx msg h = h

  pub handle_aborted-Agrees :
      (query_id : Str) (st : State T) (f : Option (FollowerState T)) (i : I) (ctx : C)
      → Agrees st f
      → StepAgrees (handle_aborted inner tm (tm_with query_id f st i) ctx)
  unfolding handle_aborted
  handle_aborted-Agrees q (preparing rms replies) f i ctx (p, e, h) = (p, e)
  handle_aborted-Agrees q st f i ctx h = h

  still_committed-Agrees :
      (es : TmOuter T I) (ctx : C) (rms : List T.RmPath) (p : BTreeMap T.RmPath T.Commit)
      → es.follower ≡ some (follow_committed p)
      → Covers p rms
      → StepAgrees (still_closing inner tm committed es ctx rms)
  still_committed-Agrees es ctx [] p e h = ap is_decided e
  still_committed-Agrees es ctx (rm ∷ rms) p e h = (p, e, h)

  still_aborted-Agrees :
      (es : TmOuter T I) (ctx : C) (rms : List T.RmPath) (p : BTreeMap T.RmPath T.Abort)
      → es.follower ≡ some (follow_aborted p)
      → Covers p rms
      → StepAgrees (still_closing inner tm aborted es ctx rms)
  still_aborted-Agrees es ctx [] p e h = ap is_decided e
  still_aborted-Agrees es ctx (rm ∷ rms) p e h = (p, e, h)

  pub handle_closed-Agrees :
      (query_id : Str) (st : State T) (f : Option (FollowerState T)) (i : I) (ctx : C)
      (msg : Closed T)
      → Agrees st f
      → StepAgrees (handle_closed inner tm (tm_with query_id f st i) ctx msg)
  unfolding handle_closed
  handle_closed-Agrees q (committed rms) f i ctx msg (p, e, h) =
      elim (Bool-cases (member msg.rm rms)) [
        | inl m ↦ rw m (
            still_committed-Agrees (tm_with q f (committed rms) i) ctx (delete msg.rm rms) p e
              (delete-Covers p msg.rm rms h))
        | inr m ↦ rw m (p, e, h)
      ]
  handle_closed-Agrees q (aborted rms) f i ctx msg (p, e, h) =
      elim (Bool-cases (member msg.rm rms)) [
        | inl m ↦ rw m (
            still_aborted-Agrees (tm_with q f (aborted rms) i) ctx (delete msg.rm rms) p e
              (delete-Covers p msg.rm rms h))
        | inr m ↦ rw m (p, e, h)
      ]
  handle_closed-Agrees q st f i ctx msg h = h

  pub handle_prepared_plm-Agrees :
      (query_id : Str) (st : State T) (f : Option (FollowerState T)) (i : I) (ctx : C)
      → Agrees st f
      → StepAgrees (handle_prepared_plm inner tm (tm_with query_id f st i) ctx)
  unfolding handle_prepared_plm advance_to_prepared
  handle_prepared_plm-Agrees q insert_tm_preparing f i ctx h =
      let (payloads, j, c) = inner.prepared_plm_inserted i ctx in
      (payloads, refl, rm_set-Covers payloads)
  handle_prepared_plm-Agrees q st f i ctx h = h

  pub handle_committed_plm-Agrees :
      (query_id : Str) (st : State T) (f : Option (FollowerState T)) (i : I) (ctx : C)
      (plm_id : Str) (plm : T.CommittedPlm)
      → Agrees st f
      → StepAgrees (handle_committed_plm inner tm (tm_with query_id f st i) ctx plm_id plm)
  unfolding handle_committed_plm advance_to_committed
  handle_committed_plm-Agrees q following f i ctx plm_id plm h =
      (follow_committed (inner.committed_plm_inserted i ctx plm_id plm).0, refl)
  handle_committed_plm-Agrees q inserting_tm_committed f i ctx plm_id plm h =
      let payloads = (inner.committed_plm_inserted i ctx plm_id plm).0 in
      (payloads, refl, rm_set-Covers payloads)
  handle_committed_plm-Agrees q st f i ctx plm_id plm h = h

  pub handle_aborted_plm-Agrees :
      (query_id : Str) (st : State T) (f : Option (FollowerState T)) (i : I) (ctx : C)
      → Agrees st f
      → StepAgrees (handle_aborted_plm inner tm (tm_with query_id f st i) ctx)
  unfolding handle_aborted_plm advance_to_aborted
  handle_aborted_plm-Agrees q following f i ctx h =
      (follow_aborted (inner.aborted_plm_inserted i ctx).0, refl)
  handle_aborted_plm-Agrees q inserting_tm_aborted f i ctx h =
      let payloads = (inner.aborted_plm_inserted i ctx).0 in
      (payloads, refl, rm_set-Covers payloads)
  handle_aborted_plm-Agrees q st f i ctx h = h

  pub handle_closed_plm-Agrees :
      (query_id : Str) (st : State T) (f : Option (FollowerState T)) (i : I) (ctx : C)
      (plm_id : Str) (plm : T.ClosedPlm)
      → Agrees st f
      → StepAgrees (handle_closed_plm inner tm (tm_with query_id f st i) ctx plm_id plm)
  unfolding handle_closed_plm
  handle_closed_plm-Agrees q following f i ctx plm_id plm h = h
  handle_closed_plm-Agrees q inserting_tm_closed f i ctx plm_id plm h = h
  handle_closed_plm-Agrees q st f i ctx plm_id plm h = h

  pub start_inserting-Agrees :
      (query_id : Str) (st : State T) (f : Option (FollowerState T)) (i : I) (ctx : C)
      → Agrees st f
      → StepAgrees (start_inserting inner tm (tm_with query_id f st i) ctx)
  unfolding start_inserting
  start_inserting-Agrees q waiting_insert_tm_prepared f i ctx h = h
  start_inserting-Agrees q st f i ctx h = h
