-- ===== src/Tests/Stm.antt =====
-- A transaction with the RMs 1 and 2, whose payloads and ids are numbers.
use r_universal_db.Base.{false, ℕ, suc, ◌≤◌, true, some, List, [], ◌∷◌, nat_ord, ◌≡◌, refl}
use r_universal_db.BTreeMap.{BTreeMap, get, insert}
use r_universal_db.BTreeSet.{member, add, delete}
use r_universal_db.Stm.{TmPayloadTypes, prepare_msg, committed_plm}
use r_universal_db.Stm.Tm.{
  TmInner, follow_preparing, follow_committed, following, preparing, inserting_tm_committed,
  TmOuter, TmStep, push_plm, send_to_rm, wait, quiet, advance_to_prepared, advance_to_committed,
  send_all, rm_set,
}
use r_universal_db.Stm.Tm.Handler.{handle_prepared, handle_aborted, handle_committed_plm}
use r_universal_db.Stm.Tm.Leader.{leader_changed, remote_leader_changed, resend, reconfig_snapshot}
use r_universal_db.Stm.Tm.Calls.{
  TmCall, got_prepared, got_aborted, group_leader_changed, committed_inserted, own_leader_changed,
  call, run,
}
use r_universal_db.Stm.Tm.Invariant.{Goes, run-Agrees}
use r_universal_db.Stm.Tm.Decision.{commits, decisions}
use r_universal_db.Stm.Tm.Commit.{decisions-le-one}
use r_universal_db.Stm.Tm.Held.{commits-eq-zero}
use r_universal_db.Stm.Tm.Phase.{phase_of, is_prepared}
use r_universal_db.Stm.Tm.Refinement.{replay, more, done, phase-TimedRun}
use r_universal_db.Stm.Tm.Snapshot.{reconfig_snapshot_lem}

abbrev pub numbers : TmPayloadTypes
numbers = record {
  RmPath = ℕ;
  TmPath = ℕ;
  GroupId = ℕ;
  to_gid = λ rm. rm;
  PreparedPlm = ℕ;
  CommittedPlm = ℕ;
  AbortedPlm = ℕ;
  ClosedPlm = ℕ;
  Prepare = ℕ;
  Abort = ℕ;
  Commit = ℕ;
  PreparedReply = ℕ;
  AbortedReply = ℕ;
  ClosedReply = ℕ;
}

abbrev both_rms : BTreeMap ℕ ℕ
both_rms = (1, 10) ∷ (2, 20) ∷ []

-- An inner part that counts its leaderships.
abbrev counting : TmInner numbers ℕ ℕ
counting = record {
  new_follower = λ c p. (0, c);
  mk_prepared_plm = λ i c. (0, i, c);
  prepared_plm_inserted = λ i c. (both_rms, i, c);
  mk_committed_plm = λ i c replies. (0, i, c);
  committed_plm_inserted = λ i c q p. (both_rms, i, c);
  mk_aborted_plm = λ i c. (0, i, c);
  aborted_plm_inserted = λ i c. (both_rms, i, c);
  mk_closed_plm = λ i c. (0, i, c);
  closed_plm_inserted = λ i c q p. (i, c);
  inner_leader_changed = λ i c. (suc i, c);
  inner_reconfig_snapshot = λ i. suc i;
}

abbrev new_leader : TmOuter numbers ℕ
new_leader = record {
  query_id = 113 ∷ [];
  follower = some (follow_preparing both_rms);
  state = following;
  inner = 0;
}

abbrev at_rms : TmOuter numbers ℕ
at_rms = record {
  query_id = 113 ∷ [];
  follower = some (follow_preparing both_rms);
  state = preparing (1 ∷ 2 ∷ []) [];
  inner = 0;
}

abbrev reply : ℕ → TmCall numbers
reply rm = got_prepared (record { query_id = 113 ∷ []; rm = rm; payload = 0 })

abbrev history : List (TmCall numbers)
history = own_leader_changed true ∷ group_leader_changed 2 ∷ reply 1 ∷ reply 2 ∷ []

run-Agrees_example : Goes counting 0 (run counting 0 (quiet new_leader 0) history)
run-Agrees_example =
    run-Agrees counting 0 history (quiet new_leader 0) (follow_preparing both_rms, refl)

abbrev answers : List (TmCall numbers)
answers = reply 1 ∷ reply 2 ∷ got_aborted ∷ []

abbrev committing : TmStep numbers ℕ ℕ
committing = record {
  es = record {
    query_id = 113 ∷ [];
    follower = some (follow_preparing both_rms);
    state = inserting_tm_committed;
    inner = 0;
  };
  ctx = 0;
  effects = push_plm (committed_plm (113 ∷ []) 0) ∷ [];
  action = wait;
}

decisions-le-one_example : decisions committing.effects ≤ 1
unfolding run call handle_prepared handle_aborted member delete insert
decisions-le-one_example =
    decisions-le-one counting 0 at_rms 0 answers committing (refl, (refl, (refl, tt))) refl

-- The RM 1 has answered, and the leader of the RM 2 has changed.
abbrev still_one : TmStep numbers ℕ ℕ
still_one = record {
  es = record {
    query_id = 113 ∷ [];
    follower = some (follow_preparing both_rms);
    state = preparing (2 ∷ []) ((1, 0) ∷ []);
    inner = 0;
  };
  ctx = 0;
  effects =
      send_to_rm 1 (prepare_msg (113 ∷ []) 0 10)
      ∷ send_to_rm 2 (prepare_msg (113 ∷ []) 0 20)
      ∷ send_to_rm 2 (prepare_msg (113 ∷ []) 0 20)
      ∷ [];
  action = wait;
}

commits-eq-zero_example : commits still_one.effects ≡ 0
unfolding run call handle_prepared member delete insert get advance_to_prepared send_all rm_set add
    remote_leader_changed resend
commits-eq-zero_example =
    commits-eq-zero counting 0 new_leader 0 both_rms 2 (reply 1 ∷ group_leader_changed 2 ∷ [])
      still_one refl ((refl, refl), ((refl, refl), tt)) refl

abbrev stepped_down : TmStep numbers ℕ ℕ
stepped_down = record {
  es = record {
    query_id = 113 ∷ [];
    follower = some (follow_preparing both_rms);
    state = following;
    inner = 1;
  };
  ctx = 0;
  effects = [];
  action = wait;
}

reconfig_snapshot_example :
    reconfig_snapshot counting 0 committing.es
    ≡ some (record {
      query_id = 113 ∷ [];
      follower = some (follow_preparing both_rms);
      state = following;
      inner = 1;
    })
unfolding leader_changed
reconfig_snapshot_example =
    reconfig_snapshot_lem counting 0 (λ i c. refl) committing.es 0 stepped_down (λ e. absurd (cc))
      refl

-- A new leader asks the RMs, both answer, its Committed PLm is inserted, and the leader changes.
abbrev whole : List (TmCall numbers)
whole =
    own_leader_changed true
    ∷ reply 1
    ∷ reply 2
    ∷ committed_inserted (113 ∷ []) 0
    ∷ own_leader_changed false
    ∷ []

abbrev handed_over : TmStep numbers ℕ ℕ
handed_over = record {
  es = record {
    query_id = 113 ∷ [];
    follower = some (follow_committed both_rms);
    state = following;
    inner = 1;
  };
  ctx = 0;
  effects = [];
  action = wait;
}

phase-TimedRun_example : phase_of handed_over.es.follower ≡ replay is_prepared whole
unfolding call leader_changed handle_prepared handle_committed_plm member delete insert
    advance_to_prepared advance_to_committed send_all rm_set add
phase-TimedRun_example = phase-TimedRun counting 0 (quiet new_leader 0) handed_over whole (
    more _ _ _ _ _ refl refl refl (
      more _ _ _ _ _ refl refl refl (
        more _ _ _ _ _ refl refl refl
          (more _ _ _ _ _ refl refl refl (more _ _ _ _ _ refl refl refl (done _))))))
