-- ===== src/Tests/Rm.antt =====
-- An RM with the answer 5.
use r_universal_db.Base.{false, ℕ, true, some, List, [], ◌∷◌, nat_ord}
use r_universal_db.Stm.{Prepared}
use r_universal_db.Stm.Rm
use r_universal_db.Stm.Rm.{RmPayloadTypes, RmInner, prepared}
use r_universal_db.Stm.Rm.Answer
use r_universal_db.Stm.Rm.Answer.{RmCall, got_prepare, got_commit}
use r_universal_db.Tests.Stm.{numbers}

-- An RM whose payloads are numbers too.
abbrev rm_numbers : RmPayloadTypes numbers
rm_numbers = record {
  CommitActionData = ℕ;
  RmPreparedPlm = ℕ;
  RmCommittedPlm = ℕ;
  RmAbortedPlm = ℕ;
}

abbrev rm_counting : RmInner numbers rm_numbers ℕ ℕ
rm_counting = record {
  new_inner = λ c p. (p, c);
  new_follower = λ c p. (p, c);
  mk_closed = 0;
  mk_prepared_plm = λ i c. (some 0, i, c);
  prepared_plm_inserted = λ i c. (i, i, c);
  mk_committed_plm = λ i c p. (0, i, c);
  committed_plm_inserted = λ i c q p. (0, i, c);
  mk_aborted_plm = λ i c. (0, i, c);
  aborted_plm_inserted = λ i c. (i, c);
  inner_reconfig_snapshot = λ i. i;
}

abbrev answer : Prepared numbers
answer = record { query_id = 113 ∷ []; rm = 2; payload = 5 }

abbrev prepared_rm : Rm.RmOuter numbers ℕ
prepared_rm = record {
  query_id = 113 ∷ [];
  tm = 0;
  follower = some answer;
  state = prepared answer;
  inner = 5;
}

-- The leader changes and is back, then the TM asks again, and decides.
abbrev rm_history : List (RmCall numbers rm_numbers)
rm_history =
    Answer.own_leader_changed false
    ∷ Answer.own_leader_changed true
    ∷ got_prepare
    ∷ got_commit 1
    ∷ []
