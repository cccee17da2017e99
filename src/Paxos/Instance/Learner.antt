-- ===== src/Paxos/Instance/Learner.antt =====
-- The tally of a learner, and the learned round.
use r_universal_db.Base.{
  ℕ, ◌+◌, ◌≤◌, ◌<◌, ◌^◌, ◌≡◌, inl, inr, none, some, Option, add_u32, ◌%◌, eqb, ltb, Bool-cases,
  nat_ord, arith, if◌then◌else◌,
}
use r_universal_db.BTreeMap.{get, insert}
use r_universal_db.BTreeMap.Lookup.{get-insert}
use r_universal_db.Paxos.State.{LearnerState}
use r_universal_db.Paxos.Instance.{count_of, lower_vrnd, handle_learn}

-- How many `Learn`s of a round came in.
abbrev pub tally : LearnerState → ℕ → ℕ
tally st vrnd = count_of (get vrnd st.learned)

-- The learned round has a majority, and every round with one is at least as large.
abbrev pub IsLowest : ℕ → (ℕ → ℕ) → Option ℕ → Type 0
IsLowest quorum count none = (r : ℕ) → count r < quorum
IsLowest quorum count (some low) = (quorum ≤ count low) × ((r : ℕ) → quorum ≤ count r → low ≤ r)

-- One more in the count of `vrnd`, and the learned round as the handler updates it.
IsLowest-step :
    (quorum vrnd : ℕ) (f g : ℕ → ℕ) (o : Option ℕ)
    → ((r : ℕ) → g r ≡ (if eqb vrnd r then f vrnd + 1 else f r))
    → IsLowest quorum f o
    → IsLowest quorum g (if eqb (f vrnd + 1) quorum then some (lower_vrnd o vrnd) else o)
unfolding lower_vrnd
IsLowest-step quorum vrnd f g none step low = elim (Bool-cases (eqb (f vrnd + 1) quorum)) [
  | inl e ↦ rw e (ground (arith, step vrnd), λ r h. ground (arith, step r, low r))
  | inr e ↦ rw e (λ r. ground (arith, step r, low r, low vrnd))
]
IsLowest-step quorum vrnd f g (some cur) step low = elim (Bool-cases (eqb (f vrnd + 1) quorum)) [
  | inl e ↦ elim (Bool-cases (ltb vrnd cur)) [
    | inl e' ↦ rw (e, e') (ground (arith, step vrnd), λ r h. ground (arith, step r, low.1 r))
    | inr e' ↦ rw (e, e') (ground (arith, step cur, low.0), λ r h. ground (arith, step r, low.1 r))
  ]
  | inr e ↦
      rw e (ground (arith, step cur, low.0), λ r h. ground (arith, step r, low.1 r, low.1 vrnd))
]

learned-learn :
    (quorum : ℕ) (st : LearnerState) (vrnd : ℕ)
    → (handle_learn quorum st vrnd).0.learned ≡ insert vrnd (add_u32 (tally st vrnd) 1) st.learned
unfolding handle_learn
learned-learn quorum st vrnd = ground arith

tally-learn :
    (quorum : ℕ) (st : LearnerState) (vrnd r : ℕ)
    → tally st vrnd + 1 < 2 ^ 32
    → tally (handle_learn quorum st vrnd).0 r
      ≡ (if eqb vrnd r then tally st vrnd + 1 else tally st r)
tally-learn quorum st vrnd r h =
    rw (learned-learn quorum st vrnd, get-insert r vrnd (add_u32 (tally st vrnd) 1) st.learned)
      (ground arith)

-- What the message makes of the learned round.
learned_vrnd-learn :
    (quorum : ℕ) (st : LearnerState) (vrnd : ℕ)
    → tally st vrnd + 1 < 2 ^ 32
    → quorum < 2 ^ 32
    → (handle_learn quorum st vrnd).0.learned_vrnd ≡ (
        if eqb (tally st vrnd + 1) quorum
        then some (lower_vrnd st.learned_vrnd vrnd)
        else st.learned_vrnd)
unfolding handle_learn
learned_vrnd-learn quorum st vrnd h k =
    let e : add_u32 (tally st vrnd) 1 ≡ tally st vrnd + 1 = omega arith in
    let e' : quorum % 2 ^ 32 ≡ quorum = omega arith in rw (e, e') (ground arith)

-- As long as no count wraps, the learned round is the smallest one with a majority of `Learn`s:
-- each message keeps this, whether or not it completes a majority.
pub handle_learn-IsLowest :
    (quorum : ℕ) (st : LearnerState) (vrnd : ℕ)
    → tally st vrnd + 1 < 2 ^ 32
    → quorum < 2 ^ 32
    → IsLowest quorum (tally st) st.learned_vrnd
    → let st' = (handle_learn quorum st vrnd).0 in IsLowest quorum (tally st') st'.learned_vrnd
handle_learn-IsLowest quorum st vrnd h k low = rw (learned_vrnd-learn quorum st vrnd h k) (
    IsLowest-step quorum vrnd (tally st) _ st.learned_vrnd (λ r. tally-learn quorum st vrnd r h)
      low)
