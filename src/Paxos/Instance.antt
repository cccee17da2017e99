-- ===== src/Paxos/Instance.antt =====
-- src/paxos.rs: the arms of `handle_paxos_message_internal` that act on one `PaxosInstance`, and
-- the round that `propose_next_index` opens.
pub mod Acceptor
pub mod Proposer
pub mod Learner
use r_universal_db.Base.{
  ℕ, ◌+◌, ◌/◌, ◌%◌, ◌^◌, Bool, true, false, Option, none, some, List, [], ◌∷◌, ◌++◌, ltb, leb, eqb,
  if◌then◌else◌, length, add_u32, nat_ord,
}
use r_universal_db.BTreeMap.{get, insert}
use r_universal_db.Paxos.Message.{Vote}
use r_universal_db.Paxos.State.{Proposal, ProposerState, AcceptorState, LearnerState}

unfoldable pub majority {ℓ} : {A : Type ℓ} → List A → ℕ
majority vec = length vec / 2 + 1

-- `entry().or_insert(0)`, the read of the count.
abbrev pub count_of : Option ℕ → ℕ
count_of none = 0
count_of (some n) = n

-- The smaller of the round that was learned and the one that has a majority now.
unfoldable pub lower_vrnd : Option ℕ → ℕ → ℕ
lower_vrnd none vrnd = vrnd
lower_vrnd (some cur) vrnd = if ltb vrnd cur then vrnd else cur

-- `Learn`: the new state, and whether this message made the count exactly a majority.
unfoldable pub handle_learn : ℕ → LearnerState → ℕ → LearnerState × Bool
handle_learn quorum state vrnd =
    let count = add_u32 (count_of (get vrnd state.learned)) 1 in
    let learned = insert vrnd count state.learned in
    if eqb count (quorum % 2 ^ 32)
    then (
      record { learned = learned; learned_vrnd = some (lower_vrnd state.learned_vrnd vrnd) },
      true,
    )
    else (record state { learned = learned }, false)

module _ {T : Type 0} where
  -- `Prepare`: the new state, and the `vrnd_vval` of the `Promise` that is sent back, if any.
  unfoldable pub handle_prepare : AcceptorState T → ℕ → AcceptorState T × Option (Vote T)
  handle_prepare state crnd =
      if ltb state.rnd crnd
      then (record state { rnd = crnd }, some state.vrnd_vval)
      else (state, none)

  -- `if vrnd > rnd { max_vrnd_vval = vrnd_vval }`
  unfoldable pub newer_vote : Vote T → Vote T → Vote T
  newer_vote best none = best
  newer_vote none (some v) = some v
  newer_vote (some b) (some v) = if ltb b.0 v.0 then some v else some b

  -- The loop over the promises that looks for the vote of the highest round.
  unfoldable pub max_vote : Vote T → List (Vote T) → Vote T
  max_vote best [] = best
  max_vote best (v ∷ votes) = max_vote (newer_vote best v) votes

  unfoldable pub choose_cval : Vote T → T → T
  choose_cval none cval = cval
  choose_cval (some (vrnd, vval)) cval = vval

  -- `Promise`, for the proposal of its round: the new proposal, and the `Accept` that is
  -- broadcast once the promises are exactly a majority of `quorum`.
  unfoldable pub handle_promise : ℕ → Proposal T → Vote T → Proposal T × Option (ℕ × T)
  handle_promise quorum state vote =
      let state' : Proposal T = record state { promises = state.promises ++ vote ∷ [] } in
      (
        state',
        if eqb (length state'.promises) quorum
            then some (state.crnd, choose_cval (max_vote none state'.promises) state.cval)
            else none,
      )

  -- `Accept`: the new state, and whether the vote was taken (then a `Learn` is broadcast).
  unfoldable pub handle_accept : AcceptorState T → ℕ → T → AcceptorState T × Bool
  handle_accept state crnd cval =
      if leb state.rnd crnd
      then (record { rnd = crnd; vrnd_vval = some (crnd, cval) }, true)
      else (state, false)

  -- After a vote was taken: the learned value, if a learned round is at most the voted one.
  unfoldable pub learned_by_accept : Option ℕ → ℕ → T → Vote T
  learned_by_accept none crnd cval = none
  learned_by_accept (some vrnd) crnd cval = if leb vrnd crnd then some (vrnd, cval) else none

  -- After a majority of `Learn`s: the learned value, if the acceptor voted at its round or later.
  unfoldable pub learned_by_votes : Option ℕ → Vote T → Vote T
  learned_by_votes none vote = none
  learned_by_votes (some learned_vrnd) none = none
  learned_by_votes (some learned_vrnd) (some (vrnd, vval)) =
      if leb learned_vrnd vrnd then some (learned_vrnd, vval) else none

  -- The round that a proposal opens from the random `draw`, and the proposer with it.
  unfoldable pub open_round : ℕ → ℕ → ProposerState T → T → ProposerState T × ℕ
  open_round draw increment state entry =
      let next_rnd = add_u32 (draw % increment) state.latest_crnd in
      (
        record {
          proposals =
              insert next_rnd (record { crnd = next_rnd; cval = entry; promises = [] })
                state.proposals;
          latest_crnd = next_rnd;
        },
        next_rnd,
      )
