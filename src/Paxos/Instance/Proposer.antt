-- ===== src/Paxos/Instance/Proposer.antt =====
-- The choice of a proposer: which vote it takes up, and when it sends its one `Accept`.
use r_universal_db.Base.{
  ℕ, ◌+◌, ◌≤◌, ◌≡◌, refl, map, ◌∙◌, ◌⊎◌, inl, inr, none, some, Option, List, [], ◌∷◌, ◌++◌, All,
  length, length-append, ltb, Bool-cases, arith,
}
use mathlib.Core.List.{append_assoc}
use r_universal_db.Paxos.Message.{Vote}
use r_universal_db.Paxos.State.{Proposal}
use r_universal_db.Paxos.Instance.{newer_vote, max_vote, choose_cval, handle_promise}

module _ {T : Type 0} where
  -- The vote is in a round up to that of `best`; a `best` of `none` allows no vote.
  abbrev pub UpTo : Vote T → Vote T → Type 0
  UpTo best none = Unit {0}
  UpTo none (some v) = ⊥
  UpTo (some b) (some v) = v.0 ≤ b.0

  UpTo-refl : (a : Vote T) → UpTo a a
  UpTo-refl none = tt
  UpTo-refl (some a) = omega arith

  UpTo-trans : (a b c : Vote T) → UpTo a b → UpTo b c → UpTo a c
  UpTo-trans a b none h k = tt
  UpTo-trans a none (some v) h k = absurd k
  UpTo-trans none (some b) (some v) h k = absurd h
  UpTo-trans (some a) (some b) (some v) h k = omega arith

  newer_vote_lem :
      (best v : Vote T)
      → UpTo (newer_vote best v) best
        × UpTo (newer_vote best v) v
        × ((newer_vote best v ≡ best) ⊎ (newer_vote best v ≡ v))
  unfolding newer_vote
  newer_vote_lem none none = (tt, tt, inl refl)
  newer_vote_lem (some b) none = (omega arith, tt, inl refl)
  newer_vote_lem none (some v) = (tt, omega arith, inr refl)
  newer_vote_lem (some b) (some v) = elim (Bool-cases (ltb b.0 v.0)) [
    | inl e ↦ rw e (ground arith, omega arith, inr refl)
    | inr e ↦ rw e (omega arith, ground arith, inl refl)
  ]

  -- One of the votes of the list.
  abbrev pub OneOf : Vote T → List (Vote T) → Type 0
  OneOf v [] = ⊥
  OneOf v (w ∷ ws) = (v ≡ w) ⊎ OneOf v ws

  max_vote_from :
      (best : Vote T) (votes : List (Vote T))
      → UpTo (max_vote best votes) best
        × All (UpTo (max_vote best votes)) votes
        × ((max_vote best votes ≡ best) ⊎ OneOf (max_vote best votes) votes)
  unfolding max_vote
  max_vote_from best [] = (UpTo-refl best, tt, inl refl)
  max_vote_from best (v ∷ votes) =
      let step = newer_vote_lem best v in
      let rest = max_vote_from (newer_vote best v) votes in
      let top = max_vote (newer_vote best v) votes in
      (
        UpTo-trans top (newer_vote best v) best rest.0 step.0,
        (UpTo-trans top (newer_vote best v) v rest.0 step.1, rest.1),
        elim rest.2 [
          | inr later ↦ inr (inr later)
          | inl here ↦ elim step.2 [ inl old ↦ inl (here ∙ old) | inr new ↦ inr (inl (here ∙ new)) ]
        ],
      )

  -- The vote that a proposer takes up is none exactly if there is none; else it is one of the
  -- votes, and no vote is in a later round.
  pub max_vote_lem :
      (votes : List (Vote T))
      → All (UpTo (max_vote none votes)) votes
        × ((max_vote none votes ≡ none) ⊎ OneOf (max_vote none votes) votes)
  max_vote_lem votes = let m = max_vote_from none votes in (m.1, m.2)

  -- The `Accept`s that a proposal sends for the votes of a sequence of promises.
  unfoldable pub promises_all : ℕ → Proposal T → List (Vote T) → List (Option (ℕ × T))
  promises_all quorum p [] = []
  promises_all quorum p (v ∷ votes) =
      (handle_promise quorum p v).1 ∷ promises_all quorum (handle_promise quorum p v).0 votes

  -- No `Accept` for any of the votes.
  abbrev pub silent : List (Vote T) → List (Option (ℕ × T))
  silent = map (λ v. none)

  promises_all-silent :
      (quorum : ℕ) (p : Proposal T) (votes : List (Vote T))
      → quorum ≤ length p.promises
      → promises_all quorum p votes ≡ silent votes
  unfolding promises_all handle_promise
  promises_all-silent quorum p [] h = refl
  promises_all-silent quorum p (v ∷ votes) h =
      let p' : Proposal T = record p { promises = p.promises ++ v ∷ [] } in
      ground (arith, length-append p.promises (v ∷ []), promises_all-silent quorum p' votes)

  promises_from :
      (quorum : ℕ) (p : Proposal T) (before after : List (Vote T)) (v : Vote T)
      → length p.promises + length before + 1 ≡ quorum
      → promises_all quorum p (before ++ v ∷ after)
        ≡ silent before
          ++ some (p.crnd, choose_cval (max_vote none (p.promises ++ (before ++ v ∷ []))) p.cval)
            ∷ silent after
  unfolding promises_all handle_promise
  promises_from quorum p [] after v h =
      let p' : Proposal T = record p { promises = p.promises ++ v ∷ [] } in
      ground (arith, length-append p.promises (v ∷ []), promises_all-silent quorum p' after)
  promises_from quorum p (b ∷ before) after v h =
      let p' : Proposal T = record p { promises = p.promises ++ b ∷ [] } in
      ground (
        arith,
        length-append p.promises (b ∷ []),
        append_assoc p.promises (b ∷ []) (before ++ v ∷ []),
        promises_from quorum p' before after v,
      )

  -- However many promises come in for a new proposal, it sends one `Accept`: at the promise that
  -- completes the quorum, in its own round, for the value chosen from the votes up to then.
  pub promises_all_lem :
      (quorum crnd : ℕ) (cval : T) (before after : List (Vote T)) (v : Vote T)
      → length before + 1 ≡ quorum
      → promises_all quorum
          (record { crnd = crnd; cval = cval; promises = [] })
          (before ++ v ∷ after)
        ≡ silent before
          ++ some (crnd, choose_cval (max_vote none (before ++ v ∷ [])) cval) ∷ silent after
  promises_all_lem quorum crnd cval before after v h =
      promises_from quorum (record { crnd = crnd; cval = cval; promises = [] }) before after v
        (omega arith)
