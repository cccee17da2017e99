-- ===== src/Paxos/Instance/Acceptor.antt =====
-- The promises of an acceptor, over any sequence of `Prepare` and `Accept` messages.
use r_universal_db.Base.{
  ℕ, ◌≤◌, ◌≡◌, refl, sym, ◌⊎◌, inl, inr, none, some, List, [], ◌∷◌, arith, Bool-cases, ltb, leb,
}
use r_universal_db.Paxos.Message.{Vote}
use r_universal_db.Paxos.State.{AcceptorState}
use r_universal_db.Paxos.Instance.{handle_prepare, handle_accept}

pub data Request (T : Type 0) : Type 0 where
  prepares : ℕ → Request T
  accepts : ℕ → T → Request T

module _ {T : Type 0} where
  unfoldable pub serve : AcceptorState T → Request T → AcceptorState T
  serve st (prepares crnd) = (handle_prepare st crnd).0
  serve st (accepts crnd cval) = (handle_accept st crnd cval).0

  unfoldable pub serve_all : AcceptorState T → List (Request T) → AcceptorState T
  serve_all st [] = st
  serve_all st (r ∷ rs) = serve_all (serve st r) rs

  -- The vote is in a round up to the acceptor's.
  abbrev pub IsPast : AcceptorState T → Type 0
  IsPast st = (v : ℕ × T) → st.vrnd_vval ≡ some v → v.0 ≤ st.rnd

  serve-rnd-le : (st : AcceptorState T) (r : Request T) → st.rnd ≤ (serve st r).rnd
  unfolding serve handle_prepare handle_accept
  serve-rnd-le st (prepares crnd) = ground arith
  serve-rnd-le st (accepts crnd cval) = ground arith

  serve_all-rnd-le : (st : AcceptorState T) (rs : List (Request T)) → st.rnd ≤ (serve_all st rs).rnd
  unfolding serve_all
  serve_all-rnd-le st [] = omega arith
  serve_all-rnd-le st (r ∷ rs) = omega (arith, serve-rnd-le st r, serve_all-rnd-le (serve st r) rs)

  serve-IsPast : (st : AcceptorState T) (r : Request T) → IsPast st → IsPast (serve st r)
  unfolding serve handle_prepare handle_accept
  serve-IsPast st (prepares crnd) h v e = ground (arith, h v)
  serve-IsPast st (accepts crnd cval) h v e = ground (arith, h v)

  -- An acceptor never votes beyond the round that it is in, whatever it is sent.
  pub serve_all-IsPast :
      (st : AcceptorState T) (rs : List (Request T)) → IsPast st → IsPast (serve_all st rs)
  unfolding serve_all
  serve_all-IsPast st [] h = h
  serve_all-IsPast st (r ∷ rs) h = serve_all-IsPast (serve st r) rs (serve-IsPast st r h)

  -- A round is promised once at most: after a promise for a round, no sequence of requests leads
  -- to another promise for it or for an earlier one.
  pub promise_once :
      (st : AcceptorState T) (crnd earlier : ℕ) (vote : Vote T) (rs : List (Request T))
      → (handle_prepare st crnd).1 ≡ some vote
      → earlier ≤ crnd
      → (handle_prepare (serve_all (handle_prepare st crnd).0 rs) earlier).1 ≡ none
  unfolding handle_prepare
  promise_once st crnd earlier vote rs h le =
      ground (arith, serve_all-rnd-le (handle_prepare st crnd).0 rs)

  VotesFrom : ℕ → Vote T → AcceptorState T → Type 0
  VotesFrom crnd vote st =
      (st.vrnd_vval ≡ vote) ⊎ ((v : ℕ × T) × (st.vrnd_vval ≡ some v) × (crnd ≤ v.0))

  serve-VotesFrom :
      (crnd : ℕ) (vote : Vote T) (st : AcceptorState T) (r : Request T)
      → crnd ≤ st.rnd
      → VotesFrom crnd vote st
      → VotesFrom crnd vote (serve st r)
  unfolding serve handle_prepare handle_accept VotesFrom
  serve-VotesFrom crnd vote st (prepares n) h k = elim (Bool-cases (ltb st.rnd n)) [
    | inl e ↦ rw (e, serve) k
    | inr e ↦ rw (e, serve) k
  ]
  serve-VotesFrom crnd vote st (accepts n cval) h k = elim (Bool-cases (leb st.rnd n)) [
    | inl e ↦ rw (e, serve) (inr ((n, cval), refl, ground arith))
    | inr e ↦ rw (e, serve) k
  ]

  serve_all-VotesFrom :
      (crnd : ℕ) (vote : Vote T) (st : AcceptorState T) (rs : List (Request T))
      → crnd ≤ st.rnd
      → VotesFrom crnd vote st
      → VotesFrom crnd vote (serve_all st rs)
  unfolding serve_all
  serve_all-VotesFrom crnd vote st [] h k = k
  serve_all-VotesFrom crnd vote st (r ∷ rs) h k =
      serve_all-VotesFrom crnd vote (serve st r) rs (omega (arith, serve-rnd-le st r))
        (serve-VotesFrom crnd vote st r h k)

  -- What a promise means: the vote that it reports is the one that the acceptor holds, and from
  -- then on the vote is still that one, or it was cast in the promised round or a later one.
  pub promise_keeps :
      (st : AcceptorState T) (crnd : ℕ) (vote : Vote T) (rs : List (Request T))
      → (handle_prepare st crnd).1 ≡ some vote
      → let later = serve_all (handle_prepare st crnd).0 rs in
        (vote ≡ st.vrnd_vval)
        × ((later.vrnd_vval ≡ vote) ⊎ ((v : ℕ × T) × (later.vrnd_vval ≡ some v) × (crnd ≤ v.0)))
  unfolding handle_prepare VotesFrom
  promise_keeps st crnd vote rs h = elim (Bool-cases (ltb st.rnd crnd)) [
    | inl e ↦
        let same : st.vrnd_vval ≡ vote = ground arith in
        rw e (
          sym same,
          serve_all-VotesFrom crnd vote (record st { rnd = crnd }) rs (omega arith) (inl same),
        )
    | inr e ↦ absurd (ground arith)
  ]
