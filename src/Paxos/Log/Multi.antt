-- ===== src/Paxos/Log/Multi.antt =====
-- How the handling of a `MultiPaxosMessage` changes the log.
use r_universal_db.Base.{
  ℕ, ◌≤◌, ◌≡◌, refl, sym, ◌∙◌, none, some, List, [], ltb, Ord, nat_ord, arith, unwrap, Keeps,
  >>=-Keeps, unwrap-Keeps, Keeps-mono, Option-cases, Bool-cases, inl, inr,
}
use r_universal_db.BTreeMap.{get, insert}
use r_universal_db.Paxos.Message.{
  Vote, PlEntry, PaxosMessage, prepare, promise, accept, learn, MultiPaxosMessage,
}
use r_universal_db.Paxos.State.{
  PaxosInstance, InstanceEntry, PaxosDriver, Effect, Step, new_instance,
}
use r_universal_db.Paxos.Instance.{majority, handle_accept, handle_learn}
use r_universal_db.Paxos.Deliver.{with_instance, learned_at, min_complete_index}
use r_universal_db.Paxos.Multi.{put_instance, learn_value, on_instance, handle_multi, is_spurious}
use r_universal_db.Paxos.Log.{Extends, Advances, IsReady, learned_at-insert}
use r_universal_db.Paxos.Log.Deliver.{Delivers, deliver_learned_entries_lem}

module _ {E B : Type 0} where
  -- What a method has done when it stops, from a driver `d` on.
  pub record Goes (d : PaxosDriver E B) (s : Step E B) : Type 0 where
    pub advances : Advances d s.driver s.entries
    pub ready : IsReady s.driver

  abbrev pub SameBuffer : PaxosDriver E B → Step E B → Type 0
  SameBuffer d s = s.driver.buffered_messages ≡ d.buffered_messages

  -- Every learned value of `d` stands in `d'`, and the other way round.
  abbrev SameValues : PaxosDriver E B → PaxosDriver E B → Type 0
  SameValues d d' =
      (d'.next_index ≡ d.next_index)
      × ((j : ℕ) → learned_at d'.paxos_instances j ≡ learned_at d.paxos_instances j)

  SameValues-Goes :
      (d : PaxosDriver E B) (s : Step E B)
      → s.entries ≡ []
      → SameValues d s.driver
      → IsReady d
      → Goes d s
  SameValues-Goes d s e h r = record {
    advances =
        rw e (record { moved = omega (arith, h.0); kept = λ i n v l. h.1 i ∙ l; delivered = tt });
    ready = rw h.0 (h.1 d.next_index ∙ r);
  }

  put_instance-SameValues :
      (d : PaxosDriver E B) (index : ℕ) (e : InstanceEntry (PlEntry E B))
      (i : PaxosInstance (PlEntry E B))
      → e.learned_rnd_val ≡ learned_at d.paxos_instances index
      → SameValues d (put_instance d index e i)
  put_instance-SameValues d index e i h = (
    refl,
    λ j.
        ground (
          arith,
          learned_at-insert d.paxos_instances index j (record e { instance_state = some i }),
        ),
  )

  with_instance-learned :
      (d : PaxosDriver E B) (index : ℕ)
      → (with_instance (get index d.paxos_instances)).learned_rnd_val
        ≡ learned_at d.paxos_instances index
  unfolding learned_at new_instance
  with_instance-learned d index = ground arith

  Extends-learn :
      (d d1 : PaxosDriver E B) (index : ℕ) (e : InstanceEntry (PlEntry E B)) (x : ℕ × PlEntry E B)
      → SameValues d d1
      → learned_at d.paxos_instances index ≡ none
      → Extends d.paxos_instances
          (insert index (record e { learned_rnd_val = some x }) d1.paxos_instances)
  Extends-learn d d1 index e x h free i r v l = ground (
    arith,
    h.1 i,
    learned_at-insert d1.paxos_instances index i (record e { learned_rnd_val = some x }),
  )

module _ {E B : Type 0} ⦃o : Ord E⦄ where
  -- A value that is put where none was learned, and then all that can be delivered.
  pub deliver-Goes :
      (d d1 d' : PaxosDriver E B) (es : List (PlEntry E B)) (effects : List (Effect E B))
      → d1.next_index ≡ d.next_index
      → Extends d.paxos_instances d1.paxos_instances
      → Delivers d1 d' es
      → Goes d (record { driver = d'; effects = effects; entries = es })
  deliver-Goes d d1 d' es effects same ext del = record {
    advances = record {
      moved = omega (arith, del.moved);
      kept = rw del.log ext;
      delivered = rw (del.log, ← same) del.run;
    };
    ready = del.ready;
  }

module _ {E B : Type 0} ⦃o : Ord E⦄ (this_eid : E) where
  -- What is known after a step: it goes on from `d`, and leaves the buffer alone.
  abbrev Fits : PaxosDriver E B → Step E B → Type 0
  Fits d s = Goes d s × SameBuffer d s

  learn_value-Fits :
      (d d1 : PaxosDriver E B) (index : ℕ) (e : InstanceEntry (PlEntry E B))
      (vote : Vote (PlEntry E B)) (effects : List (Effect E B))
      → SameValues d d1
      → d1.buffered_messages ≡ d.buffered_messages
      → e.learned_rnd_val ≡ learned_at d.paxos_instances index
      → IsReady d
      → Keeps (Fits d) (learn_value this_eid d1 index e vote effects)
  unfolding learn_value
  learn_value-Fits d d1 index e none effects h b l r = (SameValues-Goes d _ refl h r, b)
  learn_value-Fits d d1 index e (some x) effects h b l r = elim (Option-cases e.learned_rnd_val) [
    | inr (y, old) ↦ rw (old, learn_value) (SameValues-Goes d _ refl h r, b)
    | inl new ↦
        let d2 : PaxosDriver E B = record d1 {
          paxos_instances = insert index (record e { learned_rnd_val = some x }) d1.paxos_instances;
        } in
        let (d', es, eq, del) = deliver_learned_entries_lem d2 in
        rw (new, learn_value, eq)
          (
            deliver-Goes d d2 d' es effects h.0 (Extends-learn d d1 index e x h (sym l ∙ new)) del,
            del.buffer ∙ b,
          )
  ]

  on_instance-Fits :
      (d : PaxosDriver E B) (multi : MultiPaxosMessage E B) (e : InstanceEntry (PlEntry E B))
      (i : PaxosInstance (PlEntry E B)) (message : PaxosMessage (PlEntry E B))
      → e.learned_rnd_val ≡ learned_at d.paxos_instances multi.index
      → IsReady d
      → Keeps (Fits d) (on_instance this_eid d multi e i message)
  unfolding on_instance
  on_instance-Fits d multi e i (prepare crnd) l r =
      (SameValues-Goes d _ refl (put_instance-SameValues d multi.index e _ l) r, refl)
  on_instance-Fits d multi e i (promise rnd vote) l r =
      elim (Option-cases (get rnd i.proposer_state.proposals)) [
        | inl missing ↦ rw (missing, on_instance) tt
        | inr (p, found) ↦
            rw (found, on_instance)
              (SameValues-Goes d _ refl (put_instance-SameValues d multi.index e _ l) r, refl)
      ]
  on_instance-Fits d multi e i (accept crnd cval) l r =
      elim (Bool-cases (handle_accept i.acceptor_state crnd cval).1) [
        | inl voted ↦
            rw (voted, on_instance)
              (learn_value-Fits d _ multi.index _ _ _ (put_instance-SameValues d multi.index e _ l)
                refl l r)
        | inr not_voted ↦
            rw (not_voted, on_instance)
              (SameValues-Goes d _ refl (put_instance-SameValues d multi.index e _ l) r, refl)
      ]
  on_instance-Fits d multi e i (learn vrnd) l r =
      elim (Bool-cases (handle_learn (majority d.paxos_nodes) i.learner_state vrnd).1) [
        | inl reached ↦
            rw (reached, on_instance)
              (learn_value-Fits d _ multi.index _ _ _ (put_instance-SameValues d multi.index e _ l)
                refl l r)
        | inr short ↦
            rw (short, on_instance)
              (SameValues-Goes d _ refl (put_instance-SameValues d multi.index e _ l) r, refl)
      ]

  -- A message for an index up to `next_index` leaves the buffer alone; every message keeps the
  -- learned values and delivers the run that it completes.
  pub handle_multi-Goes :
      (d : PaxosDriver E B) (multi : MultiPaxosMessage E B)
      → IsReady d
      → Keeps
          (λ s. Goes d s × (multi.index ≤ d.next_index → SameBuffer d s))
          (handle_multi this_eid d multi)
  unfolding handle_multi
  handle_multi-Goes d multi r = elim (Bool-cases (is_spurious d multi)) [
    | inl drop ↦ rw (drop, handle_multi) (SameValues-Goes d _ refl (refl, λ j. refl) r, λ h. refl)
    | inr keep ↦ elim (Bool-cases (ltb multi.index (min_complete_index d))) [
      | inl old ↦
          rw (keep, old, handle_multi) (SameValues-Goes d _ refl (refl, λ j. refl) r, λ h. refl)
      | inr fresh ↦ elim (Bool-cases (ltb d.next_index multi.index)) [
        | inl ahead ↦
            rw (keep, fresh, ahead, handle_multi)
              (SameValues-Goes d _ refl (refl, λ j. refl) r, λ h. absurd (ground arith))
        | inr now ↦
            rw (keep, fresh, now, handle_multi)
              (>>=-Keeps (λ i. Unit {0}) _
                (unwrap (with_instance (get multi.index d.paxos_instances)).instance_state) _
                (unwrap-Keeps _)
                (λ i e u.
                  Keeps-mono _ _ (on_instance this_eid d multi _ i multi.paxos_message)
                    (λ s f. (f.0, λ h. f.1))
                    (on_instance-Fits d multi _ i multi.paxos_message
                      (with_instance-learned d multi.index) r)))
      ]
    ]
  ]
