-- ===== src/Paxos/Group/Handover.antt =====
-- What a node that is made from a `StartNewNode` knows of the log of the sender.
use r_universal_db.Base.{
  ℕ, ◌≡◌, refl, Bool, false, Bool-cases, Option-cases, inl, inr, none, some, Option, [], ◌∷◌, ltb,
  if◌then◌else◌, Ord, nat_ord, arith, Keeps, Keeps-mono, >>=-Keeps,
}
use r_universal_db.BTreeMap.{BTreeMap, get, insert}
use r_universal_db.BTreeMap.Lookup.{get-insert}
use r_universal_db.BTreeMap.Sorted.{IsSorted, Above, get-Above, Above-trans, insert-IsSorted}
use r_universal_db.Paxos.Message.{PlEntry}
use r_universal_db.Paxos.State.{PaxosDriver, PaxosConfig, InstanceEntry}
use r_universal_db.Paxos.Deliver.{learned_at}
use r_universal_db.Paxos.Log.{learned_at-insert}
use r_universal_db.Paxos.Group.{
  any_unsent, mark_sent, known_instances, create_reconfig, learned_below, has_unsent_unconfirmed,
  mk_start_new_node,
}

-- The first of two values that is there.
abbrev pub or_else : {A : Type 0} → Option A → Option A → Option A
or_else none b = b
or_else (some a) b = some a

learned_at-Above :
    {T : Type 0} (k : ℕ) (m : BTreeMap ℕ (InstanceEntry T)) → Above k m → learned_at m k ≡ none
unfolding learned_at
learned_at-Above k m a = rw (get-Above k m a, learned_at) refl

get-none : {V : Type 0} (i : ℕ) → get {V = V} i [] ≡ none
unfolding get
get-none i = refl

learned_at-none : {T : Type 0} (i : ℕ) → learned_at {T = T} [] i ≡ none
unfolding learned_at get
learned_at-none i = refl

any_unsent-mark_sent : {E : Type 0} (m : BTreeMap E Bool) → any_unsent (mark_sent m) ≡ false
unfolding any_unsent mark_sent
any_unsent-mark_sent [] = refl
any_unsent-mark_sent ((eid, sent) ∷ m) = any_unsent-mark_sent m

module _ {E B : Type 0} ⦃o : Ord E⦄ where
  learned_at-known_instances :
      (i : ℕ) (vals : BTreeMap ℕ (ℕ × PlEntry E B)) (m : BTreeMap ℕ (InstanceEntry (PlEntry E B)))
      → IsSorted vals
      → learned_at (known_instances m vals) i ≡ or_else (get i vals) (learned_at m i)
  unfolding known_instances get
  learned_at-known_instances i [] m s = refl
  learned_at-known_instances i ((k, x) ∷ vals) m s =
      let e : InstanceEntry (PlEntry E B) = record {
        instance_state = none;
        learned_rnd_val = some x;
      } in
      ground (
        arith,
        learned_at-known_instances i vals (insert k e m) s.1,
        learned_at-insert m k i e,
        get-Above k vals s.0,
      )

  -- The values below `next_index` of the instances, before those of `vals`.
  abbrev Takes :
      ℕ
      → BTreeMap ℕ (InstanceEntry (PlEntry E B))
      → BTreeMap ℕ (ℕ × PlEntry E B)
      → BTreeMap ℕ (ℕ × PlEntry E B)
      → Type 0
  Takes next_index m vals taken =
      IsSorted taken
      × ((i : ℕ)
          → get i taken
            ≡ (if ltb i next_index then or_else (learned_at m i) (get i vals) else get i vals))

  learned_below-Takes :
      (next_index : ℕ) (m : BTreeMap ℕ (InstanceEntry (PlEntry E B)))
      (vals : BTreeMap ℕ (ℕ × PlEntry E B))
      → IsSorted m
      → IsSorted vals
      → Keeps (Takes next_index m vals) (learned_below next_index m vals)
  unfolding learned_below learned_at get
  learned_below-Takes next_index [] vals s t = (t, λ i. ground arith)
  learned_below-Takes next_index ((k, e) ∷ m) vals s t = elim (Bool-cases (ltb k next_index)) [
    | inl lt ↦ elim (Option-cases e.learned_rnd_val) [
      | inl l ↦ rw (lt, l, learned_below) tt
      | inr (x, l) ↦
          rw (lt, l, learned_below)
            (Keeps-mono _ _ (learned_below next_index m (insert k x vals))
              (λ taken h.
                (h.0, λ i. ground (arith, h.1 i, get-insert i k x vals, learned_at-Above k m s.0)))
              (learned_below-Takes next_index m (insert k x vals) s.1 (insert-IsSorted k x vals t)))
    ]
    | inr ge ↦
        rw (ge, learned_below) (t, λ i. ground (arith, Above-trans i k m, learned_at-Above i m))
  ]

  -- If the instances of a driver are in order, then, unless it panics, mk_start_new_node yields a
  -- message from which create_reconfig makes a driver with the same nodes, leader and next_index,
  -- that has learned what the sender has below next_index, and nothing else. The sender
  -- keeps its log, and has no node left to which a StartNewNode is due.
  pub create_reconfig-mk_start_new_node :
      (this_eid new_eid : E) (config : PaxosConfig) (d : PaxosDriver E B)
      → IsSorted d.paxos_instances
      → Keeps
          (λ r.
            let made = (create_reconfig new_eid r.1 config).driver in
            (made.paxos_nodes ≡ d.paxos_nodes)
            × (made.leader ≡ d.leader)
            × (made.next_index ≡ d.next_index)
            × ((i : ℕ)
                → learned_at made.paxos_instances i
                  ≡ (if ltb i d.next_index then learned_at d.paxos_instances i else none))
            × (r.0.paxos_instances ≡ d.paxos_instances)
            × (has_unsent_unconfirmed r.0 ≡ false))
          (mk_start_new_node this_eid d)
  unfolding mk_start_new_node create_reconfig has_unsent_unconfirmed
  create_reconfig-mk_start_new_node this_eid new_eid config d s =
      >>=-Keeps (Takes d.next_index d.paxos_instances []) _
        (learned_below d.next_index d.paxos_instances []) _
        (learned_below-Takes d.next_index d.paxos_instances [] s tt)
        (λ vals e h. (
          refl,
          refl,
          refl,
          λ i. ground (
            arith,
            learned_at-known_instances i vals [] h.0,
            h.1 i,
            get-none {V = ℕ × PlEntry E B} i,
            learned_at-none {T = PlEntry E B} i,
          ),
          refl,
          any_unsent-mark_sent d.unconfirmed_eids,
        ))
