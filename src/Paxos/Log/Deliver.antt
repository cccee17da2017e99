-- ===== src/Paxos/Log/Deliver.antt =====
-- What `deliver_learned_entries` delivers.
use mathlib.Core.List.{foldl, append_assoc, append-nil}
use mathlib.Core.Path.{subst₂}
use r_universal_db.Base.{
  ℕ, zero, suc, ◌+◌, ◌-◌, ◌<◌, ◌≡◌, refl, ap, ◌∙◌, none, some, List, [], ◌∷◌, ◌++◌, length, Ord,
  arith, ok, inl, inr, Option-cases,
}
use r_universal_db.Paxos.Message.{PlEntry, bundle_entry, reconfig_bundle, leader_changed}
use r_universal_db.Paxos.State.{PaxosDriver}
use r_universal_db.Paxos.Deliver.{
  key_bound, add_node, drop_node, apply_entry, learned_at, deliver_loop, deliver_learned_entries,
}
use r_universal_db.Paxos.Log.{Slots, learned_at-lt-key_bound}

module _ {E B : Type 0} ⦃o : Ord E⦄ where
  -- The log and the buffer are those of `d`.
  abbrev pub SameLog : PaxosDriver E B → PaxosDriver E B → Type 0
  SameLog d d' =
      (d'.next_index ≡ d.next_index)
      × (d'.paxos_instances ≡ d.paxos_instances)
      × (d'.buffered_messages ≡ d.buffered_messages)

  add_nodes-SameLog : (eids : List E) (d : PaxosDriver E B) → SameLog d (foldl add_node d eids)
  unfolding add_node
  add_nodes-SameLog [] d = (refl, refl, refl)
  add_nodes-SameLog (eid ∷ eids) d = add_nodes-SameLog eids (add_node d eid)

  drop_nodes-SameLog : (eids : List E) (d : PaxosDriver E B) → SameLog d (foldl drop_node d eids)
  unfolding drop_node
  drop_nodes-SameLog [] d = (refl, refl, refl)
  drop_nodes-SameLog (eid ∷ eids) d = drop_nodes-SameLog eids (drop_node d eid)

  pub apply_entry-SameLog : (d : PaxosDriver E B) (e : PlEntry E B) → SameLog d (apply_entry d e)
  unfolding apply_entry
  apply_entry-SameLog d (bundle_entry b) = (refl, refl, refl)
  apply_entry-SameLog d (reconfig_bundle r) = ground (
    arith,
    add_nodes-SameLog r.new_eids d,
    drop_nodes-SameLog r.rem_eids (foldl add_node d r.new_eids),
  )
  apply_entry-SameLog d (leader_changed lid) = (refl, refl, refl)

  -- What the loop and the method leave, for the entries `es` that they deliver.
  pub record Delivers (d d' : PaxosDriver E B) (es : List (PlEntry E B)) : Type 0 where
    pub run : Slots d.paxos_instances d.next_index es
    pub moved : d'.next_index ≡ d.next_index + length es
    pub ready : learned_at d'.paxos_instances d'.next_index ≡ none
    pub log : d'.paxos_instances ≡ d.paxos_instances
    pub buffer : d'.buffered_messages ≡ d.buffered_messages

  Delivers-step :
      (d d1 d' : PaxosDriver E B) (r : ℕ) (v : PlEntry E B) (es : List (PlEntry E B))
      → learned_at d.paxos_instances d.next_index ≡ some (r, v)
      → SameLog (record d { next_index = d.next_index + 1 }) d1
      → Delivers d1 d' es
      → Delivers d d' (v ∷ es)
  Delivers-step d d1 d' r v es e same rest = record {
    run = ((r, e), subst₂ (λ m i. Slots m i es) same.1 same.0 rest.run);
    moved = omega (arith, rest.moved, same.0);
    ready = rest.ready;
    log = rest.log ∙ same.1;
    buffer = rest.buffer ∙ same.2;
  }

  deliver_loop_lem :
      (fuel : ℕ) (d : PaxosDriver E B) (entries : List (PlEntry E B))
      → key_bound d.paxos_instances - d.next_index < fuel
      → (d' : PaxosDriver E B) × (es : List (PlEntry E B)) × (deliver_loop fuel d entries
          ≡ ok (d', entries ++ es))
        × Delivers d d' es
  unfolding deliver_loop
  deliver_loop_lem zero d entries h = absurd (omega arith)
  deliver_loop_lem (suc fuel) d entries h =
      elim (Option-cases (learned_at d.paxos_instances d.next_index)) [
        | inl e ↦ (
          d,
          [],
          rw (e, deliver_loop, append-nil),
          record { run = tt; moved = omega arith; ready = e; log = refl; buffer = refl },
        )
        | inr ((r, v), e) ↦
            let d1 = apply_entry (record d { next_index = d.next_index + 1 }) v in
            let same = apply_entry-SameLog (record d { next_index = d.next_index + 1 }) v in
            let (d', es, eq, rest) = deliver_loop_lem fuel d1 (entries ++ v ∷ []) (
              rw (same.0, same.1)
                (omega (arith, learned_at-lt-key_bound d.paxos_instances d.next_index (r, v) e))) in
            (
              d',
              v ∷ es,
              rw (e, deliver_loop, eq) (ap (λ l. ok (d', l)) (append_assoc entries (v ∷ []) es)),
              Delivers-step d d1 d' r v es e same rest,
            )
      ]

  -- The method never panics, whatever it finds. It returns the learned values from `next_index` on,
  -- moves `next_index` past them to an index with none, and leaves the log and the buffer alone.
  pub deliver_learned_entries_lem :
      (d : PaxosDriver E B)
      → (d' : PaxosDriver E B) × (es : List (PlEntry E B)) × (deliver_learned_entries d
          ≡ ok (d', es))
        × Delivers d d' es
  unfolding deliver_learned_entries
  deliver_learned_entries_lem d =
      let (d', es, eq, rest) =
        deliver_loop_lem (suc (key_bound d.paxos_instances - d.next_index)) d [] (omega arith) in
      cleared d' es eq rest
    where
      cleared :
          (d' : PaxosDriver E B) (es : List (PlEntry E B))
          → deliver_loop (suc (key_bound d.paxos_instances - d.next_index)) d [] ≡ ok (d', es)
          → Delivers d d' es
          → (d'' : PaxosDriver E B) × (fs : List (PlEntry E B)) × (deliver_learned_entries d
              ≡ ok (d'', fs))
            × Delivers d d'' fs
      cleared d' [] eq rest = (d', [], rw (eq, deliver_learned_entries), rest)
      cleared d' (v ∷ es) eq rest = (
        record d' { next_insert = none },
        v ∷ es,
        rw (eq, deliver_learned_entries),
        record {
          run = rest.run;
          moved = rest.moved;
          ready = rest.ready;
          log = rest.log;
          buffer = rest.buffer;
        },
      )
