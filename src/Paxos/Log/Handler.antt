-- ===== src/Paxos/Log/Handler.antt =====
-- How the other messages, and `handle_paxos_message` as a whole, change the log.
use r_universal_db.Base.{
  ℕ, zero, suc, ◌+◌, ◌-◌, ◌<◌, ◌≡◌, ◌≢◌, refl, ◌∙◌, none, some, List, [], ◌∷◌, ◌++◌, leb, ltb, Ord,
  nat_ord, arith, Keeps, >>=-Keeps, Keeps-mono, unwrap-Keeps, Option, Option-cases, Bool-cases, inl,
  inr, eqb,
}
use r_universal_db.BTreeMap.{BTreeMap, get, insert}
use r_universal_db.Paxos.Message.{
  PlEntry, lid_eq, MultiPaxosMessage, PaxosDriverMessage, multi_paxos, is_leader_msg,
  inform_learned, log_sync_request, log_sync_response, next_index_request, next_index_response,
  start_new_node, new_node_started,
}
use r_universal_db.Paxos.State.{PaxosDriver, InstanceEntry, Step, quiet}
use r_universal_db.Paxos.Deliver.{key_bound, learned_at, learned_unwrap, min_complete_index}
use r_universal_db.Paxos.Multi.{handle_multi, is_spurious}
use r_universal_db.Paxos.Handler.{
  handle_buffered_messages, inform_step, inform_loop, confirmed_vote, set_learned, learned_range,
  learn_once, sync_entry, sync_entries, handle_paxos_message_internal, handle_paxos_message,
}
use r_universal_db.Paxos.Log.{
  Extends, Advances, Advances-refl, IsReady, learned_at-insert, get-lt-key_bound,
}
use r_universal_db.Paxos.Log.Deliver.{Delivers, deliver_learned_entries_lem}
use r_universal_db.Paxos.Log.Multi.{Goes, deliver-Goes, handle_multi-Goes}
use r_universal_db.Paxos.Log.Buffer.{
  IsBuffer, Drains, IsDrained, buffer-IsBuffer, handle_buffered_messages-Drains, Goes-after,
}

module _ {E B : Type 0} where
  -- What `handle_paxos_message` wants of a driver and what each part of it leaves: nothing that
  -- could be delivered is left, and the buffer is in order.
  pub record IsSettled (d : PaxosDriver E B) : Type 0 where
    pub ready : IsReady d
    pub buffer : IsBuffer d.buffered_messages

  -- A step that goes on from `d` to a settled driver.
  abbrev Settles : PaxosDriver E B → Step E B → Type 0
  Settles d s = Goes d s × IsBuffer s.driver.buffered_messages

  quiet-Goes : (d : PaxosDriver E B) → IsReady d → Goes d (quiet d)
  quiet-Goes d r = record { advances = Advances-refl d; ready = r }

  -- The same log and buffer, whatever else is new.
  same-Settles :
      (d : PaxosDriver E B) (s : Step E B)
      → IsSettled d
      → s.entries ≡ []
      → s.driver.next_index ≡ d.next_index
      → s.driver.paxos_instances ≡ d.paxos_instances
      → s.driver.buffered_messages ≡ d.buffered_messages
      → Settles d s
  same-Settles d s v e n i b = (
    record {
      advances =
          rw e (record { moved = omega (arith, n); kept = λ j r v l. rw i l; delivered = tt });
      ready = rw (n, i) v.ready;
    },
    rw b v.buffer,
  )

  set_learned-val :
      (o : Option (InstanceEntry (PlEntry E B))) (x : ℕ × PlEntry E B)
      → (set_learned o x).learned_rnd_val ≡ some x
  unfolding set_learned
  set_learned-val none x = refl
  set_learned-val (some e) x = refl

  learn_once-val :
      (m : BTreeMap ℕ (InstanceEntry (PlEntry E B))) (i : ℕ) (x y : ℕ × PlEntry E B)
      → learned_at m i ≡ some y
      → (learn_once (get i m) x).learned_rnd_val ≡ some y
  unfolding learned_at learn_once
  learn_once-val m i x y h = ground arith

  Extends-put :
      (m : BTreeMap ℕ (InstanceEntry (PlEntry E B))) (i : ℕ) (e : InstanceEntry (PlEntry E B))
      → ((y : ℕ × PlEntry E B) → learned_at m i ≡ some y → e.learned_rnd_val ≡ some y)
      → Extends m (insert i e m)
  Extends-put m i e h j r v l = elim (Bool-cases (eqb i j)) [
    | inl same ↦
        rw (learned_at-insert m i j e, same) (h (r, v) (let e' : i ≡ j = ground arith in rw e' l))
    | inr other ↦ rw (learned_at-insert m i j e, other) l
  ]

module _ {E B : Type 0} ⦃o : Ord E⦄ where
  Delivers-grows :
      (d d' : PaxosDriver E B) (es : List (PlEntry E B)) (x : ℕ × PlEntry E B)
      → learned_at d.paxos_instances d.next_index ≡ some x
      → Delivers d d' es
      → d.next_index < d'.next_index
  Delivers-grows d d' [] x h del =
      let e : d'.next_index ≡ d.next_index = omega (arith, del.moved) in
      let r : learned_at d.paxos_instances d.next_index ≡ none = rw (← del.log, ← e) del.ready in
      ground arith
  Delivers-grows d d' (v ∷ es) x h del = omega (arith, del.moved)

module _ {E B : Type 0} ⦃o : Ord E⦄ (this_eid : E) where
  handle_multi-Settles :
      (d : PaxosDriver E B) (multi : MultiPaxosMessage E B)
      → IsSettled d
      → Keeps (Settles d) (handle_multi this_eid d multi)
  unfolding handle_multi
  handle_multi-Settles d multi v = elim (Bool-cases (ltb d.next_index multi.index)) [
    | inr near ↦
        Keeps-mono _ _ (handle_multi this_eid d multi)
          (λ s p. (p.0, rw (p.1 (ground arith)) v.buffer))
          (handle_multi-Goes this_eid d multi v.ready)
    | inl far ↦ elim (Bool-cases (is_spurious d multi)) [
      | inl drop ↦ rw (drop, handle_multi) (quiet-Goes d v.ready, v.buffer)
      | inr keep ↦ elim (Bool-cases (ltb multi.index (min_complete_index d))) [
        | inl old ↦ rw (keep, old, handle_multi) (quiet-Goes d v.ready, v.buffer)
        | inr fresh ↦
            rw (keep, fresh, far, handle_multi)
              (
                record {
                  advances = record { moved = omega arith; kept = λ i r w l. l; delivered = tt };
                  ready = v.ready;
                },
                buffer-IsBuffer multi d.buffered_messages v.buffer,
              )
      ]
    ]
  ]

  learned_unwrap-Keeps : (d : PaxosDriver E B) (i : ℕ) → Keeps (λ x. Unit {0}) (learned_unwrap d i)
  unfolding learned_unwrap
  learned_unwrap-Keeps d i = elim (Option-cases (get i d.paxos_instances)) [
    | inl e ↦ rw (e, learned_unwrap) tt
    | inr (x, e) ↦ rw (e, learned_unwrap) (unwrap-Keeps x.learned_rnd_val)
  ]

  learned_range-Keeps :
      (d : PaxosDriver E B) (n lo : ℕ) → Keeps (λ l. Unit {0}) (learned_range this_eid d n lo)
  unfolding learned_range
  learned_range-Keeps d zero lo = tt
  learned_range-Keeps d (suc n) lo =
      >>=-Keeps (λ x. Unit {0}) _ (learned_unwrap d lo) _ (learned_unwrap-Keeps d lo)
        (λ x e u.
          >>=-Keeps (λ l. Unit {0}) _ (learned_range this_eid d n (lo + 1)) _
            (learned_range-Keeps d n (lo + 1)) (λ l e' u'. tt))

  pub sync_entry-Extends :
      (d : PaxosDriver E B) (l : ℕ × ℕ × PlEntry E B)
      → Extends d.paxos_instances (sync_entry this_eid d l).paxos_instances
        × ((sync_entry this_eid d l).next_index ≡ d.next_index)
        × ((sync_entry this_eid d l).buffered_messages ≡ d.buffered_messages)
  unfolding sync_entry
  sync_entry-Extends d (index, vrnd, vval) = elim (Bool-cases (leb d.next_index index)) [
    | inl later ↦ rw (later) (
      Extends-put d.paxos_instances index _
          (λ y h. learn_once-val d.paxos_instances index (vrnd, vval) y h),
      refl,
      refl,
    )
    | inr before ↦ rw before ((λ i r v l. l), refl, refl)
  ]

  pub sync_entries-Extends :
      (d : PaxosDriver E B) (ls : List (ℕ × ℕ × PlEntry E B))
      → Extends d.paxos_instances (sync_entries this_eid d ls).paxos_instances
        × ((sync_entries this_eid d ls).next_index ≡ d.next_index)
        × ((sync_entries this_eid d ls).buffered_messages ≡ d.buffered_messages)
  unfolding sync_entries
  sync_entries-Extends d [] = ((λ i r v l. l), refl, refl)
  sync_entries-Extends d (l ∷ ls) =
      let one = sync_entry-Extends d l in
      let rest = sync_entries-Extends (sync_entry this_eid d l) ls in
      ((λ i r v h. rest.0 i r v (one.0 i r v h)), rest.1 ∙ one.1, rest.2 ∙ one.2)

  -- The rest of a round of the loop, once the buffer is drained; `again` is the next round.
  inform_round :
      (fuel : ℕ) (d : PaxosDriver E B) (sender : E) (should_learned : BTreeMap ℕ ℕ) (s t : Step E B)
      → key_bound should_learned - s.driver.next_index < suc fuel
      → Drains s.driver.next_index d t
      → ((u : Step E B)
          → Goes d u
          → IsBuffer u.driver.buffered_messages
          → key_bound should_learned - u.driver.next_index < fuel
          → Keeps (Settles d) (inform_loop this_eid fuel sender should_learned u))
      → Keeps (Settles d) (
          inform_step this_eid sender should_learned t
            (inform_loop this_eid fuel sender should_learned))
  unfolding inform_step
  inform_round fuel d sender should_learned s t h dr again =
      elim (Option-cases (get t.driver.next_index should_learned)) [
        | inl e ↦ rw (e, inform_step) (dr.goes, dr.buffer)
        | inr (rnd, e) ↦
            elim (Option-cases
              (confirmed_vote (get t.driver.next_index t.driver.paxos_instances) rnd)) [
                | inl e' ↦
                    rw (e, inform_step, e')
                      (record { advances = dr.goes.advances; ready = dr.goes.ready }, dr.buffer)
                | inr (x, e') ↦
                    let old = get t.driver.next_index t.driver.paxos_instances in
                    let d2 : PaxosDriver E B = record (t.driver) {
                      paxos_instances =
                          insert t.driver.next_index (set_learned old x) t.driver.paxos_instances;
                    } in
                    let (d', es, eq, del) = deliver_learned_entries_lem d2 in
                    let ext : Extends t.driver.paxos_instances d2.paxos_instances =
                      Extends-put t.driver.paxos_instances t.driver.next_index (set_learned old x)
                        (λ y l. ground (arith, dr.goes.ready)) in
                    let on = deliver-Goes t.driver d2 d' es [] refl ext del in
                    let all =
                      Goes-after d t (record { driver = d'; effects = []; entries = es }) dr.goes
                        on in
                    let new : learned_at d2.paxos_instances d2.next_index ≡ some x =
                      learned_at-insert t.driver.paxos_instances t.driver.next_index
                        t.driver.next_index (set_learned old x)
                      ∙ ground (arith, set_learned-val old x) in
                    rw (e, inform_step, e', eq)
                      (again (record t { driver = d'; entries = t.entries ++ es })
                        (record { advances = all.advances; ready = all.ready })
                        (rw del.buffer dr.buffer)
                        (omega (
                          arith,
                          dr.grown,
                          get-lt-key_bound should_learned t.driver.next_index rnd e,
                          Delivers-grows d2 d' es x new del,
                        )))
              ]
      ]

  inform_loop-Settles :
      (fuel : ℕ) (d : PaxosDriver E B) (sender : E) (should_learned : BTreeMap ℕ ℕ) (s : Step E B)
      → Goes d s
      → IsBuffer s.driver.buffered_messages
      → key_bound should_learned - s.driver.next_index < fuel
      → Keeps (Settles d) (inform_loop this_eid fuel sender should_learned s)
  unfolding inform_loop
  inform_loop-Settles zero d sender should_learned s g v h = absurd (omega arith)
  inform_loop-Settles (suc fuel) d sender should_learned s g v h =
      >>=-Keeps _ _ (handle_buffered_messages this_eid s) _
        (handle_buffered_messages-Drains this_eid s.driver.next_index d s (omega arith) g v)
        (λ t e dr.
          inform_round fuel d sender should_learned s t h dr
            (λ u. inform_loop-Settles fuel d sender should_learned u))

  -- Every message but a `NextIndexResponse` goes on with the log, within the fuel of its loops.
  internal-Settles :
      (d : PaxosDriver E B) (message : PaxosDriverMessage E B)
      → IsSettled d
      → ((responder : E) (next : ℕ) → message ≢ next_index_response responder next)
      → Keeps (Settles d) (handle_paxos_message_internal this_eid d message)
  unfolding handle_paxos_message_internal
  internal-Settles d (multi_paxos multi) v other = handle_multi-Settles d multi v
  internal-Settles d (is_leader_msg lid) v other = elim (Bool-cases (lid_eq lid d.leader)) [
    | inl e ↦ rw (e, handle_paxos_message_internal) (same-Settles d _ v refl refl refl refl)
    | inr e ↦ rw (e, handle_paxos_message_internal) (same-Settles d _ v refl refl refl refl)
  ]
  internal-Settles d (inform_learned sender should_learned) v other =
      inform_loop-Settles _ d sender should_learned (quiet d) (quiet-Goes d v.ready) v.buffer
        (omega arith)
  internal-Settles d (log_sync_request sender from) v other =
      >>=-Keeps (λ l. Unit {0}) _ (learned_range this_eid d (d.next_index - from) from) _
        (learned_range-Keeps d (d.next_index - from) from)
        (λ l e u. same-Settles d _ v refl refl refl refl)
  internal-Settles d (log_sync_response learned) v other =
      let synced = sync_entries-Extends d learned in
      let (d', es, eq, del) = deliver_learned_entries_lem (sync_entries this_eid d learned) in
      rw eq (
        Keeps-mono _ _ (handle_buffered_messages this_eid _) (λ s p. (p.goes, p.buffer))
          (handle_buffered_messages-Drains this_eid 0 d
            (record { driver = d'; effects = []; entries = es }) (omega arith)
            (deliver-Goes d _ d' es [] synced.1 synced.0 del) (rw (del.buffer, synced.2) v.buffer)))
  internal-Settles d (next_index_request sender) v other = same-Settles d _ v refl refl refl refl
  internal-Settles d (next_index_response responder next) v other =
      absurd (other responder next refl)
  internal-Settles d (start_new_node start) v other = same-Settles d _ v refl refl refl refl
  internal-Settles d (new_node_started node) v other = same-Settles d _ v refl refl refl refl

  -- `handle_paxos_message` ends within its fuel for every message but a `NextIndexResponse`. The
  -- entries that it returns are those that the log of the new driver holds at the indices that
  -- `next_index` moved over, no learned value is changed or lost, nothing more could be delivered,
  -- and no buffered message is for an index up to `next_index`.
  pub handle_paxos_message-Settles :
      (d : PaxosDriver E B) (message : PaxosDriverMessage E B)
      → IsSettled d
      → ((responder : E) (next : ℕ) → message ≢ next_index_response responder next)
      → Keeps
          (λ s. Advances d s.driver s.entries × IsSettled s.driver × IsDrained s.driver)
          (handle_paxos_message this_eid d message)
  unfolding handle_paxos_message
  handle_paxos_message-Settles d message v other =
      >>=-Keeps _ _ (handle_paxos_message_internal this_eid d message) _
        (internal-Settles d message v other)
        (λ s e p.
          Keeps-mono _ _ (handle_buffered_messages this_eid s)
            (λ t q.
              (q.goes.advances, record { ready = q.goes.ready; buffer = q.buffer }, q.drained))
            (handle_buffered_messages-Drains this_eid 0 d s (omega arith) p.0 p.1))
