-- ===== src/Paxos/Log/CatchUp.antt =====
-- How a node that is behind catches up: `LogSyncRequest`, and the `LogSyncResponse` to it.
use r_universal_db.Base.{
  ℕ, zero, suc, ◌+◌, ◌-◌, ◌≤◌, ◌<◌, ◌≡◌, ◌≢◌, refl, ap, ◌∙◌, true, none, some, Option, List, [],
  ◌∷◌, length, leb, ltb, eqb, Ord, nat_ord, arith, ok, Keeps, Keeps-mono, Option-cases, Bool-cases,
  inl, inr,
}
use r_universal_db.BTreeMap.{BTreeMap, get}
use r_universal_db.Paxos.Message.{
  PlEntry, PaxosDriverMessage, log_sync_request, log_sync_response, next_index_response,
}
use r_universal_db.Paxos.State.{PaxosDriver, InstanceEntry, send}
use r_universal_db.Paxos.Deliver.{learned_at, learned_unwrap}
use r_universal_db.Paxos.Handler.{
  handle_buffered_messages, learned_range, learn_once, set_learned, sync_entry, sync_entries,
  handle_paxos_message_internal, handle_paxos_message,
}
use r_universal_db.Paxos.Log.{Slots, Advances, learned_at-insert}
use r_universal_db.Paxos.Log.Deliver.{Delivers, deliver_learned_entries_lem}
use r_universal_db.Paxos.Log.Multi.{deliver-Goes}
use r_universal_db.Paxos.Log.Buffer.{handle_buffered_messages-Drains}
use r_universal_db.Paxos.Log.Handler.{
  IsSettled, sync_entry-Extends, sync_entries-Extends, handle_paxos_message-Settles,
}

module _ {T : Type 0} where
  -- A value is learned at every index from `lo` on, below `hi`.
  abbrev pub IsFull : ℕ → ℕ → BTreeMap ℕ (InstanceEntry T) → Type 0
  IsFull lo hi m = (i : ℕ) → lo ≤ i → i < hi → (x : ℕ × T) × (learned_at m i ≡ some x)

  -- The values are those of the log, for the indices from `lo` on.
  abbrev pub Quotes : BTreeMap ℕ (InstanceEntry T) → ℕ → List (ℕ × ℕ × T) → Type 0
  Quotes m lo [] = Unit {0}
  Quotes m lo (l ∷ ls) = (l.0 ≡ lo) × (learned_at m lo ≡ some (l.1, l.2)) × Quotes m (lo + 1) ls

  Slots-IsFull :
      (m : BTreeMap ℕ (InstanceEntry T)) (lo : ℕ) (vs : List T)
      → Slots m lo vs
      → IsFull lo (lo + length vs) m
  Slots-IsFull m lo [] s i h k = absurd (omega arith)
  Slots-IsFull m lo (v ∷ vs) s i h k = elim (Bool-cases (eqb lo i)) [
    | inl same ↦ let e : lo ≡ i = ground arith in ((s.0.0, v), rw (← e) s.0.1)
    | inr other ↦ Slots-IsFull m (lo + 1) vs s.1 i (ground arith) (omega arith)
  ]

module _ {E B : Type 0} ⦃o : Ord E⦄ where
  -- What is full is delivered.
  Delivers-reaches :
      (hi : ℕ) (d d' : PaxosDriver E B) (es : List (PlEntry E B))
      → IsFull d.next_index hi d.paxos_instances
      → Delivers d d' es
      → hi ≤ d'.next_index
  Delivers-reaches hi d d' es full del = elim (Bool-cases (leb hi d'.next_index)) [
    | inl le ↦ ground arith
    | inr gt ↦
        let (x, e) = full d'.next_index (omega (arith, del.moved)) (ground arith) in
        let free : learned_at d.paxos_instances d'.next_index ≡ none = rw (← del.log) del.ready in
        absurd (ground arith)
  ]

module _ {E B : Type 0} ⦃o : Ord E⦄ (this_eid : E) where
  learned_range_lem :
      (d : PaxosDriver E B) (n lo : ℕ)
      → IsFull lo (lo + n) d.paxos_instances
      → (ls : List (ℕ × ℕ × PlEntry E B)) × (learned_range this_eid d n lo ≡ ok ls)
        × Quotes d.paxos_instances lo ls
        × (length ls ≡ n)
  unfolding learned_range learned_at learned_unwrap
  learned_range_lem d zero lo h = ([], refl, tt, refl)
  learned_range_lem d (suc n) lo h =
      let (x, e) = h lo (omega arith) (omega arith) in
      let (ls, eq, q, l) =
        learned_range_lem d n (lo + 1) (λ i k k'. h i (omega arith) (omega arith)) in
      elim (Option-cases (get lo d.paxos_instances)) [
        | inl missing ↦ absurd (ground arith)
        | inr (entry, found) ↦
            let e' : entry.learned_rnd_val ≡ some x = ground arith in
            (
              (lo, x.0, x.1) ∷ ls,
              rw (found, learned_range, learned_unwrap, e', eq) refl,
              (refl, e, q),
              ap suc l,
            )
      ]

  learn_once-learned :
      (o : Option (InstanceEntry (PlEntry E B))) (x : ℕ × PlEntry E B)
      → (y : ℕ × PlEntry E B) × ((learn_once o x).learned_rnd_val ≡ some y)
  unfolding learn_once set_learned
  learn_once-learned none x = (x, refl)
  learn_once-learned (some e) x = elim (Option-cases e.learned_rnd_val) [
    | inl l ↦ (x, rw (l, learn_once, set_learned) refl)
    | inr (y, l) ↦ (y, rw (l, learn_once) refl)
  ]

  sync_entry-learned :
      (d : PaxosDriver E B) (l : ℕ × ℕ × PlEntry E B) (j : ℕ)
      → l.0 ≡ j
      → d.next_index ≤ j
      → (y : ℕ × PlEntry E B) × (learned_at (sync_entry this_eid d l).paxos_instances j ≡ some y)
  unfolding sync_entry
  sync_entry-learned d (i, r, v) j same h =
      let e = learn_once (get i d.paxos_instances) (r, v) in
      let (y, l) = learn_once-learned (get i d.paxos_instances) (r, v) in
      let le : leb d.next_index i ≡ true = ground arith in
      (y, rw le (learned_at-insert d.paxos_instances i j e ∙ ground (arith, l)))

  sync_entries-IsFull :
      (m : BTreeMap ℕ (InstanceEntry (PlEntry E B))) (ls : List (ℕ × ℕ × PlEntry E B)) (lo : ℕ)
      (d : PaxosDriver E B)
      → Quotes m lo ls
      → d.next_index ≤ lo
      → IsFull lo (lo + length ls) (sync_entries this_eid d ls).paxos_instances
  unfolding sync_entries
  sync_entries-IsFull m [] lo d q h i k k' = absurd (omega arith)
  sync_entries-IsFull m (l ∷ ls) lo d q h i k k' =
      let d1 = sync_entry this_eid d l in
      let same = (sync_entry-Extends this_eid d l).1 in
      elim (Bool-cases (eqb l.0 i)) [
        | inl here ↦
            let (y, e) = sync_entry-learned d l i (ground arith) (ground (arith, q.0)) in
            (y, (sync_entries-Extends this_eid d1 ls).0 i y.0 y.1 e)
        | inr other ↦
            sync_entries-IsFull m ls (lo + 1) d1 q.2 (omega (arith, same)) i (ground (arith, q.0))
              (omega arith)
      ]

  response-reaches :
      (hi : ℕ) (d : PaxosDriver E B) (ls : List (ℕ × ℕ × PlEntry E B))
      → IsFull d.next_index hi (sync_entries this_eid d ls).paxos_instances
      → IsSettled d
      → Keeps
          (λ s. (hi ≤ s.driver.next_index) × Advances d s.driver s.entries)
          (handle_paxos_message_internal this_eid d (log_sync_response ls))
  unfolding handle_paxos_message_internal
  response-reaches hi d ls full v =
      let synced = sync_entries-Extends this_eid d ls in
      let (d', es, eq, del) = deliver_learned_entries_lem (sync_entries this_eid d ls) in
      let reached : hi ≤ d'.next_index =
        Delivers-reaches hi (sync_entries this_eid d ls) d' es (rw synced.1 full) del in
      rw eq (
        Keeps-mono _ _ (handle_buffered_messages this_eid _) (λ s p. (p.grown, p.goes.advances))
          (handle_buffered_messages-Drains this_eid hi d
            (record { driver = d'; effects = []; entries = es }) reached
            (deliver-Goes d _ d' es [] synced.1 synced.0 del) (rw (del.buffer, synced.2) v.buffer)))

module _ {E B : Type 0} ⦃o : Ord E⦄ (this_eid behind_eid : E) where
  -- A node with a value at every index from `next_index` of a settled node on, below its own
  -- next_index, answers the LogSyncRequest of that node without a panic. The answer holds the values
  -- of these indices, and, unless its handling panics, the node that was behind has caught up:
  -- its next_index is no less than that of the other, its log has all that it had, and the entries
  -- that it returns are those of its log that next_index moved over.
  pub catch_up :
      (ahead behind : PaxosDriver E B)
      → IsFull behind.next_index ahead.next_index ahead.paxos_instances
      → behind.next_index ≤ ahead.next_index
      → IsSettled behind
      → (ls : List (ℕ × ℕ × PlEntry E B)) × (handle_paxos_message_internal this_eid ahead
            (log_sync_request behind_eid behind.next_index)
          ≡ ok (record {
            driver = ahead;
            effects = send behind_eid (log_sync_response ls) ∷ [];
            entries = [];
          }))
        × Quotes ahead.paxos_instances behind.next_index ls
        × Keeps
            (λ s. (ahead.next_index ≤ s.driver.next_index) × Advances behind s.driver s.entries)
            (handle_paxos_message_internal behind_eid behind (log_sync_response ls))
  unfolding handle_paxos_message_internal
  catch_up ahead behind full le v =
      let lo = behind.next_index in
      let (ls, eq, q, l) =
        learned_range_lem this_eid ahead (ahead.next_index - lo) lo
          (λ i h k. full i h (omega arith)) in
      let have =
        sync_entries-IsFull behind_eid ahead.paxos_instances ls lo behind q (omega arith) in
      (
        ls,
        rw eq refl,
        q,
        response-reaches behind_eid ahead.next_index behind ls
            (λ i h k. have i h (omega (arith, l))) v,
      )

module _ {E B : Type 0} ⦃o : Ord E⦄ (this_eid : E) where
  -- If a settled driver has a value at every index from lo on, below next_index, then so
  -- has the driver that handle_paxos_message leaves, up to its own next_index, for every message
  -- but a NextIndexResponse, unless it panics.
  pub handle_paxos_message-IsFull :
      (lo : ℕ) (d : PaxosDriver E B) (message : PaxosDriverMessage E B)
      → IsSettled d
      → IsFull lo d.next_index d.paxos_instances
      → ((responder : E) (next : ℕ) → message ≢ next_index_response responder next)
      → Keeps
          (λ s. IsFull lo s.driver.next_index s.driver.paxos_instances)
          (handle_paxos_message this_eid d message)
  handle_paxos_message-IsFull lo d message v full other =
      Keeps-mono _ _ (handle_paxos_message this_eid d message)
        (λ s p i h k. elim (Bool-cases (ltb i d.next_index)) [
          | inl before ↦ let (x, e) = full i h (ground arith) in (x, p.0.kept i x.0 x.1 e)
          | inr after ↦
              Slots-IsFull s.driver.paxos_instances d.next_index s.entries p.0.delivered i
                (ground arith) (omega (arith, p.0.moved))
        ])
        (handle_paxos_message-Settles this_eid d message v other)
