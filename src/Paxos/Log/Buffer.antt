-- ===== src/Paxos/Log/Buffer.antt =====
-- The buffer of messages for later indices, and `handle_buffered_messages`.
use mathlib.Core.Path.{subst₂}
use r_universal_db.Base.{
  ℕ, zero, suc, ◌≤◌, ◌<◌, ◌≡◌, refl, some, List, [], ◌∷◌, ◌++◌, leb, All, All-append, Ord, nat_ord,
  arith, Result, Keeps, >>=-Keeps, Option-cases, Bool-cases, List-cases, inl, inr, eqb, ltb, ◌>>=◌,
}
use r_universal_db.BTreeMap.{BTreeMap, get, insert}
use r_universal_db.BTreeMap.Sorted.{IsSorted, Above, insert-IsSorted}
use r_universal_db.Paxos.Message.{MultiPaxosMessage}
use r_universal_db.Paxos.State.{PaxosDriver, Step}
use r_universal_db.Paxos.Multi.{handle_multi, buffer}
use r_universal_db.Paxos.Handler.{buffered_size, after, buffered_loop, handle_buffered_messages}
use r_universal_db.Paxos.Log.{Advances-trans}
use r_universal_db.Paxos.Log.Multi.{Goes, handle_multi-Goes}

module _ {E B : Type 0} where
  -- Every message of the queue is for the index `k`.
  abbrev pub For : ℕ → List (MultiPaxosMessage E B) → Type 0
  For k = All (λ m. m.index ≡ k)

  abbrev pub IsFiled : BTreeMap ℕ (List (MultiPaxosMessage E B)) → Type 0
  IsFiled [] = Unit {0}
  IsFiled ((k, q) ∷ m) = For k q × IsFiled m

  -- The queues are in the order of their indices, and hold messages for these.
  pub record IsBuffer (m : BTreeMap ℕ (List (MultiPaxosMessage E B))) : Type 0 where
    pub sorted : IsSorted m
    pub filed : IsFiled m

  -- No message for an index up to `next_index` is left.
  abbrev pub IsDrained : PaxosDriver E B → Type 0
  IsDrained d = All (λ e. d.next_index < e.0) d.buffered_messages

  get-For :
      (k : ℕ) (m : BTreeMap ℕ (List (MultiPaxosMessage E B))) (q : List (MultiPaxosMessage E B))
      → IsFiled m
      → get k m ≡ some q
      → For k q
  unfolding get
  get-For k [] q f h = cc
  get-For k ((j, p) ∷ m) q f h = elim (Bool-cases (eqb j k)) [
    | inl same ↦
        let e : p ≡ q = ground arith in let e' : j ≡ k = ground arith in subst₂ For e' e f.0
    | inr other ↦ get-For k m q f.1 (ground arith)
  ]

  insert-IsFiled :
      (k : ℕ) (q : List (MultiPaxosMessage E B)) (m : BTreeMap ℕ (List (MultiPaxosMessage E B)))
      → For k q
      → IsFiled m
      → IsFiled (insert k q m)
  unfolding insert
  insert-IsFiled k q [] h f = (h, tt)
  insert-IsFiled k q ((j, p) ∷ m) h f = elim (Bool-cases (eqb j k)) [
    | inl same ↦ rw same (h, f.1)
    | inr other ↦ elim (Bool-cases (ltb k j)) [
      | inl first ↦ rw (other, first) (h, f)
      | inr later ↦ rw (other, later) (f.0, insert-IsFiled k q m h f.1)
    ]
  ]

  pub buffer-IsBuffer :
      (multi : MultiPaxosMessage E B) (m : BTreeMap ℕ (List (MultiPaxosMessage E B)))
      → IsBuffer m
      → IsBuffer (buffer multi m)
  unfolding buffer
  buffer-IsBuffer multi m v = elim (Option-cases (get multi.index m)) [
    | inl e ↦
        rw (e, buffer)
          (record {
            sorted = insert-IsSorted multi.index (multi ∷ []) m v.sorted;
            filed = insert-IsFiled multi.index (multi ∷ []) m (refl, tt) v.filed;
          })
    | inr (q, e) ↦
        rw (e, buffer)
          (record {
            sorted = insert-IsSorted multi.index (q ++ multi ∷ []) m v.sorted;
            filed =
                insert-IsFiled multi.index (q ++ multi ∷ []) m
                  (All-append _ q (multi ∷ []) (get-For multi.index m q v.filed e) (refl, tt))
                  v.filed;
          })
  ]

  Above-drained :
      (n k : ℕ) (m : BTreeMap ℕ (List (MultiPaxosMessage E B)))
      → n < k
      → Above k m
      → All (λ e. n < e.0) m
  Above-drained n k [] h a = tt
  Above-drained n k ((j, q) ∷ m) h a = (ground arith, Above-drained n k m h a.1)

  pub Goes-after :
      (d : PaxosDriver E B) (s t : Step E B) → Goes d s → Goes s.driver t → Goes d (after s t)
  Goes-after d s t g h = record {
    advances = Advances-trans d s.driver t.driver s.entries t.entries g.advances h.advances;
    ready = h.ready;
  }

  -- A step that goes on from `d`, to the index `n` at least, and has drained the buffer.
  pub record Drains (n : ℕ) (d : PaxosDriver E B) (s : Step E B) : Type 0 where
    pub goes : Goes d s
    pub grown : n ≤ s.driver.next_index
    pub buffer : IsBuffer s.driver.buffered_messages
    pub drained : IsDrained s.driver

  -- The buffer is no part of what a step is measured by.
  Goes-from :
      (d d' : PaxosDriver E B) (s : Step E B)
      → d.next_index ≡ d'.next_index
      → d.paxos_instances ≡ d'.paxos_instances
      → Goes d s
      → Goes d' s
  Goes-from d d' s e e' g = record {
    advances = record {
      moved = rw (← e) g.advances.moved;
      kept = rw (← e') g.advances.kept;
      delivered = rw (← e) g.advances.delivered;
    };
    ready = g.ready;
  }

  buffered_size-pos : (m : BTreeMap ℕ (List (MultiPaxosMessage E B))) → 0 < buffered_size m
  unfolding buffered_size
  buffered_size-pos [] = omega arith
  buffered_size-pos ((k, q) ∷ m) = omega arith

module _ {E B : Type 0} ⦃o : Ord E⦄ (this_eid : E) where
  -- The part of the loop's body that handles a message; `keep` is the rest of the loop.
  one_message :
      (n : ℕ) (d d1 : PaxosDriver E B) (s : Step E B) (multi : MultiPaxosMessage E B)
      (keep : Step E B → Result (Step E B))
      → Goes d s
      → d1.next_index ≡ s.driver.next_index
      → d1.paxos_instances ≡ s.driver.paxos_instances
      → multi.index ≤ d1.next_index
      → ((t : Step E B)
          → Goes d t
          → t.driver.buffered_messages ≡ d1.buffered_messages
          → s.driver.next_index ≤ t.driver.next_index
          → Keeps (Drains n d) (keep t))
      → Keeps (Drains n d) (handle_multi this_eid d1 multi >>= λ t. keep (after s t))
  one_message n d d1 s multi keep g e e' h k =
      >>=-Keeps _ _ (handle_multi this_eid d1 multi) _
        (handle_multi-Goes this_eid d1 multi (rw (e, e') g.ready))
        (λ t eq p.
          k (after s t) (Goes-after d s t g (Goes-from d1 s.driver t e e' p.0)) (p.1 h)
            (omega (arith, p.0.advances.moved, e)))

  buffered_loop-Drains :
      (fuel n : ℕ) (d : PaxosDriver E B) (s : Step E B)
      → n ≤ s.driver.next_index
      → Goes d s
      → IsBuffer s.driver.buffered_messages
      → buffered_size s.driver.buffered_messages ≤ fuel
      → Keeps (Drains n d) (buffered_loop this_eid fuel s)
  unfolding buffered_loop buffered_size
  buffered_loop-Drains zero n d s b g v h =
      absurd (omega (arith, buffered_size-pos s.driver.buffered_messages))
  buffered_loop-Drains (suc fuel) n d s b g v h = elim (List-cases s.driver.buffered_messages) [
    | inl e ↦ rw (e, buffered_loop) (record { goes = g; grown = b; buffer = v; drained = rw e tt })
    | inr ((k, q), m, e) ↦
        let v' : IsBuffer ((k, q) ∷ m) = rw e at v in
        let h' : buffered_size ((k, q) ∷ m) ≤ suc fuel = rw e at h in
        elim (Bool-cases (leb k s.driver.next_index)) [
          | inr ahead ↦
              rw (e, buffered_loop, ahead)
                (record {
                  goes = g;
                  grown = b;
                  buffer = v;
                  drained = rw e (
                    ground arith,
                    Above-drained s.driver.next_index k m (ground arith) v'.sorted.0,
                  );
                })
          | inl due ↦ elim (List-cases q) [
            | inl empty ↦
                rw (e, buffered_loop, due, empty)
                  (buffered_loop-Drains fuel n d
                    (record s { driver = record (s.driver) { buffered_messages = m } }) b
                    (record {
                      advances = record {
                        moved = g.advances.moved;
                        kept = g.advances.kept;
                        delivered = g.advances.delivered;
                      };
                      ready = g.ready;
                    })
                    (record { sorted = v'.sorted.1; filed = v'.filed.1 }) (omega arith))
            | inr (multi, rest, e') ↦
                let f : For k (multi ∷ rest) = rw e' at v'.filed.0 in
                let h'' : buffered_size ((k, multi ∷ rest) ∷ m) ≤ suc fuel = rw e' at h' in
                let left : IsBuffer ((k, rest) ∷ m) = record {
                  sorted = v'.sorted;
                  filed = (f.1, v'.filed.1);
                } in
                rw (e, buffered_loop, due, e')
                  (one_message n d (record (s.driver) { buffered_messages = (k, rest) ∷ m }) s multi
                    (buffered_loop this_eid fuel) g refl refl (ground (arith, f.0))
                    (λ t gt bt grown.
                      buffered_loop-Drains fuel n d t (omega arith) gt (rw bt left)
                        (rw bt (omega arith))))
          ]
        ]
  ]

  -- Within its fuel the method leaves no message for an index up to `next_index`.
  pub handle_buffered_messages-Drains :
      (n : ℕ) (d : PaxosDriver E B) (s : Step E B)
      → n ≤ s.driver.next_index
      → Goes d s
      → IsBuffer s.driver.buffered_messages
      → Keeps (Drains n d) (handle_buffered_messages this_eid s)
  unfolding handle_buffered_messages
  handle_buffered_messages-Drains n d s b g v =
      buffered_loop-Drains (buffered_size s.driver.buffered_messages) n d s b g v (omega arith)
