-- ===== src/Paxos/Log/Purge.antt =====
-- `NextIndexResponse`: `min_complete_index`, and the instances that are purged.
use r_universal_db.Base.{
  ℕ, zero, suc, ◌+◌, ◌-◌, ◌≤◌, max, min, ◌≡◌, refl, sym, ap, ◌∙◌, ◌==◌, ◌&&◌, none, some, [], ◌∷◌,
  leb, ltb, if◌then◌else◌, All, Ord, nat_ord, arith, ok,
}
use r_universal_db.BTreeMap.{BTreeMap, get, insert, remove}
use r_universal_db.BTreeMap.All.{All-insert}
use r_universal_db.BTreeMap.Lookup.{get-insert, get-remove}
use r_universal_db.Paxos.Message.{next_index_response}
use r_universal_db.Paxos.State.{PaxosDriver, quiet}
use r_universal_db.Paxos.Deliver.{learned_at, min_complete_index, min_index_loop, purge}
use r_universal_db.Paxos.Handler.{handle_paxos_message_internal}
use r_universal_db.Paxos.Log.Handler.{IsSettled}

module _ {E : Type 0} where
  pub min_index_loop-le : (n : ℕ) (m : BTreeMap E ℕ) → min_index_loop n m ≤ n
  unfolding min_index_loop
  min_index_loop-le n [] = omega arith
  min_index_loop-le n ((k, r) ∷ m) = omega (arith, min_index_loop-le (min n r) m)

  -- The loop finds a lower bound of the values, and the greatest one up to its start.
  pub min_index_loop-All : (n : ℕ) (m : BTreeMap E ℕ) → All (λ e. min_index_loop n m ≤ e.1) m
  unfolding min_index_loop
  min_index_loop-All n [] = tt
  min_index_loop-All n ((k, r) ∷ m) =
      (omega (arith, min_index_loop-le (min n r) m), min_index_loop-All (min n r) m)

  pub le-min_index_loop :
      (x n : ℕ) (m : BTreeMap E ℕ) → x ≤ n → All (λ e. x ≤ e.1) m → x ≤ min_index_loop n m
  unfolding min_index_loop
  le-min_index_loop x n [] h a = h
  le-min_index_loop x n ((k, r) ∷ m) h a = le-min_index_loop x (min n r) m (omega arith) a.1

-- The minimum of an index and all indices of a map.
pub record IsMinimum {E : Type 0} (x next : ℕ) (m : BTreeMap E ℕ) : Type 0 where
  pub up_to : x ≤ next
  pub lowest : All (λ e. x ≤ e.1) m
  pub greatest : (y : ℕ) → y ≤ next → All (λ e. y ≤ e.1) m → y ≤ x

module _ {E : Type 0} ⦃o : Ord E⦄ where
  pub get-All :
      (x : ℕ) (k : E) (v : ℕ) (m : BTreeMap E ℕ) → get k m ≡ some v → All (λ e. x ≤ e.1) m → x ≤ v
  unfolding get
  get-All x k v [] h a = cc
  get-All x k v ((j, w) ∷ m) h a = ground (arith, get-All x k v m)

module _ {E B : Type 0} ⦃o : Ord E⦄ where
  get-purge :
      (n lo i : ℕ) (d : PaxosDriver E B)
      → get i (purge n lo d).paxos_instances
        ≡ (if leb lo i && ltb i (lo + n) then none else get i d.paxos_instances)
  unfolding purge
  get-purge zero lo i d = ground arith
  get-purge (suc n) lo i d = ground (
    arith,
    get-purge n (lo + 1) i (record d { paxos_instances = remove lo d.paxos_instances }),
    get-remove i lo d.paxos_instances,
  )

  -- The purge changes the instances only.
  purge-rest :
      (n lo : ℕ) (d : PaxosDriver E B)
      → purge n lo d ≡ record d { paxos_instances = (purge n lo d).paxos_instances }
  unfolding purge
  purge-rest zero lo d = refl
  purge-rest (suc n) lo d =
      purge-rest n (lo + 1) (record d { paxos_instances = remove lo d.paxos_instances })

  min_complete-grows :
      (d : PaxosDriver E B) (responder : E) (cur next : ℕ)
      → get responder d.remote_next_indices ≡ some cur
      → min_complete_index d
        ≤ min_complete_index (record d {
          remote_next_indices = insert responder (max cur next) d.remote_next_indices;
        })
  unfolding min_complete_index
  min_complete-grows d responder cur next h =
      le-min_index_loop (min_index_loop d.next_index d.remote_next_indices) d.next_index _
        (min_index_loop-le d.next_index d.remote_next_indices)
        (All-insert _ responder (max cur next) d.remote_next_indices
          (omega (
            arith,
            get-All _ responder cur d.remote_next_indices h
                (min_index_loop-All d.next_index d.remote_next_indices),
          ))
          (min_index_loop-All d.next_index d.remote_next_indices))

  min_complete-IsMinimum :
      (d : PaxosDriver E B) → IsMinimum (min_complete_index d) d.next_index d.remote_next_indices
  unfolding min_complete_index
  min_complete-IsMinimum d = record {
    up_to = min_index_loop-le d.next_index d.remote_next_indices;
    lowest = min_index_loop-All d.next_index d.remote_next_indices;
    greatest = λ x h a. le-min_index_loop x d.next_index d.remote_next_indices h a;
  }

  min_complete-purge :
      (n lo : ℕ) (d : PaxosDriver E B) → min_complete_index (purge n lo d) ≡ min_complete_index d
  unfolding min_complete_index
  min_complete-purge n lo d = ap min_complete_index (purge-rest n lo d)

  -- From `d` to `d'`, for the answer `next` of a node that stood at `cur`: that node alone moves, to
  -- the later of the two. The `min_complete_index`, the lowest of all indices before and after,
  -- does not fall, and exactly the instances between its old and its new value are gone.
  pub record Purges (d d' : PaxosDriver E B) (responder : E) (cur next : ℕ) : Type 0 where
    pub remotes :
        (node : E)
        → get node d'.remote_next_indices
          ≡ (if responder == node then some (max cur next) else get node d.remote_next_indices)
    pub before : IsMinimum (min_complete_index d) d.next_index d.remote_next_indices
    pub after : IsMinimum (min_complete_index d') d'.next_index d'.remote_next_indices
    pub raised : min_complete_index d ≤ min_complete_index d'
    pub instances :
        (i : ℕ)
        → get i d'.paxos_instances ≡ (
            if leb (min_complete_index d) i && ltb i (min_complete_index d')
            then none
            else get i d.paxos_instances)
    pub rest : d' ≡ record d {
      remote_next_indices = d'.remote_next_indices;
      paxos_instances = d'.paxos_instances;
    }

  -- A `NextIndexResponse` of a known node, at a settled driver, does not panic. It moves the
  -- remote index of that node to the later of the old and the reported one, and no other remote
  -- index. min_complete_index, which is before and after it the minimum of next_index and all
  -- remote indices, does not fall; exactly the instances from its old value up to its new one are
  -- purged, nothing else of the driver changes, and the driver stays settled.
  pub next_index_response_lem :
      (this_eid : E) (d : PaxosDriver E B) (responder : E) (cur next : ℕ)
      → IsSettled d
      → get responder d.remote_next_indices ≡ some cur
      → (d' : PaxosDriver E B) × (handle_paxos_message_internal this_eid d
            (next_index_response responder next)
          ≡ ok (quiet d'))
        × Purges d d' responder cur next
        × IsSettled d'
  unfolding handle_paxos_message_internal learned_at
  next_index_response_lem this_eid d responder cur next v h =
      let d1 : PaxosDriver E B = record d {
        remote_next_indices = insert responder (max cur next) d.remote_next_indices;
      } in
      let lo = min_complete_index d in
      let n = min_complete_index d1 - lo in
      let d' = purge n lo d1 in
      let rest = purge-rest n lo d1 in
      let low = min_complete-grows d responder cur next h in
      let same = min_complete-purge n lo d1 in
      let least = min_complete-IsMinimum d' in
      let next_same = ap (λ e. e.next_index) rest in
      let gone = get-purge n lo d.next_index d1 in
      (
        d',
        rw (h, handle_paxos_message_internal),
        record {
          remotes = λ node.
              ap (λ e. get node e.remote_next_indices) rest
              ∙ get-insert node responder (max cur next) d.remote_next_indices;
          before = min_complete-IsMinimum d;
          after = least;
          raised = rw same low;
          instances = λ i. rw same (ground (arith, get-purge n lo i d1, low));
          rest =
              rest
              ∙ ap (λ m. record d { remote_next_indices = m; paxos_instances = d'.paxos_instances })
                  (sym (ap (λ e. e.remote_next_indices) rest));
        },
        record {
          ready = rw next_same (ground (arith, gone, low, same, least.up_to, next_same, v.ready));
          buffer = rw (ap (λ e. e.buffered_messages) rest) v.buffer;
        },
      )
