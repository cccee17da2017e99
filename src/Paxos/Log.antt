-- ===== src/Paxos/Log.antt =====
-- What the log of a `PaxosDriver` is, seen from outside: the learned values by index, and how a
-- method may change them.
pub mod Deliver
pub mod Multi
pub mod Buffer
pub mod Handler
pub mod Purge
pub mod CatchUp
use r_universal_db.Base.{
  ℕ, ◌+◌, ◌<◌, ◌≡◌, refl, none, some, List, [], ◌∷◌, ◌++◌, length, length-append, nat_ord, arith,
  max, Ord, eqb, ◌∙◌, Result, Keeps, if◌then◌else◌, Option, Option-cases, inl, inr,
}
use r_universal_db.BTreeMap.{BTreeMap, get, insert}
use r_universal_db.BTreeMap.Lookup.{get-insert}
use r_universal_db.Paxos.Message.{Vote, PlEntry}
use r_universal_db.Paxos.State.{PaxosDriver, InstanceEntry}
use r_universal_db.Paxos.Deliver.{learned_at, key_bound}

module _ {T : Type 0} where
  -- The values stand in the log at the indices from `i` on.
  abbrev pub Slots : BTreeMap ℕ (InstanceEntry T) → ℕ → List T → Type 0
  Slots m i [] = Unit {0}
  Slots m i (v ∷ vs) = ((r : ℕ) × (learned_at m i ≡ some (r, v))) × Slots m (i + 1) vs

  -- What is learned in `m` is learned in `m'`, at the same round.
  abbrev pub Extends : BTreeMap ℕ (InstanceEntry T) → BTreeMap ℕ (InstanceEntry T) → Type 0
  Extends m m' = (i r : ℕ) (v : T) → learned_at m i ≡ some (r, v) → learned_at m' i ≡ some (r, v)

  pub Slots-extend :
      (m m' : BTreeMap ℕ (InstanceEntry T)) (i : ℕ) (vs : List T)
      → Extends m m'
      → Slots m i vs
      → Slots m' i vs
  Slots-extend m m' i [] h s = tt
  Slots-extend m m' i (v ∷ vs) h s =
      ((s.0.0, h i s.0.0 v s.0.1), Slots-extend m m' (i + 1) vs h s.1)

  pub Slots-append :
      (m : BTreeMap ℕ (InstanceEntry T)) (i j : ℕ) (vs ws : List T)
      → i + length vs ≡ j
      → Slots m i vs
      → Slots m j ws
      → Slots m i (vs ++ ws)
  Slots-append m i j [] ws e s t = let e' : i ≡ j = omega arith in rw e' t
  Slots-append m i j (v ∷ vs) ws e s t = (s.0, Slots-append m (i + 1) j vs ws (omega arith) s.1 t)

  pub learned_at-insert :
      (m : BTreeMap ℕ (InstanceEntry T)) (i j : ℕ) (e : InstanceEntry T)
      → learned_at (insert i e m) j ≡ (if eqb i j then e.learned_rnd_val else learned_at m j)
  unfolding learned_at
  learned_at-insert m i j e = ground (arith, get-insert j i e m)

pub get-lt-key_bound :
    {V : Type 0} (m : BTreeMap ℕ V) (k : ℕ) (v : V) → get k m ≡ some v → k < key_bound m
unfolding get key_bound
get-lt-key_bound [] k v h = ground arith
get-lt-key_bound ((j, w) ∷ m) k v h = ground (arith, get-lt-key_bound m k v)

pub learned_at-lt-key_bound :
    {T : Type 0} (m : BTreeMap ℕ (InstanceEntry T)) (i : ℕ) (x : ℕ × T)
    → learned_at m i ≡ some x
    → i < key_bound m
unfolding learned_at
learned_at-lt-key_bound m i x h = elim (Option-cases (get i m)) [
  | inl e ↦ ground arith
  | inr (v, e) ↦ get-lt-key_bound m i v e
]

module _ {E B : Type 0} where
  -- From `d` to `d'` the entries `es` are delivered: they stand in the log of `d'` at the indices
  -- that `next_index` moved over, and no learned value is changed or lost.
  pub record Advances (d d' : PaxosDriver E B) (es : List (PlEntry E B)) : Type 0 where
    pub moved : d'.next_index ≡ d.next_index + length es
    pub kept : Extends d.paxos_instances d'.paxos_instances
    pub delivered : Slots d'.paxos_instances d.next_index es

  pub Advances-refl : (d : PaxosDriver E B) → Advances d d []
  Advances-refl d = record { moved = omega arith; kept = λ i r v h. h; delivered = tt }

  pub Advances-trans :
      (a b c : PaxosDriver E B) (es fs : List (PlEntry E B))
      → Advances a b es
      → Advances b c fs
      → Advances a c (es ++ fs)
  Advances-trans a b c es fs h k = record {
    moved = omega (arith, length-append es fs, h.moved, k.moved);
    kept = λ i r v l. k.kept i r v (h.kept i r v l);
    delivered =
        Slots-append c.paxos_instances a.next_index b.next_index es fs (omega (arith, h.moved))
          (Slots-extend b.paxos_instances c.paxos_instances a.next_index es k.kept h.delivered)
          k.delivered;
  }

  -- Nothing is learned at `next_index`: all that could be delivered has been.
  abbrev pub IsReady : PaxosDriver E B → Type 0
  IsReady d = learned_at d.paxos_instances d.next_index ≡ none
