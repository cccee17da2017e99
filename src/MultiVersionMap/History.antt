-- ===== src/MultiVersionMap/History.antt =====
-- Sequences of calls on an `MVM`: how its LATs and its answers below them develop.
use r_universal_db.Base.{
  ℕ, ◌≤◌, ◌≡◌, Option, none, some, List, [], ◌∷◌, Ord, Option-cases, arith, inl, inr,
}
use r_universal_db.MultiVersionMap.{
  Mvm, write, read, update_lat, update_all_lats, static_read, get_lat, strong_static_read,
}
use r_universal_db.MultiVersionMap.Reads.{
  static_read-write, get_lat-write, read_lem, update_lat_lem, update_all_lats_lem,
  strong_static_read_lem,
}

-- The calls that change the map.
pub data Call {ℓ} (K V : Type ℓ) : Type ℓ where
  writes : K → Option V → ℕ → Call K V
  reads : K → ℕ → Call K V
  updates : K → ℕ → Call K V
  updates_all : ℕ → Call K V

module _ {ℓ} {K V : Type ℓ} ⦃o : Ord K⦄ where
  unfoldable pub step : Mvm K V → Call K V → Option (Mvm K V)
  step m (writes k v at) = write m k v at
  step m (reads k at) = some (read m k at).0
  step m (updates k at) = some (update_lat m k at)
  step m (updates_all at) = some (update_all_lats m at)

  unfoldable pub run : Mvm K V → List (Call K V) → Option (Mvm K V)
  run m [] = some m
  run m (c ∷ cs) = elim (step m c) [ none ↦ none | some m' ↦ run m' cs ]

  pub get_lat-step-le :
      (m m' : Mvm K V) (c : Call K V) (k : K) → step m c ≡ some m' → get_lat m k ≤ get_lat m' k
  unfolding step
  get_lat-step-le m m' (writes j v at) k h =
      ground (arith, o.same_iff j k, get_lat-write m m' j k v at)
  get_lat-step-le m m' (reads j at) k h = ground (arith, read_lem m j k at 0)
  get_lat-step-le m m' (updates j at) k h = ground (arith, update_lat_lem m j k at 0)
  get_lat-step-le m m' (updates_all at) k h = ground (arith, update_all_lats_lem m k at 0)

  pub static_read-step :
      (m m' : Mvm K V) (c : Call K V) (k : K) (t : ℕ)
      → step m c ≡ some m'
      → t ≤ get_lat m k
      → static_read m' k t ≡ static_read m k t
  unfolding step
  static_read-step m m' (writes j v at) k t h b =
      ground (arith, o.same_iff j k, get_lat-write m m' j k v at, static_read-write m m' j k v at t)
  static_read-step m m' (reads j at) k t h b = ground (arith, read_lem m j k at t)
  static_read-step m m' (updates j at) k t h b = ground (arith, update_lat_lem m j k at t)
  static_read-step m m' (updates_all at) k t h b = ground (arith, update_all_lats_lem m k at t)

  pub get_lat-run-le :
      (m m' : Mvm K V) (cs : List (Call K V)) (k : K)
      → run m cs ≡ some m'
      → get_lat m k ≤ get_lat m' k
  unfolding run
  get_lat-run-le m m' [] k h = ground arith
  get_lat-run-le m m' (c ∷ cs) k h = elim (Option-cases (step m c)) [
    | inl e ↦ ground arith
    | inr (n, e) ↦ ground (arith, get_lat-step-le m n c k e, get_lat-run-le n m' cs k)
  ]

  -- Whatever calls follow, a read at or below the LAT of its key keeps its answer, as long as no
  -- call panics.
  pub static_read-run :
      (m m' : Mvm K V) (cs : List (Call K V)) (k : K) (t : ℕ)
      → run m cs ≡ some m'
      → t ≤ get_lat m k
      → static_read m' k t ≡ static_read m k t
  unfolding run
  static_read-run m m' [] k t h b = ground arith
  static_read-run m m' (c ∷ cs) k t h b = elim (Option-cases (step m c)) [
    | inl e ↦ ground arith
    | inr (n, e) ↦ ground (
      arith,
      get_lat-step-le m n c k e,
      static_read-step m n c k t e b,
      static_read-run n m' cs k t,
    )
  ]

  -- A checked read that went through gives the same answer after any calls that do not panic.
  pub strong_static_read-run :
      (m m' : Mvm K V) (cs : List (Call K V)) (k : K) (t : ℕ) (r : Option V)
      → run m cs ≡ some m'
      → strong_static_read m k t ≡ some r
      → strong_static_read m' k t ≡ some r
  strong_static_read-run m m' cs k t r h s = ground (
    arith,
    strong_static_read_lem m k t,
    strong_static_read_lem m' k t,
    get_lat-run-le m m' cs k h,
    static_read-run m m' cs k t h,
  )

  -- Once a value has been read at a timestamp, every later read of the key at that timestamp
  -- returns it, whatever calls come between without a panic.
  pub read-run :
      (m m' : Mvm K V) (cs : List (Call K V)) (k : K) (t : ℕ)
      → run (read m k t).0 cs ≡ some m'
      → (read m' k t).1 ≡ (read m k t).1
  read-run m m' cs k t h = ground (
    arith,
    o.same_iff k k,
    read_lem m k k t t,
    read_lem m' k k t t,
    static_read-run (read m k t).0 m' cs k t h,
  )
