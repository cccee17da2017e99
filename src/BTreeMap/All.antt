-- ===== src/BTreeMap/All.antt =====
-- Predicates of all entries of a map.
use r_universal_db.Base.{inl, inr, [], ◌∷◌, All, Ord, ◌==◌, ◌≺◌, Bool-cases}
use r_universal_db.BTreeMap.{BTreeMap, insert}

-- A predicate of all entries holds after an insertion.
pub All-insert {ℓ κ} :
    {K : Type ℓ} {V : Type κ} ⦃o : Ord K⦄ (P : K × V → Type 0) (k : K) (v : V) (m : BTreeMap K V)
    → P (k, v)
    → All P m
    → All P (insert k v m)
unfolding insert
All-insert P k v [] h a = (h, tt)
All-insert P k v ((j, w) ∷ m) h a = elim (Bool-cases (j == k)) [
  | inl same ↦ rw same (h, a.1)
  | inr other ↦ elim (Bool-cases (k ≺ j)) [
    | inl first ↦ rw (other, first) (h, a)
    | inr later ↦ rw (other, later) (a.0, All-insert P k v m h a.1)
  ]
]
