-- ===== src/BTreeSet.antt =====
-- `std::collections::BTreeSet`: the elements in their order.
use r_universal_db.Base.{
  Bool, false, ◌||◌, List, [], ◌∷◌, if◌then◌else◌, Ord, ◌==◌, ◌≺◌, ◌≡◌, refl, arith,
}

module _ {ℓ} {K : Type ℓ} ⦃o : Ord K⦄ where
  unfoldable pub member : K → List K → Bool
  member k [] = false
  member k (j ∷ s) = j == k || member k s

  unfoldable pub add : K → List K → List K
  add k [] = k ∷ []
  add k (j ∷ s) =
      let rest = add k s in if j == k then j ∷ s else if k ≺ j then k ∷ j ∷ s else j ∷ rest

  unfoldable pub delete : K → List K → List K
  delete k [] = []
  delete k (j ∷ s) = let rest = delete k s in if j == k then rest else j ∷ rest

  pub member-add : (j k : K) (s : List K) → member j (add k s) ≡ (k == j || member j s)
  unfolding member add
  member-add j k [] = refl
  member-add j k (i ∷ s) =
      ground (arith, o.same_iff k j, o.same_iff i k, o.same_iff i j, member-add j k s)

  pub member-delete :
      (j k : K) (s : List K) → member j (delete k s) ≡ (if k == j then false else member j s)
  unfolding member delete
  member-delete j k [] = ground arith
  member-delete j k (i ∷ s) =
      ground (arith, o.same_iff k j, o.same_iff i k, o.same_iff i j, member-delete j k s)
