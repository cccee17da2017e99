-- ===== src/Stm/Tm/Consistent.antt =====
-- The fields of a TM agree.
use r_universal_db.Base.{true, ◌||◌, is_some, List, [], ◌∷◌, Ord, All, ◌≡◌, arith}
use r_universal_db.BTreeMap.{BTreeMap, get}
use r_universal_db.BTreeSet.{member, add, delete, member-add}
use r_universal_db.Stm.Tm.{rm_set}

module _ {K P : Type 0} ⦃o : Ord K⦄ where
  -- The RMs that remain have a payload.
  abbrev pub Covers : BTreeMap K P → List K → Type 0
  Covers payloads rms = All (λ rm. is_some (get rm payloads) ≡ true) rms

  pub delete-Covers :
      (payloads : BTreeMap K P) (rm : K) (rms : List K)
      → Covers payloads rms
      → Covers payloads (delete rm rms)
  unfolding delete
  delete-Covers payloads rm [] h = tt
  delete-Covers payloads rm (j ∷ rms) h = ground (arith, h, delete-Covers payloads rm rms)

  pub member-rm_set :
      (rm : K) (payloads : BTreeMap K P) (rms : List K)
      → member rm (rm_set payloads rms) ≡ (member rm rms || is_some (get rm payloads))
  unfolding rm_set get
  member-rm_set rm [] rms = ground arith
  member-rm_set rm ((k, p) ∷ payloads) rms =
      ground (arith, member-rm_set rm payloads (add k rms), member-add rm k rms)

  member-Covers :
      (payloads : BTreeMap K P) (rms : List K)
      → ((rm : K) → member rm rms ≡ true → is_some (get rm payloads) ≡ true)
      → Covers payloads rms
  unfolding member
  member-Covers payloads [] h = tt
  member-Covers payloads (rm ∷ rms) h = (
    h rm (ground (arith, o.same_iff rm rm)),
    member-Covers payloads rms (λ k m. h k (ground (arith, m))),
  )

  pub rm_set-Covers : (payloads : BTreeMap K P) → Covers payloads (rm_set payloads [])
  unfolding member
  rm_set-Covers payloads =
      member-Covers payloads (rm_set payloads [])
        (λ rm m. ground (arith, m, member-rm_set rm payloads []))
