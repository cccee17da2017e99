-- ===== src/FreeNode/Grants.antt =====
-- Which free nodes a `FreeNodeManager` hands out.
use r_universal_db.Base.{
  ℕ, zero, suc, ◌+◌, ◌<◌, ◌≡◌, refl, ap, ◌⊎◌, inl, inr, Bool, true, false, not, ◌&&◌, ◌||◌, none,
  some, List, [], ◌∷◌, ◌++◌, length, length-append, ltb, Ord, ◌==◌, arith, ok, Keeps, Keeps-mono,
  All, >>=-Keeps, Option-cases, Bool-cases,
}
use r_universal_db.BTreeMap.{BTreeMap, get, insert}
use r_universal_db.BTreeMap.All.{All-insert}
use r_universal_db.BTreeSet.{member, delete, member-add, member-delete}
use r_universal_db.FreeNode.{
  FreeNodeType, new_slave_free_node, reconfig_free_node, heartbeat_backup_value, add_available,
  add_recent, add_nodes, drop_dead, available_nodes, take_eids, new_groups,
}

abbrev pub same_type : FreeNodeType → FreeNodeType → Bool
same_type new_slave_free_node new_slave_free_node = true
same_type reconfig_free_node reconfig_free_node = true
same_type _ _ = false

module _ {E : Type 0} ⦃o : Ord E⦄ where
  -- Whether a list has a node of this id and type.
  unfoldable pub has_node : E → FreeNodeType → List (E × FreeNodeType) → Bool
  has_node eid t [] = false
  has_node eid t ((j, u) ∷ nodes) = ((j == eid) && same_type u t) || has_node eid t nodes

  -- The set of the available nodes of a type.
  abbrev pub of_type : FreeNodeType → List E × List E → List E
  of_type reconfig_free_node available = available.0
  of_type new_slave_free_node available = available.1

  member-add_available :
      (eid j : E) (t u : FreeNodeType) (available : List E × List E)
      → member eid (of_type t (add_available j u available))
        ≡ (((j == eid) && same_type u t) || member eid (of_type t available))
  unfolding add_available
  member-add_available eid j new_slave_free_node new_slave_free_node available =
      ground (arith, member-add eid j available.1)
  member-add_available eid j new_slave_free_node reconfig_free_node available = ground arith
  member-add_available eid j reconfig_free_node new_slave_free_node available = ground arith
  member-add_available eid j reconfig_free_node reconfig_free_node available =
      ground (arith, member-add eid j available.0)

  member-add_nodes :
      (eid : E) (t : FreeNodeType) (nodes : List (E × FreeNodeType)) (available : List E × List E)
      → member eid (of_type t (add_nodes nodes available))
        ≡ (has_node eid t nodes || member eid (of_type t available))
  unfolding add_nodes has_node
  member-add_nodes eid t [] available = ground arith
  member-add_nodes eid t ((j, u) ∷ nodes) available = ground (
    arith,
    member-add_nodes eid t nodes (add_available j u available),
    member-add_available eid j t u available,
  )

  member-drop_dead :
      (eid : E) (t : FreeNodeType) (dead : List E) (available : List E × List E)
      → member eid (of_type t (drop_dead dead available))
        ≡ (not (member eid dead) && member eid (of_type t available))
  unfolding drop_dead member
  member-drop_dead eid t [] available = ground arith
  member-drop_dead eid new_slave_free_node (j ∷ dead) available = ground (
    arith,
    member-drop_dead eid new_slave_free_node dead (delete j available.0, delete j available.1),
    member-delete eid j available.1,
  )
  member-drop_dead eid reconfig_free_node (j ∷ dead) available = ground (
    arith,
    member-drop_dead eid reconfig_free_node dead (delete j available.0, delete j available.1),
    member-delete eid j available.0,
  )

  has_node-append :
      (eid : E) (t : FreeNodeType) (xs ys : List (E × FreeNodeType))
      → has_node eid t (xs ++ ys) ≡ (has_node eid t xs || has_node eid t ys)
  unfolding has_node
  has_node-append eid t [] ys = refl
  has_node-append eid t ((j, u) ∷ xs) ys = ground (arith, has_node-append eid t xs ys)

  -- A node of a set is one of the list, or was in the set before.
  abbrev IsFrom : List (E × FreeNodeType) → List E × List E → List E × List E → Type 0
  IsFrom nodes before after =
      (eid : E) (t : FreeNodeType)
      → member eid (of_type t after) ≡ true
      → (has_node eid t nodes || member eid (of_type t before)) ≡ true

  add_recent-IsFrom :
      (heartbeat : BTreeMap E ℕ) (nodes : List (E × FreeNodeType)) (available : List E × List E)
      → Keeps (IsFrom nodes available) (add_recent heartbeat nodes available)
  unfolding add_recent has_node
  add_recent-IsFrom heartbeat [] available = λ eid t h. h
  add_recent-IsFrom heartbeat ((j, u) ∷ nodes) available = elim (Option-cases (get j heartbeat)) [
    | inl e ↦ rw (e, add_recent) tt
    | inr (count, e) ↦ elim (Bool-cases (ltb count heartbeat_backup_value)) [
      | inl recent ↦
          rw (e, add_recent, recent)
            (Keeps-mono _ _ (add_recent heartbeat nodes (add_available j u available))
              (λ after h eid t k.
                ground (arith, h eid t k, member-add_available eid j t u available))
              (add_recent-IsFrom heartbeat nodes (add_available j u available)))
      | inr silent ↦
          rw (e, add_recent, silent)
            (Keeps-mono _ _ (add_recent heartbeat nodes available)
              (λ after h eid t k. ground (arith, h eid t k))
              (add_recent-IsFrom heartbeat nodes available))
    ]
  ]

  member-none : (eid : E) (t : FreeNodeType) → member eid (of_type t ([], [])) ≡ false
  unfolding member
  member-none eid new_slave_free_node = refl
  member-none eid reconfig_free_node = refl

  -- Unless a free node has no heartbeat count, exactly the free and the new nodes of a type that
  -- are not dead are available as nodes of that type, however long ago their heartbeats were.
  pub available_nodes_lem :
      (heartbeat : BTreeMap E ℕ) (free : BTreeMap E FreeNodeType) (fresh : List (E × FreeNodeType))
      (dead : List E)
      → Keeps
          (λ available.
            (eid : E) (t : FreeNodeType)
            → member eid (of_type t available)
              ≡ (not (member eid dead) && has_node eid t (free ++ fresh)))
          (available_nodes heartbeat free fresh dead)
  unfolding available_nodes
  available_nodes_lem heartbeat free fresh dead =
      >>=-Keeps (IsFrom free ([], [])) _ (add_recent heartbeat free ([], [])) _
        (add_recent-IsFrom heartbeat free ([], []))
        (λ recent e h eid t. ground (
          arith,
          member-drop_dead eid t dead (add_nodes (free ++ fresh) recent),
          member-add_nodes eid t (free ++ fresh) recent,
          has_node-append eid t free fresh,
          member-none eid t,
          h eid t,
        ))

-- `take_eids` splits a list, and fails exactly if it is too short.
take_eids_lem :
    {E : Type 0} (n : ℕ) (eids : List E)
    → ((length eids < n) × (take_eids n eids ≡ none))
      ⊎ ((taken : List E) × (rest : List E) × (take_eids n eids ≡ some (taken, rest))
          × (length taken ≡ n)
          × (taken ++ rest ≡ eids))
unfolding take_eids
take_eids_lem zero eids = inr ([], eids, refl, refl, refl)
take_eids_lem (suc n) [] = inl (omega arith, refl)
take_eids_lem (suc n) (eid ∷ eids) = elim (take_eids_lem n eids) [
  | inl (short, e) ↦ inl (omega arith, rw (e, take_eids))
  | inr (taken, rest, e, l, a) ↦
      inr (eid ∷ taken, rest, rw (e, take_eids), ap suc l, ap (◌∷◌ eid) a)
]

module _ {E S C : Type 0} ⦃os : Ord S⦄ where
  -- Every group of the map has `size` nodes.
  abbrev pub AllSized : ℕ → BTreeMap S (List E × List C) → Type 0
  AllSized size = All (λ g. length (g.1.0) ≡ size)

  new_groups-AllSized :
      (fuel size : ℕ) (sids : ℕ → S) (cids : ℕ → List C) (k : ℕ) (eids : List E)
      (groups : BTreeMap S (List E × List C))
      → 0 < size
      → length eids < fuel
      → AllSized size groups
      → (made : BTreeMap S (List E × List C)) × (new_groups fuel size sids cids k eids groups
          ≡ ok made)
        × AllSized size made
  unfolding new_groups
  new_groups-AllSized zero size sids cids k eids groups p h a = absurd (omega arith)
  new_groups-AllSized (suc fuel) size sids cids k eids groups p h a =
      elim (take_eids_lem size eids) [
        | inl (short, e) ↦ (groups, rw (e, new_groups), a)
        | inr (taken, rest, e, l, split) ↦
            let (made, eq, sized) =
              new_groups-AllSized fuel size sids cids (k + 1) rest
                (insert (sids k) (taken, cids k) groups) p
                (omega (arith, length-append taken rest, ap length split))
                (All-insert (λ g. length (g.1.0) ≡ size) (sids k) (taken, cids k) groups l a) in
            (made, rw (e, new_groups) eq, sized)
      ]

  -- With a positive `slave_group_size` the loop that makes new slave groups ends within its fuel,
  -- and every group that it makes has exactly that many nodes.
  pub new_groups_lem :
      (size : ℕ) (sids : ℕ → S) (cids : ℕ → List C) (eids : List E)
      → 0 < size
      → (made : BTreeMap S (List E × List C)) × (new_groups
            (suc (length eids))
            size
            sids
            cids
            0
            eids
            []
          ≡ ok made)
        × AllSized size made
  new_groups_lem size sids cids eids p =
      new_groups-AllSized (suc (length eids)) size sids cids 0 eids [] p (omega arith) tt
