-- ===== src/Network/Buffers.antt =====
-- What the buffers of a `NetworkDriver` hold: for each group, messages of one leadership of it, and
-- a scheduled `RemoteLeaderChanged` for that leadership.
use r_universal_db.Base.{
  ℕ, ◌≡◌, refl, ◌⊎◌, inl, inr, none, some, Option, List, [], ◌∷◌, ◌++◌, All, All-append, eqb, ltb,
  Ord, ◌==◌, arith, Keeps, Option-cases, Bool-cases, is_some,
}
use r_universal_db.BTreeMap.{get, insert, remove}
use r_universal_db.BTreeMap.Lookup.{get-insert, get-remove}
use r_universal_db.Paxos.Message.{LeadershipId}
use r_universal_db.Network.{
  RemoteMessage, VersionedValue, RemoteLeaderChanged, LeaderMap, NetworkDriver, Received,
  sync_groups, add_groups, remove_groups, sort_message, receive, change_of,
}

module _ {G E P : Type 0} where
  -- All messages come from the group and have the generation `gen` of its leadership.
  abbrev pub OfGen : G → ℕ → List (RemoteMessage G E P) → Type 0
  OfGen gid gen = All (λ m. (m.from_gid ≡ gid) × (m.from_lid.gen ≡ gen))

module _ {G E : Type 0} where
  -- The list holds a change of the group to a leadership of that generation.
  abbrev pub Scheduled : G → ℕ → List (RemoteLeaderChanged G E) → Type 0
  Scheduled gid gen [] = ⊥
  Scheduled gid gen (c ∷ cs) = ((c.gid ≡ gid) × (c.lid.gen ≡ gen)) ⊎ Scheduled gid gen cs

  Scheduled-append :
      (gid : G) (gen : ℕ) (cs ds : List (RemoteLeaderChanged G E))
      → Scheduled gid gen cs
      → Scheduled gid gen (cs ++ ds)
  Scheduled-append gid gen [] ds h = absurd h
  Scheduled-append gid gen (c ∷ cs) ds (inl h) = inl h
  Scheduled-append gid gen (c ∷ cs) ds (inr h) = inr (Scheduled-append gid gen cs ds h)

  Scheduled-last :
      (gid : G) (gen : ℕ) (cs : List (RemoteLeaderChanged G E)) (c : RemoteLeaderChanged G E)
      → (c.gid ≡ gid) × (c.lid.gen ≡ gen)
      → Scheduled gid gen (cs ++ c ∷ [])
  Scheduled-last gid gen [] c h = inl h
  Scheduled-last gid gen (d ∷ cs) c h = inr (Scheduled-last gid gen cs c h)

module _ {G E P : Type 0} where
  -- One buffer: empty, or of one leadership, whose change is scheduled.
  abbrev pub IsPending : G → List (RemoteLeaderChanged G E) → List (RemoteMessage G E P) → Type 0
  IsPending gid changes [] = Unit {0}
  IsPending gid changes (m ∷ ms) =
      OfGen gid m.from_lid.gen (m ∷ ms) × Scheduled gid m.from_lid.gen changes

  abbrev Entry : G → List (RemoteLeaderChanged G E) → Option (List (RemoteMessage G E P)) → Type 0
  Entry gid changes none = Unit {0}
  Entry gid changes (some ms) = IsPending gid changes ms

  Entry-later :
      (gid : G) (changes more : List (RemoteLeaderChanged G E))
      (e : Option (List (RemoteMessage G E P)))
      → Entry gid changes e
      → Entry gid (changes ++ more) e
  Entry-later gid changes more none h = tt
  Entry-later gid changes more (some []) h = tt
  Entry-later gid changes more (some (m ∷ ms)) h =
      (h.0, Scheduled-append gid m.from_lid.gen changes more h.1)

module _ {G E P : Type 0} ⦃o : Ord G⦄ where
  -- Every buffer of the driver is empty or pending.
  abbrev pub IsOrderly : List (RemoteLeaderChanged G E) → NetworkDriver G E P → Type 0
  IsOrderly changes d = (gid : G) → Entry gid changes (get gid d.network_buffer)

  put-IsOrderly :
      (changes : List (RemoteLeaderChanged G E)) (d : NetworkDriver G E P) (gid : G)
      (ms : List (RemoteMessage G E P))
      → IsPending gid changes ms
      → IsOrderly changes d
      → IsOrderly changes (record d { network_buffer = insert gid ms d.network_buffer })
  put-IsOrderly changes d gid ms h v j = elim (Bool-cases (gid == j)) [
    | inl same ↦
        let e : gid ≡ j = (o.same_iff gid j).0 same in
        rw (get-insert j gid ms d.network_buffer, same) (rw e at h)
    | inr other ↦ rw (get-insert j gid ms d.network_buffer, other) (v j)
  ]

  add_groups-IsOrderly :
      (changes : List (RemoteLeaderChanged G E)) (d : NetworkDriver G E P) (leaders : LeaderMap G E)
      → IsOrderly changes d
      → IsOrderly changes (record d { network_buffer = add_groups d.network_buffer leaders })
  unfolding add_groups
  add_groups-IsOrderly changes d [] v = v
  add_groups-IsOrderly changes d ((gid, lid) ∷ leaders) v =
      elim (Bool-cases (is_some (get gid d.network_buffer))) [
        | inl e ↦ rw e (add_groups-IsOrderly changes d leaders v)
        | inr e ↦ rw e (
            add_groups-IsOrderly changes
              (record d { network_buffer = insert gid [] d.network_buffer }) leaders
              (put-IsOrderly changes d gid [] tt v))
      ]

  remove_groups-IsOrderly :
      (changes : List (RemoteLeaderChanged G E)) (d : NetworkDriver G E P) (gids : List G)
      → IsOrderly changes d
      → IsOrderly changes (record d { network_buffer = remove_groups d.network_buffer gids })
  unfolding remove_groups
  remove_groups-IsOrderly changes d [] v = v
  remove_groups-IsOrderly changes d (gid ∷ gids) v =
      remove_groups-IsOrderly changes (record d { network_buffer = remove gid d.network_buffer })
        gids
        (λ j. elim (Bool-cases (gid == j)) [
          | inl same ↦ rw (get-remove j gid d.network_buffer, same) tt
          | inr other ↦ rw (get-remove j gid d.network_buffer, other) (v j)
        ])

  sync_groups-IsOrderly :
      (changes : List (RemoteLeaderChanged G E)) (d : NetworkDriver G E P)
      (leader_map : VersionedValue (LeaderMap G E))
      → IsOrderly changes d
      → IsOrderly changes (sync_groups d leader_map)
  unfolding sync_groups
  sync_groups-IsOrderly changes d leader_map v = elim (Bool-cases (ltb d.gen leader_map.gen)) [
    | inr e ↦ rw (e, sync_groups) v
    | inl e ↦
        rw (e, sync_groups)
          (remove_groups-IsOrderly changes
            (record d { network_buffer = add_groups d.network_buffer leader_map.value }) _
            (add_groups-IsOrderly changes d leader_map.value v))
  ]

  later-IsOrderly :
      (changes more : List (RemoteLeaderChanged G E)) (d : NetworkDriver G E P)
      → IsOrderly changes d
      → IsOrderly (changes ++ more) d
  later-IsOrderly changes more d v j = Entry-later j changes more (get j d.network_buffer) (v j)

  abbrev Kept : Received G E P → Type 0
  Kept r = IsOrderly r.changes r.driver

  sort_message-IsOrderly :
      (d : NetworkDriver G E P) (changes : List (RemoteLeaderChanged G E)) (m : RemoteMessage G E P)
      (buffer : List (RemoteMessage G E P)) (lid : Option (LeadershipId E))
      → IsPending m.from_gid changes buffer
      → IsOrderly changes d
      → Keeps Kept (sort_message d changes m buffer lid)
  unfolding sort_message
  sort_message-IsOrderly d changes m (first ∷ buffer) lid p v =
      elim (Bool-cases (ltb m.from_lid.gen first.from_lid.gen)) [
        | inl old ↦ rw old v
        | inr fresh ↦ elim (Bool-cases (eqb m.from_lid.gen first.from_lid.gen)) [
          | inl same ↦
              rw (fresh, same)
                (put-IsOrderly changes d m.from_gid _
                  (All-append _ (first ∷ buffer) (m ∷ []) p.0 ((refl, ground arith), tt), p.1) v)
          | inr newer ↦
              rw (fresh, newer)
                (put-IsOrderly (changes ++ change_of m ∷ []) d m.from_gid (m ∷ [])
                  (
                    ((refl, refl), tt),
                    Scheduled-last m.from_gid m.from_lid.gen changes (change_of m) (refl, refl),
                  )
                  (later-IsOrderly changes (change_of m ∷ []) d v))
        ]
      ]
  sort_message-IsOrderly d changes m [] none p v = tt
  sort_message-IsOrderly d changes m [] (some cur) p v =
      elim (Bool-cases (ltb m.from_lid.gen cur.gen)) [
        | inl old ↦ rw old v
        | inr fresh ↦ elim (Bool-cases (eqb m.from_lid.gen cur.gen)) [
          | inl same ↦ rw (fresh, same) v
          | inr newer ↦
              rw (fresh, newer)
                (put-IsOrderly (changes ++ change_of m ∷ []) d m.from_gid (m ∷ [])
                  (
                    ((refl, refl), tt),
                    Scheduled-last m.from_gid m.from_lid.gen changes (change_of m) (refl, refl),
                  )
                  (later-IsOrderly changes (change_of m ∷ []) d v))
        ]
      ]

  -- Receiving a message keeps every buffer empty, or full of messages of one leadership whose
  -- `RemoteLeaderChanged` is scheduled, also where the leader map has new groups or has lost some.
  pub receive-IsOrderly :
      (this_gid : G) (leader_map : VersionedValue (LeaderMap G E))
      (changes : List (RemoteLeaderChanged G E)) (d : NetworkDriver G E P) (m : RemoteMessage G E P)
      → IsOrderly changes d
      → Keeps (λ r. IsOrderly r.changes r.driver) (receive this_gid leader_map changes d m)
  unfolding receive
  receive-IsOrderly this_gid leader_map changes d m v =
      let d' = sync_groups d leader_map in
      let v' = sync_groups-IsOrderly changes d leader_map v in
      elim (Option-cases (get this_gid leader_map.value)) [
        | inl e ↦ rw (e, receive) tt
        | inr (this_lid, e) ↦ elim (Bool-cases (ltb m.to_lid.gen this_lid.gen)) [
          | inl stale ↦ rw (e, receive, stale) v'
          | inr current ↦ elim (Option-cases (get m.from_gid d'.network_buffer)) [
            | inl e' ↦ rw (e, receive, current, e') tt
            | inr (buffer, e') ↦
                rw (e, receive, current, e')
                  (sort_message-IsOrderly d' changes m buffer _
                    (let w : Entry m.from_gid changes (get m.from_gid d'.network_buffer) =
                        v' m.from_gid in
                      rw e' at w)
                    v')
          ]
        ]
      ]
