-- ===== src/Paxos/Multi.antt =====
-- src/paxos.rs: the handling of a `MultiPaxosMessage` by a `PaxosDriver`.
use r_universal_db.Base.{
  ℕ, Bool, true, false, not, ◌&&◌, none, some, List, [], ◌∷◌, ◌++◌, map, ltb, leb, if◌then◌else◌,
  Ord, nat_ord, ◌==◌, Result, ok, ◌>>=◌, unwrap,
}
use r_universal_db.BTreeMap.{BTreeMap, get, insert}
use r_universal_db.Paxos.Message.{
  PlEntry, PaxosMessage, prepare, promise, accept, learn, Vote, MultiPaxosMessage,
  PaxosDriverMessage, multi_paxos,
}
use r_universal_db.Paxos.State.{
  PaxosInstance, InstanceEntry, PaxosDriver, Effect, send, Step, quiet,
}
use r_universal_db.Paxos.Instance.{
  majority, handle_prepare, handle_promise, handle_accept, learned_by_accept, handle_learn,
  learned_by_votes,
}
use r_universal_db.Paxos.Deliver.{min_complete_index, with_instance, deliver_learned_entries}

module _ {E B : Type 0} where
  -- `for eid in &self.paxos_nodes { ctx.send(eid, message) }`
  unfoldable pub broadcast : List E → PaxosDriverMessage E B → List (Effect E B)
  broadcast nodes message = map (λ eid. send eid message) nodes

  -- A reply or broadcast about the instance of `multi`.
  abbrev pub about : E → MultiPaxosMessage E B → PaxosMessage (PlEntry E B) → PaxosDriverMessage E B
  about this_eid multi message = multi_paxos (record {
    sender_eid = this_eid;
    paxos_nodes = multi.paxos_nodes;
    index = multi.index;
    paxos_message = message;
  })

  abbrev pub is_prepare : PaxosMessage (PlEntry E B) → Bool
  is_prepare (prepare crnd) = true
  is_prepare (promise rnd vote) = false
  is_prepare (accept crnd cval) = false
  is_prepare (learn vrnd) = false

  -- `push_back` on the queue of an index, which is made if it is missing.
  unfoldable pub buffer :
      MultiPaxosMessage E B
      → BTreeMap ℕ (List (MultiPaxosMessage E B))
      → BTreeMap ℕ (List (MultiPaxosMessage E B))
  buffer multi m = elim (get multi.index m) [
    | some messages ↦ insert multi.index (messages ++ multi ∷ []) m
    | none ↦ insert multi.index (multi ∷ []) m
  ]

  abbrev pub put_instance :
      PaxosDriver E B
      → ℕ
      → InstanceEntry (PlEntry E B)
      → PaxosInstance (PlEntry E B)
      → PaxosDriver E B
  put_instance d index e i = record d {
    paxos_instances = insert index (record e { instance_state = some i }) d.paxos_instances;
  }

-- A `Prepare` from another node than the leader is dropped while the leader seems alive.
abbrev pub is_spurious : {E B : Type 0} ⦃o : Ord E⦄ → PaxosDriver E B → MultiPaxosMessage E B → Bool
is_spurious d multi =
    is_prepare multi.paxos_message
    && (not (multi.sender_eid == d.leader.eid)
        && leb d.leader_heartbeat d.paxos_config.heartbeat_threshold)

module _ {E B : Type 0} ⦃o : Ord E⦄ (this_eid : E) where
  -- A learned value that was found is put into the entry, and what can be delivered is.
  unfoldable pub learn_value :
      PaxosDriver E B
      → ℕ
      → InstanceEntry (PlEntry E B)
      → Vote (PlEntry E B)
      → List (Effect E B)
      → Result (Step E B)
  learn_value d index e none effects = ok (record { driver = d; effects = effects; entries = [] })
  learn_value d index e (some rnd_val) effects = elim e.learned_rnd_val [
    | some _ ↦ ok (record { driver = d; effects = effects; entries = [] })
    | none ↦ do
      (d', entries) ← deliver_learned_entries (record d {
        paxos_instances =
            insert index (record e { learned_rnd_val = some rnd_val }) d.paxos_instances;
      })
      ok (record { driver = d'; effects = effects; entries = entries })
  ]

  -- The match on the `PaxosMessage`, for the entry and the instance at its index.
  unfoldable pub on_instance :
      PaxosDriver E B
      → MultiPaxosMessage E B
      → InstanceEntry (PlEntry E B)
      → PaxosInstance (PlEntry E B)
      → PaxosMessage (PlEntry E B)
      → Result (Step E B)
  on_instance d multi e i (prepare crnd) =
      let (state, reply) = handle_prepare i.acceptor_state crnd in
      ok (record {
        driver = put_instance d multi.index e (record i { acceptor_state = state });
        effects = elim reply [
          | none ↦ []
          | some vote ↦ send multi.sender_eid (about this_eid multi (promise state.rnd vote)) ∷ []
        ];
        entries = [];
      })
  on_instance d multi e i (promise rnd vote) = do
    proposal ← unwrap (get rnd i.proposer_state.proposals)
    let (proposal', chosen) = handle_promise (majority d.paxos_nodes) proposal vote
    let proposer = record (i.proposer_state) {
      proposals = insert rnd proposal' i.proposer_state.proposals;
    }
    ok (record {
      driver = put_instance d multi.index e (record i { proposer_state = proposer });
      effects = elim chosen [
        | none ↦ []
        | some (crnd, cval) ↦ broadcast d.paxos_nodes (about this_eid multi (accept crnd cval))
      ];
      entries = [];
    })
  on_instance d multi e i (accept crnd cval) =
      let (state, voted) = handle_accept i.acceptor_state crnd cval in
      let i' : PaxosInstance (PlEntry E B) = record i { acceptor_state = state } in
      let d' = put_instance d multi.index e i' in
      if voted
      then learn_value d' multi.index (record e { instance_state = some i' })
          (learned_by_accept i.learner_state.learned_vrnd crnd cval)
          (broadcast d.paxos_nodes (about this_eid multi (learn crnd)))
      else ok (quiet d')
  on_instance d multi e i (learn vrnd) =
      let (state, reached) = handle_learn (majority d.paxos_nodes) i.learner_state vrnd in
      let i' : PaxosInstance (PlEntry E B) = record i { learner_state = state } in
      let d' = put_instance d multi.index e i' in
      if reached
      then learn_value d' multi.index (record e { instance_state = some i' })
          (learned_by_votes state.learned_vrnd i.acceptor_state.vrnd_vval) []
      else ok (quiet d')

  -- The arm for a `MultiPaxosMessage` of `handle_paxos_message_internal`.
  unfoldable pub handle_multi : PaxosDriver E B → MultiPaxosMessage E B → Result (Step E B)
  handle_multi d multi =
      if is_spurious d multi
      then ok (quiet d)
      else if ltb multi.index (min_complete_index d)
      then ok (quiet d)
      else if ltb d.next_index multi.index
      then ok (quiet (record d { buffered_messages = buffer multi d.buffered_messages }))
      else (let e = with_instance (get multi.index d.paxos_instances) in
          do i ← unwrap e.instance_state; on_instance d multi e i multi.paxos_message)
