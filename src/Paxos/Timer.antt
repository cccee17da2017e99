-- ===== src/Paxos/Timer.antt =====
-- src/paxos.rs: insertion of bundles and the timer events of a `PaxosDriver`. What the source draws
-- from `ctx.rand()` is an argument: `uuid` of `mk_uuid`, and `draw` of `next_u32`.
use r_universal_db.Base.{
  ℕ, zero, suc, ◌+◌, ◌-◌, ◌&&◌, none, some, List, [], ◌∷◌, ◌++◌, ltb, eqb, if◌then◌else◌, is_none,
  Ord, nat_ord, Result, ok, panic, ◌>>=◌, unwrap, add_u32,
}
use r_universal_db.BTreeMap.{BTreeMap, get, insert}
use r_universal_db.Paxos.Message.{
  PlEntry, leader_changed, prepare, multi_paxos, is_leader_msg, inform_learned, next_index_request,
}
use r_universal_db.Paxos.State.{
  PaxosDriver, UserPlEntry, convert, Effect, send, defer, Step, PaxosTimerEvent, retry_insert_event,
  leader_heartbeat_event, next_index_event, quiet,
}
use r_universal_db.Paxos.Instance.{open_round}
use r_universal_db.Paxos.Deliver.{with_instance, learned_unwrap}
use r_universal_db.Paxos.Group.{is_leader}
use r_universal_db.Paxos.Multi.{broadcast, put_instance}

module _ {E B : Type 0} ⦃o : Ord E⦄ (this_eid : E) where
  -- `% 0` panics.
  unfoldable pub propose_next_index : ℕ → PaxosDriver E B → PlEntry E B → Result (Step E B)
  propose_next_index draw d entry =
      let index = d.next_index in
      let e = with_instance (get index d.paxos_instances) in
      do
        i ← unwrap e.instance_state
        let (proposer, next_rnd) =
            open_round draw d.paxos_config.proposal_increment i.proposer_state entry
        if eqb d.paxos_config.proposal_increment 0
            then panic
            else ok (record {
              driver = put_instance d index e (record i { proposer_state = proposer });
              effects = broadcast d.paxos_nodes (
                  multi_paxos (record {
                    sender_eid = this_eid;
                    paxos_nodes = d.paxos_nodes;
                    index = index;
                    paxos_message = prepare next_rnd;
                  }));
              entries = [];
            })

  abbrev pub add_effects : List (Effect E B) → Step E B → List (Effect E B) → Step E B
  add_effects first s last = record s { effects = first ++ s.effects ++ last }

  unfoldable pub insert_bundle : ℕ → ℕ → PaxosDriver E B → UserPlEntry E B → Result (Step E B)
  insert_bundle uuid draw d user_entry =
      if is_leader this_eid d && is_none d.next_insert
      then (do
        s ←
            propose_next_index draw (record d { next_insert = some (uuid, user_entry) })
              (convert user_entry)
        ok (
            add_effects (defer d.paxos_config.retry_defer_time_ms (retry_insert_event uuid) ∷ []) s
              []))
      else ok (quiet d)

  unfoldable pub retry_insert : ℕ → ℕ → PaxosDriver E B → Result (Step E B)
  retry_insert uuid draw d = elim d.next_insert [
    | none ↦ ok (quiet d)
    | some (cur_uuid, user_entry) ↦
        if eqb cur_uuid uuid
        then (do
          s ← propose_next_index draw d (convert user_entry)
          ok (
              add_effects (defer d.paxos_config.retry_defer_time_ms (retry_insert_event uuid) ∷ [])
                s []))
        else ok (quiet d)
  ]

  -- `for index in lo..`, over `n` indices: the learned rounds of an `InformLearned`.
  unfoldable pub rounds_range : PaxosDriver E B → ℕ → ℕ → BTreeMap ℕ ℕ → Result (BTreeMap ℕ ℕ)
  rounds_range d zero lo should_learned = ok should_learned
  rounds_range d (suc n) lo should_learned = do
    (vrnd, _) ← learned_unwrap d lo
    rounds_range d n (lo + 1) (insert lo vrnd should_learned)

  -- The loop over the nodes of `broadcast_inform_learned`.
  unfoldable pub inform_nodes : PaxosDriver E B → List E → Result (List (Effect E B))
  inform_nodes d [] = ok []
  inform_nodes d (eid ∷ nodes) = do
    from ← unwrap (get eid d.remote_next_indices)
    should_learned ← rounds_range d (d.next_index - from) from []
    rest ← inform_nodes d nodes
    ok (send eid (inform_learned this_eid should_learned) ∷ rest)

  unfoldable pub broadcast_inform_learned : PaxosDriver E B → Result (List (Effect E B))
  broadcast_inform_learned d = inform_nodes d d.paxos_nodes

  -- The election of a node that counted too many silent periods, and then `InformLearned`.
  unfoldable pub stand_for_leader : ℕ → PaxosDriver E B → Result (Step E B)
  stand_for_leader draw d =
      if ltb d.paxos_config.heartbeat_threshold d.leader_heartbeat
      then (do
        s ←
            propose_next_index draw d
              (leader_changed (record { gen = d.leader.gen + 1; eid = this_eid }))
        informs ← broadcast_inform_learned s.driver
        ok (add_effects [] s informs))
      else ok (quiet d)

  unfoldable pub leader_heartbeat : ℕ → PaxosDriver E B → Result (Step E B)
  leader_heartbeat draw d =
      let again : List (Effect E B) =
        defer d.paxos_config.heartbeat_period_ms leader_heartbeat_event ∷ [] in
      if is_leader this_eid d
      then (do
        informs ← broadcast_inform_learned d
        ok (record {
          driver = d;
          effects = broadcast d.paxos_nodes (is_leader_msg d.leader) ++ (informs ++ again);
          entries = [];
        }))
      else (do
        s ← stand_for_leader draw (record d { leader_heartbeat = add_u32 d.leader_heartbeat 1 })
        ok (add_effects [] s again))

  unfoldable pub next_index_timer : PaxosDriver E B → Step E B
  next_index_timer d = record {
    driver = d;
    effects =
        broadcast d.paxos_nodes (next_index_request this_eid)
        ++ defer d.paxos_config.next_index_period_ms next_index_event ∷ [];
    entries = [];
  }

  unfoldable pub timer_event : ℕ → PaxosDriver E B → PaxosTimerEvent → Result (Step E B)
  timer_event draw d (retry_insert_event uuid) = retry_insert uuid draw d
  timer_event draw d leader_heartbeat_event = leader_heartbeat draw d
  timer_event draw d next_index_event = ok (next_index_timer d)
