-- ===== src/Paxos/Handler.antt =====
-- src/paxos.rs: the message handlers and the buffer of a `PaxosDriver`.
use r_universal_db.Base.{
  ℕ, zero, suc, ◌+◌, ◌-◌, max, true, false, Option, none, some, List, [], ◌∷◌, ◌++◌, leb,
  if◌then◌else◌, is_none, length, Ord, nat_ord, Result, ok, out_of_fuel, ◌>>=◌, unwrap,
}
use r_universal_db.BTreeMap.{BTreeMap, get, insert, remove}
use r_universal_db.Paxos.Message.{
  lid_eq, PlEntry, Vote, MultiPaxosMessage, PaxosDriverMessage, multi_paxos, is_leader_msg,
  inform_learned, log_sync_request, log_sync_response, next_index_request, next_index_response,
  start_new_node, new_node_started,
}
use r_universal_db.Paxos.State.{InstanceEntry, PaxosDriver, send, Step, quiet}
use r_universal_db.Paxos.Multi.{handle_multi}
use r_universal_db.Paxos.Instance.{learned_by_votes}
use r_universal_db.Paxos.Deliver.{
  key_bound, min_complete_index, deliver_learned_entries, learned_unwrap, purge,
}

module _ {E B : Type 0} where
  -- One more than what is buffered: each round of the loop takes a message or an empty queue.
  unfoldable pub buffered_size : BTreeMap ℕ (List (MultiPaxosMessage E B)) → ℕ
  buffered_size [] = 1
  buffered_size ((index, messages) ∷ m) = suc (length messages) + buffered_size m

  abbrev pub after : Step E B → Step E B → Step E B
  after s t = record {
    driver = t.driver;
    effects = s.effects ++ t.effects;
    entries = s.entries ++ t.entries;
  }

  -- `learned_rnd <= vrnd` for the accepted vote at `next_index`: the value that it confirms.
  unfoldable pub confirmed_vote : Option (InstanceEntry (PlEntry E B)) → ℕ → Vote (PlEntry E B)
  confirmed_vote none rnd = none
  confirmed_vote (some e) rnd = elim e.instance_state [
    | none ↦ none
    | some i ↦ learned_by_votes (some rnd) i.acceptor_state.vrnd_vval
  ]

  -- The write of `learned_rnd_val` at an index; an entry without one is made.
  unfoldable pub set_learned :
      Option (InstanceEntry (PlEntry E B)) → ℕ × PlEntry E B → InstanceEntry (PlEntry E B)
  set_learned none rnd_val = record { instance_state = none; learned_rnd_val = some rnd_val }
  set_learned (some e) rnd_val = record e { learned_rnd_val = some rnd_val }

  -- An entry keeps the value that it has learned.
  unfoldable pub learn_once :
      Option (InstanceEntry (PlEntry E B)) → ℕ × PlEntry E B → InstanceEntry (PlEntry E B)
  learn_once none rnd_val = set_learned none rnd_val
  learn_once (some e) rnd_val =
      if is_none e.learned_rnd_val then set_learned (some e) rnd_val else e

module _ {E B : Type 0} ⦃o : Ord E⦄ (this_eid : E) where
  -- The loop of `handle_buffered_messages`, which adds to what `s` holds.
  unfoldable pub buffered_loop : ℕ → Step E B → Result (Step E B)
  buffered_loop zero s = out_of_fuel
  buffered_loop (suc fuel) s = elim s.driver.buffered_messages [
    | [] ↦ ok s
    | (index, messages) ∷ m ↦ elim (leb index s.driver.next_index) [
      | false ↦ ok s
      | true ↦ elim messages [
        | [] ↦
            buffered_loop fuel (record s { driver = record (s.driver) { buffered_messages = m } })
        | multi ∷ rest ↦
            handle_multi this_eid (record (s.driver) { buffered_messages = (index, rest) ∷ m })
              multi
            >>= λ t. buffered_loop fuel (after s t)
      ]
    ]
  ]

  unfoldable pub handle_buffered_messages : Step E B → Result (Step E B)
  handle_buffered_messages s = buffered_loop (buffered_size s.driver.buffered_messages) s

  -- The body of the loop of `InformLearned` after the buffer was polled; `again` is `continue`.
  unfoldable pub inform_step :
      E → BTreeMap ℕ ℕ → Step E B → (Step E B → Result (Step E B)) → Result (Step E B)
  inform_step sender should_learned t again = elim (get t.driver.next_index should_learned) [
    | none ↦ ok t
    | some learned_rnd ↦
        elim (confirmed_vote (get t.driver.next_index t.driver.paxos_instances) learned_rnd) [
          | none ↦ ok (record t {
            effects = t.effects ++ send sender (log_sync_request this_eid t.driver.next_index) ∷ [];
          })
          | some rnd_val ↦
              deliver_learned_entries (record (t.driver) {
                paxos_instances =
                    insert t.driver.next_index
                      (set_learned (get t.driver.next_index t.driver.paxos_instances) rnd_val)
                      t.driver.paxos_instances;
              })
              >>= λ r. again (record t { driver = r.0; entries = t.entries ++ r.1 })
        ]
  ]

  -- The loop of `InformLearned`.
  unfoldable pub inform_loop : ℕ → E → BTreeMap ℕ ℕ → Step E B → Result (Step E B)
  inform_loop zero sender should_learned s = out_of_fuel
  inform_loop (suc fuel) sender should_learned s = handle_buffered_messages s >>= λ t.
      inform_step sender should_learned t (inform_loop fuel sender should_learned)

  -- `for index in lo..` over `n` indices: the learned values that `LogSyncResponse` carries.
  unfoldable pub learned_range : PaxosDriver E B → ℕ → ℕ → Result (List (ℕ × ℕ × PlEntry E B))
  learned_range d zero lo = ok []
  learned_range d (suc n) lo = do
    (vrnd, vval) ← learned_unwrap d lo
    rest ← learned_range d n (lo + 1)
    ok ((lo, vrnd, vval) ∷ rest)

  -- One entry of a `LogSyncResponse`.
  unfoldable pub sync_entry : PaxosDriver E B → ℕ × ℕ × PlEntry E B → PaxosDriver E B
  sync_entry d (index, vrnd, vval) =
      if leb d.next_index index
      then record d {
        paxos_instances =
            insert index (learn_once (get index d.paxos_instances) (vrnd, vval)) d.paxos_instances;
      }
      else d

  unfoldable pub sync_entries : PaxosDriver E B → List (ℕ × ℕ × PlEntry E B) → PaxosDriver E B
  sync_entries d [] = d
  sync_entries d (l ∷ ls) = sync_entries (sync_entry d l) ls

  unfoldable pub handle_paxos_message_internal :
      PaxosDriver E B → PaxosDriverMessage E B → Result (Step E B)
  handle_paxos_message_internal d (multi_paxos multi) = handle_multi this_eid d multi
  handle_paxos_message_internal d (is_leader_msg lid) =
      ok (quiet (if lid_eq lid d.leader then record d { leader_heartbeat = 0 } else d))
  handle_paxos_message_internal d (inform_learned sender should_learned) =
      inform_loop (suc (key_bound should_learned - d.next_index)) sender should_learned (quiet d)
  handle_paxos_message_internal d (log_sync_request sender from) = do
    learned ← learned_range d (d.next_index - from) from
    ok (record { driver = d; effects = send sender (log_sync_response learned) ∷ []; entries = [] })
  handle_paxos_message_internal d (log_sync_response learned) = do
    (d', entries) ← deliver_learned_entries (sync_entries d learned)
    handle_buffered_messages (record { driver = d'; effects = []; entries = entries })
  handle_paxos_message_internal d (next_index_request sender) = ok (record {
    driver = d;
    effects = send sender (next_index_response this_eid d.next_index) ∷ [];
    entries = [];
  })
  handle_paxos_message_internal d (next_index_response responder next) = do
    cur ← unwrap (get responder d.remote_next_indices)
    let d' : PaxosDriver E B = record d {
      remote_next_indices = insert responder (max cur next) d.remote_next_indices;
    }
    ok (quiet (purge (min_complete_index d' - min_complete_index d) (min_complete_index d) d'))
  handle_paxos_message_internal d (start_new_node start) = ok (record {
    driver = d;
    effects = send start.sender_eid (new_node_started this_eid) ∷ [];
    entries = [];
  })
  handle_paxos_message_internal d (new_node_started node) =
      ok (quiet (record d { unconfirmed_eids = remove node d.unconfirmed_eids }))

  unfoldable pub handle_paxos_message : PaxosDriver E B → PaxosDriverMessage E B → Result (Step E B)
  handle_paxos_message d message = do
    s ← handle_paxos_message_internal d message
    handle_buffered_messages s
