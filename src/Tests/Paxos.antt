-- ===== src/Tests/Paxos.antt =====
-- The theorems on a Paxos node at a group of three nodes, 1, 2 and 3, seen from node 1.
use r_universal_db.Base.{
  ◌+◌, ◌*◌, ◌<◌, length, ℕ, ltb, if◌then◌else◌, false, ◌≤◌, ◌≡◌, Bool-cases, inl, inr, eqb, refl,
  ◌⊎◌, none, some, List, [], ◌∷◌, ◌++◌, All, nat_ord, arith, ok, Keeps,
}
use r_universal_db.BTreeMap.{get}
use r_universal_db.Paxos.Message.{
  Vote, bundle_entry, log_sync_request, log_sync_response, next_index_response, PaxosDriverMessage,
}
use r_universal_db.Paxos.State.{send, PaxosDriver, PaxosConfig, AcceptorState, LearnerState, quiet}
use r_universal_db.Paxos.Instance.{handle_prepare, handle_learn, choose_cval, max_vote}
use r_universal_db.Paxos.Instance.Acceptor.{
  prepares, accepts, serve_all, IsPast, serve_all-IsPast, promise_once, promise_keeps,
}
use r_universal_db.Paxos.Instance.Proposer.{
  UpTo, OneOf, max_vote_lem, promises_all, promises_all_lem, silent,
}
use r_universal_db.Paxos.Instance.Learner.{tally, IsLowest, handle_learn-IsLowest}
use r_universal_db.Paxos.Deliver.{learned_at, deliver_learned_entries}
use r_universal_db.Paxos.Group.{
  contains, get_maybe_dead, maybe_dead_loop, max_reconfig_size, strict_minority, paxos_group_size,
  create_reconfig, has_unsent_unconfirmed, mk_start_new_node,
}
use r_universal_db.Paxos.Group.Dead.{get_maybe_dead_lem}
use r_universal_db.Paxos.Group.Handover.{create_reconfig-mk_start_new_node}
use r_universal_db.Paxos.Handler.{handle_paxos_message, handle_paxos_message_internal}
use r_universal_db.Paxos.Log.{Advances}
use r_universal_db.Paxos.Log.Deliver.{Delivers, deliver_learned_entries_lem}
use r_universal_db.Paxos.Log.Buffer.{IsDrained}
use r_universal_db.Paxos.Log.Handler.{IsSettled, handle_paxos_message-Settles}
use r_universal_db.Paxos.Log.CatchUp.{IsFull, Quotes, catch_up, handle_paxos_message-IsFull}
use r_universal_db.Paxos.Log.Purge.{Purges, next_index_response_lem}

abbrev config : PaxosConfig
config = record {
  heartbeat_threshold = 5;
  heartbeat_period_ms = 1000;
  next_index_period_ms = 1000;
  retry_defer_time_ms = 1000;
  proposal_increment = 1000;
  remote_next_index_thresh = 100;
  max_failable = 1;
}

-- The entry at index 0 is learned and delivered; index 1 is open.
abbrev node : PaxosDriver ℕ ℕ
node = record {
  paxos_config = config;
  paxos_nodes = 1 ∷ 2 ∷ 3 ∷ [];
  remote_next_indices = (1, 1) ∷ (2, 1) ∷ (3, 0) ∷ [];
  next_index = 1;
  paxos_instances =
      (0, record { instance_state = none; learned_rnd_val = some (4, bundle_entry 50) }) ∷ [];
  buffered_messages = [];
  leader = record { gen = 0; eid = 1 };
  leader_heartbeat = 0;
  unconfirmed_eids = [];
  next_insert = none;
}

-- The same with values for the indices 1 and 2, which are not delivered yet.
abbrev behind : PaxosDriver ℕ ℕ
behind = record node {
  paxos_instances =
      (0, record { instance_state = none; learned_rnd_val = some (4, bundle_entry 50) })
      ∷ (1, record { instance_state = none; learned_rnd_val = some (4, bundle_entry 51) })
      ∷ (2, record { instance_state = none; learned_rnd_val = some (6, bundle_entry 52) })
      ∷ [];
}

node-IsSettled : IsSettled node
unfolding learned_at get
node-IsSettled = record { ready = refl; buffer = record { sorted = tt; filed = tt } }

-- The values for the indices 1 and 2.
abbrev sync : PaxosDriverMessage ℕ ℕ
sync = log_sync_response ((2, 6, bundle_entry 52) ∷ (1, 4, bundle_entry 51) ∷ [])

handle_paxos_message-Settles_example :
    Keeps
      (λ s. Advances node s.driver s.entries × IsSettled s.driver × IsDrained s.driver)
      (handle_paxos_message 1 node sync)
handle_paxos_message-Settles_example =
    handle_paxos_message-Settles 1 node sync node-IsSettled (λ responder next e. cc)

deliver_learned_entries_example :
    (d' : PaxosDriver ℕ ℕ) × (es : List _) × (deliver_learned_entries behind ≡ ok (d', es))
    × Delivers behind d' es
deliver_learned_entries_example = deliver_learned_entries_lem behind

next_index_response_example :
    (d' : PaxosDriver ℕ ℕ) × (handle_paxos_message_internal 1 node (next_index_response 3 1)
      ≡ ok (quiet d'))
    × Purges node d' 3 0 1
    × IsSettled d'
unfolding get
next_index_response_example = next_index_response_lem 1 node 3 0 1 node-IsSettled refl

-- A vote in round 2, in round 5 by now.
abbrev voter : AcceptorState ℕ
voter = record { rnd = 5; vrnd_vval = some (2, 40) }

serve_all-IsPast_example : IsPast (serve_all voter (prepares 6 ∷ accepts 7 41 ∷ []))
serve_all-IsPast_example =
    serve_all-IsPast voter (prepares 6 ∷ accepts 7 41 ∷ []) (λ v e. ground arith)

promise_once_example :
    (handle_prepare (serve_all (handle_prepare voter 6).0 (accepts 7 41 ∷ [])) 6).1 ≡ none
unfolding handle_prepare
promise_once_example = promise_once voter 6 6 (some (2, 40)) (accepts 7 41 ∷ []) refl (omega arith)

promise_keeps_example :
    let later = serve_all (handle_prepare voter 6).0 (accepts 7 41 ∷ []) in
    (some (2, 40) ≡ voter.vrnd_vval)
    × ((later.vrnd_vval ≡ some (2, 40)) ⊎ ((v : ℕ × ℕ) × (later.vrnd_vval ≡ some v) × (6 ≤ v.0)))
unfolding handle_prepare
promise_keeps_example = promise_keeps voter 6 (some (2, 40)) (accepts 7 41 ∷ []) refl

abbrev votes : List (Vote ℕ)
votes = none ∷ some (2, 40) ∷ some (4, 41) ∷ some (3, 42) ∷ []

max_vote_example :
    All (UpTo (max_vote none votes)) votes
    × ((max_vote none votes ≡ none) ⊎ OneOf (max_vote none votes) votes)
max_vote_example = max_vote_lem votes

promises_all_example :
    promises_all 2
      (record { crnd = 9; cval = 30; promises = [] })
      ((none ∷ []) ++ some (2, 40) ∷ none ∷ [])
    ≡ silent {T = ℕ} (none ∷ [])
      ++ some (9, choose_cval (max_vote none ((none ∷ []) ++ some (2, 40) ∷ [])) 30)
        ∷ silent {T = ℕ} (none ∷ [])
promises_all_example = promises_all_lem 2 9 30 (none ∷ []) (none ∷ []) (some (2, 40)) (omega arith)

-- Two nodes voted in round 4, one in round 6.
abbrev tallied : LearnerState
tallied = record { learned = (4, 2) ∷ (6, 1) ∷ []; learned_vrnd = some 4 }

tallied-IsLowest : IsLowest 2 (tally tallied) (some 4)
unfolding get
tallied-IsLowest = (omega arith, λ r h. ground arith)

handle_learn-IsLowest_example :
    let st' = (handle_learn 2 tallied 6).0 in IsLowest 2 (tally st') st'.learned_vrnd
unfolding get
handle_learn-IsLowest_example =
    handle_learn-IsLowest 2 tallied 6 (omega arith) (omega arith) tallied-IsLowest

-- Node 4 is new, and a value is learned ahead of `next_index`.
abbrev sender : PaxosDriver ℕ ℕ
sender = record node {
  paxos_instances =
      (0, record { instance_state = none; learned_rnd_val = some (4, bundle_entry 50) })
      ∷ (2, record { instance_state = none; learned_rnd_val = some (6, bundle_entry 52) })
      ∷ [];
  unconfirmed_eids = (4, false) ∷ [];
}

create_reconfig-mk_start_new_node_example :
    Keeps
      (λ r.
        let made = (create_reconfig 4 r.1 config).driver in
        (made.paxos_nodes ≡ sender.paxos_nodes)
        × (made.leader ≡ sender.leader)
        × (made.next_index ≡ sender.next_index)
        × ((i : ℕ)
            → learned_at made.paxos_instances i
              ≡ (if ltb i sender.next_index then learned_at sender.paxos_instances i else none))
        × (r.0.paxos_instances ≡ sender.paxos_instances)
        × (has_unsent_unconfirmed r.0 ≡ false))
      (mk_start_new_node 1 sender)
create_reconfig-mk_start_new_node_example =
    create_reconfig-mk_start_new_node 1 4 config sender ((refl, tt), (tt, tt))

-- All three values are learned, and delivered.
abbrev complete : PaxosDriver ℕ ℕ
complete = record behind { next_index = 3 }

behind-IsFull : IsFull 1 3 behind.paxos_instances
unfolding learned_at get
behind-IsFull i h k = elim (Bool-cases (eqb i 1)) [
  | inl e ↦ let same : i ≡ 1 = ground arith in ((4, bundle_entry 51), rw same refl)
  | inr e ↦ let same : i ≡ 2 = ground arith in ((6, bundle_entry 52), rw same refl)
]

catch_up_example :
    (ls : List _) × (handle_paxos_message_internal 2 complete (log_sync_request 1 1)
      ≡ ok (record {
        driver = complete;
        effects = send 1 (log_sync_response ls) ∷ [];
        entries = [];
      }))
    × Quotes complete.paxos_instances 1 ls
    × Keeps
        (λ s. (3 ≤ s.driver.next_index) × Advances node s.driver s.entries)
        (handle_paxos_message_internal 1 node (log_sync_response ls))
catch_up_example = catch_up 2 1 complete node behind-IsFull (omega arith) node-IsSettled

node-IsFull : IsFull 0 1 node.paxos_instances
unfolding learned_at get
node-IsFull i h k = let same : i ≡ 0 = omega arith in ((4, bundle_entry 50), rw same refl)

handle_paxos_message-IsFull_example :
    Keeps
      (λ s. IsFull 0 s.driver.next_index s.driver.paxos_instances)
      (handle_paxos_message 1 node sync)
handle_paxos_message-IsFull_example =
    handle_paxos_message-IsFull 1 0 node sync node-IsSettled node-IsFull (λ responder next e. cc)

-- Five nodes, of which 3 is 490 indices behind.
abbrev lagging : PaxosDriver ℕ ℕ
lagging = record node {
  paxos_nodes = 1 ∷ 2 ∷ 3 ∷ 4 ∷ 5 ∷ [];
  remote_next_indices = (1, 500) ∷ (2, 499) ∷ (3, 10) ∷ (4, 500) ∷ (5, 500) ∷ [];
  next_index = 500;
}

get_maybe_dead_example :
    (contains (get_maybe_dead lagging 1) 1 ≡ false)
    × ((length (get_maybe_dead lagging 1) ≡ 0) ⊎ (2 * (length (get_maybe_dead lagging 1) + 1) < 5))
get_maybe_dead_example = get_maybe_dead_lem lagging 1 (omega arith) (omega arith)

lagging_is_named : get_maybe_dead lagging 1 ≡ 3 ∷ []
unfolding get_maybe_dead maybe_dead_loop max_reconfig_size strict_minority paxos_group_size
lagging_is_named = refl
