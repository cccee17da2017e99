-- ===== src/Paxos/Deliver.antt =====
-- src/paxos.rs: the utilities of a `PaxosDriver` on its instances, and `deliver_learned_entries`,
-- which moves `next_index` over what has been learned.
use mathlib.Core.List.{foldl}
use r_universal_db.Base.{
  ℕ, zero, suc, ◌+◌, ◌-◌, max, min, false, Option, none, some, List, [], ◌∷◌, ◌++◌, if◌then◌else◌,
  Ord, nat_ord, ◌==◌, Result, ok, out_of_fuel, ◌>>=◌, unwrap,
}
use r_universal_db.BTreeMap.{BTreeMap, get, insert, remove}
use r_universal_db.Paxos.Message.{Vote, PlEntry, bundle_entry, reconfig_bundle, leader_changed}
use r_universal_db.Paxos.State.{PaxosDriver, InstanceEntry, new_instance}

-- One more than the largest key.
unfoldable pub key_bound : {V : Type 0} → BTreeMap ℕ V → ℕ
key_bound [] = 0
key_bound ((k, v) ∷ m) = max (k + 1) (key_bound m)

-- `common.rs`: drops the first item that is equal.
unfoldable pub remove_item : {A : Type 0} ⦃o : Ord A⦄ → List A → A → List A
remove_item [] item = []
remove_item (x ∷ xs) item = if x == item then xs else x ∷ remove_item xs item

-- The loop of `min_complete_index`.
unfoldable pub min_index_loop : {E : Type 0} → ℕ → BTreeMap E ℕ → ℕ
min_index_loop min_index [] = min_index
min_index_loop min_index ((eid, remote_index) ∷ m) = min_index_loop (min min_index remote_index) m

-- The learned value at an index, if there is one.
unfoldable pub learned_at : {T : Type 0} → BTreeMap ℕ (InstanceEntry T) → ℕ → Vote T
learned_at instances index = elim (get index instances) [ none ↦ none | some e ↦ e.learned_rnd_val ]

-- The two places that make sure of a `PaxosInstance` at an index.
abbrev pub with_instance :
    {E B : Type 0} → Option (InstanceEntry (PlEntry E B)) → InstanceEntry (PlEntry E B)
unfolding new_instance
with_instance none = record { instance_state = some new_instance; learned_rnd_val = none }
with_instance (some e) = elim e.instance_state [
  | none ↦ record e { instance_state = some new_instance }
  | some i ↦ e
]

module _ {E B : Type 0} ⦃o : Ord E⦄ where
  unfoldable pub min_complete_index : PaxosDriver E B → ℕ
  min_complete_index d = min_index_loop d.next_index d.remote_next_indices

  -- One new node of a reconfiguration: it starts at the (already moved) `next_index`.
  unfoldable pub add_node : PaxosDriver E B → E → PaxosDriver E B
  add_node d eid = record d {
    remote_next_indices = insert eid d.next_index d.remote_next_indices;
    unconfirmed_eids = insert eid false d.unconfirmed_eids;
    paxos_nodes = d.paxos_nodes ++ eid ∷ [];
  }

  unfoldable pub drop_node : PaxosDriver E B → E → PaxosDriver E B
  drop_node d eid = record d {
    remote_next_indices = remove eid d.remote_next_indices;
    unconfirmed_eids = remove eid d.unconfirmed_eids;
    paxos_nodes = remove_item d.paxos_nodes eid;
  }

  -- The match on the learned value, after `next_index` moved past it.
  unfoldable pub apply_entry : PaxosDriver E B → PlEntry E B → PaxosDriver E B
  apply_entry d (bundle_entry b) = d
  apply_entry d (reconfig_bundle r) = foldl drop_node (foldl add_node d r.new_eids) r.rem_eids
  apply_entry d (leader_changed lid) = record d { leader = lid; leader_heartbeat = 0 }

  -- The loop; `entries` is `new_entries`.
  unfoldable pub deliver_loop :
      ℕ → PaxosDriver E B → List (PlEntry E B) → Result (PaxosDriver E B × List (PlEntry E B))
  deliver_loop zero d entries = out_of_fuel
  deliver_loop (suc fuel) d entries = elim (learned_at d.paxos_instances d.next_index) [
    | none ↦ ok (d, entries)
    | some (rnd, val) ↦
        deliver_loop fuel (apply_entry (record d { next_index = d.next_index + 1 }) val)
          (entries ++ val ∷ [])
  ]

  abbrev pub clear_insert :
      PaxosDriver E B × List (PlEntry E B) → PaxosDriver E B × List (PlEntry E B)
  clear_insert (d, []) = (d, [])
  clear_insert (d, e ∷ entries) = (record d { next_insert = none }, e ∷ entries)

  -- Each round needs an entry at `next_index`, so the indices up to the largest bound the rounds.
  unfoldable pub deliver_learned_entries :
      PaxosDriver E B → Result (PaxosDriver E B × List (PlEntry E B))
  deliver_learned_entries d = do
    r ← deliver_loop (suc (key_bound d.paxos_instances - d.next_index)) d []
    ok (clear_insert r)

  -- `self.paxos_instances.get(&index).unwrap().learned_rnd_val.clone().unwrap()`
  unfoldable pub learned_unwrap : PaxosDriver E B → ℕ → Result (ℕ × PlEntry E B)
  learned_unwrap d index = do e ← unwrap (get index d.paxos_instances); unwrap e.learned_rnd_val

  -- `for index in lo..hi { self.paxos_instances.remove(&index) }`, over the `n` indices from `lo`.
  unfoldable pub purge : ℕ → ℕ → PaxosDriver E B → PaxosDriver E B
  purge zero lo d = d
  purge (suc n) lo d = purge n (lo + 1) (record d { paxos_instances = remove lo d.paxos_instances })
