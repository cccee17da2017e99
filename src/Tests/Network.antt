-- ===== src/Tests/Network.antt =====
-- The theorems on the network driver at node 5 of group 1, which leads it, and a message of group 2.
use r_universal_db.Base.{ℕ, ◌≡◌, refl, ◌↔◌, none, some, List, [], ◌∷◌, nat_ord, arith, Keeps}
use r_universal_db.BTreeMap.{get}
use r_universal_db.Network.{
  RemoteMessage, VersionedValue, LeaderMap, NetworkDriver, Received, receive, sync_groups,
  sort_message,
}
use r_universal_db.Network.Buffers.{IsOrderly, receive-IsOrderly}
use r_universal_db.Network.Delivery.{receive-delivers_iff}

abbrev leaders : VersionedValue (LeaderMap ℕ ℕ)
leaders = record {
  gen = 3;
  value = (1, record { gen = 4; eid = 5 }) ∷ (2, record { gen = 6; eid = 8 }) ∷ [];
}

abbrev empty_driver : NetworkDriver ℕ ℕ ℕ
empty_driver = record { network_buffer = (1, []) ∷ (2, []) ∷ []; gen = 3 }

abbrev message : ℕ → ℕ → RemoteMessage ℕ ℕ ℕ
message gen payload = record {
  payload = payload;
  from_lid = record { gen = gen; eid = 8 };
  from_gid = 2;
  to_lid = record { gen = 4; eid = 5 };
  to_gid = 1;
}

abbrev start : Received ℕ ℕ ℕ
start = record { driver = empty_driver; changes = []; delivered = none }

empty_driver-IsOrderly : IsOrderly [] empty_driver
unfolding get
empty_driver-IsOrderly gid = ground arith

receive-IsOrderly_example :
    Keeps (λ r. IsOrderly r.changes r.driver) (receive 1 leaders [] empty_driver (message 7 30))
receive-IsOrderly_example =
    receive-IsOrderly 1 leaders [] empty_driver (message 7 30) empty_driver-IsOrderly

abbrev answered : Received ℕ ℕ ℕ
answered = record { driver = empty_driver; changes = []; delivered = some 30 }

receive-delivers_iff_example :
    (answered.delivered ≡ some 30)
    ↔ ((◌≡◌ {A = List (RemoteMessage ℕ ℕ ℕ)} [] []) × (◌≡◌ {A = ℕ} 6 6))
unfolding receive sync_groups sort_message get
receive-delivers_iff_example =
    receive-delivers_iff 1 leaders [] empty_driver (message 6 30) (record { gen = 4; eid = 5 })
      (record { gen = 6; eid = 8 }) [] answered refl (omega arith) refl refl refl
