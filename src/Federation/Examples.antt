-- ===== src/Federation/Examples.antt =====
-- Two peers' clocks, services and neighbours, on which the theorems are applied.
use nekzus.Prelude.{
  true, ◌==◌, List, any, ℕ, ◌≡◌, ◌≢◌, ◌↔◌, refl, sym, inl, String, false, some, [], ◌∷◌, arith,
  eq_iff,
}
use nekzus.Prelude.Dict.{Dict, lookup}
use nekzus.Federation.VectorClock.{compare, before, count_of, count_in}
use nekzus.Federation.VectorClock.Compare.{HappenedBefore, compare-before_iff}
use nekzus.Federation.Peers.{PeerManager, PeerInstance, Node, online, check_peer_health}
use nekzus.Federation.Peers.Status.{status_of, expected, check_peer_health-status}
use nekzus.Federation.Service.{FederatedService}
use nekzus.Federation.Resolver.{local, remote, resolve_conflict}
use nekzus.Federation.Resolver.Laws.{
  resolve_conflict-causal, resolve_conflict-swaps, kept, received,
}

abbrev older : Dict ℕ
older = ("p1", 1) ∷ []

abbrev newer : Dict ℕ
newer = ("p2", 2) ∷ ("p1", 1) ∷ []

compare-before_iff_example :
    (compare (some older) (some newer) ≡ before) ↔ HappenedBefore (some older) (some newer)
compare-before_iff_example = compare-before_iff (some older) (some newer)

abbrev version : String → ℕ → Dict ℕ → FederatedService String ℕ
version origin seen clock = record {
  service_id = "svc";
  origin_peer_id = origin;
  app = some "grafana";
  confidence = 1;
  last_seen = seen;
  tombstone = false;
  vector_clock = some clock;
}

older_first : HappenedBefore (some older) (some newer)
older_first = (compare-before_iff (some older) (some newer)).0 (unfold compare in refl)

peers_differ : (version "p1" 9 older).origin_peer_id ≢ (version "p2" 3 newer).origin_peer_id
peers_differ e = absurd (ground (arith, eq_iff "p1" "p2"))

-- The older version was seen later, and loses all the same.
resolve_conflict-causal_example :
    (resolve_conflict (some (version "p1" 9 older)) (some (version "p2" 3 newer)) "p1"
      ≡ some remote)
    × (resolve_conflict (some (version "p2" 3 newer)) (some (version "p1" 9 older)) "p1"
        ≡ some local)
resolve_conflict-causal_example =
    resolve_conflict-causal (version "p1" 9 older) (version "p2" 3 newer) "p1" (inl peers_differ)
      (inl (λ e. peers_differ (sym e))) older_first

abbrev other_clock : Dict ℕ
other_clock = ("p2", 2) ∷ []

apart_one : HappenedBefore (some older) (some other_clock) → ⊥
apart_one h = absurd (unfold count_of count_in lookup in omega (arith, h.0 "p1"))

apart_two : HappenedBefore (some other_clock) (some older) → ⊥
apart_two h = absurd (unfold count_of count_in lookup in omega (arith, h.0 "p2"))

resolve_conflict-swaps_example :
    (kept (version "p1" 9 older) (received 12 (version "p2" 3 other_clock)) (
        resolve_conflict
          (some (version "p1" 9 older))
          (some (received 12 (version "p2" 3 other_clock)))
          "p1")
      ≡ some (received 12 (version "p2" 3 other_clock)))
    × (kept (version "p2" 3 other_clock) (received 13 (version "p1" 9 older)) (
          resolve_conflict
            (some (version "p2" 3 other_clock))
            (some (received 13 (version "p1" 9 older)))
            "p2")
        ≡ some (received 13 (version "p1" 9 older)))
resolve_conflict-swaps_example =
    resolve_conflict-swaps (version "p1" 9 older) (version "p2" 3 other_clock) "p1" "p2" 12 13
      peers_differ apart_one apart_two (omega arith) (omega arith)

abbrev silent : PeerInstance
silent = record {
  id = "p2";
  name = "attic";
  address = "10.0.0.2";
  gossip_addr = "10.0.0.2:7946";
  status = online;
  last_seen = 5;
  created_at = 0;
  updated_at = 5;
}

abbrev manager : PeerManager
manager = record {
  local_peer_id = "p1";
  peer_timeout = 30;
  peers = ("p2", silent) ∷ [];
  has_event_bus = true;
}

abbrev members : List Node
members =
    record { name = "p1"; address = "10.0.0.1"; gossip_addr = "10.0.0.1:7946" }
    ∷ record { name = "p3"; address = "10.0.0.3"; gossip_addr = "10.0.0.3:7946" }
    ∷ []

silent_is_other : silent.id ≢ manager.local_peer_id
silent_is_other e = absurd (ground (arith, eq_iff "p2" "p1"))

check_peer_health-status_example :
    status_of (lookup (check_peer_health manager members 40).0.peers "p2")
    ≡ expected manager (any (λ n. n.name == "p2") members) 40 (lookup manager.peers "p2")
check_peer_health-status_example = check_peer_health-status manager members 40 "p2" silent_is_other
