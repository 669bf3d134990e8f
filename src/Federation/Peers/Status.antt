-- ===== src/Federation/Peers/Status.antt =====
-- What a health check makes of every peer.
use nekzus.Prelude.{
  ℕ, ◌-◌, ◌≡◌, ◌≢◌, refl, ap, ◌∙◌, String, Bool, true, false, ◌||◌, Option, none, some, List, [],
  ◌∷◌, leb, ◌==◌, any, if◌then◌else◌, arith, eq_iff,
}
use nekzus.Prelude.Dict.{
  Dict, lookup, put, entries, has, IsUnique, lookup-put, lookup-entries, entries-IsUnique,
}
use nekzus.Federation.Peers.{
  PeerStatus, online, offline, PeerInstance, Node, PeerManager, peer_of, member_map, rejoin_loop,
  check_peer, health_loop, check_peer_health, set_status, update_last_seen, is_alive,
}

abbrev pub status_of : Option PeerInstance → Option PeerStatus
status_of none = none
status_of (some p) = some p.status

has-member_map :
    (me : String) (nodes : List Node) (m : Dict Node) (id : String)
    → id ≢ me
    → has (member_map me nodes m) id ≡ (any (λ n. n.name == id) nodes || has m id)
unfolding member_map
has-member_map me [] m id d = ground arith
has-member_map me (n ∷ nodes) m id d = ground (
  arith,
  has-member_map me nodes (if n.name == me then m else put m n.name n) id d,
  lookup-put m n.name n id,
  eq_iff n.name me,
  eq_iff n.name id,
  d,
)

lookup-rejoin_loop :
    (pm : PeerManager) (now : ℕ) (m : Dict Node) (peers : Dict PeerInstance) (id : String)
    → IsUnique m
    → lookup (rejoin_loop pm now m peers).0 id ≡ elim (lookup peers id) [
      | some p ↦ some p
      | none ↦ elim (lookup m id) [ none ↦ none | some n ↦ some (peer_of n now) ]
    ]
unfolding rejoin_loop lookup
lookup-rejoin_loop pm now [] peers id u = ground arith
lookup-rejoin_loop pm now ((j, n) ∷ m) peers id (f, u) = ground (
  arith,
  lookup-rejoin_loop pm now m (if has peers j then peers else put peers j (peer_of n now)) id u,
  lookup-put peers j (peer_of n now) id,
  eq_iff j id,
  f,
)

lookup-health_loop :
    (pm : PeerManager) (now : ℕ) (members : Dict Node) (m peers : Dict PeerInstance) (id : String)
    → IsUnique m
    → id ≢ pm.local_peer_id
    → lookup (health_loop pm now members m peers).0 id ≡ elim (lookup m id) [
      | none ↦ lookup peers id
      | some p ↦ some (check_peer pm now (has members id) p).0
    ]
unfolding health_loop lookup
lookup-health_loop pm now members [] peers id u d = refl
lookup-health_loop pm now members ((j, p) ∷ m) peers id (f, u) d = ground (
  arith,
  lookup-health_loop pm now members m
      (if j == pm.local_peer_id then peers else put peers j (check_peer pm now (has members j) p).0)
      id u d,
  lookup-put peers j (check_peer pm now (has members j) p).0 id,
  eq_iff j id,
  eq_iff j pm.local_peer_id,
  f,
  d,
)

-- The status that a check should find.
abbrev pub expected : PeerManager → Bool → ℕ → Option PeerInstance → Option PeerStatus
expected pm true now peer = some online
expected pm false now none = none
expected pm false now (some p) =
    some (if leb pm.peer_timeout (now - p.last_seen) then offline else p.status)

checked_status :
    (pm : PeerManager) (now : ℕ) (b : Bool) (p : PeerInstance)
    → some (check_peer pm now b p).0.status ≡ expected pm b now (some p)
unfolding check_peer set_status update_last_seen is_alive
checked_status pm now true p = ground arith
checked_status pm now false p = ground arith

abbrev rejoined : ℕ → Option PeerInstance → Option Node → Option PeerInstance
rejoined now (some p) member = some p
rejoined now none none = none
rejoined now none (some n) = some (peer_of n now)

abbrev is_some : Option Node → Bool
is_some none = false
is_some (some n) = true

abbrev checked : PeerManager → ℕ → Bool → Option PeerInstance → Option PeerInstance
checked pm now b none = none
checked pm now b (some p) = some (check_peer pm now b p).0

checked-rejoined :
    (pm : PeerManager) (now : ℕ) (o : Option PeerInstance) (member : Option Node)
    → status_of (checked pm now (is_some member) (rejoined now o member))
      ≡ expected pm (is_some member) now o
unfolding check_peer update_last_seen
checked-rejoined pm now none none = refl
checked-rejoined pm now none (some n) = refl
checked-rejoined pm now (some p) member = checked_status pm now (is_some member) p

lookup-check :
    (pm : PeerManager) (nodes : List Node) (now : ℕ) (id : String)
    → id ≢ pm.local_peer_id
    → lookup (check_peer_health pm nodes now).0.peers id
      ≡ checked pm now
          (is_some (lookup (member_map pm.local_peer_id nodes []) id))
          (rejoined now (lookup pm.peers id) (lookup (member_map pm.local_peer_id nodes []) id))
unfolding check_peer_health
lookup-check pm nodes now id d =
    let members = member_map pm.local_peer_id nodes [] in
    let peers = (rejoin_loop pm now (entries members) pm.peers).0 in
    ground (
      arith,
      lookup-health_loop pm now members (entries peers) peers id (entries-IsUnique peers) d,
      lookup-rejoin_loop pm now (entries members) pm.peers id (entries-IsUnique members),
      lookup-entries peers id,
      lookup-entries members id,
    )

-- After a health check, of the peers other than the local one, exactly the members of the cluster and
-- the peers known before are there. A member is online, also one that was not known. A peer that is no
-- member is offline from the time-out on after it was last seen, and has the status from before
-- within it.
pub check_peer_health-status :
    (pm : PeerManager) (nodes : List Node) (now : ℕ) (id : String)
    → id ≢ pm.local_peer_id
    → status_of (lookup (check_peer_health pm nodes now).0.peers id)
      ≡ expected pm (any (λ n. n.name == id) nodes) now (lookup pm.peers id)
unfolding lookup
check_peer_health-status pm nodes now id d =
    let member = lookup (member_map pm.local_peer_id nodes []) id in
    let known : is_some member ≡ any (λ n. n.name == id) nodes =
      ground (arith, has-member_map pm.local_peer_id nodes [] id d) in
    ap status_of (lookup-check pm nodes now id d)
    ∙ checked-rejoined pm now (lookup pm.peers id) member
    ∙ ap (λ b. expected pm b now (lookup pm.peers id)) known
