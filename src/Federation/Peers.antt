-- ===== src/Federation/Peers.antt =====
-- internal/federation/peer.go and federation.go: the peers that a PeerManager knows, and the events of
-- the cluster that change them. The members of the cluster and the clock are arguments, and a method
-- reads the clock once; the addresses of a node are already printed. The rows of the peers, which
-- are only written, the metadata, which nothing here writes, and the metrics are not modelled.
pub mod Status
use nekzus.Prelude.{
  ℕ, ◌-◌, ◌+◌, String, Bool, true, false, not, ◌&&◌, Option, none, some, List, [], ◌∷◌, ◌++◌, ltb,
  ◌==◌, if◌then◌else◌,
}
use nekzus.Prelude.Dict.{Dict, lookup, put, delete, entries, size, has}

pub data PeerStatus : Type 0 where
  online offline unreachable : PeerStatus

abbrev pub same_peer_status : PeerStatus → PeerStatus → Bool
same_peer_status online online = true
same_peer_status offline offline = true
same_peer_status unreachable unreachable = true
same_peer_status _ _ = false

pub record PeerInstance : Type 0 where
  pub id : String
  pub name : String
  pub address : String
  pub gossip_addr : String
  pub status : PeerStatus
  pub last_seen : ℕ
  pub created_at : ℕ
  pub updated_at : ℕ

-- A node of the memberlist library.
pub record Node : Type 0 where
  pub name : String
  pub address : String
  pub gossip_addr : String

pub record PeerManager : Type 0 where
  pub local_peer_id : String
  pub peer_timeout : ℕ
  pub peers : Dict PeerInstance
  pub has_event_bus : Bool

pub data PeerEvent : Type 0 where
  peer_joined peer_left peer_online peer_offline : PeerInstance → PeerEvent

abbrev pub publish : PeerManager → PeerEvent → List PeerEvent
publish pm event = if pm.has_event_bus then event ∷ [] else []

unfoldable pub new_peer_instance : String → String → String → String → ℕ → PeerInstance
new_peer_instance id name address gossip_addr now = record {
  id = id;
  name = name;
  address = address;
  gossip_addr = gossip_addr;
  status = online;
  last_seen = now;
  created_at = now;
  updated_at = now;
}

-- time.Since(p.LastSeen) < threshold
unfoldable pub is_alive : PeerInstance → ℕ → ℕ → Bool
is_alive p threshold now = ltb (now - p.last_seen) threshold

unfoldable pub update_last_seen : PeerInstance → ℕ → PeerInstance
update_last_seen p now = record p { last_seen = now; updated_at = now }

unfoldable pub set_status : PeerInstance → PeerStatus → ℕ → PeerInstance
set_status p status now = record p { status = status; updated_at = now }

unfoldable pub get_peer_by_id : PeerManager → String → Option PeerInstance
unfolding lookup
get_peer_by_id pm id = lookup pm.peers id

unfoldable pub get_peer_count : PeerManager → ℕ
unfolding size
get_peer_count pm = size pm.peers

-- An existing peer keeps its name and its time of creation.
unfoldable pub add_peer : PeerManager → PeerInstance → ℕ → PeerManager × List PeerEvent
unfolding lookup put update_last_seen
add_peer pm peer now = elim (lookup pm.peers peer.id) [
  | some existing ↦ (
    record pm {
      peers = put pm.peers peer.id (
          update_last_seen
            (record existing {
              address = peer.address;
              gossip_addr = peer.gossip_addr;
              status = peer.status;
            })
            now);
    },
    [],
  )
  | none ↦ (record pm { peers = put pm.peers peer.id peer }, publish pm (peer_joined peer))
]

-- `none` is ErrPeerNotFound.
unfoldable pub remove_peer : PeerManager → String → Option (PeerManager × List PeerEvent)
unfolding lookup delete
remove_peer pm id = elim (lookup pm.peers id) [
  | none ↦ none
  | some peer ↦ some (record pm { peers = delete pm.peers id }, publish pm (peer_left peer))
]

abbrev pub peer_of : Node → ℕ → PeerInstance
peer_of node now = record {
  id = node.name;
  name = node.name;
  address = node.address;
  gossip_addr = node.gossip_addr;
  status = online;
  last_seen = now;
  created_at = now;
  updated_at = now;
}

unfoldable pub notify_join : PeerManager → Node → ℕ → PeerManager × List PeerEvent
unfolding add_peer
notify_join pm node now =
    if node.name == pm.local_peer_id then (pm, []) else add_peer pm (peer_of node now) now

or_same : PeerManager → Option (PeerManager × List PeerEvent) → PeerManager × List PeerEvent
or_same pm none = (pm, [])
or_same pm (some result) = result

unfoldable pub notify_leave : PeerManager → Node → PeerManager × List PeerEvent
unfolding remove_peer or_same
notify_leave pm node = or_same pm (remove_peer pm node.name)

abbrev pub seen_online : PeerInstance → ℕ → PeerInstance
seen_online p now = record p { status = online; last_seen = now; updated_at = now }

unfoldable pub notify_update : PeerManager → Node → ℕ → PeerManager
unfolding lookup put
notify_update pm node now = elim (lookup pm.peers node.name) [
  | none ↦ pm
  | some p ↦ record pm { peers = put pm.peers node.name (seen_online p now) }
]

-- The members other than the local peer, by their names.
unfoldable pub member_map : String → List Node → Dict Node → Dict Node
unfolding put
member_map local_peer_id [] m = m
member_map local_peer_id (node ∷ nodes) m =
    member_map local_peer_id nodes (if node.name == local_peer_id then m else put m node.name node)

-- The loop that adds the members that are not among the peers.
unfoldable pub rejoin_loop :
    PeerManager → ℕ → Dict Node → Dict PeerInstance → Dict PeerInstance × List PeerEvent
unfolding put lookup
rejoin_loop pm now [] peers = (peers, [])
rejoin_loop pm now ((id, node) ∷ rest) peers =
    let known = has peers id in
    let (peers', events) =
      rejoin_loop pm now rest (if known then peers else put peers id (peer_of node now)) in
    (peers', (if known then [] else publish pm (peer_joined (peer_of node now))) ++ events)

-- The body of the second loop: the peer behind the check, and the event.
unfoldable pub check_peer : PeerManager → ℕ → Bool → PeerInstance → PeerInstance × List PeerEvent
unfolding set_status update_last_seen is_alive
check_peer pm now true peer =
    let peer' = if same_peer_status peer.status online then peer else set_status peer online now in
    (
      update_last_seen peer' now,
      if same_peer_status peer.status online then [] else publish pm (peer_online peer'),
    )
check_peer pm now false peer =
    if is_alive peer pm.peer_timeout now
    then (peer, [])
    else if same_peer_status peer.status offline
    then (peer, [])
    else (set_status peer offline now, publish pm (peer_offline (set_status peer offline now)))

unfoldable pub health_loop :
    PeerManager
    → ℕ
    → Dict Node
    → Dict PeerInstance
    → Dict PeerInstance
    → Dict PeerInstance × List PeerEvent
unfolding put lookup check_peer
health_loop pm now members [] peers = (peers, [])
health_loop pm now members ((id, peer) ∷ rest) peers =
    let local = id == pm.local_peer_id in
    let (peer', events) = check_peer pm now (has members id) peer in
    let (peers', events') =
      health_loop pm now members rest (if local then peers else put peers id peer') in
    (peers', (if local then [] else events) ++ events')

-- checkPeerHealth, with the members that the memberlist reports.
unfoldable pub check_peer_health : PeerManager → List Node → ℕ → PeerManager × List PeerEvent
unfolding member_map rejoin_loop health_loop entries
check_peer_health pm nodes now =
    let members = member_map pm.local_peer_id nodes [] in
    let (peers, joined) = rejoin_loop pm now (entries members) pm.peers in
    let (peers', changed) = health_loop pm now members (entries peers) peers in
    (record pm { peers = peers' }, joined ++ changed)
