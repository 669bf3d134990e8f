-- ===== src/Federation/SyncerExamples.antt =====
-- Two peers with a catalog of one service, on which the theorems are applied.
use nekzus.Prelude.{
  ℕ, ◌+◌, ◌≤◌, ◌≡◌, ◌≢◌, refl, String, true, false, Option, none, some, List, [], ◌∷◌, nat_beq,
  arith, eq_iff,
}
use nekzus.Prelude.Dict.{Dict, lookup, put}
use nekzus.Federation.VectorClock.{VectorClock, new_vector_clock, count_in, count_of}
use nekzus.Federation.Service.{FederatedService}
use nekzus.Federation.Syncer.{
  Codec, Io, Store, CatalogSyncer, FederatedServiceData, ServiceEvent, AppDeleteMsg, AppUpdateMsg,
  update_message, on_local_service_updated, row_of, new_catalog_syncer, existing_service,
  local_version,
}
use nekzus.Federation.Syncer.Remote.{on_remote_service_update}
use nekzus.Federation.Syncer.Causal.{RoundTrips, Dominates, Advances, Below-put}
use nekzus.Federation.Syncer.Runs.{op_added, start, apply, Reaches-Dominates}
use nekzus.Federation.Syncer.Updates.{on_remote-owner}
use nekzus.Federation.Gossip.Delivery.{update_of, local_update-delivered}
use nekzus.Federation.Gossip.{Wire, notify_msg, get_broadcasts}
use nekzus.Federation.Gossip.Messages.{
  as_update, Batch, total, get_broadcasts-Batch, notify_deletion-live,
}

data Json : Type 0 where
  app_json : Option String → Json
  clock_json : VectorClock → Json

-- `null` is read as an empty application.
abbrev read_app : Json → Option String
read_app (app_json none) = some ""
read_app (app_json (some app)) = some app
read_app (clock_json clock) = none

abbrev read_clock : Json → Option VectorClock
read_clock (app_json app) = none
read_clock (clock_json clock) = some clock

abbrev codec : Codec String ℕ Json
codec = record {
  marshal_app = app_json;
  unmarshal_app = read_app;
  marshal_clock = clock_json;
  unmarshal_clock = read_clock;
  is_zero = λ c. nat_beq c 0;
  zero_confidence = 0;
  full_confidence = 1;
}

codec-RoundTrips : RoundTrips codec
codec-RoundTrips c = (c, refl, λ p. refl)

abbrev io : Io
io = record { now = 7; reads = λ id. true; writes = λ id. true; lists = true }

abbrev older : Dict ℕ
older = ("p2", 1) ∷ []

abbrev newer : Dict ℕ
newer = ("p3", 2) ∷ ("p2", 1) ∷ []

abbrev version : String → Dict ℕ → FederatedService String ℕ
version origin clock = record {
  service_id = "svc";
  origin_peer_id = origin;
  app = some "grafana";
  confidence = 1;
  last_seen = 5;
  tombstone = false;
  vector_clock = some clock;
}

-- A table with one version.
abbrev table_of : FederatedService String ℕ → Store ℕ Json
table_of fs = put [] fs.service_id (row_of codec 5 none fs)

-- A peer that has stored the version and has its clock.
abbrev holding : String → String → Dict ℕ → CatalogSyncer ℕ Json
holding me origin clock = record {
  local_peer_id = me;
  storage = some (table_of (version origin clock));
  vector_clock = some clock;
  has_broadcast = true;
  has_callback = true;
}

holding-Dominates :
    (me origin : String) (clock : Dict ℕ) → Dominates codec (holding me origin clock)
holding-Dominates me origin clock = (
  (clock, refl),
  Below-put codec codec-RoundTrips [] (some clock) 5 none (version origin clock)
      (λ id row c p f g. absurd (unfold lookup in ground (arith, f))) (λ p. omega arith),
)

stored :
    (me origin : String) (clock : Dict ℕ)
    → existing_service codec io (holding me origin clock).storage "svc"
      ≡ some (version origin clock)
unfolding existing_service lookup row_of put
stored me origin clock = refl

Reaches-Dominates_example :
    (cs' : CatalogSyncer ℕ Json) × (apply codec
        (new_catalog_syncer "p1" (some []))
        (op_added io "svc" "grafana")
      ≡ some cs')
    × Dominates codec cs'
    × Advances (new_catalog_syncer {C = ℕ} {J = Json} "p1" (some [])) cs'
Reaches-Dominates_example =
    Reaches-Dominates codec "p1" (op_added io "svc" "grafana") codec-RoundTrips start
      (unfold new_catalog_syncer new_vector_clock count_of count_in lookup in omega arith)

other_origin : (version "p2" older).origin_peer_id ≢ (holding "p1" "p2" older).local_peer_id
other_origin e = absurd (ground (arith, eq_iff "p2" "p1"))

abbrev late_row : FederatedServiceData ℕ Json
late_row = row_of codec 7 (lookup (table_of (version "p2" newer)) "svc") (version "p2" older)

on_remote-owner_example :
    (cs' : CatalogSyncer ℕ Json) × (rows' : Store ℕ Json) × (event : Option (ServiceEvent String ℕ))
    × (on_remote_service_update codec io (holding "p1" "p2" newer) (version "p2" older)
        ≡ some (cs', event, true))
    × (cs'.storage ≡ some rows')
    × (lookup rows' "svc" ≡ some late_row)
    × ((p : String) → count_of (some older) p ≤ count_of cs'.vector_clock p)
on_remote-owner_example =
    on_remote-owner codec io (holding "p1" "p2" newer) (table_of (version "p2" newer))
      (version "p2" newer) (version "p2" older) refl (stored "p1" "p2" newer) refl other_origin
      (holding-Dominates "p1" "p2" newer) refl

-- A message is what it is parsed as.
abbrev parsed : Wire String ℕ (AppUpdateMsg String ℕ)
parsed = record {
  unmarshal_update = λ msg. some msg;
  unmarshal_delete = λ msg. none;
  marshal_delete = as_update codec;
}

peers_apart : (holding "p2" "p2" older).local_peer_id ≢ (holding "p3" "p2" older).local_peer_id
peers_apart e = absurd (ground (arith, eq_iff "p2" "p3"))

abbrev changed : FederatedService String ℕ
changed = local_version codec io (holding "p2" "p2" older) "svc" (some "gitea") false

local_update-delivered_example :
    ((on_local_service_updated codec io (holding "p2" "p2" older) "svc" "gitea").1
      ≡ some (update_message (update_of codec changed)))
    × (peer' : CatalogSyncer ℕ Json) × (rows' : Store ℕ Json) × (row : FederatedServiceData ℕ Json)
    × (notify_msg codec parsed io (holding "p3" "p2" older) (update_of codec changed) ≡ some peer')
    × (peer'.storage ≡ some rows')
    × (lookup rows' "svc" ≡ some row)
    × (row.app_data ≡ codec.marshal_app (some "gitea"))
    × (row.origin_peer_id ≡ "p2")
    × (row.tombstone ≡ false)
local_update-delivered_example =
    local_update-delivered codec parsed io io (holding "p2" "p2" older) (holding "p3" "p2" older)
      (table_of (version "p2" older)) "svc" "gitea" (version "p2" older) (version "p2" older)
      (update_of codec changed) (holding-Dominates "p2" "p2" older)
      (unfold count_of count_in lookup in omega arith) (stored "p2" "p2" older) refl refl
      (holding-Dominates "p3" "p2" older) refl (stored "p3" "p2" older) (λ p. omega arith)
      peers_apart refl

abbrev sizes : List ℕ
sizes = 40 ∷ 80 ∷ 30 ∷ 25 ∷ 10 ∷ []

get_broadcasts-Batch_example :
    (batch : List ℕ) × (left : List ℕ) × (get_broadcasts (λ n. n) 5 sizes 110 ≡ (batch, left))
    × (total (λ n. n + 5) batch ≤ 110)
    × Batch (λ n. n + 5) 110 sizes batch left
get_broadcasts-Batch_example = get_broadcasts-Batch (λ n. n) 5 sizes 110

abbrev wire : Wire String ℕ AppDeleteMsg
wire = record {
  unmarshal_update = λ msg. some (as_update codec msg);
  unmarshal_delete = λ msg. some msg;
  marshal_delete = λ msg. msg;
}

abbrev deletion : AppDeleteMsg
deletion = record { service_id = "svc"; origin_peer_id = "p2"; vector_clock = some newer }

notify_deletion-live_example :
    (cs' : CatalogSyncer ℕ Json) × (rows' : Store ℕ Json) × (row : FederatedServiceData ℕ Json)
    × (notify_msg codec wire io (holding "p1" "p2" older) deletion ≡ some cs')
    × (cs'.storage ≡ some rows')
    × (lookup rows' "svc" ≡ some row)
    × (row.tombstone ≡ false)
    × (row.app_data ≡ app_json none)
notify_deletion-live_example =
    notify_deletion-live codec wire io (holding "p1" "p2" older) (table_of (version "p2" older))
      (version "p2" older) deletion refl refl (stored "p1" "p2" older) refl other_origin
      (holding-Dominates "p1" "p2" older) refl
