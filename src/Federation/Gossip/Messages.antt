-- ===== src/Federation/Gossip/Messages.antt =====
-- What the messages of the cluster do: the limit of a batch, and a deletion on its way.
use nekzus.Prelude.{
  ℕ, ◌+◌, ◌-◌, ◌<◌, ◌≤◌, ◌≡◌, ◌≢◌, refl, Bool, true, false, not, none, some, List, [], ◌∷◌, ltb,
  if◌then◌else◌, arith,
}
use nekzus.Prelude.Dict.{lookup}
use nekzus.Federation.Service.{FederatedService}
use nekzus.Federation.Syncer.{
  Codec, Io, Store, CatalogSyncer, FederatedServiceData, AppUpdateMsg, AppDeleteMsg, row_of,
  existing_service,
}
use nekzus.Federation.Syncer.Causal.{Dominates}
use nekzus.Federation.Syncer.Updates.{on_remote-owner}
use nekzus.Federation.Gossip.{Wire, notify_msg, get_broadcasts, taken, delivered, service_of_update}

-- How one batch takes the queue apart: what is sent, in the order of the queue, what is dropped on the
-- way, each with the limit that was left when its turn came, and what stays.
pub data Batch {W : Type 0} (size : W → ℕ) : ℕ → List W → List W → List W → Type 0 where
  emptied : {limit : ℕ} → Batch size limit [] [] []
  full :
      {limit : ℕ} (msg : W) (queue : List W)
      → size msg ≡ limit
      → Batch size limit (msg ∷ queue) (msg ∷ []) queue
  sent :
      {limit : ℕ} (msg : W) {queue rest left : List W}
      → size msg < limit
      → Batch size (limit - size msg) queue rest left
      → Batch size limit (msg ∷ queue) (msg ∷ rest) left
  dropped :
      {limit : ℕ} (msg : W) {queue rest left : List W}
      → limit < size msg
      → Batch size limit queue rest left
      → Batch size limit (msg ∷ queue) rest left

abbrev pub total : {W : Type 0} → (W → ℕ) → List W → ℕ
total size [] = 0
total size (msg ∷ rest) = size msg + total size rest

abbrev TakesApart : {W : Type 0} → (W → ℕ) → ℕ → List W → List W × List W → Type 0
TakesApart size limit queue (batch, left) =
    (total size batch ≤ limit) × Batch size limit queue batch left

taken-TakesApart :
    {W : Type 0} (size : W → ℕ) (limit : ℕ) (fits room : Bool) (msg : W) (queue : List W)
    (next : List W × List W)
    → fits ≡ not (ltb limit (size msg))
    → room ≡ ltb (size msg) limit
    → TakesApart size (if fits then limit - size msg else limit) queue next
    → TakesApart size limit (msg ∷ queue) (taken fits room msg queue next)
unfolding taken
taken-TakesApart size limit false room msg queue (rest, left) f r (t, b) =
    (t, dropped msg (ground (arith, f)) b)
taken-TakesApart size limit true true msg queue (rest, left) f r (t, b) =
    (ground (arith, t, r), sent msg (ground (arith, r)) b)
taken-TakesApart size limit true false msg queue (rest, left) f r (t, b) =
    (ground (arith, f), full msg queue (ground (arith, f, r)))

get_broadcasts-TakesApart :
    {W : Type 0} (len : W → ℕ) (overhead : ℕ) (queue : List W) (limit : ℕ)
    → TakesApart (λ msg. len msg + overhead) limit queue (get_broadcasts len overhead queue limit)
unfolding get_broadcasts
get_broadcasts-TakesApart len overhead [] limit = (omega arith, emptied)
get_broadcasts-TakesApart len overhead (msg ∷ queue) limit =
    taken-TakesApart (λ m. len m + overhead) limit (not (ltb limit (len msg + overhead)))
      (ltb (len msg + overhead) limit) msg queue _ refl refl
      (get_broadcasts-TakesApart len overhead queue _)

-- A batch of messages never exceeds the limit that it was asked for, its overhead per message
-- included. Its messages stand in the order of the queue, a message is left out only if it is larger
-- than what the ones before it left of the limit, and the queue keeps what stands behind the message
-- that filled the limit.
pub get_broadcasts-Batch :
    {W : Type 0} (len : W → ℕ) (overhead : ℕ) (queue : List W) (limit : ℕ)
    → (batch : List W) × (left : List W) × (get_broadcasts len overhead queue limit ≡ (batch, left))
      × (total (λ msg. len msg + overhead) batch ≤ limit)
      × Batch (λ msg. len msg + overhead) limit queue batch left
get_broadcasts-Batch len overhead queue limit =
    let (t, b) = get_broadcasts-TakesApart len overhead queue limit in
    (
      (get_broadcasts len overhead queue limit).0,
      (get_broadcasts len overhead queue limit).1,
      refl,
      t,
      b,
    )

-- What json.Unmarshal leaves where the fields of an update are missing: zero values.
abbrev pub as_update : {A C J : Type 0} → Codec A C J → AppDeleteMsg → AppUpdateMsg A C
as_update codec msg = record {
  service_id = msg.service_id;
  origin_peer_id = msg.origin_peer_id;
  app = none;
  confidence = codec.zero_confidence;
  vector_clock = msg.vector_clock;
  tombstone = false;
}

module _ {A C J W : Type 0} (codec : Codec A C J) (wire : Wire A C W) where
  -- encoding/json on a deletion, parsed as an update.
  abbrev pub ParsesAsUpdate : AppDeleteMsg → Type 0
  ParsesAsUpdate msg = wire.unmarshal_update (wire.marshal_delete msg) ≡ some (as_update codec msg)

  -- Where a deletion parses as an update whose missing fields are zero, a deletion that the owner
  -- of a service sends, another peer, leaves the service, at a peer that has it stored and whose
  -- database takes the write, in the table without the mark of a deletion and without its data.
  pub notify_deletion-live :
      (io : Io) (cs : CatalogSyncer C J) (rows : Store C J) (old : FederatedService A C)
      (msg : AppDeleteMsg)
      → ParsesAsUpdate msg
      → cs.storage ≡ some rows
      → existing_service codec io cs.storage msg.service_id ≡ some old
      → old.origin_peer_id ≡ msg.origin_peer_id
      → old.origin_peer_id ≢ cs.local_peer_id
      → Dominates codec cs
      → io.writes msg.service_id ≡ true
      → (cs' : CatalogSyncer C J) × (rows' : Store C J) × (row : FederatedServiceData C J)
        × (notify_msg codec wire io cs (wire.marshal_delete msg) ≡ some cs')
        × (cs'.storage ≡ some rows')
        × (lookup rows' msg.service_id ≡ some row)
        × (row.tombstone ≡ false)
        × (row.app_data ≡ codec.marshal_app none)
  unfolding notify_msg delivered service_of_update row_of
  notify_deletion-live io cs rows old msg p s q o n d w =
      let new = service_of_update io.now (as_update codec msg) in
      let (cs', rows', event, u, v, x, _) = on_remote-owner codec io cs rows old new s q o n d w in
      (
        cs',
        rows',
        row_of codec io.now (lookup rows msg.service_id) new,
        rw (p, u) refl,
        v,
        x,
        refl,
        refl,
      )
