-- ===== src/Websocket/Qos/Timeouts.antt =====
-- What becomes of a message that is never acknowledged, and of one that is.
use nekzus.Prelude.{
  ℕ, ◌≡◌, refl, String, Option, none, some, [], ◌∷◌, arith, eq_iff, ◌==◌, if◌then◌else◌,
}
use nekzus.Prelude.Dict.{
  Dict, lookup, entries, IsUnique, lookup-put, lookup-delete, lookup-entries, entries-IsUnique,
}
use nekzus.Websocket.Qos.{
  PendingAck, QosTracker, QosTrackerConfig, check_timeouts, check_loop, after_check, store,
}

-- The entry behind a check.
abbrev pub checked :
    {M : Type 0} → QosTrackerConfig → ℕ → Option (PendingAck M) → Option (PendingAck M)
checked config now none = none
checked config now (some p) = after_check config now p

module _ {M : Type 0} where
  lookup-store :
      (m : Dict (PendingAck M)) (id : String) (o : Option (PendingAck M)) (j : String)
      → lookup (store m id o) j ≡ (if id == j then o else lookup m j)
  lookup-store m id none j = lookup-delete m id j
  lookup-store m id (some p) j = lookup-put m id p j

  lookup-check_loop :
      (config : QosTrackerConfig) (now : ℕ) (m' m : Dict (PendingAck M)) (j : String)
      → IsUnique m'
      → lookup (check_loop config now m' m).0 j
        ≡ elim (lookup m' j) [ none ↦ lookup m j | some p ↦ after_check config now p ]
  unfolding check_loop lookup
  lookup-check_loop config now [] m j u = refl
  lookup-check_loop config now ((id, p) ∷ rest) m j u = ground (
    arith,
    lookup-check_loop config now rest (store m id (after_check config now p)) j u.1,
    lookup-store m id (after_check config now p) j,
    eq_iff id j,
    u.0,
  )

  pub lookup-check_timeouts :
      (t : QosTracker M) (now : ℕ) (j : String)
      → lookup (check_timeouts t now).0.pending j ≡ checked t.config now (lookup t.pending j)
  unfolding check_timeouts
  lookup-check_timeouts t now j = ground (
    arith,
    lookup-check_loop t.config now (entries t.pending) t.pending j (entries-IsUnique t.pending),
    lookup-entries t.pending j,
  )
