-- ===== src/Websocket/Qos/Runs.antt =====
-- Sequences of calls on a QoSTracker, in any order: a message that is never acknowledged is given up,
-- and one that is acknowledged is never sent again.
use nekzus.Prelude.{
  ℕ, suc, ◌+◌, ◌≤◌, ◌<◌, ◌≡◌, ◌≢◌, refl, ap, ◌∙◌, inl, inr, String, Option, none, some, List, [],
  ◌∷◌, arith, eq_iff, ltb, ◌==◌, if◌then◌else◌, Option-cases,
}
use nekzus.Prelude.Dict.{
  Dict, lookup, delete, entries, IsUnique, lookup-put, lookup-delete, lookup-entries,
  entries-IsUnique,
}
use nekzus.Websocket.Qos.{
  PendingAck, QosTracker, QosTrackerConfig, register_qos1, ack, cancel, cancel_for_device,
  cancel_loop, check_timeouts, retry,
}
use nekzus.Websocket.Qos.Timeouts.{checked, lookup-check_timeouts}

pub data Op (M : Type 0) : Type 0 where
  op_register : String → String → String → M → ℕ → Op M
  op_ack op_cancel op_cancel_device : String → Op M
  op_check : ℕ → Op M

-- No call registers a message under the identifier.
abbrev pub NotDrawn : {M : Type 0} → String → List (Op M) → Type 0
NotDrawn id [] = Unit
NotDrawn id (op_register j device topic message now ∷ ops) = (j ≢ id) × NotDrawn id ops
NotDrawn id (op ∷ ops) = NotDrawn id ops

-- How many of the checks come after the deadline, which each of them moves.
abbrev pub rounds : {M : Type 0} → ℕ → ℕ → List (Op M) → ℕ
rounds timeout deadline [] = 0
rounds timeout deadline (op_check now ∷ ops) =
    let late = rounds timeout (now + timeout) ops in
    let early = rounds timeout deadline ops in if ltb deadline now then suc late else early
rounds timeout deadline (op ∷ ops) = rounds timeout deadline ops

module _ {M : Type 0} where
  abbrev pub apply : QosTracker M → Op M → QosTracker M
  apply t (op_register id device topic message now) = register_qos1 t id device topic message now
  apply t (op_ack id) = (ack t id).0
  apply t (op_cancel id) = cancel t id
  apply t (op_cancel_device device) = (cancel_for_device t device).0
  apply t (op_check now) = (check_timeouts t now).0

  abbrev pub run : QosTracker M → List (Op M) → QosTracker M
  run t [] = t
  run t (op ∷ ops) = run (apply t op) ops

  abbrev pub unless_device : String → Option (PendingAck M) → Option (PendingAck M)
  unless_device device none = none
  unless_device device (some p) = if p.device_id == device then none else some p

  -- What a call that does not register the identifier makes of its entry.
  abbrev entry_after :
      QosTrackerConfig → String → Option (PendingAck M) → Op M → Option (PendingAck M)
  entry_after config id o (op_register j device topic message now) = o
  entry_after config id o (op_ack j) = if j == id then none else o
  entry_after config id o (op_cancel j) = if j == id then none else o
  entry_after config id o (op_cancel_device device) = unless_device device o
  entry_after config id o (op_check now) = checked config now o

  pub lookup-ack :
      (t : QosTracker M) (j id : String)
      → lookup (ack t j).0.pending id ≡ (if j == id then none else lookup t.pending id)
  unfolding ack
  lookup-ack t j id = elim (Option-cases (lookup t.pending j)) [
    | inl e ↦ ground (arith, eq_iff j id)
    | inr (p, e) ↦ ground (arith, lookup-delete t.pending j id)
  ]

  lookup-cancel_loop :
      (m' : Dict (PendingAck M)) (device : String) (m : Dict (PendingAck M)) (count : ℕ)
      (j : String)
      → IsUnique m'
      → lookup (cancel_loop m' device m count).0 j ≡ elim (lookup m' j) [
        | none ↦ lookup m j
        | some p ↦ if p.device_id == device then none else lookup m j
      ]
  unfolding cancel_loop lookup
  lookup-cancel_loop [] device m count j u = refl
  lookup-cancel_loop ((id, p) ∷ rest) device m count j u = ground (
    arith,
    lookup-cancel_loop rest device (delete m id) (count + 1) j u.1,
    lookup-cancel_loop rest device m count j u.1,
    lookup-delete m id j,
    eq_iff id j,
    u.0,
  )

  pub lookup-cancel_for_device :
      (t : QosTracker M) (device id : String)
      → lookup (cancel_for_device t device).0.pending id
        ≡ unless_device device (lookup t.pending id)
  unfolding cancel_for_device
  lookup-cancel_for_device t device id = ground (
    arith,
    lookup-cancel_loop (entries t.pending) device t.pending 0 id (entries-IsUnique t.pending),
    lookup-entries t.pending id,
  )

  lookup-apply :
      (t : QosTracker M) (id : String) (op : Op M)
      → NotDrawn id (op ∷ [])
      → lookup (apply t op).pending id ≡ entry_after t.config id (lookup t.pending id) op
  lookup-apply t id (op_register j device topic message now) n =
      unfold register_qos1 in rw (lookup-put t.pending j _ id) (ground (arith, eq_iff j id, n.0))
  lookup-apply t id (op_ack j) n = lookup-ack t j id
  lookup-apply t id (op_cancel j) n = unfold cancel in lookup-delete t.pending j id
  lookup-apply t id (op_cancel_device device) n = lookup-cancel_for_device t device id
  lookup-apply t id (op_check now) n = lookup-check_timeouts t now id

  config-apply : (t : QosTracker M) (op : Op M) → (apply t op).config ≡ t.config
  config-apply t (op_register j device topic message now) = unfold register_qos1 in refl
  config-apply t (op_ack j) = unfold ack in ground arith
  config-apply t (op_cancel j) = unfold cancel in refl
  config-apply t (op_cancel_device device) = unfold cancel_for_device in refl
  config-apply t (op_check now) = unfold check_timeouts in refl

  -- The entry behind a sequence of calls.
  abbrev entry_run :
      QosTrackerConfig → String → Option (PendingAck M) → List (Op M) → Option (PendingAck M)
  entry_run config id o [] = o
  entry_run config id o (op ∷ ops) = entry_run config id (entry_after config id o op) ops

  pub NotDrawn-split :
      (id : String) (op : Op M) (ops : List (Op M))
      → NotDrawn id (op ∷ ops)
      → NotDrawn id (op ∷ []) × NotDrawn id ops
  NotDrawn-split id (op_register j device topic message now) ops n = ((n.0, tt), n.1)
  NotDrawn-split id (op_ack j) ops n = (tt, n)
  NotDrawn-split id (op_cancel j) ops n = (tt, n)
  NotDrawn-split id (op_cancel_device device) ops n = (tt, n)
  NotDrawn-split id (op_check now) ops n = (tt, n)

  lookup-run :
      (t : QosTracker M) (id : String) (ops : List (Op M))
      → NotDrawn id ops
      → lookup (run t ops).pending id ≡ entry_run t.config id (lookup t.pending id) ops
  lookup-run t id [] n = refl
  lookup-run t id (op ∷ ops) n =
      let (n0, n1) = NotDrawn-split id op ops n in
      lookup-run (apply t op) id ops n1 ∙ rw (config-apply t op, lookup-apply t id op n0) refl

  entry_run-none :
      (config : QosTrackerConfig) (id : String) (ops : List (Op M))
      → entry_run config id none ops ≡ none
  entry_run-none config id [] = refl
  entry_run-none config id (op_register j device topic message now ∷ ops) =
      entry_run-none config id ops
  entry_run-none config id (op_ack j ∷ ops) = ground (arith, entry_run-none config id ops)
  entry_run-none config id (op_cancel j ∷ ops) = ground (arith, entry_run-none config id ops)
  entry_run-none config id (op_cancel_device device ∷ ops) = entry_run-none config id ops
  entry_run-none config id (op_check now ∷ ops) = entry_run-none config id ops

  given_up :
      (config : QosTrackerConfig) (id : String) (p : PendingAck M) (ops : List (Op M))
      → config.max_retries < p.retry_count + rounds config.ack_timeout p.expires_at ops
      → p.retry_count ≤ config.max_retries
      → entry_run config id (some p) ops ≡ none
  given_up config id p [] h l = absurd (omega arith)
  given_up config id p (op_register j device topic message now ∷ ops) h l =
      given_up config id p ops h l
  given_up config id p (op_ack j ∷ ops) h l =
      ground (arith, given_up config id p ops h l, entry_run-none config id ops)
  given_up config id p (op_cancel j ∷ ops) h l =
      ground (arith, given_up config id p ops h l, entry_run-none config id ops)
  given_up config id p (op_cancel_device device ∷ ops) h l =
      ground (arith, given_up config id p ops h l, entry_run-none config id ops)
  given_up config id p (op_check now ∷ ops) h l = ground (
    arith,
    given_up config id p ops,
    given_up config id (retry config now p) ops,
    entry_run-none config id ops,
  )

-- A message that is pending, whose retries are not exhausted, and that no call registers anew, is gone
-- behind any sequence of calls in which more checks than the retries that are left come each after the
-- deadline that the one before has set.
pub message_given_up :
    {M : Type 0} (t : QosTracker M) (id : String) (p : PendingAck M) (ops : List (Op M))
    → lookup t.pending id ≡ some p
    → p.retry_count ≤ t.config.max_retries
    → NotDrawn id ops
    → t.config.max_retries < p.retry_count + rounds t.config.ack_timeout p.expires_at ops
    → lookup (run t ops).pending id ≡ none
message_given_up t id p ops f l n h =
    lookup-run t id ops n
    ∙ (ap (λ o. entry_run t.config id o ops) f ∙ given_up t.config id p ops h l)
