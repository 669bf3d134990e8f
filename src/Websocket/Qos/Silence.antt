-- ===== src/Websocket/Qos/Silence.antt =====
-- The callbacks of a QoSTracker: none is made for a message that was acknowledged.
use mathlib.Core.Path.{subst}
use nekzus.Prelude.{
  ℕ, ◌≡◌, ◌≢◌, refl, sym, ap, ◌∙◌, inl, inr, String, Bool, true, false, Option, none, some, List,
  [], ◌∷◌, ◌++◌, arith, eq_iff, ltb, leb, if◌then◌else◌, All,
}
use nekzus.Prelude.Dict.{
  Dict, lookup, entries, IsUnique, lookup-put_cases, lookup-delete, lookup-entries,
  entries-IsUnique,
}
use nekzus.Websocket.Qos.{
  PendingAck, QosTracker, QosTrackerConfig, Callback, timed_out, retried, new_qos_tracker,
  register_qos1, ack, cancel, check_timeouts, check_loop, after_check, store, retries_of,
  timeouts_of,
}
use nekzus.Websocket.Qos.Timeouts.{checked, lookup-check_timeouts}
use nekzus.Websocket.Qos.Runs.{
  Op, op_register, op_ack, op_cancel, op_cancel_device, op_check, NotDrawn, apply, run,
  unless_device, lookup-ack, lookup-cancel_for_device,
}

-- The message that a callback is about.
abbrev pub name_of : {M : Type 0} → Callback M → String
name_of (timed_out id device topic) = id
name_of (retried id device topic message attempt) = id

module _ {M : Type 0} where
  -- The callbacks of a sequence of calls.
  abbrev pub callbacks : QosTracker M → List (Op M) → List (Callback M)
  callbacks t [] = []
  callbacks t (op_check now ∷ ops) =
      let (t', made) = check_timeouts t now in made ++ callbacks t' ops
  callbacks t (op ∷ ops) = callbacks (apply t op) ops

  -- Every entry has a key and a message's name in the relation.
  abbrev Every : (String → String → Type 0) → QosTracker M → Type 0
  Every P t = (k : String) (p : PendingAck M) → lookup t.pending k ≡ some p → P k p.message_id

  abbrev Drawn : (String → String → Type 0) → Op M → Type 0
  Drawn P (op_register j device topic message now) = P j j
  Drawn P op = Unit

  check_names :
      (config : QosTrackerConfig) (now : ℕ) (o : Option (PendingAck M)) {p : PendingAck M}
      → checked config now o ≡ some p
      → (q : PendingAck M) × (o ≡ some q) × (p.message_id ≡ q.message_id)
  check_names config now none e = absurd cc
  check_names config now (some q) e = (q, refl, ground arith)

  unless_names :
      (device : String) (o : Option (PendingAck M)) {p : PendingAck M}
      → unless_device device o ≡ some p
      → o ≡ some p
  unless_names device none e = e
  unless_names device (some q) e = ground arith

  apply-Every :
      (P : String → String → Type 0) (t : QosTracker M) (op : Op M)
      → Every P t
      → Drawn P op
      → Every P (apply t op)
  unfolding register_qos1
  apply-Every P t (op_register j device topic message now) h d k p e =
      elim (lookup-put_cases t.pending j _ k p e) [
        | inl (f, g) ↦ subst (P k) (ap (λ q. q.message_id) g) (subst (λ i. P i j) f d)
        | inr g ↦ h k p g
      ]
  apply-Every P t (op_ack j) h d k p e = h k p (ground (arith, lookup-ack t j k))
  apply-Every P t (op_cancel j) h d k p e =
      h k p (unfold cancel in ground (arith, lookup-delete t.pending j k))
  apply-Every P t (op_cancel_device device) h d k p e =
      h k p
        (unless_names device (lookup t.pending k) (sym (lookup-cancel_for_device t device k) ∙ e))
  apply-Every P t (op_check now) h d k p e =
      let (q, f, n) =
        check_names t.config now (lookup t.pending k) (sym (lookup-check_timeouts t now k) ∙ e) in
      subst (P k) (sym n) (h k q f)

  run-Every :
      (P : String → String → Type 0) (ops : List (Op M)) (t : QosTracker M)
      → Every P t
      → All (Drawn P) ops
      → Every P (run t ops)
  run-Every P [] t h d = h
  run-Every P (op ∷ ops) t h d = run-Every P ops (apply t op) (apply-Every P t op h d.0) d.1

  Drawn-own : (ops : List (Op M)) → All (Drawn (λ k i. i ≡ k)) ops
  Drawn-own [] = tt
  Drawn-own (op_register j device topic message now ∷ ops) = (refl, Drawn-own ops)
  Drawn-own (op_ack j ∷ ops) = (tt, Drawn-own ops)
  Drawn-own (op_cancel j ∷ ops) = (tt, Drawn-own ops)
  Drawn-own (op_cancel_device device ∷ ops) = (tt, Drawn-own ops)
  Drawn-own (op_check now ∷ ops) = (tt, Drawn-own ops)

  Drawn-other : (id : String) (op : Op M) → NotDrawn id (op ∷ []) → Drawn (λ k i. i ≢ id) op
  Drawn-other id (op_register j device topic message now) n = n.0
  Drawn-other id (op_ack j) n = tt
  Drawn-other id (op_cancel j) n = tt
  Drawn-other id (op_cancel_device device) n = tt
  Drawn-other id (op_check now) n = tt

  -- The callbacks that are not about the message.
  abbrev pub AllOthers : String → List (Callback M) → Type 0
  AllOthers id made = All (λ c. name_of c ≢ id) made

  AllOthers-append :
      (id : String) (a b : List (Callback M))
      → AllOthers id a
      → AllOthers id b
      → AllOthers id (a ++ b)
  AllOthers-append id [] b ha hb = hb
  AllOthers-append id (c ∷ a) b ha hb = (ha.0, AllOthers-append id a b ha.1 hb)

  AllOthers-if :
      (id : String) (b : Bool) (x y : List (Callback M))
      → AllOthers id x
      → AllOthers id y
      → AllOthers id (if b then x else y)
  AllOthers-if id true x y hx hy = hx
  AllOthers-if id false x y hx hy = hy

  retries_of-AllOthers :
      (id : String) (config : QosTrackerConfig) (now : ℕ) (p : PendingAck M)
      → p.message_id ≢ id
      → AllOthers id (retries_of config now p)
  retries_of-AllOthers id config now p n =
      AllOthers-if id (ltb p.expires_at now) _ _
        (AllOthers-if id (leb config.max_retries p.retry_count) _ _ tt
          (AllOthers-if id config.on_retry _ _ (n, tt) tt))
        tt

  timeouts_of-AllOthers :
      (id : String) (config : QosTrackerConfig) (now : ℕ) (p : PendingAck M)
      → p.message_id ≢ id
      → AllOthers id (timeouts_of config now p)
  timeouts_of-AllOthers id config now p n =
      AllOthers-if id (ltb p.expires_at now) _ _
        (AllOthers-if id (leb config.max_retries p.retry_count) _ _
          (AllOthers-if id config.on_timeout _ _ (n, tt) tt) tt)
        tt

  check_loop-AllOthers :
      (id : String) (config : QosTrackerConfig) (now : ℕ) (m' m : Dict (PendingAck M))
      → All (λ e. e.1.message_id ≢ id) m'
      → AllOthers id (check_loop config now m' m).1.0
        × AllOthers id (check_loop config now m' m).1.1
  unfolding check_loop
  check_loop-AllOthers id config now [] m h = (tt, tt)
  check_loop-AllOthers id config now ((j, p) ∷ rest) m h =
      let (r, o) =
        check_loop-AllOthers id config now rest (store m j (after_check config now p)) h.1 in
      (
        AllOthers-append id (retries_of config now p) _ (retries_of-AllOthers id config now p h.0)
            r,
        AllOthers-append id (timeouts_of config now p) _ (timeouts_of-AllOthers id config now p h.0)
            o,
      )

  All-entries :
      (P : PendingAck M → Type 0) (m : Dict (PendingAck M))
      → IsUnique m
      → ((k : String) (p : PendingAck M) → lookup m k ≡ some p → P p)
      → All (λ e. P e.1) m
  unfolding lookup
  All-entries P [] u h = tt
  All-entries P ((j, p) ∷ m) u h = (
    h j p (ground (arith, eq_iff j j)),
    All-entries P m u.1 (λ k q e. h k q (ground (arith, eq_iff j k, u.0))),
  )

  check-AllOthers :
      (id : String) (t : QosTracker M) (now : ℕ)
      → Every (λ k i. i ≢ id) t
      → AllOthers id (check_timeouts t now).1
  check-AllOthers id t now h =
      let (r, o) = check_loop-AllOthers id t.config now (entries t.pending) t.pending (
        All-entries (λ p. p.message_id ≢ id) (entries t.pending) (entries-IsUnique t.pending)
          (λ k p e. h k p (sym (lookup-entries t.pending k) ∙ e))) in
      unfold check_timeouts in AllOthers-append id _ _ r o

  silent :
      (id : String) (ops : List (Op M)) (t : QosTracker M)
      → Every (λ k i. i ≢ id) t
      → NotDrawn id ops
      → AllOthers id (callbacks t ops)
  silent id [] t h n = tt
  silent id (op_check now ∷ ops) t h n =
      AllOthers-append id _ _ (check-AllOthers id t now h)
        (silent id ops _ (apply-Every (λ k i. i ≢ id) t (op_check now) h tt) n)
  silent id (op_register j device topic message now ∷ ops) t h n =
      silent id ops _ (apply-Every (λ k i. i ≢ id) t (op_register j device topic message now) h n.0)
        n.1
  silent id (op_ack j ∷ ops) t h n =
      silent id ops _ (apply-Every (λ k i. i ≢ id) t (op_ack j) h tt) n
  silent id (op_cancel j ∷ ops) t h n =
      silent id ops _ (apply-Every (λ k i. i ≢ id) t (op_cancel j) h tt) n
  silent id (op_cancel_device device ∷ ops) t h n =
      silent id ops _ (apply-Every (λ k i. i ≢ id) t (op_cancel_device device) h tt) n

  new-Every :
      (P : String → String → Type 0) (config : QosTrackerConfig) → Every P (new_qos_tracker config)
  unfolding new_qos_tracker lookup
  new-Every P config k p e = absurd (ground arith)

-- Whatever calls were made on a new tracker, once a message is acknowledged, no callback of the calls
-- that follow is about it, be it a retry or a time-out, as long as they do not register it anew.
pub acknowledged_silent :
    {M : Type 0} (config : QosTrackerConfig) (earlier later : List (Op M)) (id : String)
    → NotDrawn id later
    → AllOthers id (callbacks (ack (run (new_qos_tracker config) earlier) id).0 later)
acknowledged_silent config earlier later id n =
    let t = run (new_qos_tracker config) earlier in
    silent id later (ack t id).0
      (λ k p e. λ same.
        let f : lookup t.pending k ≡ some p = ground (arith, lookup-ack t id k) in
        let own : p.message_id ≡ k =
          run-Every (λ k i. i ≡ k) earlier (new_qos_tracker config)
            (new-Every (λ k i. i ≡ k) config) (Drawn-own earlier) k p f in
        ground (arith, lookup-ack t id k, eq_iff id k))
      n
