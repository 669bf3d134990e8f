-- ===== src/Websocket/Dedup.antt =====
-- internal/websocket/qos.go, QoS2Tracker: the messages that were processed, for exactly-once delivery.
-- A time is a number of nanoseconds; a method reads the clock once.
use Prim.Native.String.{◌++◌ as ◌<>◌}
use nekzus.Prelude.{
  ℕ, ◌+◌, ◌*◌, ◌≤◌, ◌≡◌, ◌≢◌, String, Bool, true, false, not, Option, none, some, List, [], ◌∷◌,
  ltb, nat_beq, if◌then◌else◌, arith, eq_iff, Option-cases, inl, inr,
}
use nekzus.Prelude.Dict.{
  Dict, lookup, put, delete, delete_where, size, lookup-put, lookup-delete, lookup-delete_where,
}

pub record Qos2Entry : Type 0 where
  pub device_id : String
  pub expires_at : ℕ

pub record Qos2Tracker : Type 0 where
  pub processed : Dict Qos2Entry
  pub dedup_window : ℕ

-- The default of the window is five minutes.
unfoldable pub new_qos2_tracker : ℕ → Qos2Tracker
new_qos2_tracker dedup_window = record {
  processed = [];
  dedup_window = if nat_beq dedup_window 0 then 5 * 60 * 1_000_000_000 else dedup_window;
}

abbrev pub key_of : String → String → String
key_of message_id device_id = message_id <> (":" <> device_id)

abbrev pub is_live : ℕ → Option Qos2Entry → Bool
is_live now none = false
is_live now (some entry) = not (ltb entry.expires_at now)

-- Register; the second result tells whether the message is new. An expired entry is deleted and then
-- written anew.
unfoldable pub register : Qos2Tracker → String → String → ℕ → Qos2Tracker × Bool
unfolding lookup put
register t message_id device_id now =
    let key = key_of message_id device_id in
    if is_live now (lookup t.processed key) then (t, false) else (
      record t {
        processed =
            put t.processed key
              (record { device_id = device_id; expires_at = now + t.dedup_window });
      },
      true,
    )

unfoldable pub is_processed : Qos2Tracker → String → String → ℕ → Bool
unfolding lookup
is_processed t message_id device_id now =
    is_live now (lookup t.processed (key_of message_id device_id))

-- `Complete` does nothing.
unfoldable pub complete : Qos2Tracker → String → String → Qos2Tracker
complete t message_id device_id = t

unfoldable pub remove : Qos2Tracker → String → String → Qos2Tracker
unfolding delete
remove t message_id device_id = record t {
  processed = delete t.processed (key_of message_id device_id);
}

unfoldable pub clean_expired : Qos2Tracker → ℕ → Qos2Tracker
unfolding delete_where
clean_expired t now = record t {
  processed = delete_where t.processed (λ key entry. ltb entry.expires_at now);
}

unfoldable pub processed_count : Qos2Tracker → ℕ
unfolding size
processed_count t = size t.processed

pub data Op : Type 0 where
  op_register op_remove : String → String → ℕ → Op
  op_clean : ℕ → Op

abbrev pub apply : Qos2Tracker → Op → Qos2Tracker
apply t (op_register message_id device_id now) = (register t message_id device_id now).0
apply t (op_remove message_id device_id now) = remove t message_id device_id
apply t (op_clean now) = clean_expired t now

abbrev pub run : Qos2Tracker → List Op → Qos2Tracker
run t [] = t
run t (op ∷ ops) = run (apply t op) ops

-- The calls are made up to the time, and none of them removes the key.
abbrev pub KeepsUntil : String → ℕ → List Op → Type 0
KeepsUntil key last [] = Unit
KeepsUntil key last (op_register message_id device_id now ∷ ops) =
    (now ≤ last) × KeepsUntil key last ops
KeepsUntil key last (op_remove message_id device_id now ∷ ops) =
    (key_of message_id device_id ≢ key) × KeepsUntil key last ops
KeepsUntil key last (op_clean now ∷ ops) = (now ≤ last) × KeepsUntil key last ops

-- The key's entry expires at the time or later.
abbrev HeldUntil : String → ℕ → Qos2Tracker → Type 0
HeldUntil key last t = is_live last (lookup t.processed key) ≡ true

register-HeldUntil :
    (t : Qos2Tracker) (key : String) (last : ℕ) (message_id device_id : String) (now : ℕ)
    → now ≤ last
    → HeldUntil key last t
    → HeldUntil key last (register t message_id device_id now).0
unfolding register
register-HeldUntil t key last message_id device_id now l h =
    elim (Option-cases (lookup t.processed key)) [
      | inl e ↦ absurd (ground arith)
      | inr (entry, e) ↦ ground (
        arith,
        lookup-put t.processed (key_of message_id device_id)
            (record { device_id = device_id; expires_at = now + t.dedup_window }) key,
        eq_iff (key_of message_id device_id) key,
      )
    ]

held_run :
    (t : Qos2Tracker) (key : String) (last : ℕ) (ops : List Op)
    → KeepsUntil key last ops
    → HeldUntil key last t
    → HeldUntil key last (run t ops)
held_run t key last [] k h = h
held_run t key last (op_register message_id device_id now ∷ ops) k h =
    held_run (register t message_id device_id now).0 key last ops k.1
      (register-HeldUntil t key last message_id device_id now k.0 h)
held_run t key last (op_remove message_id device_id now ∷ ops) k h =
    held_run (remove t message_id device_id) key last ops k.1 (
      unfold remove in
      ground (
        arith,
        lookup-delete t.processed (key_of message_id device_id) key,
        eq_iff (key_of message_id device_id) key,
        k.0,
      ))
held_run t key last (op_clean now ∷ ops) k h =
    held_run (clean_expired t now) key last ops k.1 (elim (Option-cases (lookup t.processed key)) [
      | inl e ↦ absurd (ground arith)
      | inr (entry, e) ↦
          unfold clean_expired in
          ground (arith, lookup-delete_where t.processed (λ j w. ltb w.expires_at now) key, k.0)
    ])

-- Exactly once: where `Register` accepts a message, then behind any calls up to a time within the
-- window, none of which removes the message, `Register` refuses it, and `IsProcessed` holds of it.
pub register_once :
    (t : Qos2Tracker) (message_id device_id : String) (now last : ℕ) (ops : List Op)
    → (register t message_id device_id now).1 ≡ true
    → last ≤ now + t.dedup_window
    → KeepsUntil (key_of message_id device_id) last ops
    → ((register (run (register t message_id device_id now).0 ops) message_id device_id last).1
        ≡ false)
      × (is_processed (run (register t message_id device_id now).0 ops) message_id device_id last
          ≡ true)
register_once t message_id device_id now last ops new l k =
    let key = key_of message_id device_id in
    let held : HeldUntil key last (register t message_id device_id now).0 =
      unfold register in
      ground (
        arith,
        lookup-put t.processed key
            (record { device_id = device_id; expires_at = now + t.dedup_window }) key,
        eq_iff key key,
      ) in
    let later = held_run (register t message_id device_id now).0 key last ops k held in
    (unfold register in ground arith, unfold is_processed in later)
