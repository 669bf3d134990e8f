-- ===== src/Websocket/Examples.antt =====
-- Topics of containers and tracked messages, on which the theorems are applied.
use nekzus.Prelude.{◌≡◌, ◌≢◌, ◌↔◌, refl, String, true, false, none, some, List, [], ◌∷◌, arith}
use nekzus.Prelude.Dict.{lookup}
use nekzus.Websocket.Dedup as Dedup
use nekzus.Websocket.Qos.{PendingAck, QosTracker, QosTrackerConfig, pending, ack, new_qos_tracker}
use nekzus.Websocket.Qos.Runs.{Op, op_register, op_ack, op_check, run, message_given_up}
use nekzus.Websocket.Qos.Silence.{AllOthers, callbacks, acknowledged_silent}
use nekzus.Prelude.Bytes.{Bytes, bytes}
use nekzus.Websocket.Topics.{split_parts, match_topic, validate_topic, validate_pattern}
use nekzus.Websocket.Topics.Matching.{Covers, match_topic-Covers}

abbrev logs : Bytes
logs = bytes "container.logs"

abbrev any_container : Bytes
any_container = bytes "container.+.#"

covers_logs : match_topic any_container logs ≡ true
unfolding match_topic split_parts
covers_logs = refl

match_topic-Covers_example :
    (match_topic any_container logs ≡ true)
    ↔ ((any_container ≢ []) × (logs ≢ []) × Covers (split_parts any_container) (split_parts logs))
match_topic-Covers_example = match_topic-Covers any_container logs

logs_valid : validate_topic logs ≡ none
unfolding validate_topic
logs_valid = refl

any_container_valid : validate_pattern any_container ≡ none
unfolding validate_pattern
any_container_valid = refl

abbrev config : QosTrackerConfig
config = record { ack_timeout = 10; max_retries = 1; on_timeout = true; on_retry = true }

abbrev restart : PendingAck String
restart = record {
  message_id = "m1";
  device_id = "phone";
  topic = "container.restart";
  message = "nginx";
  status = pending;
  retry_count = 0;
  sent_at = 0;
  expires_at = 10;
}

abbrev tracker : QosTracker String
tracker = record { pending = ("m1", restart) ∷ []; config = config }

abbrev checks : List (Op String)
checks = op_check 11 ∷ op_ack "m2" ∷ op_check 12 ∷ op_check 22 ∷ []

restart_pending : lookup tracker.pending "m1" ≡ some restart
unfolding lookup
restart_pending = refl

message_given_up_example : lookup (run tracker checks).pending "m1" ≡ none
message_given_up_example =
    message_given_up tracker "m1" restart checks restart_pending (omega arith) tt (omega arith)

abbrev sending : List (Op String)
sending =
    op_register "m1" "phone" "container.restart" "nginx" 0
    ∷ op_register "m2" "phone" "container.stop" "redis" 1
    ∷ []

acknowledged_silent_example :
    AllOthers "m1" (callbacks (ack (run (new_qos_tracker config) sending) "m1").0 checks)
acknowledged_silent_example = acknowledged_silent config sending checks "m1" tt

abbrev processed : Dedup.Qos2Tracker
processed = record { processed = []; dedup_window = 100 }

abbrev later_calls : List Dedup.Op
later_calls = Dedup.op_register "m2" "phone" 20 ∷ Dedup.op_clean 50 ∷ []

accepted : (Dedup.register processed "m1" "phone" 10).1 ≡ true
accepted = unfold Dedup.register lookup in refl

register_once_example :
    ((Dedup.register
        (Dedup.run (Dedup.register processed "m1" "phone" 10).0 later_calls)
        "m1"
        "phone"
        90).1
      ≡ false)
    × (Dedup.is_processed
          (Dedup.run (Dedup.register processed "m1" "phone" 10).0 later_calls)
          "m1"
          "phone"
          90
        ≡ true)
register_once_example =
    Dedup.register_once processed "m1" "phone" 10 90 later_calls accepted (omega arith)
      (omega arith, (omega arith, tt))
