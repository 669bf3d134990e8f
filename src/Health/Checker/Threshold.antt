-- ===== src/Health/Checker/Threshold.antt =====
-- The status of a service as a function of the results so far.
use nekzus.Prelude.{
  ℕ, ◌+◌, ◌<◌, ◌≡◌, refl, ap, ◌∙◌, String, true, Option, List, [], ◌∷◌, arith, eq_iff, leb, ◌==◌,
  if◌then◌else◌,
}
use nekzus.Prelude.Bytes.{Bytes}
use nekzus.Prelude.Dict.{put, lookup-put}
use nekzus.Health.Checker.{
  Status, healthy, unhealthy, unknown, ServiceHealthStatus, ServiceHealthChecker, AppInfo,
  threshold_of, with_result, get_or_create, update_health_status, mark_app_unhealthy,
}

-- The calls that change a status: the result of a probe, or a container stopped by an operator.
pub data Call : Type 0 where
  probed : String → Status → Bytes → ℕ → Option AppInfo → Call
  stopped : String → Bytes → ℕ → Option AppInfo → Call

abbrev pub apply : ServiceHealthChecker → Call → ServiceHealthChecker
apply c (probed app_id result message now info) =
    (update_health_status c app_id result message now info).0
apply c (stopped app_id reason now info) = (mark_app_unhealthy c app_id reason now info).0

abbrev pub run : ServiceHealthChecker → List Call → ServiceHealthChecker
run c [] = c
run c (call ∷ calls) = run (apply c call) calls

-- What is known of a service: its status and the failures since the last success.
pub record Known : Type 0 where
  pub status : Status
  pub failures : ℕ

-- A failure of a probe makes a service unhealthy from the threshold on, and healthy below it.
abbrev pub observe : ℕ → String → Known → Call → Known
observe threshold app_id k (probed other healthy message now info) =
    if other == app_id then record { status = healthy; failures = 0 } else k
observe threshold app_id k (probed other unhealthy message now info) =
    if other == app_id
    then record {
      status = if leb threshold (k.failures + 1) then unhealthy else healthy;
      failures = k.failures + 1;
    }
    else k
observe threshold app_id k (probed other unknown message now info) =
    if other == app_id then record k { status = unknown } else k
observe threshold app_id k (stopped other reason now info) =
    if other == app_id then record { status = unhealthy; failures = k.failures + 1 } else k

abbrev pub observe_all : ℕ → String → Known → List Call → Known
observe_all threshold app_id k [] = k
observe_all threshold app_id k (call ∷ calls) =
    observe_all threshold app_id (observe threshold app_id k call) calls

abbrev pub known : ServiceHealthChecker → String → Known
known c app_id =
    let s = get_or_create c app_id in
    record { status = s.status; failures = s.consecutive_failures }

get_or_create-put :
    (c : ServiceHealthChecker) (other app_id : String) (s : ServiceHealthStatus)
    → get_or_create (record c { health_status = put c.health_status other s }) app_id
      ≡ (if other == app_id then s else get_or_create c app_id)
unfolding get_or_create
get_or_create-put c other app_id s = ground (arith, lookup-put c.health_status other s app_id)

same_entry :
    (c : ServiceHealthChecker) (other app_id : String)
    → (other == app_id) ≡ true
    → get_or_create c other ≡ get_or_create c app_id
same_entry c other app_id e = ap (get_or_create c) ((eq_iff other app_id).0 e)

known-apply :
    (c : ServiceHealthChecker) (app_id : String) (call : Call)
    → known (apply c call) app_id ≡ observe (threshold_of c) app_id (known c app_id) call
unfolding update_health_status mark_app_unhealthy
known-apply c app_id (probed other healthy message now info) = ground (
  arith,
  same_entry c other app_id,
  get_or_create-put c other app_id (with_result c (get_or_create c other) healthy message now),
)
known-apply c app_id (probed other unhealthy message now info) = ground (
  arith,
  same_entry c other app_id,
  get_or_create-put c other app_id (with_result c (get_or_create c other) unhealthy message now),
)
known-apply c app_id (probed other unknown message now info) = ground (
  arith,
  same_entry c other app_id,
  get_or_create-put c other app_id (with_result c (get_or_create c other) unknown message now),
)
known-apply c app_id (stopped other reason now info) = ground (
  arith,
  same_entry c other app_id,
  get_or_create-put c other app_id (record (get_or_create c other) {
    status = unhealthy;
    error_message = reason;
    last_check_time = now;
    consecutive_failures = (get_or_create c other).consecutive_failures + 1;
  }),
)

threshold-apply :
    (c : ServiceHealthChecker) (call : Call) → threshold_of (apply c call) ≡ threshold_of c
unfolding update_health_status mark_app_unhealthy
threshold-apply c (probed other result message now info) = refl
threshold-apply c (stopped other reason now info) = refl

-- Behind any calls on any services, the status of a service and the count of its failures are what the
-- calls for that service make of its former ones: a success is healthy and clears the count, a failed
-- probe is unhealthy from the threshold on and healthy below it, a container that was stopped is
-- unhealthy, and a probe that could not be made is unknown and leaves the count.
pub known-run :
    (calls : List Call) (c : ServiceHealthChecker) (app_id : String)
    → known (run c calls) app_id ≡ observe_all (threshold_of c) app_id (known c app_id) calls
known-run [] c app_id = refl
known-run (call ∷ calls) c app_id =
    known-run calls (apply c call) app_id
    ∙ rw (threshold-apply c call, known-apply c app_id call) refl

-- A service whose container was stopped is announced as healthy by the next probe that fails, where the
-- failures so far, with these two, are below the threshold.
pub stopped_then_failed :
    (c : ServiceHealthChecker) (app_id : String) (reason message : Bytes) (now later : ℕ)
    (info : Option AppInfo)
    → (known c app_id).failures + 2 < threshold_of c
    → (known
        (run c (stopped app_id reason now info ∷ probed app_id unhealthy message later info ∷ []))
        app_id).status
      ≡ healthy
stopped_then_failed c app_id reason message now later info h =
    ap (λ k. k.status)
      (known-run (stopped app_id reason now info ∷ probed app_id unhealthy message later info ∷ [])
        c app_id)
    ∙ ground (arith, eq_iff app_id app_id)
