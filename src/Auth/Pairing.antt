-- ===== src/Auth/Pairing.antt =====
-- internal/auth/pairing.go: the short codes of the QR flow. `strings.ToUpper(strings.TrimSpace(code))`
-- is the parameter `normalize`; the code that `GenerateCode` draws at random is an argument. A time is a
-- number of nanoseconds, and a method reads the clock once. Neither counter of failures reaches 2^63 in
-- a run of the program, so they are numbers. What is logged, and the delay of a failed redemption, are
-- left out.
pub mod Redeem
pub mod Guessing
pub mod Consume
use nekzus.Prelude.{
  ℕ, ◌+◌, ◌-◌, ◌*◌, ◌/◌, String, Bool, true, false, ◌&&◌, ◌||◌, not, Option, none, some, List, [],
  ◌∷◌, ltb, leb, ◌==◌, if◌then◌else◌, Result, ok, err,
}
use nekzus.Prelude.Dict.{Dict, lookup, put, delete, delete_where, entries}

pub record PairingConfig : Type 0 where
  pub base_url : String
  pub name : String
  pub spki_pins : List String
  pub bootstrap_token : String
  pub capabilities : List String
  pub nekzus_id : String
  pub expires_at : ℕ

pub record PairingCode : Type 0 where
  pub code : String
  pub config : PairingConfig
  pub expires_at : ℕ
  pub redeemed : Bool
  pub used : Bool
  pub failed_count : ℕ
  pub locked_until : ℕ

pub record PairingManager : Type 0 where
  pub codes : Dict PairingCode
  pub ttl : ℕ
  pub global_failures : ℕ
  pub global_failure_reset : ℕ

abbrev pub second : ℕ
second = 1_000_000_000

abbrev pub max_failed_attempts_per_code : ℕ
max_failed_attempts_per_code = 5

abbrev pub code_lock_duration : ℕ
code_lock_duration = 5 * 60 * second

abbrev pub global_failure_threshold : ℕ
global_failure_threshold = 100

abbrev pub global_failure_window : ℕ
global_failure_window = 3600 * second

unfoldable pub new_pairing_manager : ℕ → PairingManager
new_pairing_manager now = record {
  codes = [];
  ttl = 5 * 60 * second;
  global_failures = 0;
  global_failure_reset = now + global_failure_window;
}

-- `drawn` is nothing if the random source fails. A new code's lock is the zero time.
unfoldable pub generate_code :
    PairingManager → Option String → PairingConfig → ℕ → PairingManager × Option String
unfolding put
generate_code pm none config now = (pm, none)
generate_code pm (some code) config now =
    let expires_at = now + pm.ttl in
    (
      record pm {
        codes = put pm.codes code (record {
          code = code;
          config = record config { expires_at = expires_at / second };
          expires_at = expires_at;
          redeemed = false;
          used = false;
          failed_count = 0;
          locked_until = 0;
        });
      },
      some code,
    )

-- "Reset counter if window has passed"
unfoldable pub reset_window : PairingManager → ℕ → PairingManager
reset_window pm now =
    if ltb pm.global_failure_reset now
    then record pm { global_failures = 0; global_failure_reset = now + global_failure_window }
    else pm

unfoldable pub is_globally_rate_limited : PairingManager → ℕ → PairingManager × Bool
unfolding reset_window
is_globally_rate_limited pm now =
    let pm' = reset_window pm now in (pm', leb global_failure_threshold pm'.global_failures)

unfoldable pub record_global_failure : PairingManager → ℕ → PairingManager
unfolding reset_window
record_global_failure pm now =
    let pm' = reset_window pm now in record pm' { global_failures = pm'.global_failures + 1 }

pub data RedeemError : Type 0 where
  too_many_attempts invalid_code : RedeemError

-- One more failure of a code that is used up, with the lock at the fifth.
abbrev pub count_failure : PairingCode → ℕ → PairingCode
count_failure pc now =
    let failed = pc.failed_count + 1 in
    if leb max_failed_attempts_per_code failed
    then record pc { failed_count = failed; locked_until = now + code_lock_duration }
    else record pc { failed_count = failed }

-- The rest of `RedeemCode` at the entry that the search finds.
unfoldable pub redeem_found :
    PairingManager
    → String
    → Option PairingCode
    → ℕ
    → PairingManager × Result RedeemError PairingConfig
unfolding record_global_failure put delete
redeem_found pm key none now = (record_global_failure pm now, err invalid_code)
redeem_found pm key (some pc) now =
    let failed = record_global_failure pm now in
    if ltb now pc.locked_until
    then (failed, err invalid_code)
    else if pc.used
    then (record failed { codes = put failed.codes key (count_failure pc now) }, err invalid_code)
    else if ltb pc.expires_at now
    then (record failed { codes = delete failed.codes key }, err invalid_code)
    else (record pm { codes = put pm.codes key (record pc { redeemed = true }) }, ok pc.config)

pub record CodeStatus : Type 0 where
  pub valid : Bool
  pub redeemed : Bool
  pub expired : Bool
  pub ttl : ℕ  -- seconds

-- The status of the entry that `GetCodeStatus` finds.
unfoldable pub status_of : PairingCode → ℕ → CodeStatus
status_of pc now =
    let redeemed = pc.used || pc.redeemed in
    if pc.used
    then record { valid = true; redeemed = redeemed; expired = false; ttl = 0 }
    else if ltb pc.expires_at now
    then record { valid = true; redeemed = redeemed; expired = true; ttl = 0 }
    else record {
      valid = true;
      redeemed = redeemed;
      expired = false;
      ttl = (pc.expires_at - now) / second;
    }

module _ (normalize : String → String) where
  -- `RedeemCode` behind the check of the global limit, under the manager's lock. The search compares each
  -- stored code with the given one, as a lookup does.
  unfoldable pub redeem_locked :
      PairingManager → String → ℕ → PairingManager × Result RedeemError PairingConfig
  unfolding redeem_found lookup
  redeem_locked pm code now =
      let key = normalize code in redeem_found pm key (lookup pm.codes key) now

  -- The whole call, where no other one comes between the check of the limit and the rest: these hold
  -- different locks. Calls that come in between are the steps of Pairing/Guessing.
  unfoldable pub redeem_code :
      PairingManager → String → ℕ → PairingManager × Result RedeemError PairingConfig
  unfolding is_globally_rate_limited redeem_locked
  redeem_code pm code now =
      let (pm', limited) = is_globally_rate_limited pm now in
      if limited then (pm', err too_many_attempts) else redeem_locked pm' code now

  -- GetCode
  unfoldable pub get_code : PairingManager → String → ℕ → Option PairingConfig
  unfolding lookup
  get_code pm code now = elim (lookup pm.codes (normalize code)) [
    | none ↦ none
    | some pc ↦ if pc.used || ltb pc.expires_at now then none else some pc.config
  ]

  unfoldable pub get_code_status : PairingManager → String → ℕ → CodeStatus
  unfolding lookup status_of
  get_code_status pm code now = elim (lookup pm.codes (normalize code)) [
    | none ↦ record { valid = false; redeemed = false; expired = false; ttl = 0 }
    | some pc ↦ status_of pc now
  ]

-- The first pair that a loop over the codes finds with the bootstrap token.
unfoldable pub find_token : Dict PairingCode → String → Option (String × PairingCode)
find_token [] token = none
find_token ((k, pc) ∷ rest) token =
    if pc.config.bootstrap_token == token then some (k, pc) else find_token rest token

unfoldable pub consume_by_bootstrap_token : PairingManager → String → PairingManager
unfolding find_token put entries
consume_by_bootstrap_token pm token = elim (find_token (entries pm.codes) token) [
  | none ↦ pm
  | some (k, pc) ↦ record pm { codes = put pm.codes k (record pc { used = true }) }
]

-- `cleanup`: a code is dropped one minute after its expiry.
unfoldable pub cleanup : PairingManager → ℕ → PairingManager
unfolding delete_where
cleanup pm now = record pm {
  codes = delete_where pm.codes (λ code pc. ltb (pc.expires_at + 60 * second) now);
}

-- The loop of `ActiveCodeCount`.
unfoldable pub count_active : Dict PairingCode → ℕ → ℕ
count_active [] now = 0
count_active ((k, pc) ∷ rest) now =
    let others = count_active rest now in
    if not pc.used && ltb now pc.expires_at then others + 1 else others

unfoldable pub active_code_count : PairingManager → ℕ → ℕ
unfolding count_active entries
active_code_count pm now = count_active (entries pm.codes) now
