-- ===== src/Auth/Bootstrap.antt =====
-- internal/auth/bootstrap.go: the bootstrap tokens for the pairing of devices. Tokens are only
-- compared,
-- so they are texts; the token that `GenerateShortLived` draws at random and the two environment
-- variables that `Validate` reads are arguments. `failedAttempts` is an int, which no run of the
-- program increments 2^63 times, so it is a number.
pub mod Laws
pub mod Runs
use nekzus.Prelude.{
  ℕ, ◌+◌, String, Bool, true, false, ◌&&◌, ◌||◌, not, Option, none, some, List, [], ◌∷◌, any, ltb,
  leb, ◌==◌, if◌then◌else◌, Result, ok, err,
}
use nekzus.Prelude.Dict.{Dict, lookup, put, delete, delete_where}

pub record BootstrapStore : Type 0 where
  pub permanent_tokens : List String
  pub short_lived_tokens : Dict ℕ
  pub failed_attempts : Dict ℕ
  pub rate_limited : Dict Bool
  pub stopped : Bool

-- NEKZUS_BOOTSTRAP_TOKEN, which is empty if it is not set, and whether NEKZUS_BOOTSTRAP_ALLOW_ANY
-- is "1".
pub record Env : Type 0 where
  pub bootstrap_token : String
  pub allow_any : Bool

abbrev pub max_pairing_attempts : ℕ
max_pairing_attempts = 3

-- The loop over the configured tokens.
unfoldable pub non_empty : List String → List String
non_empty [] = []
non_empty (token ∷ rest) = let kept = non_empty rest in if token == "" then kept else token ∷ kept

unfoldable pub new_bootstrap_store : List String → BootstrapStore
unfolding non_empty
new_bootstrap_store tokens = record {
  permanent_tokens = non_empty tokens;
  short_lived_tokens = [];
  failed_attempts = [];
  rate_limited = [];
  stopped = false;
}

-- bs.rateLimited[token]
unfoldable pub is_rate_limited : BootstrapStore → String → Bool
unfolding lookup
is_rate_limited bs token = elim (lookup bs.rate_limited token) [ none ↦ false | some b ↦ b ]

-- bs.failedAttempts[token]
unfoldable pub attempts : BootstrapStore → String → ℕ
unfolding lookup
attempts bs token = elim (lookup bs.failed_attempts token) [ none ↦ 0 | some n ↦ n ]

abbrev pub forget : BootstrapStore → String → BootstrapStore
forget bs token = record bs {
  short_lived_tokens = delete bs.short_lived_tokens token;
  failed_attempts = delete bs.failed_attempts token;
  rate_limited = delete bs.rate_limited token;
}

-- The rest of `validateShortLived` behind the test for the rate limit.
abbrev pub check_expiry : BootstrapStore → ℕ → String → Option ℕ → BootstrapStore × Bool
check_expiry bs now token none = (bs, false)
check_expiry bs now token (some expiry) =
    if ltb expiry now then (forget bs token, false) else (bs, true)

-- An expired token is deleted when it is looked up.
unfoldable pub validate_short_lived : BootstrapStore → ℕ → String → BootstrapStore × Bool
unfolding is_rate_limited lookup delete
validate_short_lived bs now token =
    if is_rate_limited bs token
    then (bs, false)
    else check_expiry bs now token (lookup bs.short_lived_tokens token)

unfoldable pub validate_permanent : BootstrapStore → String → Bool
validate_permanent bs token = any (λ perm. token == perm) bs.permanent_tokens

unfoldable pub validate : BootstrapStore → Env → ℕ → String → BootstrapStore × Bool
unfolding validate_short_lived validate_permanent
validate bs env now token =
    if token == ""
    then (bs, false)
    else (let (bs', short_lived) = validate_short_lived bs now token in
        if short_lived
        then (bs', true)
        else if validate_permanent bs' token
        then (bs', true)
        else if not (env.bootstrap_token == "") && token == env.bootstrap_token
        then (bs', true)
        else (bs', env.allow_any))

-- `drawn` is "temp_" and the random part, or nothing if the random source fails.
unfoldable pub generate_short_lived :
    BootstrapStore → Option String → ℕ → ℕ → BootstrapStore × Option String
unfolding put
generate_short_lived bs none now ttl = (bs, none)
generate_short_lived bs (some token) now ttl =
    (record bs { short_lived_tokens = put bs.short_lived_tokens token (now + ttl) }, some token)

unfoldable pub cleanup_expired : BootstrapStore → ℕ → BootstrapStore
unfolding delete_where
cleanup_expired bs now = record bs {
  short_lived_tokens = delete_where bs.short_lived_tokens (λ token expiry. ltb expiry now);
}

unfoldable pub record_failed_pairing : BootstrapStore → String → BootstrapStore
unfolding attempts put delete
record_failed_pairing bs token =
    let failed = attempts bs token + 1 in
    let bs' = record bs { failed_attempts = put bs.failed_attempts token failed } in
    if leb max_pairing_attempts failed
    then record bs' {
      rate_limited = put bs.rate_limited token true;
      short_lived_tokens = delete bs.short_lived_tokens token;
    }
    else bs'

unfoldable pub record_successful_pairing : BootstrapStore → String → BootstrapStore
unfolding delete
record_successful_pairing bs token = forget bs token

-- `Stop`; the second result tells whether this call closes the channel.
unfoldable pub stop : BootstrapStore → BootstrapStore × Bool
stop bs = if bs.stopped then (bs, false) else (record bs { stopped = true }, true)
