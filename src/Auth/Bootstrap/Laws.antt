-- ===== src/Auth/Bootstrap/Laws.antt =====
-- The rate limit and the single use of a short-lived token.
use nekzus.Prelude.{◌+◌, ◌≤◌, ◌≡◌, ◌↔◌, String, true, arith, eq_iff}
use nekzus.Prelude.Dict.{lookup-put, lookup-delete}
use nekzus.Auth.Bootstrap.{BootstrapStore, is_rate_limited, attempts, record_failed_pairing, forget}

-- A token is rate limited exactly when it has failed at least three times since it was last
-- forgotten.
abbrev pub IsConsistent : BootstrapStore → Type 0
IsConsistent bs = (token : String) → (is_rate_limited bs token ≡ true) ↔ (3 ≤ attempts bs token)

pub record_failed_pairing-IsConsistent :
    (bs : BootstrapStore) (token : String)
    → IsConsistent bs
    → IsConsistent (record_failed_pairing bs token)
unfolding record_failed_pairing is_rate_limited
record_failed_pairing-IsConsistent bs token h k = ground (
  arith,
  h k,
  h token,
  lookup-put bs.failed_attempts token (attempts bs token + 1) k,
  lookup-put bs.rate_limited token true k,
  eq_iff token k,
)

pub forget-IsConsistent :
    (bs : BootstrapStore) (token : String) → IsConsistent bs → IsConsistent (forget bs token)
unfolding is_rate_limited attempts
forget-IsConsistent bs token h k =
    ground
      (arith, h k, lookup-delete bs.failed_attempts token k, lookup-delete bs.rate_limited token k)

-- A failure adds one to the count of its token, and the third one limits it.
pub attempts-record_failed_pairing :
    (bs : BootstrapStore) (token : String)
    → attempts (record_failed_pairing bs token) token ≡ attempts bs token + 1
unfolding attempts record_failed_pairing
attempts-record_failed_pairing bs token =
    ground
      (arith, lookup-put bs.failed_attempts token (attempts bs token + 1) token, eq_iff token token)

pub record_failed_pairing_limits :
    (bs : BootstrapStore) (token : String)
    → 2 ≤ attempts bs token
    → is_rate_limited (record_failed_pairing bs token) token ≡ true
unfolding is_rate_limited record_failed_pairing
record_failed_pairing_limits bs token h =
    ground (arith, lookup-put bs.rate_limited token true token, eq_iff token token)
