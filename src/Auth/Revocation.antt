-- ===== src/Auth/Revocation.antt =====
-- internal/auth/revocation.go. A time is a number of nanoseconds; every method is given the time that
-- it reads from the clock. `stopped` tells whether `Stop` has closed the clean-up's channel.
pub mod Laws
use nekzus.Prelude.{ℕ, String, Bool, true, false, not, Option, none, some, [], ltb, if◌then◌else◌}
use nekzus.Prelude.Dict.{Dict, lookup, put, delete_where, size}

pub record RevocationList : Type 0 where
  pub revoked_tokens : Dict ℕ
  pub revoked_devices : Dict ℕ
  pub stopped : Bool

pub new_revocation_list : RevocationList
new_revocation_list = record { revoked_tokens = []; revoked_devices = []; stopped = false }

unfoldable pub revoke : RevocationList → String → ℕ → RevocationList
unfolding put
revoke rl token_jti expiry = record rl { revoked_tokens = put rl.revoked_tokens token_jti expiry }

-- An entry holds until the clock is after its expiry.
unfoldable pub holds_at : ℕ → Option ℕ → Bool
holds_at now none = false
holds_at now (some expiry) = if ltb expiry now then false else true

unfoldable pub is_revoked : RevocationList → ℕ → String → Bool
unfolding holds_at lookup
is_revoked rl now token_jti = holds_at now (lookup rl.revoked_tokens token_jti)

unfoldable pub revoke_device : RevocationList → String → ℕ → RevocationList
unfolding put
revoke_device rl device_id expiry = record rl {
  revoked_devices = put rl.revoked_devices device_id expiry;
}

unfoldable pub is_device_revoked : RevocationList → ℕ → String → Bool
unfolding holds_at lookup
is_device_revoked rl now device_id = holds_at now (lookup rl.revoked_devices device_id)

unfoldable pub cleanup : RevocationList → ℕ → RevocationList
unfolding delete_where
cleanup rl now = record rl {
  revoked_tokens = delete_where rl.revoked_tokens (λ jti expiry. ltb expiry now);
  revoked_devices = delete_where rl.revoked_devices (λ device_id expiry. ltb expiry now);
}

-- (revoked_tokens, revoked_devices)
unfoldable pub stats : RevocationList → ℕ × ℕ
unfolding size
stats rl = (size rl.revoked_tokens, size rl.revoked_devices)

-- `Stop`; the second result tells whether this call closes the channel.
unfoldable pub stop : RevocationList → RevocationList × Bool
stop rl = if rl.stopped then (rl, false) else (record rl { stopped = true }, true)
