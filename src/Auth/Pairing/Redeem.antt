-- ===== src/Auth/Pairing/Redeem.antt =====
-- When a pairing code gives its configuration.
use nekzus.Prelude.{
  ℕ, ◌≤◌, ◌≡◌, ◌↔◌, String, true, false, refl, Option, none, some, arith, if◌then◌else◌, ok, err,
  Bool-cases, inl, inr,
}
use nekzus.Prelude.Dict.{lookup, put}
use nekzus.Auth.Pairing.{
  PairingCode, PairingConfig, PairingManager, too_many_attempts, redeem_code, redeem_found,
  is_globally_rate_limited, reset_window,
}

-- The code can be redeemed: it is not locked, not used up and not expired.
pub record IsRedeemable (pc : PairingCode) (now : ℕ) : Type 0 where
  pub unlocked : pc.locked_until ≤ now
  pub unused : pc.used ≡ false
  pub unexpired : now ≤ pc.expires_at

pub codes-reset_window : (pm : PairingManager) (now : ℕ) → (reset_window pm now).codes ≡ pm.codes
unfolding reset_window
codes-reset_window pm now = ground arith

found_ok :
    (pm : PairingManager) (key : String) (o : Option PairingCode) (now : ℕ) {config : PairingConfig}
    → (redeem_found pm key o now).1 ≡ ok config
    → (pc : PairingCode) × (o ≡ some pc) × IsRedeemable pc now × (pc.config ≡ config)
unfolding redeem_found
found_ok pm key none now h = absurd cc
found_ok pm key (some pc) now h = (
  pc,
  refl,
  record { unlocked = ground arith; unused = ground arith; unexpired = ground arith },
  ground arith,
)

redeemable_ok :
    (pm : PairingManager) (key : String) (pc : PairingCode) (now : ℕ)
    → IsRedeemable pc now
    → redeem_found pm key (some pc) now
      ≡ (record pm { codes = put pm.codes key (record pc { redeemed = true }) }, ok pc.config)
unfolding redeem_found
redeemable_ok pm key pc now h = ground arith

module _ (normalize : String → String) where
  pub redeem_code_lem :
      (pm : PairingManager) (code : String) (now : ℕ)
      → redeem_code normalize pm code now ≡ (
          if (is_globally_rate_limited pm now).1
          then (reset_window pm now, err too_many_attempts)
          else redeem_found
              (reset_window pm now)
              (normalize code)
              (lookup pm.codes (normalize code))
              now)
  redeem_code_lem pm code now = unfold redeem_code in ground (arith, codes-reset_window pm now)

  -- A redemption succeeds exactly where the global limit is not reached and the stored code is not
  -- locked, not used up and not expired; it gives the stored configuration.
  pub redeem_code-ok_iff :
      (pm : PairingManager) (code : String) (now : ℕ) (config : PairingConfig)
      → ((redeem_code normalize pm code now).1 ≡ ok config) ↔ (
          (pc : PairingCode) × ((is_globally_rate_limited pm now).1 ≡ false)
          × (lookup pm.codes (normalize code) ≡ some pc)
          × IsRedeemable pc now
          × (pc.config ≡ config))
  redeem_code-ok_iff pm code now config = (to, from)
    where
      key : String
      key = normalize code

      to :
          (redeem_code normalize pm code now).1 ≡ ok config
          → (pc : PairingCode) × ((is_globally_rate_limited pm now).1 ≡ false)
            × (lookup pm.codes key ≡ some pc)
            × IsRedeemable pc now
            × (pc.config ≡ config)
      to h = elim (Bool-cases (is_globally_rate_limited pm now).1) [
        | inl l ↦ absurd (ground (arith, redeem_code_lem pm code now))
        | inr l ↦
            let (pc, e, r, c) =
              found_ok (reset_window pm now) key (lookup pm.codes key) now {config = config}
                (ground (arith, redeem_code_lem pm code now)) in
            (pc, l, e, r, c)
      ]

      from :
          ((pc : PairingCode) × ((is_globally_rate_limited pm now).1 ≡ false)
            × (lookup pm.codes key ≡ some pc)
            × IsRedeemable pc now
            × (pc.config ≡ config))
          → (redeem_code normalize pm code now).1 ≡ ok config
      from (pc, l, e, r, c) =
          ground
            (arith, redeem_code_lem pm code now, redeemable_ok (reset_window pm now) key pc now r)
