-- ===== src/Auth/Examples.antt =====
-- Concrete tokens and codes, on which the theorems are applied.
use nekzus.Prelude.{
  ◌+◌, ◌≡◌, ◌≢◌, ◌↔◌, ◌≤◌, refl, String, true, false, some, List, [], ◌∷◌, arith, eq_iff, leb, ok,
  All,
}
use nekzus.Prelude.Bytes.{Bytes, bytes}
use nekzus.Prelude.Dict.{lookup, put}
use nekzus.Auth.Revocation.{is_revoked, is_device_revoked, new_revocation_list}
use nekzus.Auth.Revocation.Laws as revocation
use nekzus.Auth.Scopes.{Json, text, other, array, has_all_scopes}
use nekzus.Auth.Scopes.Laws.{Grants, has_all_scopes-Grants}
use nekzus.Auth.Bootstrap.{
  BootstrapStore, new_bootstrap_store, validate_short_lived, generate_short_lived, is_rate_limited,
}
use nekzus.Auth.Bootstrap.Laws.{IsConsistent}
use nekzus.Auth.Bootstrap.Runs as bootstrap
use nekzus.Auth.Bootstrap.Runs.{fail_three}
use nekzus.Auth.Pairing.{
  PairingManager, PairingCode, PairingConfig, new_pairing_manager, generate_code, redeem_code,
  consume_by_bootstrap_token, is_globally_rate_limited,
}
use nekzus.Auth.Pairing.Redeem.{IsRedeemable, redeem_code-ok_iff}
use nekzus.Auth.Pairing.Guessing.{
  Step, step_check, step_redeem, step, wrong, AtOnce, wrong-answers-le,
}
use nekzus.Auth.Pairing.Consume as consume

abbrev revocations : List revocation.Op
revocations =
    revocation.op_revoke "jti" 5
    ∷ revocation.op_revoke_device "phone" 9
    ∷ revocation.op_cleanup 6
    ∷ []

cleanups_unseen_example :
    (is_revoked (revocation.run new_revocation_list revocations) 8 "jti"
      ≡ is_revoked
          (revocation.run new_revocation_list (revocation.without_cleanups revocations))
          8
          "jti")
    × (is_device_revoked (revocation.run new_revocation_list revocations) 8 "jti"
        ≡ is_device_revoked
            (revocation.run new_revocation_list (revocation.without_cleanups revocations))
            8
            "jti")
cleanups_unseen_example =
    revocation.cleanups_unseen 8 revocations new_revocation_list "jti" (omega arith, tt)

abbrev granted : List Json
granted = text (bytes "read:catalog") ∷ other ∷ text (bytes "access:*") ∷ []

abbrev required : List Bytes
required = bytes "access:mqtt" ∷ bytes "read:catalog" ∷ []

has_all_scopes-Grants_example :
    (has_all_scopes (array granted) required ≡ true) ↔ All (λ r. Grants r granted) required
has_all_scopes-Grants_example = has_all_scopes-Grants granted required

abbrev store : BootstrapStore
store = new_bootstrap_store ("permanent" ∷ "" ∷ [])

abbrev calls : List bootstrap.Op
calls =
    bootstrap.op_generate (some "temp_a") 10 5
    ∷ bootstrap.op_failed "temp_b"
    ∷ bootstrap.op_validate (record { bootstrap_token = ""; allow_any = false }) 12 "temp_a"
    ∷ bootstrap.op_successful "temp_b"
    ∷ []

run-IsConsistent_example :
    IsConsistent (bootstrap.run (new_bootstrap_store ("permanent" ∷ [])) calls)
run-IsConsistent_example = bootstrap.run-IsConsistent ("permanent" ∷ []) calls

fail_three_invalidates_example :
    (validate_short_lived (bootstrap.run (fail_three store "temp_a") calls) 12 "temp_a").1 ≡ false
fail_three_invalidates_example =
    bootstrap.fail_three_invalidates store "temp_a" calls 12
      (λ e. absurd (ground (arith, eq_iff "temp_b" "temp_a")), tt)

abbrev other_calls : List bootstrap.Op
other_calls = bootstrap.op_generate (some "temp_b") 10 5 ∷ bootstrap.op_cleanup 11 ∷ []

validate-generate_example :
    (validate_short_lived (generate_short_lived store (some "temp_a") 10 5).0 15 "temp_a").1
    ≡ leb 15 (10 + 5)
validate-generate_example =
    bootstrap.validate-generate store "temp_a" 10 5 15
      (unfold is_rate_limited new_bootstrap_store in refl)

-- Codes that are written in capitals and without spaces are normal.
abbrev normalize : String → String
normalize code = code

abbrev config : PairingConfig
config = record {
  base_url = "https://hub.local";
  name = "hub";
  spki_pins = [];
  bootstrap_token = "temp_a";
  capabilities = "catalog" ∷ [];
  nekzus_id = "nkz";
  expires_at = 0;
}

abbrev manager : PairingManager
manager = (generate_code (new_pairing_manager 0) (some "ABCD-2345") config 0).0

redeem_code-ok_iff_example : ((redeem_code normalize manager "ABCD-2345" 7).1 ≡ ok config) ↔ (
    (pc : PairingCode) × ((is_globally_rate_limited manager 7).1 ≡ false)
    × (lookup manager.codes "ABCD-2345" ≡ some pc)
    × IsRedeemable pc 7
    × (pc.config ≡ config))
redeem_code-ok_iff_example = redeem_code-ok_iff normalize manager "ABCD-2345" 7 config

-- Two attempts, of which both pass the check before one of them gets the lock.
abbrev two_guesses : List Step
two_guesses =
    step_check "ABCD-2346" 3 ∷ step_check "ABCD-2347" 3 ∷ step_redeem 1 4 ∷ step_redeem 0 4 ∷ []

two_guesses-AtOnce : AtOnce normalize 2 (record { manager = manager; waiting = [] }) two_guesses
unfolding AtOnce step generate_code new_pairing_manager is_globally_rate_limited
two_guesses-AtOnce = (omega arith, (omega arith, (omega arith, (omega arith, tt))))

wrong-answers-le_example :
    wrong normalize (record { manager = manager; waiting = [] }) two_guesses
      + manager.global_failures
    ≤ 101
wrong-answers-le_example =
    wrong-answers-le normalize 2 manager two_guesses (omega arith)
      (unfold generate_code new_pairing_manager in
        (omega arith, (omega arith, (omega arith, (omega arith, tt)))))
      two_guesses-AtOnce (unfold generate_code new_pairing_manager in omega arith)

abbrev stored : PairingCode
stored = record {
  code = "ABCD-2345";
  config = record config { expires_at = 300 };
  expires_at = 300_000_000_000;
  redeemed = false;
  used = false;
  failed_count = 0;
  locked_until = 0;
}

consumed_for_good_example :
    (redeem_code normalize
      (consume.run normalize
        (consume_by_bootstrap_token manager "temp_a")
        (consume.op_redeem "ABCD-2345" 3 ∷ consume.op_cleanup 4 ∷ []))
      "ABCD-2345"
      7).1
    ≢ ok config
consumed_for_good_example =
    consume.consumed_for_good normalize manager "ABCD-2345" "temp_a" stored
      (consume.op_redeem "ABCD-2345" 3 ∷ consume.op_cleanup 4 ∷ []) 7 config
      (unfold generate_code new_pairing_manager put lookup in refl) refl
      (λ k p f t.
        unfold generate_code new_pairing_manager put lookup in ground (arith, eq_iff "ABCD-2345" k))
      tt
