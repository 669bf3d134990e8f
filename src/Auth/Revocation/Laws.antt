-- ===== src/Auth/Revocation/Laws.antt =====
-- A revocation holds until it expires, and the clean-up cannot be seen.
use nekzus.Prelude.{
  ℕ, ◌≤◌, ◌≡◌, String, refl, Option, none, some, List, [], ◌∷◌, arith, ltb, leb, ◌==◌,
  if◌then◌else◌,
}
use nekzus.Prelude.Dict.{lookup, lookup-put, lookup-delete_where, keep_unless}
use nekzus.Auth.Revocation.{
  RevocationList, revoke, revoke_device, is_revoked, is_device_revoked, holds_at, cleanup,
}

-- A token that was revoked is revoked up to its expiry and not after, and no other token's answer
-- changes.
pub is_revoked-revoke :
    (rl : RevocationList) (jti : String) (expiry now : ℕ) (other : String)
    → is_revoked (revoke rl jti expiry) now other
      ≡ (if jti == other then leb now expiry else is_revoked rl now other)
unfolding is_revoked revoke
is_revoked-revoke rl jti expiry now other =
    ground (arith, lookup-put rl.revoked_tokens jti expiry other)

holds-keep :
    (now later : ℕ) (o : Option ℕ)
    → now ≤ later
    → holds_at later (keep_unless (λ expiry. ltb expiry now) o) ≡ holds_at later o
unfolding holds_at
holds-keep now later none h = refl
holds-keep now later (some e) h = ground arith

-- A step of the program on the list.
pub data Op : Type 0 where
  op_revoke op_revoke_device : String → ℕ → Op
  op_cleanup : ℕ → Op

abbrev pub apply : RevocationList → Op → RevocationList
apply rl (op_revoke jti expiry) = revoke rl jti expiry
apply rl (op_revoke_device id expiry) = revoke_device rl id expiry
apply rl (op_cleanup now) = cleanup rl now

abbrev pub run : RevocationList → List Op → RevocationList
run rl [] = rl
run rl (op ∷ ops) = run (apply rl op) ops

-- The same steps, with the clean-ups left out.
abbrev pub without_cleanups : List Op → List Op
without_cleanups [] = []
without_cleanups (op_revoke jti expiry ∷ ops) = op_revoke jti expiry ∷ without_cleanups ops
without_cleanups (op_revoke_device id expiry ∷ ops) =
    op_revoke_device id expiry ∷ without_cleanups ops
without_cleanups (op_cleanup now ∷ ops) = without_cleanups ops

-- No clean-up of the steps happens after the time.
abbrev pub CleanedBy : ℕ → List Op → Type 0
CleanedBy t [] = Unit
CleanedBy t (op_cleanup now ∷ ops) = (now ≤ t) × CleanedBy t ops
CleanedBy t (op_revoke jti expiry ∷ ops) = CleanedBy t ops
CleanedBy t (op_revoke_device id expiry ∷ ops) = CleanedBy t ops

-- Two lists that answer alike at a time.
record SameAnswers (t : ℕ) (a b : RevocationList) : Type 0 where
  tokens : (k : String) → is_revoked a t k ≡ is_revoked b t k
  devices : (k : String) → is_device_revoked a t k ≡ is_device_revoked b t k

cleanup_unseen :
    (t now : ℕ) (a b : RevocationList)
    → now ≤ t
    → SameAnswers t a b
    → SameAnswers t (cleanup a now) b
unfolding cleanup is_revoked is_device_revoked
cleanup_unseen t now a b h s = record {
  tokens = λ k. ground (
    arith,
    lookup-delete_where a.revoked_tokens (λ jti e. ltb e now) k,
    holds-keep now t (lookup a.revoked_tokens k) h,
    s.tokens k,
  );
  devices = λ k. ground (
    arith,
    lookup-delete_where a.revoked_devices (λ id e. ltb e now) k,
    holds-keep now t (lookup a.revoked_devices k) h,
    s.devices k,
  );
}

revoke_alike :
    (t : ℕ) (a b : RevocationList) (jti : String) (e : ℕ)
    → SameAnswers t a b
    → SameAnswers t (revoke a jti e) (revoke b jti e)
unfolding revoke is_revoked is_device_revoked
revoke_alike t a b jti e s = record {
  tokens = λ k.
      ground (
        arith,
        lookup-put a.revoked_tokens jti e k,
        lookup-put b.revoked_tokens jti e k,
        s.tokens k,
      );
  devices = s.devices;
}

revoke_device_alike :
    (t : ℕ) (a b : RevocationList) (id : String) (e : ℕ)
    → SameAnswers t a b
    → SameAnswers t (revoke_device a id e) (revoke_device b id e)
unfolding revoke_device is_revoked is_device_revoked
revoke_device_alike t a b id e s = record {
  tokens = s.tokens;
  devices = λ k. ground (
    arith,
    lookup-put a.revoked_devices id e k,
    lookup-put b.revoked_devices id e k,
    s.devices k,
  );
}

run_alike :
    (t : ℕ) (ops : List Op) (a b : RevocationList)
    → CleanedBy t ops
    → SameAnswers t a b
    → SameAnswers t (run a ops) (run b (without_cleanups ops))
run_alike t [] a b c s = s
run_alike t (op_revoke jti e ∷ ops) a b c s =
    run_alike t ops (revoke a jti e) (revoke b jti e) c (revoke_alike t a b jti e s)
run_alike t (op_revoke_device id e ∷ ops) a b c s =
    run_alike t ops (revoke_device a id e) (revoke_device b id e) c
      (revoke_device_alike t a b id e s)
run_alike t (op_cleanup now ∷ ops) a b c s =
    run_alike t ops (cleanup a now) b c.1 (cleanup_unseen t now a b c.0 s)

-- Whatever revocations and clean-ups ran before a time, the list answers then as if no clean-up
-- had run, for tokens and for devices.
pub cleanups_unseen :
    (t : ℕ) (ops : List Op) (rl : RevocationList) (k : String)
    → CleanedBy t ops
    → (is_revoked (run rl ops) t k ≡ is_revoked (run rl (without_cleanups ops)) t k)
      × (is_device_revoked (run rl ops) t k ≡ is_device_revoked (run rl (without_cleanups ops)) t k)
cleanups_unseen t ops rl k c =
    let s = run_alike t ops rl rl c (record { tokens = λ j. refl; devices = λ j. refl }) in
    (s.tokens k, s.devices k)
