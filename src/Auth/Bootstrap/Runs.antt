-- ===== src/Auth/Bootstrap/Runs.antt =====
-- Sequences of calls on a bootstrap store, in any order.
use mathlib.Core.Path.{subst}
use mathlib.Core.Bool.{false≢true}
use nekzus.Prelude.{
  ℕ, ◌+◌, ◌≡◌, ◌≢◌, ◌⊎◌, inl, inr, sym, ap, ◌∙◌, Bool-cases, Option-cases, String, true, false,
  Option, none, some, List, [], ◌∷◌, arith, eq_iff, ltb, leb,
}
use nekzus.Prelude.Dict.{lookup, lookup-put, lookup-delete}
use nekzus.Auth.Bootstrap.{
  BootstrapStore, Env, new_bootstrap_store, is_rate_limited, attempts, validate_short_lived,
  validate, generate_short_lived, cleanup_expired, record_failed_pairing, record_successful_pairing,
  forget,
}
use nekzus.Auth.Bootstrap.Laws.{
  IsConsistent, attempts-record_failed_pairing, record_failed_pairing_limits,
  record_failed_pairing-IsConsistent, forget-IsConsistent,
}

pub data Op : Type 0 where
  op_validate : Env → ℕ → String → Op
  op_generate : Option String → ℕ → ℕ → Op
  op_cleanup : ℕ → Op
  op_failed op_successful : String → Op

abbrev pub apply : BootstrapStore → Op → BootstrapStore
apply bs (op_validate env now token) = (validate bs env now token).0
apply bs (op_generate drawn now ttl) = (generate_short_lived bs drawn now ttl).0
apply bs (op_cleanup now) = cleanup_expired bs now
apply bs (op_failed token) = record_failed_pairing bs token
apply bs (op_successful token) = record_successful_pairing bs token

abbrev pub run : BootstrapStore → List Op → BootstrapStore
run bs [] = bs
run bs (op ∷ ops) = run (apply bs op) ops

-- `validateShortLived` leaves the store as it is, or forgets a token that is not rate limited.
short_lived_cases :
    (bs : BootstrapStore) (now : ℕ) (token : String)
    → ((validate_short_lived bs now token).0 ≡ bs)
      ⊎ (((validate_short_lived bs now token).0 ≡ forget bs token)
          × (is_rate_limited bs token ≡ false))
short_lived_cases bs now token = elim (Bool-cases (is_rate_limited bs token)) [
  | inl e ↦ inl (unfold validate_short_lived in ground arith)
  | inr e ↦ elim (Option-cases (lookup bs.short_lived_tokens token)) [
    | inl f ↦ inl (unfold validate_short_lived in ground arith)
    | inr (x, f) ↦ elim (Bool-cases (ltb x now)) [
      | inl l ↦ inr (unfold validate_short_lived in ground arith, e)
      | inr l ↦ inl (unfold validate_short_lived in ground arith)
    ]
  ]
]

validate_cases :
    (bs : BootstrapStore) (env : Env) (now : ℕ) (token : String)
    → ((validate bs env now token).0 ≡ bs)
      ⊎ ((validate bs env now token).0 ≡ (validate_short_lived bs now token).0)
unfolding validate
validate_cases bs env now token = ground arith

validate_store :
    (P : BootstrapStore → Type 0) (bs : BootstrapStore) (env : Env) (now : ℕ) (token : String)
    → P bs
    → (is_rate_limited bs token ≡ false → P (forget bs token))
    → P (validate bs env now token).0
validate_store P bs env now token p q = elim (validate_cases bs env now token) [
  | inl e ↦ subst P (sym e) p
  | inr e ↦ elim (short_lived_cases bs now token) [
    | inl f ↦ subst P (sym (e ∙ f)) p
    | inr (f, n) ↦ subst P (sym (e ∙ f)) (q n)
  ]
]

apply-IsConsistent : (bs : BootstrapStore) (op : Op) → IsConsistent bs → IsConsistent (apply bs op)
apply-IsConsistent bs (op_validate env now token) h =
    validate_store IsConsistent bs env now token h (λ n. forget-IsConsistent bs token h)
apply-IsConsistent bs (op_generate none now ttl) h = unfold generate_short_lived in h
apply-IsConsistent bs (op_generate (some token) now ttl) h =
    unfold generate_short_lived is_rate_limited attempts in h
apply-IsConsistent bs (op_cleanup now) h = unfold cleanup_expired is_rate_limited attempts in h
apply-IsConsistent bs (op_failed token) h = record_failed_pairing-IsConsistent bs token h
apply-IsConsistent bs (op_successful token) h =
    unfold record_successful_pairing in forget-IsConsistent bs token h

run_from-IsConsistent :
    (bs : BootstrapStore) (ops : List Op) → IsConsistent bs → IsConsistent (run bs ops)
run_from-IsConsistent bs [] h = h
run_from-IsConsistent bs (op ∷ ops) h =
    run_from-IsConsistent (apply bs op) ops (apply-IsConsistent bs op h)

-- From a new store, whatever calls are made, a token is rate limited exactly when at least three
-- failures are counted for it.
pub run-IsConsistent :
    (tokens : List String) (ops : List Op) → IsConsistent (run (new_bootstrap_store tokens) ops)
run-IsConsistent tokens ops =
    run_from-IsConsistent (new_bootstrap_store tokens) ops
      (unfold is_rate_limited attempts new_bootstrap_store in λ k. ground arith)

-- No successful pairing of the token is among the calls.
abbrev pub NoSuccess : String → List Op → Type 0
NoSuccess token [] = Unit
NoSuccess token (op_successful t ∷ ops) = (t ≢ token) × NoSuccess token ops
NoSuccess token (op ∷ ops) = NoSuccess token ops

limited_forget :
    (bs : BootstrapStore) (token t : String)
    → is_rate_limited bs token ≡ true
    → t ≢ token
    → is_rate_limited (forget bs t) token ≡ true
unfolding is_rate_limited
limited_forget bs token t h n =
    ground (arith, lookup-delete bs.rate_limited t token, eq_iff t token)

limited_failed :
    (bs : BootstrapStore) (token t : String)
    → is_rate_limited bs token ≡ true
    → is_rate_limited (record_failed_pairing bs t) token ≡ true
unfolding is_rate_limited record_failed_pairing
limited_failed bs token t h =
    ground (arith, lookup-put bs.rate_limited t true token, eq_iff t token)

differs :
    (bs : BootstrapStore) (token t : String)
    → is_rate_limited bs token ≡ true
    → is_rate_limited bs t ≡ false
    → t ≢ token
differs bs token t h n e = false≢true (sym n ∙ ap (is_rate_limited bs) e ∙ h)

limited_run :
    (bs : BootstrapStore) (token : String) (ops : List Op)
    → is_rate_limited bs token ≡ true
    → NoSuccess token ops
    → is_rate_limited (run bs ops) token ≡ true
limited_run bs token [] h n = h
limited_run bs token (op_validate env now t ∷ ops) h n =
    limited_run (validate bs env now t).0 token ops
      (validate_store (λ s. is_rate_limited s token ≡ true) bs env now t h
        (λ f. limited_forget bs token t h (differs bs token t h f)))
      n
limited_run bs token (op_generate none now ttl ∷ ops) h n =
    limited_run (generate_short_lived bs none now ttl).0 token ops
      (unfold generate_short_lived in h) n
limited_run bs token (op_generate (some t) now ttl ∷ ops) h n =
    limited_run (generate_short_lived bs (some t) now ttl).0 token ops
      (unfold generate_short_lived is_rate_limited in h) n
limited_run bs token (op_cleanup now ∷ ops) h n =
    limited_run (cleanup_expired bs now) token ops (unfold cleanup_expired is_rate_limited in h) n
limited_run bs token (op_failed t ∷ ops) h n =
    limited_run (record_failed_pairing bs t) token ops (limited_failed bs token t h) n
limited_run bs token (op_successful t ∷ ops) h n =
    limited_run (record_successful_pairing bs t) token ops
      (unfold record_successful_pairing in limited_forget bs token t h n.0) n.1

limited_rejected :
    (bs : BootstrapStore) (now : ℕ) (token : String)
    → is_rate_limited bs token ≡ true
    → (validate_short_lived bs now token).1 ≡ false
unfolding validate_short_lived
limited_rejected bs now token h = ground arith

pub fail_three : BootstrapStore → String → BootstrapStore
fail_three bs token =
    record_failed_pairing (record_failed_pairing (record_failed_pairing bs token) token) token

fail_three_limited :
    (bs : BootstrapStore) (token : String) → is_rate_limited (fail_three bs token) token ≡ true
unfolding fail_three
fail_three_limited bs token =
    record_failed_pairing_limits (record_failed_pairing (record_failed_pairing bs token) token)
      token
      (omega (
        arith,
        attempts-record_failed_pairing (record_failed_pairing bs token) token,
        attempts-record_failed_pairing bs token,
      ))

-- After three failed pairings with a token, no sequence of calls without a successful pairing of
-- that token makes it valid as a short-lived token again, not even when the same token is
-- generated anew.
pub fail_three_invalidates :
    (bs : BootstrapStore) (token : String) (ops : List Op) (now : ℕ)
    → NoSuccess token ops
    → (validate_short_lived (run (fail_three bs token) ops) now token).1 ≡ false
fail_three_invalidates bs token ops now n =
    limited_rejected (run (fail_three bs token) ops) now token
      (limited_run (fail_three bs token) token ops (fail_three_limited bs token) n)

-- The token is not generated by the calls.
abbrev pub NotGenerated : String → List Op → Type 0
NotGenerated token [] = Unit
NotGenerated token (op_generate (some t) now ttl ∷ ops) = (t ≢ token) × NotGenerated token ops
NotGenerated token (op ∷ ops) = NotGenerated token ops

abbrev Gone : String → BootstrapStore → Type 0
Gone token bs = lookup bs.short_lived_tokens token ≡ none

-- A generated token that is not rate limited is valid up to its expiry, and not after.
pub validate-generate :
    (bs : BootstrapStore) (token : String) (now ttl later : ℕ)
    → is_rate_limited bs token ≡ false
    → (validate_short_lived (generate_short_lived bs (some token) now ttl).0 later token).1
      ≡ leb later (now + ttl)
unfolding generate_short_lived validate_short_lived is_rate_limited
validate-generate bs token now ttl later h =
    ground (arith, lookup-put bs.short_lived_tokens token (now + ttl) token, eq_iff token token)
