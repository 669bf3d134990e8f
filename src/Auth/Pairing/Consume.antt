-- ===== src/Auth/Pairing/Consume.antt =====
-- A code whose pairing has completed is used up.
use nekzus.Prelude.{
  ℕ, ◌≡◌, ◌≢◌, inl, inr, sym, ap, ◌∙◌, String, Bool, true, Option, none, some, List, [], ◌∷◌, arith,
  eq_iff, ◌==◌, ok, Option-cases, Bool-cases,
}
use nekzus.Prelude.Dict.{
  Dict, lookup, entries, lookup-put, lookup-delete, lookup-delete_where, lookup-entries,
  entries-IsUnique, IsUnique,
}
use nekzus.Auth.Pairing.{
  PairingCode, PairingConfig, PairingManager, redeem_code, redeem_found, is_globally_rate_limited,
  record_global_failure, reset_window, generate_code, cleanup, consume_by_bootstrap_token,
  find_token, count_failure,
}
use nekzus.Auth.Pairing.Redeem.{redeem_code-ok_iff, redeem_code_lem, codes-reset_window}

find_token_sound :
    (m : Dict PairingCode) (token : String) (k : String) (pc : PairingCode)
    → IsUnique m
    → find_token m token ≡ some (k, pc)
    → (lookup m k ≡ some pc) × (pc.config.bootstrap_token ≡ token)
unfolding find_token lookup
find_token_sound [] token k pc u h = absurd cc
find_token_sound ((j, p) ∷ m) token k pc u h =
    elim (Bool-cases (p.config.bootstrap_token == token)) [
      | inl e ↦ ground (arith, eq_iff p.config.bootstrap_token token, eq_iff j k)
      | inr e ↦
          let (f, t) = find_token_sound m token k pc u.1 (ground arith) in
          (ground (arith, eq_iff j k, u.0), t)
    ]

find_token_complete :
    (m : Dict PairingCode) (token : String) (k : String) {pc : PairingCode}
    → lookup m k ≡ some pc
    → pc.config.bootstrap_token ≡ token
    → find_token m token ≢ none
unfolding find_token lookup
find_token_complete [] token k h t = cc
find_token_complete ((j, p) ∷ m) token k {pc} h t = ground (
  arith,
  find_token_complete m token k {pc = pc},
  eq_iff p.config.bootstrap_token token,
  eq_iff j k,
)

-- The code cannot be redeemed again: it is gone, or used up.
abbrev pub is_spent : Option PairingCode → Bool
is_spent none = true
is_spent (some pc) = pc.used

abbrev pub IsSpent : String → PairingManager → Type 0
IsSpent key pm = is_spent (lookup pm.codes key) ≡ true

-- The calls on a manager, apart from those that change nothing.
pub data Op : Type 0 where
  op_generate : Option String → PairingConfig → ℕ → Op
  op_redeem : String → ℕ → Op
  op_consume : String → Op
  op_cleanup : ℕ → Op

module _ (normalize : String → String) where
  abbrev pub apply : PairingManager → Op → PairingManager
  apply pm (op_generate drawn config now) = (generate_code pm drawn config now).0
  apply pm (op_redeem code now) = (redeem_code normalize pm code now).0
  apply pm (op_consume token) = consume_by_bootstrap_token pm token
  apply pm (op_cleanup now) = cleanup pm now

  abbrev pub run : PairingManager → List Op → PairingManager
  run pm [] = pm
  run pm (op ∷ ops) = run (apply pm op) ops

-- The calls do not draw the code again.
abbrev pub NotDrawn : String → List Op → Type 0
NotDrawn key [] = Unit
NotDrawn key (op_generate (some code) config now ∷ ops) = (code ≢ key) × NotDrawn key ops
NotDrawn key (op ∷ ops) = NotDrawn key ops

IsSpent-found :
    (pm : PairingManager) (key k : String) (o : Option PairingCode) (now : ℕ)
    → o ≡ lookup pm.codes k
    → IsSpent key pm
    → IsSpent key (redeem_found pm k o now).0
unfolding redeem_found
IsSpent-found pm key k none now e h = ground arith
IsSpent-found pm key k (some p) now e h = ground (
  arith,
  lookup-put pm.codes k (record p { redeemed = true }) key,
  lookup-put (record_global_failure pm now).codes k (count_failure p now) key,
  lookup-delete (record_global_failure pm now).codes k key,
  eq_iff k key,
)

IsSpent-consume :
    (pm : PairingManager) (key token : String)
    → IsSpent key pm
    → IsSpent key (consume_by_bootstrap_token pm token)
IsSpent-consume pm key token h = elim (Option-cases (find_token (entries pm.codes) token)) [
  | inl e ↦ unfold consume_by_bootstrap_token in ground arith
  | inr ((k, pc), e) ↦
      unfold consume_by_bootstrap_token in
      ground (arith, lookup-put pm.codes k (record pc { used = true }) key)
]

IsSpent-generate :
    (pm : PairingManager) (key code : String) (config : PairingConfig) (now : ℕ)
    → code ≢ key
    → IsSpent key pm
    → IsSpent key (generate_code pm (some code) config now).0
unfolding generate_code
IsSpent-generate pm key code config now n h =
    rw (lookup-put pm.codes code _ key) (ground (arith, eq_iff code key))

IsSpent-cleanup :
    (pm : PairingManager) (key : String) (now : ℕ) → IsSpent key pm → IsSpent key (cleanup pm now)
unfolding cleanup
IsSpent-cleanup pm key now h = rw (lookup-delete_where pm.codes _ key) (ground arith)

module _ (normalize : String → String) where
  IsSpent-redeem :
      (pm : PairingManager) (key code : String) (now : ℕ)
      → IsSpent key pm
      → IsSpent key (redeem_code normalize pm code now).0
  IsSpent-redeem pm key code now h = elim (Bool-cases (is_globally_rate_limited pm now).1) [
    | inl l ↦ rw (redeem_code_lem normalize pm code now, l, codes-reset_window pm now) h
    | inr l ↦
        rw (redeem_code_lem normalize pm code now, l)
          (IsSpent-found (reset_window pm now) key (normalize code)
            (lookup pm.codes (normalize code)) now
            (ap (λ m. lookup m (normalize code)) (sym (codes-reset_window pm now)))
            (rw (codes-reset_window pm now) h))
  ]

  IsSpent-run :
      (pm : PairingManager) (key : String) (ops : List Op)
      → NotDrawn key ops
      → IsSpent key pm
      → IsSpent key (run normalize pm ops)
  IsSpent-run pm key [] n h = h
  IsSpent-run pm key (op_generate none config now ∷ ops) n h =
      IsSpent-run (generate_code pm none config now).0 key ops n (unfold generate_code in h)
  IsSpent-run pm key (op_generate (some code) config now ∷ ops) n h =
      IsSpent-run (generate_code pm (some code) config now).0 key ops n.1
        (IsSpent-generate pm key code config now n.0 h)
  IsSpent-run pm key (op_redeem code now ∷ ops) n h =
      IsSpent-run (redeem_code normalize pm code now).0 key ops n (IsSpent-redeem pm key code now h)
  IsSpent-run pm key (op_consume token ∷ ops) n h =
      IsSpent-run (consume_by_bootstrap_token pm token) key ops n (IsSpent-consume pm key token h)
  IsSpent-run pm key (op_cleanup now ∷ ops) n h =
      IsSpent-run (cleanup pm now) key ops n (IsSpent-cleanup pm key now h)

  spent_refused :
      (pm : PairingManager) (code : String) (now : ℕ) (config : PairingConfig)
      → IsSpent (normalize code) pm
      → (redeem_code normalize pm code now).1 ≢ ok config
  spent_refused pm code now config h e =
      let (pc, l, f, r, c) = (redeem_code-ok_iff normalize pm code now config).0 e in
      cc (ap is_spent f, r.unused)

  consumed :
      (pm : PairingManager) (key token : String) (pc : PairingCode)
      → lookup pm.codes key ≡ some pc
      → pc.config.bootstrap_token ≡ token
      → ((k : String) (p : PairingCode)
          → lookup pm.codes k ≡ some p
          → p.config.bootstrap_token ≡ token
          → k ≡ key)
      → IsSpent key (consume_by_bootstrap_token pm token)
  consumed pm key token pc f t only = elim (Option-cases (find_token (entries pm.codes) token)) [
    | inl e ↦
        absurd
          (find_token_complete (entries pm.codes) token key (lookup-entries pm.codes key ∙ f) t e)
    | inr ((k, p), e) ↦
        let (g, s) = find_token_sound (entries pm.codes) token k p (entries-IsUnique pm.codes) e in
        let same : k ≡ key = only k p (sym (lookup-entries pm.codes k) ∙ g) s in
        unfold consume_by_bootstrap_token in
        ground (arith, lookup-put pm.codes k (record p { used = true }) key, eq_iff k key)
  ]

  -- Where a bootstrap token stands in one code only, then once the pairing with it has completed,
  -- no sequence of calls that does not draw the same code anew makes the code redeemable again.
  pub consumed_for_good :
      (pm : PairingManager) (code token : String) (pc : PairingCode) (ops : List Op) (now : ℕ)
      (config : PairingConfig)
      → lookup pm.codes (normalize code) ≡ some pc
      → pc.config.bootstrap_token ≡ token
      → ((k : String) (p : PairingCode)
          → lookup pm.codes k ≡ some p
          → p.config.bootstrap_token ≡ token
          → k ≡ normalize code)
      → NotDrawn (normalize code) ops
      → (redeem_code normalize (run normalize (consume_by_bootstrap_token pm token) ops) code now).1
        ≢ ok config
  consumed_for_good pm code token pc ops now config f t only n =
      spent_refused (run normalize (consume_by_bootstrap_token pm token) ops) code now config (
        IsSpent-run (consume_by_bootstrap_token pm token) (normalize code) ops n
          (consumed pm (normalize code) token pc f t only))
