-- ===== src/Federation/Resolver/Laws.antt =====
-- What a conflict's resolution promises: it respects causality where the clocks are asked.
-- Two peers may swap versions that are concurrent.
use nekzus.Prelude.{
  ℕ, ◌<◌, ap, ◌∙◌, refl, ◌≡◌, sym, ◌≢◌, ◌⊎◌, inl, inr, String, Option, none, some, arith, eq_iff,
}
use nekzus.Federation.VectorClock.{VectorClock, Causality, before, after, concurrent, compare}
use nekzus.Federation.VectorClock.Compare.{HappenedBefore, compare-before_iff, compare-after_iff}
use nekzus.Federation.Service.{FederatedService}
use nekzus.Federation.Resolver.{
  Winner, local, remote, resolve_by_vector_clock, resolve_tie_breaker, resolve_conflict,
}

-- The clocks decide, which is the case unless another peer owns the service.
abbrev pub ClockDecides :
    {A C : Type 0} → FederatedService A C → FederatedService A C → String → Type 0
ClockDecides l r me = (l.origin_peer_id ≢ r.origin_peer_id) ⊎ (l.origin_peer_id ≡ me)

module _ {A C : Type 0} (l r : FederatedService A C) (me : String) where
  resolve-by_clock :
      ClockDecides l r me
      → resolve_conflict (some l) (some r) me ≡ some (resolve_by_vector_clock l r)
  unfolding resolve_conflict
  resolve-by_clock (inl d) = ground (arith, eq_iff l.origin_peer_id r.origin_peer_id)
  resolve-by_clock (inr d) = ground (arith, eq_iff l.origin_peer_id me)

  pub newer_wins :
      ClockDecides l r me
      → HappenedBefore l.vector_clock r.vector_clock
      → resolve_conflict (some l) (some r) me ≡ some remote
  newer_wins d h = rw (resolve-by_clock d) (
      unfold resolve_by_vector_clock in
      ground (arith, (compare-before_iff l.vector_clock r.vector_clock).1 h))

  pub older_loses :
      ClockDecides l r me
      → HappenedBefore r.vector_clock l.vector_clock
      → resolve_conflict (some l) (some r) me ≡ some local
  older_loses d h = rw (resolve-by_clock d) (
      unfold resolve_by_vector_clock in
      ground (arith, (compare-after_iff l.vector_clock r.vector_clock).1 h))

  -- Between two versions of one origin, which is another peer, the clocks are not asked.
  pub owner_wins :
      l.origin_peer_id ≡ r.origin_peer_id
      → l.origin_peer_id ≢ me
      → resolve_conflict (some l) (some r) me ≡ some remote
  unfolding resolve_conflict
  owner_wins e n =
      ground (arith, eq_iff l.origin_peer_id r.origin_peer_id, eq_iff l.origin_peer_id me)

-- The version that a resolution keeps.
abbrev pub kept :
    {A C : Type 0}
    → FederatedService A C
    → FederatedService A C
    → Option Winner
    → Option (FederatedService A C)
kept l r none = none
kept l r (some local) = some l
kept l r (some remote) = some r

-- Of two versions of a service whose origins differ, or whose one origin is the peer that resolves the
-- conflict, one that happened before the other loses, on whichever side each of the two stands and
-- whatever the timestamps say.
pub resolve_conflict-causal :
    {A C : Type 0} (old new : FederatedService A C) (me : String)
    → ClockDecides old new me
    → ClockDecides new old me
    → HappenedBefore old.vector_clock new.vector_clock
    → (resolve_conflict (some old) (some new) me ≡ some remote)
      × (resolve_conflict (some new) (some old) me ≡ some local)
resolve_conflict-causal old new me d d' h = (newer_wins old new me d h, older_loses new old me d' h)

flip : Causality → Causality
flip before = after
flip after = before
flip concurrent = concurrent

decide_flip :
    (c d : Causality)
    → (c ≡ before → d ≡ after)
    → (c ≡ after → d ≡ before)
    → (d ≡ before → c ≡ after)
    → (d ≡ after → c ≡ before)
    → d ≡ flip c
unfolding flip
decide_flip c d f g h k = ground arith

compare-flip : (a b : VectorClock) → compare b a ≡ flip (compare a b)
unfolding flip
compare-flip a b =
    let bf = compare-before_iff a b in
    let af = compare-after_iff a b in
    let bf' = compare-before_iff b a in
    let af' = compare-after_iff b a in
    decide_flip (compare a b) (compare b a) (λ e. af'.1 (bf.0 e)) (λ e. bf'.1 (af.0 e))
      (λ e. af.1 (bf'.0 e)) (λ e. bf.1 (af'.0 e))

apart : (c : Causality) → (c ≡ before → ⊥) → (c ≡ after → ⊥) → c ≡ concurrent
apart before n m = absurd (n refl)
apart after n m = absurd (m refl)
apart concurrent n m = refl

-- A version as a peer has it that received it at the time: NotifyMsg and MergeRemoteState set LastSeen.
abbrev pub received : {A C : Type 0} → ℕ → FederatedService A C → FederatedService A C
received now v = record v { last_seen = now }

received_wins :
    {A C : Type 0} (x y : FederatedService A C) (p : String) (now : ℕ)
    → x.origin_peer_id ≢ y.origin_peer_id
    → compare x.vector_clock y.vector_clock ≡ concurrent
    → x.last_seen < now
    → kept x (received now y) (resolve_conflict (some x) (some (received now y)) p)
      ≡ some (received now y)
received_wins x y p now o c l =
    rw (resolve-by_clock x (received now y) p (inl o))
      (unfold resolve_by_vector_clock resolve_tie_breaker in ground (arith, c, l))

-- Two peers that each hold one of two versions of different origins, neither of which happened before
-- the other, swap them when each receives the other's at a time behind that at which its own was last
-- seen: each keeps the one that the other one held, so that they disagree again.
pub resolve_conflict-swaps :
    {A C : Type 0} (x y : FederatedService A C) (p q : String) (now now' : ℕ)
    → x.origin_peer_id ≢ y.origin_peer_id
    → (HappenedBefore x.vector_clock y.vector_clock → ⊥)
    → (HappenedBefore y.vector_clock x.vector_clock → ⊥)
    → x.last_seen < now
    → y.last_seen < now'
    → (kept x (received now y) (resolve_conflict (some x) (some (received now y)) p)
        ≡ some (received now y))
      × (kept y (received now' x) (resolve_conflict (some y) (some (received now' x)) q)
          ≡ some (received now' x))
resolve_conflict-swaps x y p q now now' o n n' l l' =
    let c : compare x.vector_clock y.vector_clock ≡ concurrent =
      apart (compare x.vector_clock y.vector_clock)
        (λ e. n ((compare-before_iff x.vector_clock y.vector_clock).0 e))
        (λ e. n' ((compare-after_iff x.vector_clock y.vector_clock).0 e)) in
    (
      received_wins x y p now o c l,
      received_wins y x q now' (λ e. o (sym e))
          (compare-flip x.vector_clock y.vector_clock ∙ (unfold flip in ap flip c)) l',
    )
