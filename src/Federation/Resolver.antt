-- ===== src/Federation/Resolver.antt =====
-- internal/federation/resolver.go. A pointer to a service is an `Option`. The functions return one of
-- their two arguments and the callers compare pointers, so the model returns which one.
pub mod Laws
use nekzus.Prelude.{ℕ, String, Bool, true, false, Option, none, some, ltb, ◌==◌, if◌then◌else◌}
use nekzus.Federation.VectorClock.{VectorClock, Causality, before, after, concurrent, compare}
use nekzus.Federation.Service.{FederatedService}

-- The pointer that `ResolveConflict` returns.
pub data Winner : Type 0 where
  local remote : Winner

-- The switch on the comparison of the clocks.
abbrev pub by_causality : Causality → Winner → Winner
by_causality before tie = remote
by_causality after tie = local
by_causality concurrent tie = tie

module _ {A C : Type 0} where
  -- time.Time.After on the two timestamps
  unfoldable pub resolve_tie_breaker : FederatedService A C → FederatedService A C → Winner
  resolve_tie_breaker l r =
      if ltb r.last_seen l.last_seen
      then local
      else if ltb l.last_seen r.last_seen
      then remote
      else local

  unfoldable pub resolve_by_vector_clock : FederatedService A C → FederatedService A C → Winner
  unfolding resolve_tie_breaker
  resolve_by_vector_clock l r =
      by_causality (compare l.vector_clock r.vector_clock) (resolve_tie_breaker l r)

  resolve_both : FederatedService A C → FederatedService A C → String → Winner
  unfolding resolve_by_vector_clock
  resolve_both l r local_peer_id =
      if l.origin_peer_id == r.origin_peer_id
      then (if l.origin_peer_id == local_peer_id then resolve_by_vector_clock l r else remote)
      else resolve_by_vector_clock l r

  -- `none` is the nil result.
  unfoldable pub resolve_conflict :
      Option (FederatedService A C) → Option (FederatedService A C) → String → Option Winner
  unfolding resolve_both
  resolve_conflict none none local_peer_id = none
  resolve_conflict none (some r) local_peer_id = some remote
  resolve_conflict (some l) none local_peer_id = some local
  resolve_conflict (some l) (some r) local_peer_id = some (resolve_both l r local_peer_id)
