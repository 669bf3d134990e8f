-- ===== src/Router/Registry/Runs.antt =====
-- The registry from the start on, through any changes. UpsertRoute lets its lock go before the storage
-- writes the route, and takes it again for the rollback: the two parts are steps of their own.
use nekzus.Prelude.{
  ℕ, ◌≡◌, String, Bool, true, false, Option, none, some, List, [], ◌∷◌, if◌then◌else◌, Result, ok,
  err, All, taken, Both, taken-Both,
}
use nekzus.Prelude.Dict.{lookup}
use nekzus.Router.Route.{Route}
use nekzus.Router.Registry.{
  Registry, RegistryError, Event, App, normalize, rollback_save, upsert_route,
  upsert_route_with_validation,
}
use nekzus.Router.Registry.Removal.{remove_app, upsert_app, remove_route, replace_routes}
use nekzus.Router.Registry.Loading.{Stored, new_registry, replace_apps}
use nekzus.Router.Registry.Coherence.{Coherent}
use nekzus.Router.Registry.Methods.{
  upsert_route-Coherent, upsert_route_with_validation-Coherent, remove_route-Coherent,
  replace_routes-Coherent, remove_app-Coherent, rollback_save-Coherent,
}
use nekzus.Router.Registry.Started.{new_registry-Coherent}

-- What an UpsertRoute keeps for the rollback: the route that was there before, and the new one.
abbrev pub Writing : Type 0
Writing = Option Route × Route

-- The registry, and the UpsertRoutes whose write is not answered yet.
pub record System : Type 0 where
  pub registry : Registry
  pub writes : List Writing

-- The calls that change a registry, each with the answers of the storage. `op_upsert_route` is the part of
-- UpsertRoute under its first lock, and `op_written` the answer to the write at a place among those that
-- are waiting.
pub data Op : Type 0 where
  op_upsert_route : Route → Op
  op_written : ℕ → Bool → Op
  op_upsert_checked : Route → Bool → Op
  op_remove_route : String → Bool → Bool → Op
  op_upsert_app : App → Bool → Op
  op_remove_app : String → Bool → Op
  op_replace_routes : List Route → Op
  op_replace_apps : List App → Op

-- A call that was refused its subdomain writes nothing.
abbrev pub to_write : Result RegistryError (List Event) → Writing → List Writing → List Writing
to_write (ok events) w writes = w ∷ writes
to_write (err e) w writes = writes

-- The part under the first lock does what the whole call does where the storage takes the route.
unfoldable pub begin_upsert : System → Route → System
unfolding upsert_route normalize lookup
begin_upsert s route =
    let (r, answer) = upsert_route s.registry route true in
    record {
      registry = r;
      writes =
          to_write answer (lookup s.registry.routes (normalize route).route_id, normalize route)
            s.writes;
    }

unfoldable pub end_upsert : System → Option (Writing × List Writing) → Bool → System
unfolding rollback_save
end_upsert s none saved = s
end_upsert s (some ((old, rt), others)) saved = record {
  registry = if saved then s.registry else rollback_save s.registry old rt;
  writes = others;
}

abbrev changed : System → Registry → System
changed s r = record s { registry = r }

unfoldable pub apply : System → Op → System
unfolding begin_upsert end_upsert taken upsert_route_with_validation remove_route upsert_app
    remove_app replace_routes replace_apps
apply s (op_upsert_route route) = begin_upsert s route
apply s (op_written n saved) = end_upsert s (taken n s.writes) saved
apply s (op_upsert_checked route saved) =
    changed s (upsert_route_with_validation s.registry route saved).0
apply s (op_remove_route id route_deleted app_deleted) =
    changed s (remove_route s.registry id route_deleted app_deleted).0
apply s (op_upsert_app app saved) = changed s (upsert_app s.registry app saved).0
apply s (op_remove_app id deleted) = changed s (remove_app s.registry id deleted).0
apply s (op_replace_routes routes) = changed s (replace_routes s.registry routes)
apply s (op_replace_apps apps) = changed s (replace_apps s.registry apps)

unfoldable pub run : System → List Op → System
unfolding apply
run s [] = s
run s (op ∷ ops) = run (apply s op) ops

upsert_app-Coherent :
    (r : Registry) (app : App) (saved : Bool) → Coherent r → Coherent (upsert_app r app saved).0
unfolding upsert_app
upsert_app-Coherent r app true c = c
upsert_app-Coherent r app false c = c

-- The route for a rollback has the ID of the one that was to be written.
abbrev SameId : Writing → Type 0
SameId (old, rt) = (o : Route) → old ≡ some o → o.route_id ≡ rt.route_id

abbrev Sound : System → Type 0
Sound s = Coherent s.registry × All SameId s.writes

to_write-All :
    (answer : Result RegistryError (List Event)) (w : Writing) (writes : List Writing)
    → SameId w
    → All SameId writes
    → All SameId (to_write answer w writes)
to_write-All (ok events) w writes h a = (h, a)
to_write-All (err e) w writes h a = a

rollback_if :
    (saved : Bool) (r : Registry) (old : Option Route) (rt : Route)
    → Coherent r
    → SameId (old, rt)
    → Coherent (if saved then r else rollback_save r old rt)
rollback_if true r old rt c h = c
rollback_if false r old rt c h = rollback_save-Coherent r old rt c h

end_upsert-Sound :
    (s : System) (o : Option (Writing × List Writing)) (saved : Bool)
    → Sound s
    → Both SameId o
    → Sound (end_upsert s o saved)
unfolding end_upsert
end_upsert-Sound s none saved c b = c
end_upsert-Sound s (some ((old, rt), others)) saved c (h, a) =
    (rollback_if saved s.registry old rt c.0 h, a)

apply-Sound : (s : System) (op : Op) → Sound s → Sound (apply s op)
unfolding apply begin_upsert
apply-Sound s (op_upsert_route route) (c, a) = (
  upsert_route-Coherent s.registry route true c,
  to_write-All (upsert_route s.registry route true).1
      (lookup s.registry.routes (normalize route).route_id, normalize route) s.writes
      (c.keyed (normalize route).route_id) a,
)
apply-Sound s (op_written n saved) c =
    end_upsert-Sound s (taken n s.writes) saved c (taken-Both SameId n s.writes c.1)
apply-Sound s (op_upsert_checked route saved) (c, a) =
    (upsert_route_with_validation-Coherent s.registry route saved c, a)
apply-Sound s (op_remove_route id route_deleted app_deleted) (c, a) =
    (remove_route-Coherent s.registry id route_deleted app_deleted c, a)
apply-Sound s (op_upsert_app app saved) (c, a) = (upsert_app-Coherent s.registry app saved c, a)
apply-Sound s (op_remove_app id deleted) (c, a) = (remove_app-Coherent s.registry id deleted c, a)
apply-Sound s (op_replace_routes routes) (c, a) = (replace_routes-Coherent s.registry routes, a)
apply-Sound s (op_replace_apps apps) (c, a) = (unfold replace_apps in c, a)

run-Sound : (s : System) (ops : List Op) → Sound s → Sound (run s ops)
unfolding run
run-Sound s [] c = c
run-Sound s (op ∷ ops) c = run-Sound (apply s op) ops (apply-Sound s op c)

-- From the start on, whatever rows the database has and whatever it answers, the registry is coherent
-- behind any calls of UpsertRoute, UpsertRouteWithValidation, RemoveRoute, UpsertApp, RemoveApp,
-- ReplaceRoutes and ReplaceApps, also where other calls come between the two parts of an UpsertRoute:
-- every route stands under its own ID, and the radix tree is valid and holds only routes of the map. A
-- route of the map may be missing from the tree.
pub run-Coherent :
    (store : Option Stored) (ops : List Op)
    → Coherent (run (record { registry = new_registry store; writes = [] }) ops).registry
run-Coherent store ops =
    (run-Sound (record { registry = new_registry store; writes = [] }) ops
      (new_registry-Coherent store, tt)).0
