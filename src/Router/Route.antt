-- ===== src/Router/Route.antt =====
-- internal/types/types.go: the fields of a route that the router reads.
use nekzus.Prelude.{String, Bool}
use nekzus.Prelude.Bytes.{Bytes}

pub record Route : Type 0 where
  pub route_id : String
  pub app_id : String
  pub path_base : Bytes
  pub to : String
  pub subdomain : String
  pub routing_mode : String
  pub strip_prefix : Bool
  pub rewrite_html : Bool
