-- ===== src/Http/Routes.antt =====
-- `RegisterRoutes` of internal/delivery/http/handlers.go.
use Prim.Native.String.{◌++◌}
use delayed_notifier.Prelude.{String, List, [], ◌∷◌, ◌++◌ as ◌+++◌}

pub data Method : Type 0 where
  get post delete : Method

-- What a route leads to: the three handlers, and the health check of server.go.
pub data Endpoint : Type 0 where
  creates fetches cancels health : Endpoint

pub record Route : Type 0 where
  pub method : Method
  pub pattern : String
  pub endpoint : Endpoint

-- `router.Group("/api/v1")`, whose routes have this prefix.
abbrev pub api : String
api = "/api/v1"

-- A router by its routes, in the order of their registration.
unfoldable pub register_routes : List Route → List Route
register_routes routes =
    routes
    +++ (record { method = post; pattern = api ++ "/notifications"; endpoint = creates }
        ∷ record { method = get; pattern = api ++ "/notifications/:id"; endpoint = fetches }
        ∷ record { method = delete; pattern = api ++ "/notifications/:id"; endpoint = cancels }
        ∷ [])
