-- ===== src/Http/Server.antt =====
-- `NewServer` of internal/delivery/http/server.go over the package gin, and what a request comes to.
use delayed_notifier.Prelude.{String, Bool, true, List, [], ◌∷◌, ◌++◌, ⊤}
use delayed_notifier.Go.Errors.{Result}
use delayed_notifier.Go.Clock.{Time}
use delayed_notifier.Config.{HttpConfig}
use delayed_notifier.Domain.Model.{Uuid, Fresh}
use delayed_notifier.Domain.Ports.{NotificationRepository, NotificationQueue}
use delayed_notifier.Http.{CreateNotificationRequest, Reply, Body}
use delayed_notifier.Http
use delayed_notifier.Http.Routes.{
  get, Endpoint, creates, fetches, cancels, health, Route, register_routes,
}

-- `gin.Engine` with its mode, whether it recovers from a panic, and its routes.
pub record Engine : Type 0 where
  pub mode : String
  pub recovers : Bool
  pub routes : List Route

pub record Server : Type 0 where
  pub addr : String
  pub engine : Engine

unfoldable pub new_server : HttpConfig → Server
unfolding register_routes
new_server cfg = record {
  addr = cfg.port;
  engine = record {
    mode = cfg.gin_mode;
    recovers = true;
    routes =
        register_routes []
        ++ (record { method = get; pattern = "/health"; endpoint = health } ∷ []);
  };
}

-- The handler of the health check.
abbrev pub health_reply : Reply
health_reply = record { code = 200; body = Body.status "ok" }

module _ {R Q : Type 0} (repo : NotificationRepository R) (queue : NotificationQueue Q) where
  -- The handler of an endpoint, with `c.Param("id")` and the body of the request. `parse_uuid` is
  -- `uuid.Parse`, `bind` is `c.ShouldBindJSON`.
  abbrev pub handler :
      (String → Result ⊤)
      → (String → Result Uuid)
      → (String → Result CreateNotificationRequest)
      → Fresh
      → Time
      → Endpoint
      → String
      → String
      → R × Q
      → Reply × (R × Q)
  handler parse_address parse_uuid bind fresh now creates id body s =
      Http.create_notification repo queue parse_address fresh now (bind body) s
  handler parse_address parse_uuid bind fresh now fetches id body s =
      Http.get_notification_by_id repo queue (parse_uuid id) s
  handler parse_address parse_uuid bind fresh now cancels id body s =
      Http.cancel_notification repo queue (parse_uuid id) s
  handler parse_address parse_uuid bind fresh now health id body s = (health_reply, s)
