-- ===== src/Domain/Ports.antt =====
-- domain/repository/notification_repo.go and notifiers/notifier.go: the interfaces. Each stands over
-- the state of the service behind it, `S`.
use delayed_notifier.Prelude.{⊤}
use delayed_notifier.Go.Action.{Action}
use delayed_notifier.Go.Clock.{Time, Duration}
use delayed_notifier.Domain.Model.{Uuid, Notification}

pub record NotificationRepository (S : Type 0) : Type 0 where
  pub save : Notification → Action S Notification
  pub get_by_id : Uuid → Action S Notification
  pub update : Notification → Action S ⊤
  pub delete : Uuid → Action S ⊤

pub record NotificationCache (S : Type 0) : Type 0 where
  pub get : Uuid → Action S Notification
  pub set : Notification → Duration → Action S ⊤
  pub delete : Uuid → Action S ⊤

-- `publish` reads the clock, `time.Until`, so it is given the time.
pub record NotificationQueue (S : Type 0) : Type 0 where
  pub publish : Time → Notification → Action S ⊤
  pub publish_retry : Notification → Duration → Action S ⊤

pub record Notifier (S : Type 0) : Type 0 where
  pub send : Notification → Action S ⊤
