-- ===== src/Redis/Client.antt =====
-- What is relied on of a Redis server reached through go-redis: a key holds what was last set, until
-- it is deleted, expires or is evicted; a call may fail, and then may or may not have had its effect.
use delayed_notifier.Prelude.{◌≡◌, ◌⊎◌, String, Option, none, some}
use delayed_notifier.Go.Clock.{Duration}
use delayed_notifier.Domain.Contract.{Ensures}
use delayed_notifier.Redis.Cache.{RedisClient}

abbrev pub Keys : Type 0
Keys = String → Option String

abbrev pub Fewer : Keys → Keys → Type 0
Fewer k k' = (key v : String) → k' key ≡ some v → k key ≡ some v

abbrev pub FewerOr : String → String → Keys → Keys → Type 0
FewerOr key' v' k k' =
    (key v : String) → k' key ≡ some v → (k key ≡ some v) ⊎ ((key ≡ key') × (v ≡ v'))

pub record LawfulClient {S : Type 0} (client : RedisClient S) : Type 0 where
  pub held : S → Keys
  pub get_law :
      (s : S) (key : String)
      → Ensures
          (λ v s'. Fewer (held s) (held s') × (held s key ≡ some v))
          (λ _ s'. Fewer (held s) (held s'))
          (client.get key s)
  pub set_law :
      (s : S) (key v : String) (d : Duration)
      → Ensures
          (λ _ s'. FewerOr key v (held s) (held s'))
          (λ _ s'. FewerOr key v (held s) (held s'))
          (client.set key v d s)
  pub del_law :
      (s : S) (key : String)
      → Ensures
          (λ _ s'. Fewer (held s) (held s') × (held s' key ≡ none))
          (λ _ s'. Fewer (held s) (held s'))
          (client.del key s)
