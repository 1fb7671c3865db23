-- ===== src/Redis/LawfulCache.antt =====
-- storage/redis/cache.go keeps the contract of a cache, over a client that keeps its own.
use text.Mathlib.TextLemmas.{append_cancel_left}
use delayed_notifier.Prelude.{◌≡◌, refl, inl, inr, String, Option, none, some, ap, ◌∙◌, arith}
use delayed_notifier.Go.Errors.{wrap, map_err, Error, ok, err, Result-cases}
use delayed_notifier.Go.Action.{◌>>=◌}
use delayed_notifier.Go.Clock.{Duration}
use delayed_notifier.Domain.Model.{Uuid, Notification}
use delayed_notifier.Domain.Contract.{
  View, Within, WithinOr, Ensures, Ensures-cases, Ensures-map, LawfulCache,
}
use delayed_notifier.Domain.Json.{JsonCodec, RoundTrips}
use delayed_notifier.Redis.Key.{redis, notification, redis_notification_key_build}
use delayed_notifier.Redis.Cache.{RedisClient, get_error, get, set, delete, notification_cache}
use delayed_notifier.Redis.Client.{Fewer, FewerOr, LawfulClient}

abbrev pub Injective : (Uuid → String) → Type 0
Injective f = (a b : Uuid) → f a ≡ f b → a ≡ b

-- Two notifications never share a key.
pub key-Injective :
    (uuid_string : Uuid → String)
    → Injective uuid_string
    → Injective (redis_notification_key_build uuid_string)
unfolding redis_notification_key_build
key-Injective f injective a b same = injective a b (
    append_cancel_left ":" (f a) (f b) (
      append_cancel_left notification _ _
        (append_cancel_left ":" _ _ (append_cancel_left redis _ _ same))))

-- What the bytes under a key stand for.
abbrev pub decoded : JsonCodec → Option String → Option Notification
decoded json none = none
decoded json (some v) = elim (json.unmarshal v) [ ok n ↦ some n | err _ ↦ none ]

decoded-some :
    (json : JsonCodec) (o : Option String) (n : Notification)
    → decoded json o ≡ some n
    → (v : String) × (o ≡ some v) × (json.unmarshal v ≡ ok n)
decoded-some json none n h = cc
decoded-some json (some v) n h = elim (Result-cases (json.unmarshal v)) [
  | inl (e, bad) ↦ absurd (ground arith)
  | inr (m, good) ↦ (v, refl, ground arith)
]

module _ {S : Type 0} (json : JsonCodec) (uuid_string : Uuid → String) (client : RedisClient S)
    (L : LawfulClient client) where
  abbrev pub entry : S → View
  entry s id = decoded json (L.held s (redis_notification_key_build uuid_string id))

  entry_of :
      (s : S) (id : Uuid) (v : String) (n : Notification)
      → L.held s (redis_notification_key_build uuid_string id) ≡ some v
      → json.unmarshal v ≡ ok n
      → entry s id ≡ some n
  entry_of s id v n h good = ap (decoded json) h ∙ ground arith

  within : (s s' : S) → Fewer (L.held s) (L.held s') → Within (entry s) (entry s')
  within s s' fewer id n h =
      let (v, now, good) = decoded-some json _ n h in entry_of s id v n (fewer _ v now) good

  get-eq_hit :
      (s s' : S) (id : Uuid) (v : String)
      → client.get (redis_notification_key_build uuid_string id) s ≡ (ok v, s')
      → get json uuid_string client id s
        ≡ (map_err (wrap "failed to unmarshal cached data") (json.unmarshal v), s')
  unfolding get
  get-eq_hit s s' id v h = ground arith

  get-eq_miss :
      (s s' : S) (id : Uuid) (e : Error)
      → client.get (redis_notification_key_build uuid_string id) s ≡ (err e, s')
      → (e' : Error) × (get json uuid_string client id s ≡ (err e', s'))
  unfolding get
  get-eq_miss s s' id e h = (get_error e, ground arith)

  pub cache_get_law :
      (s : S) (id : Uuid)
      → Ensures
          (λ n s'. Within (entry s) (entry s') × (entry s id ≡ some n))
          (λ _ s'. Within (entry s) (entry s'))
          (get json uuid_string client id s)
  cache_get_law s id =
      elim (Ensures-cases (client.get (redis_notification_key_build uuid_string id) s)
        (L.get_law s _)) [
          | inr (e, s', miss, fewer) ↦
              let (e', eq) = get-eq_miss s s' id e miss in rw eq (within s s' fewer)
          | inl (v, s', hit, (fewer, held)) ↦ elim (Result-cases (json.unmarshal v)) [
            | inl (e, bad) ↦ rw (get-eq_hit s s' id v hit) (rw bad (within s s' fewer))
            | inr (n, good) ↦
                rw (get-eq_hit s s' id v hit)
                  (rw good (within s s' fewer, entry_of s id v n held good))
          ]
        ]

  set-eq_sent :
      (s : S) (n : Notification) (d : Duration) (v : String)
      → json.marshal n ≡ ok v
      → set json uuid_string client n d s
        ≡ client.set (redis_notification_key_build uuid_string n.id) v d s
  unfolding set
  set-eq_sent s n d v good = rw (good, ◌>>=◌)

  set-eq_failed :
      (s : S) (n : Notification) (d : Duration) (e : Error)
      → json.marshal n ≡ err e
      → set json uuid_string client n d s ≡ (err (wrap "failed to marshal notification" e), s)
  unfolding set
  set-eq_failed s n d e bad = rw (bad, ◌>>=◌)

  pub cache_delete_law :
      (s : S) (id : Uuid)
      → Ensures
          (λ _ s'. Within (entry s) (entry s') × (entry s' id ≡ none))
          (λ _ s'. Within (entry s) (entry s'))
          (delete json uuid_string client id s)
  unfolding delete
  cache_delete_law s id =
      elim (Ensures-cases (client.del (redis_notification_key_build uuid_string id) s)
        (L.del_law s _)) [
          | inl (u, s', done, (fewer, gone)) ↦ rw done (within s s' fewer, ap (decoded json) gone)
          | inr (e, s', bad, fewer) ↦ rw bad (within s s' fewer)
        ]

  module _ (round : RoundTrips json) (injective : Injective uuid_string) where
    within_or :
        (s s' : S) (n : Notification) (v : String)
        → json.marshal n ≡ ok v
        → FewerOr (redis_notification_key_build uuid_string n.id) v (L.held s) (L.held s')
        → WithinOr n (entry s) (entry s')
    within_or s s' n v written fewer id m h =
        let (u, now, good) = decoded-some json _ m h in
        elim (fewer _ u now) [
          | inl before ↦ inl (entry_of s id u m before good)
          | inr (same_key, same_bytes) ↦ inr (
            key-Injective uuid_string injective id n.id same_key,
            ground (arith, round n v written),
          )
        ]

    pub cache_set_law :
        (s : S) (n : Notification) (d : Duration)
        → Ensures
            (λ _ s'. WithinOr n (entry s) (entry s'))
            (λ _ s'. WithinOr n (entry s) (entry s'))
            (set json uuid_string client n d s)
    cache_set_law s n d = elim (Result-cases (json.marshal n)) [
      | inl (e, bad) ↦ rw (set-eq_failed s n d e bad) (λ j m h. inl h)
      | inr (v, good) ↦ rw (set-eq_sent s n d v good) (
          Ensures-map (client.set (redis_notification_key_build uuid_string n.id) v d s)
            (λ _ s' h. within_or s s' n v good h) (λ _ s' h. within_or s s' n v good h)
            (L.set_law s _ v d))
    ]

    -- The contract of a cache, for the one over Redis.
    abbrev pub lawful : LawfulCache (notification_cache json uuid_string client)
    lawful = record {
      entry = entry;
      get_law = cache_get_law;
      set_law = cache_set_law;
      delete_law = cache_delete_law;
    }
