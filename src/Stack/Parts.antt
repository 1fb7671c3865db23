-- ===== src/Stack/Parts.antt =====
-- The calls of the API and the workers over a caching repository, cut at their queries, seen without
-- the cache.
use delayed_notifier.Prelude.{
  ◌≡◌, ◌≢◌, ⊤, String, inl, inr, ap, sym, subst, some, Bool-cases, str_eq, arith,
}
use delayed_notifier.Prelude.Int.{pos, ◌+ℤ◌, leb_ℤ, to_int64}
use delayed_notifier.Go.Errors.{Result, Result-cases, ok, err}
use delayed_notifier.Go.Clock.{Time}
use delayed_notifier.Domain.Model.{Uuid, Notification, Fresh, status_scheduled}
use delayed_notifier.Domain.Ports.{
  NotificationRepository, NotificationCache, NotificationQueue, Notifier,
}
use delayed_notifier.Domain.Json.{JsonCodec}
use delayed_notifier.Domain.Contract.{LawfulRepository}
use delayed_notifier.Redis.Cached.{cached_notification_repository}
use delayed_notifier.Service.{
  CreateInput, build_notification, create_notification, update_notification, cancel_if_scheduled,
}
use delayed_notifier.Consumer.Handler.{
  World, service, max_retries, update_then_settle, publish_then_settle, handle_send_error,
  after_send,
}
use delayed_notifier.Consumer.Backoff.{calculate_exponential_backoff}
use delayed_notifier.Interleaved.{Part, Interleaves, Finished, never_rescheduled}
use delayed_notifier.Stack.Table.{table, table-save, table-update, table-delete, table-get}

module _ {P C Q N : Type 0} (json : JsonCodec) (primary_repo : NotificationRepository P)
    (cache : NotificationCache C) (queue : NotificationQueue Q) (notifier : Notifier N)
    (parse_address : String → Result ⊤) where
  abbrev cached : NotificationRepository (P × C)
  cached = cached_notification_repository primary_repo cache

  abbrev W : Type 0
  W = World (P × C) Q N

  -- A part of a call over the caching repository; or the cache turns into any other, as where it
  -- expires or evicts entries, or where a call goes on with its cache after others have run.
  pub data CachedPart : W → W → Type 0 where
    part : {w w' : W} → Part json cached queue notifier parse_address w w' → CachedPart w w'
    cache_turns : (w : W) (c : C) → CachedPart w (record w { repo = (w.repo.0, c) })

  pub data CachedRun (w : W) : W → Type 0 where
    here : CachedRun w w
    next : {v u : W} → CachedRun w v → CachedPart v u → CachedRun w u

  abbrev Seen : W → W → Type 0
  Seen w w' = Interleaves json primary_repo queue notifier parse_address (table w) (table w')

  create-table :
      (w : W) (fresh : Fresh) (now : Time) (i : CreateInput)
      → table (service (create_notification cached queue parse_address fresh now i) w).1
        ≡ (service (create_notification primary_repo queue parse_address fresh now i) (table w)).1
  unfolding create_notification
  create-table w fresh now i = elim (Result-cases (build_notification parse_address fresh i)) [
    | inl (e, bad) ↦ ground arith
    | inr (n, good) ↦ elim (Result-cases (primary_repo.save n w.repo.0).0) [
      | inl (e, f) ↦ ground (arith, table-save primary_repo cache n w.repo)
      | inr (u, f) ↦ ground (arith, table-save primary_repo cache n w.repo)
    ]
  ]

  cancel-table :
      (w : W) (id : Uuid) (seen : Notification)
      → table (service (cancel_if_scheduled cached queue id seen) w).1
        ≡ (service (cancel_if_scheduled primary_repo queue id seen) (table w)).1
  cancel-table w id seen = elim (Bool-cases (str_eq seen.status status_scheduled)) [
    | inl scheduled ↦ ground (arith, table-delete primary_repo cache id w.repo)
    | inr other ↦ ground arith
  ]

  update-table :
      (n : Notification) (w : W)
      → table (update_then_settle json cached queue notifier n w)
        ≡ update_then_settle json primary_repo queue notifier n (table w)
  unfolding update_notification
  update-table n w = elim (Result-cases (primary_repo.update n w.repo.0).0) [
    | inl (e, f) ↦ ground (arith, table-update primary_repo cache n w.repo)
    | inr (u, f) ↦ ground (arith, table-update primary_repo cache n w.repo)
  ]

  publish-table :
      (n : Notification) (w : W)
      → table (publish_then_settle json cached queue notifier n w)
        ≡ publish_then_settle json primary_repo queue notifier n (table w)
  publish-table n w =
      elim (Result-cases
        (queue.publish_retry n (calculate_exponential_backoff n.attempts) w.queue).0) [
          | inl (e, f) ↦ ground arith
          | inr (u, f) ↦ ground arith
        ]

  after_send-table :
      (now : Time) (n : Notification) (w : W) (answer : Result ⊤)
      → table (after_send json cached queue notifier now n w (answer, w.notifier))
        ≡ after_send json primary_repo queue notifier now n (table w) (answer, w.notifier)
  unfolding handle_send_error
  after_send-table now n w (ok u) = update-table _ w
  after_send-table now n w (err e) =
      elim (Bool-cases (leb_ℤ max_retries (to_int64 (n.attempts +ℤ pos 1)))) [
        | inl last ↦ rw last (update-table _ w)
        | inr more ↦ rw more (publish-table _ w)
      ]

  one_part :
      {u v v' : World P Q N}
      → Interleaves json primary_repo queue notifier parse_address u v
      → v' ≡ v
      → Interleaves json primary_repo queue notifier parse_address u v'
  one_part {u} run same =
      subst (Interleaves json primary_repo queue notifier parse_address u) (sym same) run

  -- Without the cache, each part is a part of the same call, or nothing.
  Part-Seen :
      (s : W) {v u : W} → Part json cached queue notifier parse_address v u → Seen s v → Seen s u
  Part-Seen s (Part.creates w fresh now i) run =
      one_part (Interleaves.next run (Part.creates (table w) fresh now i))
        (create-table w fresh now i)
  Part-Seen s (Part.reads w id) run = elim (table-get primary_repo cache id w.repo) [
    | inl hit ↦ one_part run (ap (λ (p : P). record (table w) { repo = p }) hit)
    | inr read ↦
        one_part (Interleaves.next run (Part.reads (table w) id))
          (ap (λ (p : P). record (table w) { repo = p }) read)
  ]
  Part-Seen s (Part.cancels w id seen) run =
      one_part (Interleaves.next run (Part.cancels (table w) id seen)) (cancel-table w id seen)
  Part-Seen s (Part.sends w n) run = Interleaves.next run (Part.sends (table w) n)
  Part-Seen s (Part.works w now n answer) run =
      one_part (Interleaves.next run (Part.works (table w) now n answer))
        (after_send-table now n w answer)
  Part-Seen s (Part.settles w a) run = Interleaves.next run (Part.settles (table w) a)
  Part-Seen s (Part.outside w q t) run = Interleaves.next run (Part.outside (table w) q t)

  -- Over any cache, a run of the API and the workers, cut at their calls of the caching repository
  -- and with a cache that may turn into any other in between, is without the cache a run of the
  -- same parts over the primary repository, but for lookups that the cache answers.
  pub cached_refines : {w w' : W} → CachedRun w w' → Seen w w'
  cached_refines here = Interleaves.here
  cached_refines {w} (next r (part p)) = Part-Seen w p (cached_refines r)
  cached_refines (next r (cache_turns w c)) = cached_refines r

  -- Whatever the cache does, stale entries and deletions that fail included, and however the API
  -- and the workers interleave between their calls of the caching repository: where the primary
  -- repository keeps its contract and stores a notification with another status than `scheduled`,
  -- it keeps it with its content, and never as scheduled again.
  pub any_cache :
      {w w' : W} (L : LawfulRepository primary_repo) (id : Uuid) (n : Notification)
      → L.Valid w.repo.0
      → L.view w.repo.0 id ≡ some n
      → n.status ≢ status_scheduled
      → CachedRun w w'
      → Finished (L.view w'.repo.0 id) n
  any_cache {w} {w'} L id n valid was final run =
      never_rescheduled json primary_repo queue notifier parse_address L id n valid was final
        (cached_refines run)
