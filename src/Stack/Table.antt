-- ===== src/Stack/Table.antt =====
-- The calls of `CachedNotificationRepository` of storage/redis, seen from its primary repository, over any
-- cache.
use delayed_notifier.Prelude.{◌≡◌, inl, inr, arith, ◌⊎◌}
use delayed_notifier.Go.Errors.{Result, Result-cases}
use delayed_notifier.Domain.Model.{Uuid, Notification}
use delayed_notifier.Domain.Ports.{NotificationRepository, NotificationCache}
use delayed_notifier.Redis.Cached.{save, get_by_id, fetch, update, delete}
use delayed_notifier.Consumer.Handler.{World}

module _ {P C Q N : Type 0} where
  -- The same state without the cache.
  abbrev pub table : World (P × C) Q N → World P Q N
  table w = record { repo = w.repo.0; queue = w.queue; notifier = w.notifier; settled = w.settled }

module _ {P C : Type 0} (primary_repo : NotificationRepository P)
    (cache : NotificationCache C) where
  abbrev pub on_table : {A : Type 0} → Result A × (P × C) → Result A × P
  on_table x = (x.0, x.1.0)

  pub table-save :
      (n : Notification) (s : P × C)
      → on_table (save primary_repo cache n s) ≡ primary_repo.save n s.0
  unfolding save
  table-save n s = elim (Result-cases (primary_repo.save n s.0).0) [
    | inl (e, f) ↦ ground arith
    | inr (u, f) ↦ ground arith
  ]

  pub table-update :
      (n : Notification) (s : P × C)
      → on_table (update primary_repo cache n s) ≡ primary_repo.update n s.0
  unfolding update
  table-update n s = elim (Result-cases (primary_repo.update n s.0).0) [
    | inl (e, f) ↦ ground arith
    | inr (u, f) ↦ ground arith
  ]

  pub table-delete :
      (id : Uuid) (s : P × C)
      → on_table (delete primary_repo cache id s) ≡ primary_repo.delete id s.0
  unfolding delete
  table-delete id s = elim (Result-cases (primary_repo.delete id s.0).0) [
    | inl (e, f) ↦ ground arith
    | inr (u, f) ↦ ground arith
  ]

  pub table-get :
      (id : Uuid) (s : P × C)
      → ((get_by_id primary_repo cache id s).1.0 ≡ s.0)
        ⊎ ((get_by_id primary_repo cache id s).1.0 ≡ (primary_repo.get_by_id id s.0).1)
  unfolding get_by_id fetch
  table-get id s = elim (Result-cases (cache.get id s.1).0) [
    | inr (n, hit) ↦ inl (ground arith)
    | inl (e, miss) ↦ elim (Result-cases (primary_repo.get_by_id id s.0).0) [
      | inl (e, f) ↦ inr (ground arith)
      | inr (n, f) ↦ inr (ground arith)
    ]
  ]
