-- ===== src/Redis/Paths.antt =====
-- The methods of `CachedNotificationRepository`, path by path: what they return and leave behind, by
-- what the primary repository and the cache answer.
use delayed_notifier.Prelude.{◌≡◌, arith, ⊤}
use delayed_notifier.Go.Errors.{Error, ok, err}
use delayed_notifier.Domain.Model.{Uuid, Notification}
use delayed_notifier.Domain.Ports.{NotificationRepository, NotificationCache}
use delayed_notifier.Redis.Cached.{ttl, save, get_by_id, update, delete}

module _ {P C : Type 0} (repo : NotificationRepository P) (cache : NotificationCache C) where
  pub get-eq_hit :
      (id : Uuid) (n : Notification) (p : P) (c c' : C)
      → cache.get id c ≡ (ok n, c')
      → get_by_id repo cache id (p, c) ≡ (ok n, (p, c'))
  unfolding get_by_id
  get-eq_hit id n p c c' hit = ground arith

  pub get-eq_absent :
      (id : Uuid) (e e' : Error) (p p' : P) (c c' : C)
      → cache.get id c ≡ (err e, c')
      → repo.get_by_id id p ≡ (err e', p')
      → get_by_id repo cache id (p, c) ≡ (err e', (p', c'))
  unfolding get_by_id
  get-eq_absent id e e' p p' c c' miss absent = ground arith

  pub get-eq_filled :
      (id : Uuid) (e : Error) (n : Notification) (p p' : P) (c c' : C)
      → cache.get id c ≡ (err e, c')
      → repo.get_by_id id p ≡ (ok n, p')
      → get_by_id repo cache id (p, c) ≡ (ok n, (p', (cache.set n ttl c').1))
  unfolding get_by_id
  get-eq_filled id e n p p' c c' miss present = ground arith

  pub save-eq_failed :
      (n : Notification) (e : Error) (p p' : P) (c : C)
      → repo.save n p ≡ (err e, p')
      → save repo cache n (p, c) ≡ (err e, (p', c))
  unfolding save
  save-eq_failed n e p p' c failed = ground arith

  pub save-eq_ok :
      (n created : Notification) (p p' : P) (c : C)
      → repo.save n p ≡ (ok created, p')
      → save repo cache n (p, c) ≡ (ok created, (p', (cache.set created ttl c).1))
  unfolding save
  save-eq_ok n created p p' c done = ground arith

  pub update-eq_failed :
      (n : Notification) (e : Error) (p p' : P) (c : C)
      → repo.update n p ≡ (err e, p')
      → update repo cache n (p, c) ≡ (err e, (p', c))
  unfolding update
  update-eq_failed n e p p' c failed = ground arith

  pub update-eq_ok :
      (n : Notification) (u : ⊤) (p p' : P) (c : C)
      → repo.update n p ≡ (ok u, p')
      → update repo cache n (p, c) ≡ (ok tt, (p', (cache.delete n.id c).1))
  unfolding update
  update-eq_ok n u p p' c done = ground arith

  pub delete-eq_failed :
      (id : Uuid) (e : Error) (p p' : P) (c : C)
      → repo.delete id p ≡ (err e, p')
      → delete repo cache id (p, c) ≡ (err e, (p', c))
  unfolding delete
  delete-eq_failed id e p p' c failed = ground arith

  pub delete-eq_ok :
      (id : Uuid) (u : ⊤) (p p' : P) (c : C)
      → repo.delete id p ≡ (ok u, p')
      → delete repo cache id (p, c) ≡ (ok tt, (p', (cache.delete id c).1))
  unfolding delete
  delete-eq_ok id u p p' c done = ground arith
