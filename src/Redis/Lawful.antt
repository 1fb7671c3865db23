-- ===== src/Redis/Lawful.antt =====
-- The repository that caches keeps the contract of domain/repository/notification_repo.go, over a
-- repository and a cache that keep theirs, as long as the cache's `Delete` does not fail.
use delayed_notifier.Prelude.{◌≡◌, refl, inl, inr, ap, ◌∙◌}
use delayed_notifier.Go.Errors.{ok}
use delayed_notifier.Domain.Model.{Uuid, Notification}
use delayed_notifier.Domain.Ports.{NotificationRepository, NotificationCache}
use delayed_notifier.Domain.Contract.{
  View, Same, SameBut, WithinOr, Updated, Cancelled, Changed, Refused, Read, Added, Ensures,
  Ensures-cases, LawfulRepository, LawfulCache,
}
use delayed_notifier.Redis.Cached.{
  ttl, save, get_by_id, update, delete, cached_notification_repository,
}
use delayed_notifier.Redis.Coherence.{Coherent, Coherent-Within, Coherent-set, Coherent-delete}
use delayed_notifier.Redis.Paths

-- Invalidation does not fail.
abbrev pub Reliable : {C : Type 0} → NotificationCache C → Type 0
Reliable {C} cache = (id : Uuid) (c : C) → (cache.delete id c).0 ≡ ok tt

module _ {P C : Type 0} {repo : NotificationRepository P} {cache : NotificationCache C}
    (R : LawfulRepository repo) (K : LawfulCache cache) where
  -- What the decorator needs of its state.
  abbrev pub Consistent : P × C → Type 0
  Consistent (p, c) = R.Valid p × Coherent (R.view p) (K.entry c)

  abbrev pub stored : P × C → View
  stored (p, c) = R.view p

  set_within : (n : Notification) (c : C) → WithinOr n (K.entry c) (K.entry (cache.set n ttl c).1)
  set_within n c = elim (Ensures-cases (cache.set n ttl c) (K.set_law c n ttl)) [
    | inl (u, c', e, h) ↦ rw e h
    | inr (f, c', e, h) ↦ rw e h
  ]

  -- Where the primary repository and the cache keep their contracts and no entry of the cache
  -- differs from what is stored, `GetByID` of the caching repository keeps the contract of a
  -- repository on every outcome, and still no entry differs.
  pub cached_get_law :
      (s : P × C) (id : Uuid)
      → Consistent s
      → Ensures
          (λ n s'. Consistent s' × Read id (stored s) (stored s') n)
          (λ e s'. Consistent s' × Refused id (stored s) (stored s') e)
          (get_by_id repo cache id s)
  cached_get_law (p, c) id (valid, coherent) =
      elim (Ensures-cases (cache.get id c) (K.get_law c id)) [
        | inl (n, c', hit, (within, held)) ↦ rw (Paths.get-eq_hit repo cache id n p c c' hit) (
          (valid, Coherent-Within coherent (λ j. refl) within),
          record { same = λ j. refl; found = coherent id n held },
        )
        | inr (e, c', miss, within) ↦
            elim (Ensures-cases (repo.get_by_id id p) (R.get_law p id valid)) [
              | inr (e', p', absent, (valid', refused)) ↦
                  rw (Paths.get-eq_absent repo cache id e e' p p' c c' miss absent)
                    ((valid', Coherent-Within coherent refused.same within), refused)
              | inl (n, p', present, (valid', read)) ↦
                  let same_id = R.view_id p id n valid read.found in
                  rw (Paths.get-eq_filled repo cache id e n p p' c c' miss present) (
                    (
                      valid',
                      Coherent-set n (Coherent-Within coherent (λ j. refl) within)
                          (λ j _. read.same j) (ap (R.view p') same_id ∙ read.same id ∙ read.found)
                          (inr (ap (R.view p) same_id ∙ read.found)) (set_within n c'),
                    ),
                    read,
                  )
            ]
      ]

  -- Where the primary repository and the cache keep their contracts and no entry of the cache
  -- differs from what is stored, `Save` of the caching repository keeps the contract of a
  -- repository on every outcome, and still no entry differs.
  pub cached_save_law :
      (s : P × C) (n : Notification)
      → Consistent s
      → Ensures
          (λ created s'. Consistent s' × Added n (stored s) (stored s') created)
          (λ e s'. Consistent s' × Same (stored s) (stored s'))
          (save repo cache n s)
  cached_save_law (p, c) n (valid, coherent) =
      elim (Ensures-cases (repo.save n p) (R.save_law p n valid)) [
        | inr (e, p', failed, (valid', same)) ↦
            rw (Paths.save-eq_failed repo cache n e p p' c failed)
              ((valid', Coherent-Within coherent same (λ j m x. x)), same)
        | inl (created, p', done, (valid', added)) ↦
            rw (Paths.save-eq_ok repo cache n created p p' c done) (
              (
                valid',
                Coherent-set created coherent added.others added.after (inl added.fresh)
                    (set_within created c),
              ),
              added,
            )
      ]

  -- The state after a change of the entry of `id`, once the cache has dropped it.
  invalidated :
      (id : Uuid) (p p' : P) (c : C)
      → (cache.delete id c).0 ≡ ok tt
      → R.Valid p'
      → Coherent (R.view p) (K.entry c)
      → SameBut id (R.view p) (R.view p')
      → Consistent (p', (cache.delete id c).1)
  invalidated id p p' c done valid coherent others =
      elim (Ensures-cases (cache.delete id c) (K.delete_law c id)) [
        | inl (u, c', e, (within, gone)) ↦
            rw e (valid, Coherent-delete id coherent others within gone)
        | inr (f, c', e, within) ↦ cc
      ]

  -- Where the primary repository and the cache keep their contracts, invalidation does not fail and
  -- no entry of the cache differs from what is stored, `Update` of the caching repository keeps the
  -- contract of a repository on every outcome, and still no entry differs.
  pub cached_update_law :
      Reliable cache
      → (s : P × C) (n : Notification) → Consistent s
      → Ensures
          (λ _ s'. Consistent s' × Changed (λ old m. Updated old n m) n.id (stored s) (stored s'))
          (λ e s'. Consistent s' × Refused n.id (stored s) (stored s') e)
          (update repo cache n s)
  cached_update_law reliable (p, c) n (valid, coherent) =
      elim (Ensures-cases (repo.update n p) (R.update_law p n valid)) [
        | inr (e, p', failed, (valid', refused)) ↦
            rw (Paths.update-eq_failed repo cache n e p p' c failed)
              ((valid', Coherent-Within coherent refused.same (λ j m x. x)), refused)
        | inl (u, p', done, (valid', changed)) ↦
            rw (Paths.update-eq_ok repo cache n u p p' c done)
              (invalidated n.id p p' c (reliable n.id c) valid' coherent changed.others, changed)
      ]

  -- Where the primary repository and the cache keep their contracts, invalidation does not fail and
  -- no entry of the cache differs from what is stored, `Delete` of the caching repository keeps the
  -- contract of a repository on every outcome, and still no entry differs.
  pub cached_delete_law :
      Reliable cache
      → (s : P × C) (id : Uuid) → Consistent s
      → Ensures
          (λ _ s'. Consistent s' × Changed Cancelled id (stored s) (stored s'))
          (λ e s'. Consistent s' × Refused id (stored s) (stored s') e)
          (delete repo cache id s)
  cached_delete_law reliable (p, c) id (valid, coherent) =
      elim (Ensures-cases (repo.delete id p) (R.delete_law p id valid)) [
        | inr (e, p', failed, (valid', refused)) ↦
            rw (Paths.delete-eq_failed repo cache id e p p' c failed)
              ((valid', Coherent-Within coherent refused.same (λ j m x. x)), refused)
        | inl (u, p', done, (valid', changed)) ↦
            rw (Paths.delete-eq_ok repo cache id u p p' c done)
              (invalidated id p p' c (reliable id c) valid' coherent changed.others, changed)
      ]

  -- Where the primary repository and the cache keep their contracts, invalidation does not fail and
  -- no entry of the cache differs from what is stored, each of the four methods of the caching
  -- repository keeps the contract of a repository, on success and on failure, and still no entry
  -- differs.
  pub cached_contract :
      Reliable cache
      → (s : P × C) (n : Notification) (id : Uuid) → Consistent s
      → Ensures
          (λ created s'. Consistent s' × Added n (stored s) (stored s') created)
          (λ e s'. Consistent s' × Same (stored s) (stored s'))
          (save repo cache n s)
        × Ensures
            (λ m s'. Consistent s' × Read id (stored s) (stored s') m)
            (λ e s'. Consistent s' × Refused id (stored s) (stored s') e)
            (get_by_id repo cache id s)
        × Ensures
            (λ _ s'. Consistent s' × Changed (λ old m. Updated old n m) n.id (stored s) (stored s'))
            (λ e s'. Consistent s' × Refused n.id (stored s) (stored s') e)
            (update repo cache n s)
        × Ensures
            (λ _ s'. Consistent s' × Changed Cancelled id (stored s) (stored s'))
            (λ e s'. Consistent s' × Refused id (stored s) (stored s') e)
            (delete repo cache id s)
  cached_contract reliable s n id h = (
    cached_save_law s n h,
    cached_get_law s id h,
    cached_update_law reliable s n h,
    cached_delete_law reliable s id h,
  )

  -- The decorator is a repository like the one that it decorates.
  abbrev pub lawful : Reliable cache → LawfulRepository (cached_notification_repository repo cache)
  lawful reliable = record {
    Valid = Consistent;
    view = stored;
    view_id = λ s id n h. R.view_id s.0 id n h.0;
    save_law = cached_save_law;
    get_law = cached_get_law;
    update_law = cached_update_law reliable;
    delete_law = cached_delete_law reliable;
  }
