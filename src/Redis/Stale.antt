-- ===== src/Redis/Stale.antt =====
-- Where invalidation fails, `CachedNotificationRepository.Update` only logs it.
use delayed_notifier.Prelude.{refl, ◌≡◌, ◌≢◌, some, ap, ◌∙◌, sym}
use delayed_notifier.Go.Errors.{Error, Result, ok, err}
use delayed_notifier.Domain.Model.{Notification}
use delayed_notifier.Domain.Ports.{NotificationRepository, NotificationCache}
use delayed_notifier.Domain.Contract.{Updated, Changed, LawfulRepository}
use delayed_notifier.Redis.Cached.{get_by_id, update}
use delayed_notifier.Redis.Paths

module _ {P C : Type 0} (repo : NotificationRepository P) (cache : NotificationCache C)
    (R : LawfulRepository repo) where
  -- Over a repository that keeps its contract, where an update went through but the cache could not
  -- delete its entry, and that entry has another status than the update, the update reports success
  -- and the next lookup returns the old entry, which is not what is stored.
  pub lookup_stale :
      (n old : Notification) (e : Error) (p p' : P) (c c' c'' : C)
      → R.Valid p
      → repo.update n p ≡ (ok tt, p')
      → cache.delete n.id c ≡ (err e, c')
      → cache.get n.id c' ≡ (ok old, c'')
      → old.status ≢ n.status
      → let (r, s) = update repo cache n (p, c) in
        (r ≡ ok tt) × ((get_by_id repo cache n.id s).0 ≡ ok old) × (R.view s.0 n.id ≢ some old)
  lookup_stale n old e p p' c c' c'' valid done kept hit differ =
      rw (Paths.update-eq_ok repo cache n tt p p' c done, kept)
        (
          refl,
          ap (λ (x : Result Notification × (P × C)). x.0)
              (Paths.get-eq_hit repo cache n.id old p' c' c'' hit),
          not_old,
        )
    where
      changed : R.Valid p' × Changed (λ m k. Updated m n k) n.id (R.view p) (R.view p')
      changed = rw done at (R.update_law p n valid)

      not_old : R.view p' n.id ≢ some old
      not_old q =
          let same : changed.1.new ≡ old = cc (changed.1.after) in
          differ (ap (λ (m : Notification). m.status) (sym same) ∙ changed.1.related.status)
