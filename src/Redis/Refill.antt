-- ===== src/Redis/Refill.antt =====
-- `CachedNotificationRepository.GetByID` reads the primary repository and fills the cache in two
-- calls: what an update does in between.
use delayed_notifier.Prelude.{refl, ◌≡◌, ◌≢◌, some, ap, ◌∙◌, sym}
use delayed_notifier.Go.Errors.{Result, ok}
use delayed_notifier.Domain.Model.{Notification}
use delayed_notifier.Domain.Ports.{NotificationRepository, NotificationCache}
use delayed_notifier.Domain.Contract.{Updated, Changed, LawfulRepository}
use delayed_notifier.Redis.Cached.{ttl, fill, get_by_id, update}
use delayed_notifier.Redis.Paths

module _ {P C : Type 0} (repo : NotificationRepository P) (cache : NotificationCache C)
    (R : LawfulRepository repo) where
  -- Over a repository that keeps its contract, where no call fails, an update that goes through
  -- between the two calls by which a lookup reads the old notification and fills the cache with it
  -- is hidden: if the cache keeps the entry, the next lookup returns the old notification, which is
  -- not what is stored.
  pub refill_stale :
      (n old : Notification) (p p' : P) (c c1 c2 c3 : C)
      → R.Valid p
      → R.view p n.id ≡ some old
      → repo.update n p ≡ (ok tt, p')
      → old.status ≢ n.status
      → cache.delete n.id c ≡ (ok tt, c1)
      → cache.set old ttl c1 ≡ (ok tt, c2)
      → cache.get n.id c2 ≡ (ok old, c3)
      → let (r, s) = update repo cache n (p, c) in
        let (r', s') = fill repo cache old s in
        (r ≡ ok tt)
        × (r' ≡ ok old)
        × ((get_by_id repo cache n.id s').0 ≡ ok old)
        × (R.view s'.0 n.id ≢ some old)
  refill_stale n old p p' c c1 c2 c3 valid was done differ dropped filled hit =
      rw (Paths.update-eq_ok repo cache n tt p p' c done, dropped)
        (rw filled (
          refl,
          refl,
          ap (λ (x : Result Notification × (P × C)). x.0)
              (Paths.get-eq_hit repo cache n.id old p' c2 c3 hit),
          not_old,
        ))
    where
      changed : R.Valid p' × Changed (λ m k. Updated m n k) n.id (R.view p) (R.view p')
      changed = rw done at (R.update_law p n valid)

      not_old : R.view p' n.id ≢ some old
      not_old q =
          let same : changed.1.new ≡ old = cc (changed.1.after) in
          differ (ap (λ (m : Notification). m.status) (sym same) ∙ changed.1.related.status)
