-- ===== src/Sends/Count.antt =====
-- How often a notification is sent, over any sequence of calls.
use native.Mathlib.Decide.{ℕ_discrete}
use delayed_notifier.Prelude.{suc, ◌+◌, ◌≤◌, ◌≡◌, ◌≢◌, refl, String, ⊤, ap, ◌∙◌, sym, some, arith}
use delayed_notifier.Go.Errors.{Result, ok, err}
use delayed_notifier.Domain.Model.{Uuid, Notification, status_scheduled}
use delayed_notifier.Domain.Ports.{NotificationRepository, NotificationQueue, Notifier}
use delayed_notifier.Domain.Json.{JsonCodec}
use delayed_notifier.Domain.Contract.{LawfulRepository}
use delayed_notifier.Domain.Status.{Moves-final, IsFinal, IsFinal-ne-scheduled, status_of}
use delayed_notifier.Consumer.Handler.{World}
use delayed_notifier.System.{Call, Call-moves}
use delayed_notifier.Sends.{
  Log, logged, count, is_send, is_success, sends, successes, requeues, Watched, here, calls,
  outside,
}
use delayed_notifier.Sends.Message.{
  Sends, Logs, quiet, failed, stored, requeued, handle_message-Logs,
}

module _ {R Q N : Type 0} (json : JsonCodec) (repo : NotificationRepository R)
    (queue : NotificationQueue Q) (notifier : Notifier N) (parse_address : String → Result ⊤)
    (L : LawfulRepository repo) where
  abbrev W : Type 0
  W = World R Q (Log × N)

  Call-Logs :
      {w w' : W}
      → Call json repo queue (logged notifier) parse_address w w'
      → L.Valid w.repo
      → Logs json repo queue notifier L w w'
  Call-Logs (Call.creates w fresh now i) valid = quiet refl (omega arith)
  Call-Logs (Call.reads w id) valid = quiet refl (omega arith)
  Call-Logs (Call.cancels w id) valid = quiet refl (omega arith)
  Call-Logs (Call.handles w now body) valid =
      handle_message-Logs json repo queue notifier L now body w valid

  -- The entry of the id is stored with another status than `scheduled`.
  abbrev Over : Uuid → W → Type 0
  Over id w = (m : Notification) × (L.view w.repo id ≡ some m) × (m.status ≢ status_scheduled)

  Over-ne :
      (id : Uuid) (n : Notification) (r : Result ⊤) (w w' : W)
      → Over id w
      → Sends json repo queue notifier L n r w w'
      → n.id ≢ id
  Over-ne id n r w w' (m, was, final) (_, (k, found, scheduled)) same =
      final (status_of found (ap (L.view w.repo) same ∙ was) ∙ scheduled)

  Call-Over :
      {w w' : W} (id : Uuid)
      → Call json repo queue (logged notifier) parse_address w w'
      → L.Valid w.repo
      → Over id w
      → Over id w'
  Call-Over id c valid (m, was, final) =
      let moves = (Call-moves json repo queue (logged notifier) parse_address L c valid).1 in
      (m, Moves-final m (moves id) was final ∙ was, final)

  Watched-Valid :
      {w w' : W}
      → Watched json repo queue notifier parse_address w w'
      → L.Valid w.repo
      → L.Valid w'.repo
  Watched-Valid here valid = valid
  Watched-Valid (calls r c) valid =
      (Call-moves json repo queue (logged notifier) parse_address L c (Watched-Valid r valid)).0
  Watched-Valid (outside r q s) valid = Watched-Valid r valid

  -- A call leaves the number of sends of a notification that is over.
  Logs-silent :
      (id : Uuid) (w w' : W)
      → Logs json repo queue notifier L w w'
      → Over id w
      → sends id w' ≡ sends id w
  Logs-silent id w w' (quiet same _) over = ap (count (is_send id)) same
  Logs-silent id w w' (failed n e send _) over =
      let ne = Over-ne id n (err e) w w' over send in ap (count (is_send id)) send.0 ∙ ground arith
  Logs-silent id w w' (stored n m send _ _ _) over =
      let ne = Over-ne id n (ok tt) w w' over send in ap (count (is_send id)) send.0 ∙ ground arith
  Logs-silent id w w' (requeued n send _) over =
      let ne = Over-ne id n (ok tt) w w' over send in ap (count (is_send id)) send.0 ∙ ground arith

  Watched-silent :
      {w w' : W} (id : Uuid)
      → L.Valid w.repo
      → Over id w
      → Watched json repo queue notifier parse_address w w'
      → Over id w' × (sends id w' ≡ sends id w)
  Watched-silent id valid over here = (over, refl)
  Watched-silent id valid over (calls {v} {u} r c) =
      let (before, same) = Watched-silent id valid over r in
      let valid' = Watched-Valid r valid in
      (Call-Over id c valid' before, Logs-silent id v u (Call-Logs c valid') before ∙ same)
  Watched-silent id valid over (outside r q s) = Watched-silent id valid over r

  -- Over a repository that keeps its contract, a notification that is stored with another status
  -- than `scheduled`, such as one that was cancelled, is never given to the notifier again in any
  -- later sequence of calls of the API and the workers.
  pub never_sent_after :
      {w w' : W} (id : Uuid) (n : Notification)
      → L.Valid w.repo
      → L.view w.repo id ≡ some n
      → n.status ≢ status_scheduled
      → Watched json repo queue notifier parse_address w w'
      → sends id w' ≡ sends id w
  never_sent_after id n valid was final r = (Watched-silent id valid (n, was, final) r).1

  -- From one state to a later one, each send of the notification that succeeded is matched by
  -- a message that was requeued, but for one, after which the entry is final.
  data Budget (id : Uuid) (w w' : W) : Type 0 where
    even : successes id w' + requeues w ≤ successes id w + requeues w' → Budget id w w'
    one :
        successes id w' + requeues w ≤ suc (successes id w + requeues w')
        → Over id w'
        → Budget id w w'

  unchanged-Budget :
      (id : Uuid) (w v u : W)
      → successes id u ≡ successes id v
      → requeues v ≤ requeues u
      → (Over id v → Over id u)
      → Budget id w v
      → Budget id w u
  unchanged-Budget id w v u same more keeps (even h) = even (omega arith)
  unchanged-Budget id w v u same more keeps (one h over) = one (omega arith) (keeps over)

  other_success :
      (id : Uuid) (n : Notification) (w w' : W)
      → n.id ≢ id
      → Sends json repo queue notifier L n (ok tt) w w'
      → successes id w' ≡ successes id w
  other_success id n w w' ne send = ap (count (is_success id)) send.0 ∙ ground arith

  this_success :
      (id : Uuid) (n : Notification) (w w' : W)
      → n.id ≡ id
      → Sends json repo queue notifier L n (ok tt) w w'
      → successes id w' ≡ suc (successes id w)
  this_success id n w w' same send = ap (count (is_success id)) send.0 ∙ ground arith

  Logs-Budget :
      (id : Uuid) (w v u : W)
      → Logs json repo queue notifier L v u
      → (Over id v → Over id u)
      → Budget id w v
      → Budget id w u
  Logs-Budget id w v u (quiet same more) keeps b =
      unchanged-Budget id w v u (ap (count (is_success id)) same) more keeps b
  Logs-Budget id w v u (failed n e send more) keeps b =
      unchanged-Budget id w v u (ap (count (is_success id)) send.0) more keeps b
  Logs-Budget id w v u (stored n m send is sent more) keeps b = elim (ℕ_discrete n.id id) [
    | no ne ↦ unchanged-Budget id w v u (other_success id n v u ne send) more keeps b
    | yes same ↦ elim b [
      | one h over ↦ absurd (Over-ne id n (ok tt) v u over send same)
      | even h ↦
          one (omega (arith, this_success id n v u same send))
            (m, ap (L.view u.repo) (sym same) ∙ is, IsFinal-ne-scheduled (IsFinal.sent sent))
    ]
  ]
  Logs-Budget id w v u (requeued n send more) keeps b = elim (ℕ_discrete n.id id) [
    | no ne ↦ unchanged-Budget id w v u (other_success id n v u ne send) (omega arith) keeps b
    | yes same ↦ elim b [
      | one h over ↦ absurd (Over-ne id n (ok tt) v u over send same)
      | even h ↦ even (omega (arith, this_success id n v u same send))
    ]
  ]

  Watched-Budget :
      {w w' : W} (id : Uuid)
      → L.Valid w.repo
      → Watched json repo queue notifier parse_address w w'
      → Budget id w w'
  Watched-Budget id valid here = even (omega arith)
  Watched-Budget {w} id valid (calls {v} {u} r c) =
      let valid' = Watched-Valid r valid in
      Logs-Budget id w v u (Call-Logs c valid') (Call-Over id c valid') (Watched-Budget id valid r)
  Watched-Budget {w} id valid (outside {v} r q s) =
      unchanged-Budget id w v _ refl (omega arith) (λ over. over) (Watched-Budget id valid r)

  -- Over a repository that keeps its contract, in any sequence of calls of the API and the workers,
  -- duplicate messages included, the sends of a notification that succeed are at most one more than
  -- the messages that are requeued meanwhile: where none is requeued, the notification is sent at
  -- most once.
  pub sent_once :
      {w w' : W} (id : Uuid)
      → L.Valid w.repo
      → Watched json repo queue notifier parse_address w w'
      → successes id w' + requeues w ≤ suc (successes id w + requeues w')
  sent_once {w} {w'} id valid r = within (Watched-Budget id valid r)
    where
      within : Budget id w w' → successes id w' + requeues w ≤ suc (successes id w + requeues w')
      within (even h) = omega arith
      within (one h _) = h
