-- ===== src/Consumer/InFive.antt =====
-- A notification through the messages that `handleMessage` publishes again, whatever the notifier answers.
use mathlib.Core.Option.{some-injective}
use delayed_notifier.Prelude.{
  ltb, Bool-cases, ◌≡◌, refl, String, ◌∙◌, sym, ap, subst, Option, none, some, inl, inr, ◌⊎◌, ⊤,
  arith, ℕ, zero, suc, ◌+◌, ◌*◌, ◌^◌, ◌<◌, ◌≤◌,
}
use delayed_notifier.Prelude.Int.{pos}
use delayed_notifier.Go.Errors.{Result, ok, err}
use delayed_notifier.Go.Clock.{Time, Duration, nanos_per_second}
use delayed_notifier.Domain.Model.{
  Status, Notification, status_scheduled, status_sent, status_failed,
}
use delayed_notifier.Domain.Ports.{NotificationRepository, NotificationQueue, Notifier}
use delayed_notifier.Domain.Json.{JsonCodec}
use delayed_notifier.Domain.Contract.{core, LawfulRepository}
use delayed_notifier.Domain.Status.{status_of, IsFinal}
use delayed_notifier.Consumer.Handler.{
  World, process, after_send, update_then_settle, handle_message,
}
use delayed_notifier.Consumer.Retried.{retry_outcome}
use delayed_notifier.Consumer.Recorded.{update_ok}
use delayed_notifier.Consumer.Paths.{latest_scheduled}
use delayed_notifier.Consumer.Retry.{send_error_gives_up}

abbrev text_of : Result String → String
text_of (ok body) = body
text_of (err _) = ""

module _ {Q : Type 0} where
  -- The queue, with the notification that it last took to be retried.
  abbrev record_published :
      Notification → Option Notification → Result ⊤ × Q → Result ⊤ × (Option Notification × Q)
  record_published m before (ok u, q) = (ok u, (some m, q))
  record_published m before (err e, q) = (err e, (before, q))

  abbrev pub recording : NotificationQueue Q → NotificationQueue (Option Notification × Q)
  recording queue = record {
    publish = λ now m x. let (r, q) = queue.publish now m x.1 in (r, (x.0, q));
    publish_retry = λ m d x. record_published m x.0 (queue.publish_retry m d x.1);
  }

module _ {R Q N : Type 0} (json : JsonCodec) (repo : NotificationRepository R)
    (queue : NotificationQueue Q) (notifier : Notifier N) (times : ℕ → Time) where
  -- A worker handles the message of the notification.
  abbrev pub handle_next :
      ℕ → Notification → World R (Option Notification × Q) N → World R (Option Notification × Q) N
  handle_next j m w =
      handle_message json repo (recording queue) notifier (times j) (text_of (json.marshal m))
        (record w { queue = (none, w.queue.1) })

  -- The message of a notification is handled, then the one that the queue took meanwhile to be
  -- retried, and so on, as long as there is one and for so many messages; what is left to retry,
  -- and the system then.
  abbrev pub follow :
      ℕ
      → ℕ
      → Option Notification
      → World R (Option Notification × Q) N
      → Option Notification × World R (Option Notification × Q) N
  follow zero j next w = (next, w)
  follow (suc k) j none w = (none, w)
  follow (suc k) j (some m) w = let w' = handle_next j m w in follow k (suc j) w'.queue.0 w'

  followed : (k j : ℕ) (w : World R (Option Notification × Q) N) → follow k j none w ≡ (none, w)
  followed zero j w = refl
  followed (suc k) j w = refl

module _ {R Q N : Type 0} (json : JsonCodec) (repo : NotificationRepository R)
    (queue : NotificationQueue Q) (notifier : Notifier N) (times : ℕ → Time)
    (L : LawfulRepository repo) (Serving : R → Type 0) (n old : Notification)
    (reads : (s : R)
      → Serving s
      → (m : Notification) × (s' : R) × (repo.get_by_id n.id s ≡ (ok m, s')) × Serving s')
    (writes : (m : Notification) (s : R)
      → m.id ≡ n.id
      → IsFinal m.status
      → Serving s
      → (s' : R) × (repo.update m s ≡ (ok tt, s')))
    (publishes : (m : Notification) (d : Duration) (q : Q)
      → (q' : Q) × (queue.publish_retry m d q ≡ (ok tt, q')))
    (decoded : (j : ℕ)
      → j ≤ 4
      → (body : String) × (json.marshal (record n { attempts = pos j }) ≡ ok body)
        × (json.unmarshal body ≡ ok (record n { attempts = pos j }))) where
  abbrev W : Type 0
  W = World R (Option Notification × Q) N

  -- The notification is scheduled.
  record Ready (w : W) : Type 0 where
    valid : L.Valid w.repo
    serving : Serving w.repo
    was : L.view w.repo n.id ≡ some old
    scheduled : old.status ≡ status_scheduled

  -- It was sent, or it failed.
  pub record Done (w : W) : Type 0 where
    valid : L.Valid w.repo
    pub new : Notification
    pub is : L.view w.repo n.id ≡ some new
    pub final : (new.status ≡ status_sent) ⊎ (new.status ≡ status_failed)
    pub kept : core new ≡ core old

  IsFinal-done : {x : Status} → (x ≡ status_sent) ⊎ (x ≡ status_failed) → IsFinal x
  IsFinal-done (inl e) = IsFinal.sent e
  IsFinal-done (inr e) = IsFinal.failed e

  abbrev counted : ℕ → Notification
  counted j = record n { attempts = pos j }

  abbrev body_of : ℕ → String
  body_of j = text_of (json.marshal (counted j))

  read_back : (j : ℕ) → j ≤ 4 → json.unmarshal (body_of j) ≡ ok (counted j)
  read_back j few = let (body, written, read) = decoded j few in rw written read

  abbrev after : ℕ → W → W
  after j w = handle_next json repo queue notifier times j (counted j) w

  -- And nothing is left to retry.
  abbrev Finished : W → Type 0
  Finished w = Done w × (w.queue.0 ≡ none)

  -- Another round follows.
  abbrev GoesOn : ℕ → W → Type 0
  GoesOn j w = (j < 4) × Ready w × (w.queue.0 ≡ some (counted (suc j)))

  -- The status is stored.
  stores :
      (m : Notification) (w : W)
      → L.Valid w.repo
      → Serving w.repo
      → L.view w.repo n.id ≡ some old
      → m.id ≡ n.id
      → (m.status ≡ status_sent) ⊎ (m.status ≡ status_failed)
      → w.queue.0 ≡ none
      → Finished (update_then_settle json repo (recording queue) notifier m w)
  stores m w valid serving was same final nothing =
      let (s, wrote) = writes m w.repo same (IsFinal-done final) serving in
      let (valid', changed) = (rw wrote at (L.update_law w.repo m valid)) in
      rw (update_ok json repo (recording queue) notifier m w s wrote) (
        record {
          valid = valid';
          new = changed.new;
          is = ap (L.view s) (sym same) ∙ changed.after;
          final = rw changed.related.status final;
          kept =
              changed.related.kept
              ∙ ap core (
                  some-injective changed.old old
                    (sym changed.before ∙ (ap (L.view w.repo) same ∙ was)));
        },
        nothing,
      )

  module _ (j : ℕ) (few : j ≤ 4) (w : W) (r : Ready w) where
    abbrev cleared : W
    cleared = record w { queue = (none, w.queue.1) }

    module _ (m : Notification) (s : R) (good : repo.get_by_id n.id w.repo ≡ (ok m, s))
        (serving : Serving s) where
      looked : L.Valid s × (L.view s n.id ≡ some old) × (m.status ≡ status_scheduled)
      looked =
          let (valid', read) = (rw good at (L.get_law w.repo n.id r.valid)) in
          (valid', read.same n.id ∙ r.was, status_of r.was read.found ∙ r.scheduled)

      -- By the notifier's answer.
      answered :
          (x : Result ⊤ × N)
          → notifier.send (counted j) w.notifier ≡ x
          → GoesOn j (after j w) ⊎ Finished (after j w)
      unfolding process
      answered (ok u, t) answer =
          rw
            (
              latest_scheduled json repo (recording queue) notifier (times j) (body_of j)
                  (counted j) cleared (read_back j few) m s good looked.2,
              answer,
              after_send,
            )
            (inr (
              stores _ (record cleared { repo = s; notifier = t }) looked.0 serving looked.1 refl
                (inl refl) refl))
      answered (err e, t) answer = elim (Bool-cases (ltb j 4)) [
        | inl below ↦
            let small : j < 4 = ground arith in
            let (q, took) =
              publishes (record n { attempts = pos (suc j) })
                (pos (5 * 2 ^ suc j * nanos_per_second)) w.queue.1 in
            let done =
              (rw (ap (record_published (record n { attempts = pos (suc j) }) none) took) at (
                retry_outcome json repo (recording queue) notifier (times j) (body_of j) (counted j)
                  m cleared s t e j (read_back j few) good looked.2 answer refl small)) in
            rw done (
              inl (
                small,
                record {
                  valid = looked.0;
                  serving = serving;
                  was = looked.1;
                  scheduled = r.scheduled;
                },
                refl,
              ))
        | inr last ↦
            rw
              (
                latest_scheduled json repo (recording queue) notifier (times j) (body_of j)
                    (counted j) cleared (read_back j few) m s good looked.2,
                answer,
                after_send,
                send_error_gives_up json repo (recording queue) notifier (counted j)
                    (record cleared { repo = s; notifier = t }) j refl (ground arith)
                    (omega (arith, few)),
              )
              (inr (
                stores _ (record cleared { repo = s; notifier = t }) looked.0 serving looked.1 refl
                  (inr refl) refl))
      ]

    one : GoesOn j (after j w) ⊎ Finished (after j w)
    one =
        let (m, s, good, serving) = reads w.repo r.serving in
        answered m s good serving (notifier.send (counted j) w.notifier) refl

  abbrev Ends : Option Notification × W → Type 0
  Ends x = (x.0 ≡ none) × Done x.1

  follow_on :
      (k j : ℕ) (w : W) (next : Option Notification)
      → (after j w).queue.0 ≡ next
      → follow json repo queue notifier times k (suc j) next (after j w)
        ≡ follow json repo queue notifier times (suc k) j (some (counted j)) w
  follow_on k j w next e =
      ap (λ p. follow json repo queue notifier times k (suc j) p (after j w)) (sym e)

  started-Ends :
      (k j : ℕ) (w : W)
      → k + j ≡ 5
      → Ready w
      → 0 < k
      → Ends (follow json repo queue notifier times k j (some (counted j)) w)
  started-Ends zero j w total r some_left = absurd (omega arith)
  started-Ends (suc k) j w total r some_left = elim (one j (omega arith) w r) [
    | inl (few, r', next) ↦
        subst Ends (follow_on k j w (some (counted (suc j))) next)
          (started-Ends k (suc j) (after j w) (omega arith) r' (omega arith))
    | inr (d, over) ↦
        subst Ends (follow_on k j w none over)
          (rw (followed json repo queue notifier times k (suc j) (after j w)) (refl, d))
  ]

  -- Over a repository that keeps its contract and serves its calls, where the messages can be
  -- published again and the notification with 0 to 4 attempts marshals to a body that decodes to
  -- it: the message of a scheduled notification with no attempts is handled, then the message that
  -- this published to be retried, and so on; after at most five messages nothing is left to retry,
  -- and the notification is stored as sent or failed, with its content, whatever the notifier
  -- answers.
  pub final_in_five :
      (w : W)
      → L.Valid w.repo
      → Serving w.repo
      → L.view w.repo n.id ≡ some old
      → old.status ≡ status_scheduled
      → let x =
          follow json repo queue notifier times 5 0 (some (record n { attempts = pos 0 })) w in
        (x.0 ≡ none) × Done x.1
  final_in_five w valid serving was scheduled =
      started-Ends 5 0 w refl
        (record { valid = valid; serving = serving; was = was; scheduled = scheduled })
        (omega arith)
