-- ===== src/Tests/Racing.antt =====
-- An example for Threads: a creation, a worker whose send fails, and a cancellation, interleaved.
use delayed_notifier.Prelude.{◌≡◌, ◌≤◌, refl, some, List, [], ◌∷◌}
use delayed_notifier.Prelude.Int.{pos, to_int16}
use delayed_notifier.Go.Errors.{ok, err, foreign}
use delayed_notifier.Domain.Model.{Notification}
use delayed_notifier.Postgres.Sql.{Database, create_notification, get_notification_by_id}
use delayed_notifier.Postgres.Mapping.{domain_model, to_domain_model, to_db_create_params}
use delayed_notifier.Postgres.Repository.{save, get_by_id}
use delayed_notifier.Service.{cancel_if_scheduled}
use delayed_notifier.Consumer.Handler.{service}
use delayed_notifier.Mail.{holding}
use delayed_notifier.Threads.{
  publishing, cancelling, received, sending, answered, this, other, Site, ready, with_repo, crash,
  Move, Moves,
}
use delayed_notifier.Threads.Kept.{AllKept}
use delayed_notifier.Threads.Accounted.{all_accounted}
use delayed_notifier.Threads.Single.{single_message}
use delayed_notifier.Tests.Data.{repo, law, queue, notifier_down, parse_address}
use delayed_notifier.Tests.Held.{json, request, fresh, stored, start, built, build_request}

abbrev S : Type 0
S = Site Database (List Notification) (List Notification)

-- The table is empty.
abbrev s0 : S
s0 = record { world = start; tasks = []; lost = [] }

abbrev r1 : Database
r1 = (repo.save built start.repo).1

saved : repo.save built start.repo ≡ (ok stored, r1)
unfolding save create_notification to_db_create_params to_domain_model domain_model to_int16
saved = refl

abbrev s1 : S
s1 = record s0 { world = with_repo r1 start; tasks = publishing stored ∷ [] }

abbrev s2 : S
s2 = record s1 { world = record s1.world { queue = (0 ∷ [], stored ∷ []) }; tasks = [] }

abbrev s3 : S
s3 = record s2 {
  world = record s2.world { queue = ([], stored ∷ []) };
  tasks = received stored ∷ [];
}

abbrev r4 : Database
r4 = (repo.get_by_id 0 r1).1

found : repo.get_by_id 0 r1 ≡ (ok stored, r4)
unfolding get_by_id get_notification_by_id save create_notification to_db_create_params
    to_domain_model domain_model to_int16
found = refl

abbrev s4 : S
s4 = record s3 { world = with_repo r4 s3.world; tasks = sending stored ∷ [] }

abbrev r5 : Database
r5 = (repo.get_by_id 0 r4).1

read : repo.get_by_id 0 r4 ≡ (ok stored, r5)
unfolding get_by_id get_notification_by_id save create_notification to_db_create_params
    to_domain_model domain_model to_int16
read = refl

-- The API has read the notification to cancel it, while the worker is about to send it.
abbrev s5 : S
s5 = record s4 { world = with_repo r5 s4.world; tasks = cancelling 0 stored ∷ sending stored ∷ [] }

abbrev s6 : S
s6 = record s5 {
  world = record s5.world { notifier = [] };
  tasks = answered stored (err (foreign "timeout")) ∷ cancelling 0 stored ∷ [];
}

abbrev s7 : S
s7 = record s6 {
  world = (service (cancel_if_scheduled repo (holding queue) 0 stored) s6.world).1;
  tasks = answered stored (err (foreign "timeout")) ∷ [];
}

-- The worker is lost before it can publish the message again.
abbrev s8 : S
s8 = crash (answered stored (err (foreign "timeout"))) [] s7

-- From the save on, after any moves.
abbrev later :
    {s : S}
    → Moves json repo queue notifier_down parse_address s s1
    → Moves json repo queue notifier_down parse_address s s8
later m1 =
    let m2 = Moves.next m1 (Move.publishes s1 stored [] (pos 3) (0 ∷ [], stored ∷ []) this refl) in
    let m3 = Moves.next m2 (Move.receives s2 "0" stored [] refl this) in
    let m4 = Moves.next m3 (Move.finds s3 stored stored [] r4 this found refl) in
    let m5 = Moves.next m4 (Move.reads_to_cancel s4 0 stored r5 read) in
    let m6 = Moves.next m5 (
      Move.sends s5 stored (cancelling 0 stored ∷ []) (err (foreign "timeout")) [] (other this)
        refl) in
    let m7 =
      Moves.next m6
        (Move.cancels s6 0 stored (answered stored (err (foreign "timeout")) ∷ []) (other this)) in
    Moves.next m7 (Move.crashes s7 (answered stored (err (foreign "timeout"))) [] this)

run : Moves json repo queue notifier_down parse_address s0 s8
run =
    later (Moves.next Moves.here (Move.saves s0 fresh request built stored r1 build_request saved))

none_stored_yet : AllKept (law.view start.repo) [] [] []
none_stored_yet j n was scheduled = cc

all_accounted_example : AllKept (law.view s8.world.repo) (ready s8) s8.tasks s8.lost
all_accounted_example =
    all_accounted json repo queue notifier_down parse_address law tt none_stored_yet run

view_0 : law.view r1 0 ≡ some stored
unfolding save create_notification to_db_create_params to_domain_model domain_model to_int16
view_0 = refl

-- The message that was published is with the broker again, and there is no other.
single_message_example : ◌≤◌ 1 1
single_message_example =
    single_message json repo queue notifier_down parse_address law 0 stored tt view_0
      (later Moves.here)
