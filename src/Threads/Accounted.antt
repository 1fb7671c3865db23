-- ===== src/Threads/Accounted.antt =====
-- The invariant over every sequence of moves.
use delayed_notifier.Prelude.{String, ⊤, ◌∷◌, false}
use delayed_notifier.Prelude.Membership.{there}
use delayed_notifier.Go.Errors.{Result}
use delayed_notifier.Domain.Ports.{NotificationRepository, NotificationQueue, Notifier}
use delayed_notifier.Domain.Json.{JsonCodec}
use delayed_notifier.Domain.Contract.{LawfulRepository}
use delayed_notifier.Consumer.Handler.{nacked}
use delayed_notifier.Threads.{Site, ready, redeliver, Move, Moves}
use delayed_notifier.Threads.Invariant.{Accounted, more}
use delayed_notifier.Threads.Callers.{
  saves-Accounted, save_fails-Accounted, publishes-Accounted, publish_fails-Accounted,
  reads-Accounted, reads_to_cancel-Accounted, cancels-Accounted,
}
use delayed_notifier.Threads.Workers.{
  crash-Accounted, receives-Accounted, finds-Accounted, skips-Accounted, gives_up-Accounted,
  sends-Accounted, lost-Accounted, settles-Accounted,
}
use delayed_notifier.Threads.Concluded.{concludes-Accounted}
use delayed_notifier.Threads.Kept.{AllKept}

module _ {R Q N : Type 0} (json : JsonCodec) (repo : NotificationRepository R)
    (queue : NotificationQueue Q) (notifier : Notifier N) (parse_address : String → Result ⊤)
    (L : LawfulRepository repo) where
  Move-Accounted :
      {s s' : Site R Q N}
      → Move json repo queue notifier parse_address s s'
      → Accounted json repo queue notifier parse_address L s
      → Accounted json repo queue notifier parse_address L s'
  Move-Accounted (Move.saves s fresh i n c r built saved) h =
      saves-Accounted json repo queue notifier parse_address L s fresh i n c r built saved h
  Move-Accounted (Move.save_fails s fresh i n e r built bad) h =
      save_fails-Accounted json repo queue notifier parse_address L s fresh i n e r built bad h
  Move-Accounted (Move.publishes s c rest now q p took) h =
      publishes-Accounted json repo queue notifier parse_address L s c rest now q p took h
  Move-Accounted (Move.publish_fails s c rest now e q p bad) h =
      publish_fails-Accounted json repo queue notifier parse_address L s c rest now e q p bad h
  Move-Accounted (Move.reads s id) h =
      reads-Accounted json repo queue notifier parse_address L s id h
  Move-Accounted (Move.reads_to_cancel s id seen r good) h =
      reads_to_cancel-Accounted json repo queue notifier parse_address L s id seen r good h
  Move-Accounted (Move.cancels s id seen rest p) h =
      cancels-Accounted json repo queue notifier parse_address L s id seen rest p h
  Move-Accounted (Move.rejects s body e id left garbage p) h =
      lost-Accounted json repo queue notifier parse_address L s id left
        (nacked false ∷ s.world.settled) p h
  Move-Accounted (Move.receives s body n left decoded p) h =
      receives-Accounted json repo queue notifier parse_address L s n left p h
  Move-Accounted (Move.finds s n m rest r p good sch) h =
      finds-Accounted json repo queue notifier parse_address L s n m rest r p good sch h
  Move-Accounted (Move.skips s n m rest r p good final) h =
      skips-Accounted json repo queue notifier parse_address L s n m rest r p good final h
  Move-Accounted (Move.gives_up s n rest b r p bad) h =
      gives_up-Accounted json repo queue notifier parse_address L s n rest b r p bad h
  Move-Accounted (Move.sends s n rest x t p answer) h =
      sends-Accounted json repo queue notifier parse_address L s n rest x t p answer h
  Move-Accounted (Move.concludes s n x rest now p) h =
      concludes-Accounted json repo queue notifier parse_address L s n x rest now p h
  Move-Accounted (Move.settles s n a rest p) h =
      settles-Accounted json repo queue notifier parse_address L s n a rest p h
  Move-Accounted (Move.drops s id left p) h =
      lost-Accounted json repo queue notifier parse_address L s id left s.world.settled p h
  Move-Accounted (Move.redelivers s id) (valid, k) = (
    valid,
    more json repo queue notifier parse_address L s (record s { world = redeliver id s.world })
        (λ j n w _. w) (λ j m. there m) (λ u m. m) (λ j m. m) k,
  )
  Move-Accounted (Move.crashes s t rest p) h =
      crash-Accounted json repo queue notifier parse_address L s t rest p h

  -- Over a repository that keeps its contract, however the goroutines of the API and the workers
  -- interleave between their calls, and wherever their processes crash: where every scheduled
  -- notification is looked after, that is so after any sequence of moves. One is looked after where
  -- the broker may deliver a message of it, where a goroutine is to publish it, to answer a message
  -- of it or to hand one back, or where its message was refused by the queue, lost with the API
  -- process before it was published, rejected as one that does not decode, given up after a lookup
  -- that failed, or lost by the broker.
  pub all_accounted :
      {s s' : Site R Q N}
      → L.Valid s.world.repo
      → AllKept (L.view s.world.repo) (ready s) s.tasks s.lost
      → Moves json repo queue notifier parse_address s s'
      → AllKept (L.view s'.world.repo) (ready s') s'.tasks s'.lost
  all_accounted {s} valid k run = (reached run).1
    where
      reached :
          {t : Site R Q N}
          → Moves json repo queue notifier parse_address s t
          → Accounted json repo queue notifier parse_address L t
      reached Moves.here = (valid, k)
      reached (Moves.next r m) = Move-Accounted m (reached r)
