-- ===== src/App/DryRun.antt =====
-- The workers of internal/consumer with a notifier that keeps something of what is outside, and with
-- the dispatcher of notifiers/dispathcer.go in a mode that is not `production`.
use delayed_notifier.Prelude.{
  ◌≡◌, refl, ◌⊎◌, inl, inr, String, List, ⊤, subst, sym, Bool-cases, str_eq, eq_iff, arith, none,
  some,
}
use delayed_notifier.Go.Errors.{Result, Result-cases, ok}
use delayed_notifier.Go.Action.{call_cases}
use delayed_notifier.Go.Clock.{Time}
use delayed_notifier.Domain.Model.{
  Notification, Channel, status_scheduled, channel_email, channel_telegram,
}
use delayed_notifier.Domain.Ports.{NotificationRepository, NotificationQueue, Notifier}
use delayed_notifier.Domain.Json.{JsonCodec}
use delayed_notifier.Consumer.Handler.{World, process, handle_message}
use delayed_notifier.Consumer.Paths.{lookup_error_drops, latest_not_scheduled, latest_scheduled}
use delayed_notifier.Sends.Message.{notifier-after_send}
use delayed_notifier.Config.{Config, Viper, prepare, new_config}
use delayed_notifier.Config.Default.{LawfulViper}
use delayed_notifier.Notifiers.Channels.{Outside, MockSend, mock_line, log_send}
use delayed_notifier.Notifiers.Dispatcher.{
  Kind, logging, find, new_dispatcher, send, defaults, dispatcher,
}
use delayed_notifier.Notifiers.Routing.{development_defaults}
use delayed_notifier.Notifiers.Unset.{unset_ne}
use delayed_notifier.System.{Call, creates, reads, cancels, handles}

module _ {R Q N : Type 0} (json : JsonCodec) (repo : NotificationRepository R)
    (queue : NotificationQueue Q) (notifier : Notifier N) where
  module _ (now : Time) (body : String) (w : World R Q N) where
    abbrev handled : World R Q N
    handled = handle_message json repo queue notifier now body w

    abbrev SentOne : Type 0
    SentOne = (n : Notification) × (handled.notifier ≡ (notifier.send n w.notifier).1)

    notifier-found :
        (n m : Notification) (s : R)
        → json.unmarshal body ≡ ok n
        → repo.get_by_id n.id w.repo ≡ (ok m, s)
        → (handled.notifier ≡ w.notifier) ⊎ SentOne
    unfolding process
    notifier-found n m s decoded found = elim (Bool-cases (str_eq m.status status_scheduled)) [
      | inr other ↦ inl (
          rw
            (latest_not_scheduled json repo queue notifier now body n w decoded m s found
              (λ h. ground (arith, h, other, eq_iff m.status status_scheduled)))
            refl)
      | inl scheduled ↦ inr (
        n,
        rw
            (latest_scheduled json repo queue notifier now body n w decoded m s found
              ((eq_iff m.status status_scheduled).0 scheduled))
            (notifier-after_send json repo queue notifier now n (record w { repo = s })
              (notifier.send n w.notifier).0 (notifier.send n w.notifier).1),
      )
    ]

    -- A message comes to at most one send.
    pub handled-notifier : (handled.notifier ≡ w.notifier) ⊎ SentOne
    unfolding handle_message
    handled-notifier = elim (Result-cases (json.unmarshal body)) [
      | inl (e, bad) ↦ inl (rw bad refl)
      | inr (n, decoded) ↦ elim (call_cases (repo.get_by_id n.id w.repo)) [
        | inl (e, s, missing) ↦
            inl (
              rw (lookup_error_drops json repo queue notifier now body n w decoded e s missing)
                refl)
        | inr (m, s, found) ↦ notifier-found n m s decoded found
      ]
    ]

-- Sequences of calls of the API and the workers, and of what the broker does by itself.
module _ {R Q N : Type 0} (json : JsonCodec) (repo : NotificationRepository R)
    (queue : NotificationQueue Q) (notifier : Notifier N) (parse_address : String → Result ⊤) where
  pub data Runs (w : World R Q N) : World R Q N → Type 0 where
    here : Runs w w
    calls :
        {v u : World R Q N} → Runs w v → Call json repo queue notifier parse_address v u → Runs w u
    broker : {v : World R Q N} → Runs w v → (q : Q) → Runs w (record v { queue = q })

  -- What every send keeps of the world outside, the calls keep.
  module _ (P : N → Type 0)
      (kept : (n : Notification) (s : N) → P s → P (notifier.send n s).1) where
    Call-keeps :
        {w w' : World R Q N}
        → Call json repo queue notifier parse_address w w'
        → P w.notifier
        → P w'.notifier
    Call-keeps (creates w fresh now i) h = h
    Call-keeps (reads w id) h = h
    Call-keeps (cancels w id) h = h
    Call-keeps (handles w now body) h =
        elim (handled-notifier json repo queue notifier now body w) [
          | inl same ↦ subst P (sym same) h
          | inr (n, one) ↦ subst P (sym one) (kept n w.notifier h)
        ]

    Runs-keep : {w w' : World R Q N} → P w.notifier → Runs w w' → P w'.notifier
    Runs-keep h here = h
    Runs-keep h (calls r c) = Call-keeps c (Runs-keep h r)
    Runs-keep h (broker r q) = Runs-keep h r

-- The map of the dispatcher where no notifier is replaced.
find-defaults : (c : Channel) → (find c defaults ≡ none) ⊎ (find c defaults ≡ some logging)
find-defaults c = elim (Bool-cases (str_eq channel_email c)) [
  | inl mail ↦ inr (rw mail refl)
  | inr other ↦ elim (Bool-cases (str_eq channel_telegram c)) [
    | inl chat ↦ inr (rw (other, chat) refl)
    | inr unknown ↦ inl (rw (other, unknown) refl)
  ]
]

module _ {S : Type 0} (out : Outside S) (P : S → Type 0)
    (kept : (line : MockSend) (s : S) → P s → P (out.log line s)) where
  defaults-keep : (n : Notification) (s : S) → P s → P (send out defaults n s).1
  unfolding send log_send
  defaults-keep n s h = elim (find-defaults n.channel) [
    | inl none_found ↦ rw none_found h
    | inr logs ↦ rw logs (kept (mock_line n) s h)
  ]

  -- Over a viper that keeps its contract, where neither the file nor the environment sets the mode
  -- of the notifiers, no sequence of calls of the API and the workers, with the dispatcher of the
  -- resulting configuration, does more to the world outside than write lines to the log: what holds
  -- of it at the start, such as that no mail was sent, and is kept by every line, holds at the end.
  pub only_logs :
      {V R Q : Type 0} {v : Viper V} (L : LawfulViper v) (json : JsonCodec)
      (repo : NotificationRepository R) (queue : NotificationQueue Q)
      (parse_address : String → Result ⊤) (new_bot_api : String → Result ⊤) (t t' t'' : V)
      (cfg : Config) (m : List (Channel × Kind)) {w w' : World R Q S}
      → v.read_in_config (prepare v t) ≡ (ok tt, t')
      → L.setting t' "notifiers.mode" ≡ none
      → new_config v t ≡ (ok cfg, t'')
      → new_dispatcher new_bot_api cfg.notifiers ≡ ok m
      → P w.notifier
      → Runs json repo queue (dispatcher out m) parse_address w w'
      → P w'.notifier
  only_logs L json repo queue parse_address api t t' t'' cfg m done unset made built was run =
      let same =
        development_defaults api cfg.notifiers m (unset_ne L t t' t'' cfg done unset made) built in
      Runs-keep json repo queue (dispatcher out m) parse_address P
        (λ n s.
          subst (λ (d : List (Channel × Kind)). P s → P (send out d n s).1) (sym same)
            (defaults-keep n s))
        was run
