-- ===== src/Notifiers/Unset.antt =====
-- internal/config/config.go and notifiers/dispathcer.go together, where no mode is set.
use mathlib.Core.Logic.{◌⊎◌}
use delayed_notifier.Prelude.{◌≡◌, ◌≢◌, String, List, none, ⊤, eq_iff, arith, ◌∙◌, sym}
use delayed_notifier.Go.Errors.{Result, ok}
use delayed_notifier.Domain.Model.{Channel, Notification, channel_email, channel_telegram}
use delayed_notifier.Config.{Config, Viper, prepare, new_config}
use delayed_notifier.Config.Default.{LawfulViper, unset_mode}
use delayed_notifier.Notifiers.Channels.{Outside, mock_line}
use delayed_notifier.Notifiers.Dispatcher.{Kind, new_dispatcher, send}
use delayed_notifier.Notifiers.Routing.{development_logs}

log_only_ne : ◌≢◌ {A = String} "log_only" "production"
log_only_ne h = ground (arith, eq_iff "log_only" "production")

-- Where no mode is set, the mode is not `production`.
pub unset_ne :
    {V : Type 0} {v : Viper V} (L : LawfulViper v) (t t' t'' : V) (cfg : Config)
    → v.read_in_config (prepare v t) ≡ (ok tt, t')
    → L.setting t' "notifiers.mode" ≡ none
    → new_config v t ≡ (ok cfg, t'')
    → cfg.notifiers.mode ≢ "production"
unset_ne L t t' t'' cfg done unset made h =
    log_only_ne (sym (unset_mode L t t' t'' cfg done unset made) ∙ h)

-- Over a viper that keeps its contract, where neither the file nor the environment sets the mode of
-- the notifiers, a notification with a known channel that the dispatcher of the resulting
-- configuration sends is written to the log only.
pub unset_logs :
    {V S : Type 0} {v : Viper V} (L : LawfulViper v) (out : Outside S)
    (new_bot_api : String → Result ⊤) (t t' t'' : V) (cfg : Config) (m : List (Channel × Kind))
    (n : Notification) (s : S)
    → v.read_in_config (prepare v t) ≡ (ok tt, t')
    → L.setting t' "notifiers.mode" ≡ none
    → new_config v t ≡ (ok cfg, t'')
    → new_dispatcher new_bot_api cfg.notifiers ≡ ok m
    → (n.channel ≡ channel_email) ⊎ (n.channel ≡ channel_telegram)
    → send out m n s ≡ (ok tt, out.log (mock_line n) s)
unset_logs L out api t t' t'' cfg m n s done unset made built known =
    development_logs out api cfg.notifiers m n s (unset_ne L t t' t'' cfg done unset made) built
      known
