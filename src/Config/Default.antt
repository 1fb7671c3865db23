-- ===== src/Config/Default.antt =====
-- Where neither the file nor the environment names a mode of the notifiers.
use delayed_notifier.Prelude.{
  ◌≡◌, String, Option, none, some, ⊤, str_eq, if◌then◌else◌, sym, ◌∙◌, arith,
}
use delayed_notifier.Go.Errors.{ok}
use delayed_notifier.Go.Action.{◌>>◌}
use delayed_notifier.Domain.Contract.{Ensures}
use delayed_notifier.Config.{Config, Viper, prepare, new_config}

-- What is relied on of viper: a default stays until it is set again, a setting of the file or of the
-- environment is what reading finds, and a value that has no setting is its default.
pub record LawfulViper {V : Type 0} (v : Viper V) : Type 1 where
  pub default : V → String → Option String
  pub setting : V → String → Option String
  pub default_set :
      (s : V) (key key' value : String)
      → default (v.set_default key value s) key'
        ≡ (if str_eq key' key then some value else default s key')
  pub default_env : (s : V) (key : String) → default (v.automatic_env s) key ≡ default s key
  pub default_replacer :
      (s : V) (r : String × String) (key : String)
      → default (v.set_env_key_replacer r s) key ≡ default s key
  pub read_law :
      (s : V)
      → Ensures
          (λ _ s'. (key : String) → default s' key ≡ default s key)
          (λ _ s'. ⊤)
          (v.read_in_config s)
  pub mode_law :
      (s : V) (mode : String)
      → setting s "notifiers.mode" ≡ none
      → default s "notifiers.mode" ≡ some mode
      → Ensures (λ (c : Config) s'. c.notifiers.mode ≡ mode) (λ _ s'. ⊤) (v.unmarshal s)

read_then :
    {V : Type 0} (v : Viper V) (s s' : V)
    → v.read_in_config s ≡ (ok tt, s')
    → (v.read_in_config >> v.unmarshal) s ≡ v.unmarshal s'
read_then v s s' done = ground arith

module _ {V : Type 0} {v : Viper V} (L : LawfulViper v) where
  default_mode : (s : V) → L.default (prepare v s) "notifiers.mode" ≡ some "log_only"
  default_mode s =
      L.default_env _ "notifiers.mode"
      ∙ (L.default_replacer _ (".", "_") "notifiers.mode"
          ∙ L.default_set _ "notifiers.mode" "notifiers.mode" "log_only")

  -- When the file was read and sets no mode, and `New` gives a configuration, its mode is the default
  -- that `New` registered, "log_only".
  pub unset_mode :
      (s s' s'' : V) (c : Config)
      → v.read_in_config (prepare v s) ≡ (ok tt, s')
      → L.setting s' "notifiers.mode" ≡ none
      → new_config v s ≡ (ok c, s'')
      → c.notifiers.mode ≡ "log_only"
  unfolding new_config
  unset_mode s s' s'' c done unset made =
      let kept = (rw done at (L.read_law (prepare v s))) in
      let law = L.mode_law s' "log_only" unset (kept "notifiers.mode" ∙ default_mode s) in
      (rw made' at law)
    where
      made' : v.unmarshal s' ≡ (ok c, s'')
      made' = sym (read_then v (prepare v s) s' done) ∙ made
