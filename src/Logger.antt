-- ===== src/Logger.antt =====
-- `NewLogger` of internal/logger/logger.go over the package zerolog. What is logged with it is left out.
use delayed_notifier.Prelude.{String, Bool, true}
use delayed_notifier.Go.Errors.{Result, ok, err}
use delayed_notifier.Config.{Config}

-- What the constructor uses of zerolog, with its levels.
pub record Zerolog (L : Type 0) : Type 0 where
  pub parse_level : String → Result L
  pub info_level : L

-- The `zerolog.Logger` as it is set up: a console writer on stderr, its context, its minimum level.
pub record Logger (L : Type 0) : Type 0 where
  pub console : Bool
  pub timestamp : Bool
  pub service : String
  pub caller : Bool
  pub level : L

module _ {L : Type 0} (z : Zerolog L) where
  -- An invalid level counts as `info`.
  abbrev pub level_or_info : Result L → L
  level_or_info (ok l) = l
  level_or_info (err _) = z.info_level

  unfoldable pub new_logger : Config → Result (Logger L)
  new_logger cfg = ok (record {
    console = true;
    timestamp = true;
    service = "delayed-notifier";
    caller = true;
    level = level_or_info (z.parse_level cfg.logger.level);
  })
