-- ===== src/Config/Examples.antt =====
-- config/default.go: concrete runs of the store.
use cliffhanger.Prelude.{◌≡◌, refl, true, false, none, List, [], ◌∷◌, nat_eq, string_eq}
use cliffhanger.Prelude.Int.{pos, int_eq}
use cliffhanger.Config.{Default, DefaultStore}
use cliffhanger.Config.Store.{level_to, file_to, restarted, Write, write, writes}

abbrev plain : Default
plain = record {
  log_file = "app.log";
  log_level = "info";
  log_format = "text";
  log_revert_timeout = pos 0;
  log_revert_at = 0;
  restarts_count = pos 0;
  telemetry = none;
  configured_at = 0;
}

abbrev fresh_store : DefaultStore
fresh_store = record { current = plain; last_saved = plain }

-- the save of the level fails, and the one of the count of restarts is given it
abbrev changes : List Write
changes =
    record { change = file_to "new.log"; now = 1; saved = true }
    ∷ record { change = level_to "debug"; now = 2; saved = false }
    ∷ record { change = restarted; now = 3; saved = true }
    ∷ []

stored_test : (writes changes fresh_store).last_saved.log_level ≡ "debug"
unfolding writes write
stored_test = refl

lost_test :
    (writes
      (record { change = level_to "debug"; now = 2; saved = false } ∷ [])
      fresh_store).last_saved.log_level
    ≡ "info"
unfolding writes write
lost_test = refl
