-- ===== src/Guard/Writer.antt =====
-- guard.go: `guardedWriter`, the request body that resets a watchdog.
pub mod Calls
use jttp.Prelude.{ℕ, suc, Bool, ◌&&◌, Option, none, some, List, [], ◌∷◌, ◌++◌, ltb, if◌then◌else◌}
use jttp.Prelude.Int.{ℤ, pos, ltb_ℤ}
use jttp.Errors.{GoError}
use jttp.Guard.Body.{map_option}
use jttp.Guard.Body.Life.{CloseEvent, watchdog_stopped, inner_closed, when_some}

-- A guardedWriter: the number of Resets of its watchdog, and what closeOnce has left in closeErr.
pub record GuardedWriter : Type 0 where
  pub watchdog : Option ℕ
  pub close_result : Option (Option GoError)

unfoldable pub new_guarded_writer : Bool → ℤ → GuardedWriter
new_guarded_writer has_cancel idle_timeout = record {
  watchdog = if ltb_ℤ (pos 0) idle_timeout && has_cancel then some 0 else none;
  close_result = none;
}

-- Read, on what the inner Read returns.
unfoldable pub read_writer :
    GuardedWriter → ℕ × Option GoError → GuardedWriter × (ℕ × Option GoError)
read_writer g (n, e) =
    (record g { watchdog = if ltb 0 n then map_option suc g.watchdog else g.watchdog }, (n, e))

abbrev pub close_writer_once :
    GuardedWriter
    → Option GoError
    → Option (Option GoError)
    → GuardedWriter × (Option GoError × List CloseEvent)
close_writer_once g e none = (
  record g { close_result = some e },
  (e, when_some g.watchdog watchdog_stopped ++ (inner_closed ∷ [])),
)
close_writer_once g e (some result) = (g, (result, []))

-- Close, on what the inner Close would return.
unfoldable pub close_writer :
    GuardedWriter → Option GoError → GuardedWriter × (Option GoError × List CloseEvent)
close_writer g e = close_writer_once g e g.close_result
