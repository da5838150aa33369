-- ===== src/Guard/Body/Once.antt =====
-- What a call of Close does, first and later.
use jttp.Prelude.{
  ℕ, suc, ◌≡◌, refl, ap, Option, none, some, List, [], ◌∷◌, ◌++◌, arith, if◌then◌else◌,
}
use jttp.Errors.{GoError}
use jttp.Guard.Source.{CountingReader}
use jttp.Guard.Body.{GuardedBodyConfig, GuardedBody}
use jttp.Guard.Body.Life.{
  CloseEvent, watchdog_stopped, gzip_closed, inner_closed, observed, CloseStep, BodyObservation,
  observation, close_events, close_once, close, when_some, stops_once,
}

-- The calls of the inner Close, of the watchdog's Stop, and of gzip.Reader's Close.
abbrev pub inner_closes : List CloseEvent → ℕ
inner_closes [] = 0
inner_closes (inner_closed ∷ es) = suc (inner_closes es)
inner_closes (watchdog_stopped ∷ es) = inner_closes es
inner_closes (gzip_closed ∷ es) = inner_closes es
inner_closes (observed o ∷ es) = inner_closes es

abbrev pub watchdog_stops : List CloseEvent → ℕ
watchdog_stops [] = 0
watchdog_stops (watchdog_stopped ∷ es) = suc (watchdog_stops es)
watchdog_stops (inner_closed ∷ es) = watchdog_stops es
watchdog_stops (gzip_closed ∷ es) = watchdog_stops es
watchdog_stops (observed o ∷ es) = watchdog_stops es

abbrev pub gzip_closes : List CloseEvent → ℕ
gzip_closes [] = 0
gzip_closes (gzip_closed ∷ es) = suc (gzip_closes es)
gzip_closes (watchdog_stopped ∷ es) = gzip_closes es
gzip_closes (inner_closed ∷ es) = gzip_closes es
gzip_closes (observed o ∷ es) = gzip_closes es

-- What the observer is given.
abbrev pub observations : List CloseEvent → List BodyObservation
observations [] = []
observations (observed o ∷ es) = o ∷ observations es
observations (watchdog_stopped ∷ es) = observations es
observations (inner_closed ∷ es) = observations es
observations (gzip_closed ∷ es) = observations es

pub append-nil_events : (es : List CloseEvent) → es ++ [] ≡ es
append-nil_events [] = refl
append-nil_events (e ∷ es) = ap (λ l. e ∷ l) (append-nil_events es)

pub close-closed :
    (cfg : GuardedBodyConfig) (b : GuardedBody) (s : CloseStep) (result : Option GoError)
    → b.close_result ≡ some result
    → close cfg b s ≡ (b, (result, []))
unfolding close
close-closed cfg b s result e = ap (close_once cfg b s) e

pub close-first :
    (cfg : GuardedBodyConfig) (b : GuardedBody) (s : CloseStep)
    → b.close_result ≡ none
    → close cfg b s ≡ (record b { close_result = some s.error }, (s.error, close_events cfg b s))
unfolding close
close-first cfg b s e = ap (close_once cfg b s) e

pub close_events-once :
    (cfg : GuardedBodyConfig) (b : GuardedBody) (s : CloseStep)
    → (inner_closes (close_events cfg b s) ≡ 1)
      × (watchdog_stops (close_events cfg b s) ≡ stops_once b.watchdog)
      × (gzip_closes (close_events cfg b s) ≡ stops_once b.compressed)
      × (observations (close_events cfg b s)
          ≡ (if cfg.has_observer then observation cfg b s ∷ [] else []))
close_events-once cfg b s = split b.watchdog b.compressed
  where
    split :
        (dog : Option ℕ) (reader : Option CountingReader)
        → let events =
            when_some dog watchdog_stopped
            ++ (when_some reader gzip_closed
                ++ (inner_closed
                    ∷ (if cfg.has_observer then observed (observation cfg b s) ∷ [] else []))) in
          (inner_closes events ≡ 1)
          × (watchdog_stops events ≡ stops_once dog)
          × (gzip_closes events ≡ stops_once reader)
          × (observations events ≡ (if cfg.has_observer then observation cfg b s ∷ [] else []))
    split none none = ground arith
    split none (some k) = ground arith
    split (some n) none = ground arith
    split (some n) (some k) = ground arith
