-- ===== src/Ssrf/Dial/Staggered.antt =====
-- ssrf.go: `dialApprovedAddresses`, whose attempts run beside its loop. The scheduler, the timer and the
-- context choose the order of the steps; a state has what the goroutines share.
pub mod Ends
pub mod Counts
pub mod Leaks
pub mod Told
pub mod Returns
pub mod Serial
pub mod Approved
use jttp.Prelude.{
  ℕ, suc, ◌-◌, ◌<◌, ◌≤◌, ◌≡◌, Bool, true, false, ◌&&◌, Option, none, some, List, [], ◌∷◌, ◌++◌,
  ◌==◌, if◌then◌else◌, length,
}
use jttp.Errors.{GoError, Result, ok, err, join}
use jttp.Ssrf.Dial.{Literal}

-- A time.Timer: running, with a value in its channel, or neither.
pub data Timer : Type 0 where
  armed expired off : Timer

-- `waiting` is addresses[started:], `running` has the addresses of the attempts whose dial has not
-- returned, `results` is the channel, and `to_drain` counts the results that the draining goroutine
-- still takes. `outcome` is what the function has returned. `dialed`, `opened` and `closed` have all
-- addresses that were dialed, all connections that the dials gave, and those that were closed.
pub record Race (Conn : Type 0) : Type 0 where
  pub started : ℕ
  pub waiting : List Literal
  pub running : List Literal
  pub results : List (Result Conn)
  pub completed : ℕ
  pub errs : List GoError
  pub timer : Timer
  pub outcome : Option (Result Conn)
  pub to_drain : ℕ
  pub dialed : List Literal
  pub opened : List Conn
  pub closed : List Conn

module _ {Conn : Type 0} where
  -- The part before the loop: addresses[0] is started, and the timer.
  abbrev pub begin : Literal → List Literal → Race Conn
  begin a rest = record {
    started = 1;
    waiting = rest;
    running = a ∷ [];
    results = [];
    completed = 0;
    errs = [];
    timer = armed;
    outcome = none;
    to_drain = 0;
    dialed = a ∷ [];
    opened = [];
    closed = [];
  }

  abbrev pub start : Race Conn → Literal → List Literal → Race Conn
  start s a rest = record s {
    started = suc s.started;
    waiting = rest;
    running = s.running ++ a ∷ [];
    dialed = s.dialed ++ a ∷ [];
  }

  -- `start(addresses[started]); started++` where an address is left, with the timer as it is then.
  abbrev pub start_next : Race Conn → Timer → Timer → List Literal → Race Conn
  start_next s last more [] = s
  start_next s last more (a ∷ []) = record (start s a []) { timer = last }
  start_next s last more (a ∷ b ∷ rest) = record (start s a (b ∷ rest)) { timer = more }

  -- A return, with `cancel`, `timer.Stop` and `drainOutstanding`.
  abbrev pub return : Race Conn → Result Conn → Race Conn
  return s r = record s { outcome = some r; timer = off; to_drain = s.started - s.completed }

  abbrev pub completed_one : Race Conn → List (Result Conn) → Race Conn
  completed_one s rest = record s { completed = suc s.completed; results = rest }

  -- The case of a result: a connection is returned; after an error the next address is started if no
  -- other attempt runs.
  abbrev pub take_result : Race Conn → Result Conn → List (Result Conn) → Race Conn
  take_result s (ok conn) rest = return (completed_one s rest) (ok conn)
  take_result s (err e) rest =
      let failed = record (completed_one s rest) { errs = s.errs ++ e ∷ [] } in
      if suc s.completed == s.started then start_next failed armed armed failed.waiting else failed

  -- The case of the timer.
  abbrev pub take_timer : Race Conn → Race Conn
  take_timer s = start_next (record s { timer = off }) off armed s.waiting

  abbrev pub opened_by : Result Conn → List Conn
  opened_by (ok conn) = conn ∷ []
  opened_by (err e) = []

  -- The loop waits in its select.
  abbrev pub InLoop : ℕ → Race Conn → Type 0
  InLoop n s = (s.outcome ≡ none) × (s.completed < n)

  -- One step, where there are `n` addresses: a dial returns and its result is sent, the timer fires, the
  -- loop takes a result, the timer's value or the end of the context, the loop ends, or the draining
  -- goroutine takes a result.
  pub data Step (n : ℕ) : Race Conn → Race Conn → Type 0 where
    dial_ends :
        (s : Race Conn) (before after : List Literal) (a : Literal) (r : Result Conn)
        → s.running ≡ before ++ a ∷ after
        → Step n s (record s {
          running = before ++ after;
          results = s.results ++ r ∷ [];
          opened = s.opened ++ opened_by r;
        })
    timer_fires : (s : Race Conn) → s.timer ≡ armed → Step n s (record s { timer = expired })
    loop_result :
        (s : Race Conn) (r : Result Conn) (rest : List (Result Conn))
        → InLoop n s
        → s.results ≡ r ∷ rest
        → Step n s (take_result s r rest)
    loop_timer : (s : Race Conn) → InLoop n s → s.timer ≡ expired → Step n s (take_timer s)
    loop_context : (s : Race Conn) (e : GoError) → InLoop n s → Step n s (return s (err e))
    loop_ends :
        (s : Race Conn)
        → s.outcome ≡ none
        → n ≤ s.completed
        → Step n s (record s { outcome = some (err (join s.errs)); timer = off })
    drain :
        (s : Race Conn) (r : Result Conn) (rest : List (Result Conn)) (k : ℕ)
        → s.to_drain ≡ suc k
        → s.results ≡ r ∷ rest
        → Step n s (record s { to_drain = k; results = rest; closed = s.closed ++ opened_by r })

  -- What the function and its goroutines do in `k` steps.
  pub data Run (n : ℕ) (s : Race Conn) : ℕ → Race Conn → Type 0 where
    here : Run n s 0 s
    next : {k : ℕ} {t u : Race Conn} → Run n s k t → Step n t u → Run n s (suc k) u
