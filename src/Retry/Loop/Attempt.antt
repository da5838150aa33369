-- ===== src/Retry/Loop/Attempt.antt =====
-- One attempt that is followed by a wait: what it adds to the counts of a trace.
use jttp.Prelude.{
  ◌≤◌, ℕ, suc, ◌+◌, ◌≡◌, refl, Bool, true, false, List, [], ◌∷◌, ◌++◌, arith, All, if◌then◌else◌,
}
use jttp.Http.{Request}
use jttp.Retry.{RetryTransport}
use jttp.Retry.Loop.{Event, sent, observed, drained}
use jttp.Retry.Loop.Bounds.{sends}
use jttp.Retry.Loop.Trace.{is_drained, is_slept, is_observed, tally, IsOrderly}

-- The calls of an observer that is there or not, of which `n` would be made.
abbrev pub watched : Bool → ℕ → ℕ
watched true n = n
watched false n = 0

pub watched-suc : (b : Bool) (n : ℕ) → watched b (suc n) ≡ watched b 1 + watched b n
watched-suc true n = omega arith
watched-suc false n = refl

pub watched-zero : (b : Bool) → watched b 0 ≡ 0
watched-zero true = refl
watched-zero false = refl

-- What precedes the wait after an attempt, with an observer or without.
abbrev pub attempted : Bool → ℕ → Request → ℕ → List Event → List Event
attempted b j req n events = sent req ∷ (if b then observed j ∷ [] else []) ++ drained n ∷ events

-- The counts of an attempt that is followed by `events`.
pub record IsAttempted (t : RetryTransport) (b : Bool) (req : Request) (events all : List Event)
    : Type 0 where
  pub sends_one : sends all ≡ suc (sends events)
  pub drains_one : tally is_drained all ≡ suc (tally is_drained events)
  pub sleeps_same : tally is_slept all ≡ tally is_slept events
  pub observes_one : tally is_observed all ≡ watched b 1 + tally is_observed events
  pub all_orderly : All (IsOrderly t req) events → All (IsOrderly t req) all

pub attempted-IsAttempted :
    (t : RetryTransport) (b : Bool) (j : ℕ) (req : Request) (n : ℕ) (events : List Event)
    → n ≤ 65_536
    → IsAttempted t b req events (attempted b j req n events)
attempted-IsAttempted t true j req n events small = record {
  sends_one = refl;
  drains_one = omega arith;
  sleeps_same = omega arith;
  observes_one = omega arith;
  all_orderly = λ h. (refl, (tt, (small, h)));
}
attempted-IsAttempted t false j req n events small = record {
  sends_one = refl;
  drains_one = omega arith;
  sleeps_same = omega arith;
  observes_one = omega arith;
  all_orderly = λ h. (refl, (small, h));
}
