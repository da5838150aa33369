-- ===== src/Retry/Loop/Trace.antt =====
-- What a round trip does between two attempts, and how its trace is counted.
use jttp.Prelude.{
  ℕ, ◌+◌, ◌≤◌, ◌≡◌, refl, ap, ◌∙◌, Bool, true, false, Option, none, some, List, [], ◌∷◌, ◌++◌,
  arith, All, if◌then◌else◌,
}
use jttp.Prelude.Int.{ℤ, pos, ◌≤ℤ◌, ◌<ℤ◌, max_ℤ}
use jttp.Errors.{GoError, Result, ok, err}
use jttp.Http.{Body, Request, Response}
use jttp.Retry.{RetryTransport, RetryWorld, IsRandom}
use jttp.Retry.Backoff.{backoff}
use jttp.Retry.Backoff.Bounds.{HasValidWaits}
use jttp.Retry.Backoff.Total.{backoff_bounded}
use jttp.Retry.Body.{GetBody}
use jttp.Retry.Loop.{
  Event, sent, observed, drained, slept, rewound, Wait, ready, failed, wait_panicked, rewind,
  called, sleep, after_sleep, after_backoff, after_context, wait_for_retry, used,
}
use jttp.Retry.Loop.Bounds.{sends}

abbrev pub is_drained : Event → Bool
is_drained (sent req) = false
is_drained (observed n) = false
is_drained (drained n) = true
is_drained (slept d) = false
is_drained rewound = false

abbrev pub is_slept : Event → Bool
is_slept (sent req) = false
is_slept (observed n) = false
is_slept (drained n) = false
is_slept (slept d) = true
is_slept rewound = false

abbrev pub is_observed : Event → Bool
is_observed (sent req) = false
is_observed (observed n) = true
is_observed (drained n) = false
is_observed (slept d) = false
is_observed rewound = false

abbrev pub tally : (Event → Bool) → List Event → ℕ
tally counts [] = 0
tally counts (e ∷ es) = (if counts e then 1 else 0) + tally counts es

pub tally-append :
    (counts : Event → Bool) (xs ys : List Event)
    → tally counts (xs ++ ys) ≡ tally counts xs + tally counts ys
tally-append counts [] ys = omega arith
tally-append counts (e ∷ xs) ys = omega (arith, tally-append counts xs ys)

-- The request `r` is `req`, but for its body.
abbrev pub IsLike : Request → Request → Type 0
IsLike req r = r ≡ record req { body = r.body }

-- A request that is sent is like the first one, a sleep is positive and bounded, and a drain takes 64
-- KiB at most.
abbrev pub IsOrderly : RetryTransport → Request → Event → Type 0
IsOrderly t req (sent r) = IsLike req r
IsOrderly t req (slept d) = (pos 0 <ℤ d) × (d ≤ℤ max_ℤ t.wait_max t.max_retry_after)
IsOrderly t req (observed n) = Unit
IsOrderly t req (drained n) = n ≤ 65_536
IsOrderly t req rewound = Unit

pub IsLike-trans : (req r s : Request) → IsLike req r → IsLike r s → IsLike req s
IsLike-trans req r s h k = k ∙ ap (λ (q : Request). record q { body = s.body }) h

pub IsOrderly-trans :
    (t : RetryTransport) (req r : Request) (e : Event)
    → IsLike req r
    → IsOrderly t r e
    → IsOrderly t req e
IsOrderly-trans t req r (sent s) h k = IsLike-trans req r s h k
IsOrderly-trans t req r (slept d) h k = k
IsOrderly-trans t req r (observed n) h k = tt
IsOrderly-trans t req r (drained n) h k = k
IsOrderly-trans t req r rewound h k = tt

-- The request that a wait gives.
abbrev pub IsReady : Request → Wait → Type 0
IsReady req (ready r) = IsLike req r
IsReady req (failed e) = Unit
IsReady req wait_panicked = ⊥

-- What a wait does: it sleeps once at most, and neither sends nor drains nor observes.
pub record IsWait (t : RetryTransport) (req : Request) (x : Wait × List Event) : Type 0 where
  pub is_ready : IsReady req x.0
  pub orderly : All (IsOrderly t req) x.1
  pub sends_none : sends x.1 ≡ 0
  pub drains_none : tally is_drained x.1 ≡ 0
  pub observes_none : tally is_observed x.1 ≡ 0
  pub sleeps_once : tally is_slept x.1 ≤ 1

rewind-IsWait :
    (t : RetryTransport) (req : Request) (d : ℤ) (o : Option (Result Body))
    → (pos 0 <ℤ d) × (d ≤ℤ max_ℤ t.wait_max t.max_retry_after)
    → IsWait t req (after_sleep none d (rewind (used req) o))
rewind-IsWait t req d none h = record {
  is_ready = refl;
  orderly = (h, tt);
  sends_none = refl;
  drains_none = refl;
  observes_none = refl;
  sleeps_once = omega arith;
}
rewind-IsWait t req d (some (ok b)) h = record {
  is_ready = refl;
  orderly = (h, (tt, tt));
  sends_none = refl;
  drains_none = refl;
  observes_none = refl;
  sleeps_once = omega arith;
}
rewind-IsWait t req d (some (err e)) h = record {
  is_ready = tt;
  orderly = (h, (tt, tt));
  sends_none = refl;
  drains_none = refl;
  observes_none = refl;
  sleeps_once = omega arith;
}

after_sleep-IsWait :
    (t : RetryTransport) (req : Request) (d : ℤ) (g : Option (Result Body)) (o : Option GoError)
    → (pos 0 <ℤ d) × (d ≤ℤ max_ℤ t.wait_max t.max_retry_after)
    → IsWait t req (after_sleep o d (rewind (used req) g))
after_sleep-IsWait t req d g none h = rewind-IsWait t req d g h
after_sleep-IsWait t req d g (some e) h = record {
  is_ready = tt;
  orderly = (h, tt);
  sends_none = refl;
  drains_none = refl;
  observes_none = refl;
  sleeps_once = omega arith;
}

after_context-IsWait :
    (t : RetryTransport) (req : Request) (x : Wait × List Event) (o : Option GoError)
    → IsWait t req x
    → IsWait t req (after_context o x)
after_context-IsWait t req x none h = h
after_context-IsWait t req x (some e) h = record {
  is_ready = tt;
  orderly = tt;
  sends_none = refl;
  drains_none = refl;
  observes_none = refl;
  sleeps_once = omega arith;
}

module _ (t : RetryTransport) (w : RetryWorld) (v : HasValidWaits t) (random : IsRandom w) where
  pub wait_for_retry-IsWait :
      (prev : ℕ) (resp : Option Response) (g : Option GetBody) (req : Request)
      → IsWait t req (wait_for_retry t w prev resp g (used req))
  unfolding wait_for_retry
  wait_for_retry-IsWait prev resp g req =
      let (d, is, p_pos, le) = backoff_bounded t w prev resp v random in
      after_context-IsWait t req
        (after_backoff w prev (backoff t w prev resp) (rewind (used req) (called g prev)))
        (w.context_error prev)
        (rw is (after_sleep-IsWait t req d (called g prev) (sleep (w.woken prev d)) (p_pos, le)))
