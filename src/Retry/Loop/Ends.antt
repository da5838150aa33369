-- ===== src/Retry/Loop/Ends.antt =====
-- The ways in which an attempt ends a loop or goes on with it.
use jttp.Prelude.{
  none, some, Option-cases, All-append, ℕ, suc, ◌+◌, ◌≤◌, ◌≡◌, refl, sym, ap, ◌∙◌, true, false, ◌⊎◌,
  inl, inr, Option, some, List, [], ◌∷◌, ◌++◌, arith, All, All-map,
}
use jttp.Errors.{GoError}
use jttp.Http.{Body, closed, Request, Response}
use jttp.Retry.{RetryTransport, RetryWorld, has_method, should_retry}
use jttp.Retry.Body.{drain_and_close}
use jttp.Retry.Loop.{
  Event, sent, returned, Run, Wait, ready, failed, wait_panicked, used, after_wait, stops,
}
use jttp.Retry.Loop.Bounds.{sends, sends-append}
use jttp.Retry.Loop.Trace.{
  is_drained, is_slept, is_observed, tally, tally-append, IsLike, IsOrderly, IsLike-trans,
  IsOrderly-trans, IsWait,
}
use jttp.Retry.Loop.Attempt.{watched, watched-suc, watched-zero, attempted, attempted-IsAttempted}

abbrev pub closed_if : Option Body → Option Body
closed_if none = none
closed_if (some b) = some closed

-- A response whose body, if it has one, is read no more: it was closed.
abbrev pub emptied : Option Response → Option Response
emptied none = none
emptied (some resp) = some (record resp { body = closed_if resp.body })

drain_and_close-emptied : (o : Option Response) → (drain_and_close o).0 ≡ emptied o
unfolding drain_and_close
drain_and_close-emptied none = refl
drain_and_close-emptied (some resp) = elim (Option-cases resp.body) [
  | inl none_there ↦ rw none_there refl
  | inr (b, there) ↦ rw there refl
]

-- How a loop ends that starts with attempt `j` and the request `req`: with the attempt `k`, which is given
-- `last`. Either the loop stops there, and returns the response as it came, or a wait is cut short, and
-- the response is returned drained.
pub record Ending (t : RetryTransport) (w : RetryWorld) (j : ℕ) (req : Request) (run : Run)
    : Type 0 where
  pub k : ℕ
  pub last : Request
  pub retries : ℕ
  pub reached : j + retries ≡ k
  pub within : k ≤ t.max_retries
  pub is_like : IsLike req last
  pub orderly : All (IsOrderly t req) run.1
  pub sends_are : sends run.1 ≡ suc retries
  pub sleeps_are : tally is_slept run.1 ≤ tally is_drained run.1
  pub observes_are : tally is_observed run.1 ≡ watched t.has_observer (tally is_drained run.1)
  pub unlisted :
      has_method t.retryable_methods req.method ≡ false
      → (retries ≡ 0) × (tally is_drained run.1 ≡ 0)
  pub ends :
      ((stops t k (used last) (w.next k last).0 (w.next k last).1 ≡ true)
        × (run.0 ≡ returned (w.next k last).0 (w.next k last).1)
        × (tally is_drained run.1 ≡ retries))
      ⊎ ((e : GoError) × (stops t k (used last) (w.next k last).0 (w.next k last).1 ≡ false)
          × (run.0 ≡ returned (emptied (w.next k last).0) (some e))
          × (tally is_drained run.1 ≡ suc retries))

-- Only requests with a listed method are retried.
stops-unlisted :
    (t : RetryTransport) (j : ℕ) (req : Request) (resp : Option Response) (e : Option GoError)
    → stops t j (used req) resp e ≡ false
    → has_method t.retryable_methods req.method ≡ true
unfolding should_retry
stops-unlisted t j req resp e go = ground arith

module _ (t : RetryTransport) (w : RetryWorld) where
  -- The attempt `j` is followed by a wait that is cut short.
  cut_short-Ending :
      (j : ℕ) (req : Request) (n : ℕ) (e : GoError) (events : List Event)
      → n ≤ 65_536
      → j ≤ t.max_retries
      → stops t j (used req) (w.next j req).0 (w.next j req).1 ≡ false
      → IsWait t req (failed e, events)
      → Ending t w j req (
        returned (drain_and_close (w.next j req).0).0 (some e),
        attempted t.has_observer j req n events,
      )
  cut_short-Ending j req n e events small within go x =
      let a = attempted-IsAttempted t t.has_observer j req n events small in
      record {
        k = j;
        last = req;
        retries = 0;
        reached = omega arith;
        within = within;
        is_like = refl;
        orderly = a.all_orderly x.orderly;
        sends_are = a.sends_one ∙ ap suc x.sends_none;
        sleeps_are = omega (arith, a.sleeps_same, a.drains_one, x.drains_none, x.sleeps_once);
        observes_are = omega (
          arith,
          a.observes_one,
          x.observes_none,
          a.drains_one ∙ ap suc x.drains_none,
          ap (watched t.has_observer) (a.drains_one ∙ ap suc x.drains_none),
        );
        unlisted =
            λ h. absurd (cc (h, stops-unlisted t j req (w.next j req).0 (w.next j req).1 go));
        ends = inr (
          e,
          go,
          ap (λ r. returned r (some e)) (drain_and_close-emptied (w.next j req).0),
          a.drains_one ∙ ap suc x.drains_none,
        );
      }

  -- The attempt `j` is followed by a wait and the attempts of `run`.
  again-Ending :
      (j : ℕ) (req r : Request) (n : ℕ) (events : List Event) (run : Run)
      → n ≤ 65_536
      → stops t j (used req) (w.next j req).0 (w.next j req).1 ≡ false
      → IsWait t req (ready r, events)
      → Ending t w (suc j) r run
      → Ending t w j req (run.0, attempted t.has_observer j req n (events ++ run.1))
  again-Ending j req r n events run small go x later =
      let a = attempted-IsAttempted t t.has_observer j req n (events ++ run.1) small in
      let all = attempted t.has_observer j req n (events ++ run.1) in
      let drains : tally is_drained all ≡ suc (tally is_drained run.1) =
        omega (arith, a.drains_one, x.drains_none, tally-append is_drained events run.1) in
      record {
        k = later.k;
        last = later.last;
        retries = suc later.retries;
        reached = omega (arith, later.reached);
        within = later.within;
        is_like = IsLike-trans req r later.last x.is_ready later.is_like;
        orderly = a.all_orderly (
            All-append (IsOrderly t req) events run.1 x.orderly (
              All-map (IsOrderly t r) (IsOrderly t req) run.1
                (λ e. IsOrderly-trans t req r e x.is_ready) later.orderly));
        sends_are =
            omega (arith, a.sends_one, x.sends_none, later.sends_are, sends-append events run.1);
        sleeps_are = omega (
          arith,
          a.sleeps_same,
          drains,
          x.sleeps_once,
          later.sleeps_are,
          tally-append is_slept events run.1,
        );
        observes_are = omega (
          arith,
          a.observes_one,
          tally-append is_observed events run.1,
          x.observes_none,
          later.observes_are,
          watched-suc t.has_observer (tally is_drained run.1),
          ap (watched t.has_observer) drains,
        );
        unlisted =
            λ h. absurd (cc (h, stops-unlisted t j req (w.next j req).0 (w.next j req).1 go));
        ends = elim later.ends [
          | inl (stop, is, d) ↦ inl (stop, is, drains ∙ ap suc d)
          | inr (e, go, is, d) ↦ inr (e, go, is, drains ∙ ap suc d)
        ];
      }

  -- The attempt `j` is the last.
  pub stopped-Ending :
      (j : ℕ) (req : Request)
      → j ≤ t.max_retries
      → stops t j (used req) (w.next j req).0 (w.next j req).1 ≡ true
      → Ending t w j req (returned (w.next j req).0 (w.next j req).1, sent req ∷ [])
  stopped-Ending j req within stop = record {
    k = j;
    last = req;
    retries = 0;
    reached = omega arith;
    within = within;
    is_like = refl;
    orderly = (refl, tt);
    sends_are = refl;
    sleeps_are = omega arith;
    observes_are = sym (watched-zero t.has_observer);
    unlisted = λ h. (refl, refl);
    ends = inl (stop, refl, refl);
  }

  -- What follows a wait.
  pub after_wait-Ending :
      (j : ℕ) (req : Request) (n : ℕ) (again : Request → Run) (x : Wait) (events : List Event)
      → n ≤ 65_536
      → j ≤ t.max_retries
      → stops t j (used req) (w.next j req).0 (w.next j req).1 ≡ false
      → IsWait t req (x, events)
      → ((r : Request) → Ending t w (suc j) r (again r))
      → Ending t w j req (
        (after_wait (drain_and_close (w.next j req).0).0 again (x, events)).0,
        attempted t.has_observer j req n
            (after_wait (drain_and_close (w.next j req).0).0 again (x, events)).1,
      )
  after_wait-Ending j req n again (ready r) events small within go h later =
      again-Ending j req r n events (again r) small go h (later r)
  after_wait-Ending j req n again (failed e) events small within go h later =
      cut_short-Ending j req n e events small within go h
  after_wait-Ending j req n again wait_panicked events small within go h later = absurd h.is_ready

pub drain_and_close-le : (o : Option Response) → (drain_and_close o).1 ≤ 65_536
unfolding drain_and_close
drain_and_close-le none = omega arith
drain_and_close-le (some resp) = elim (Option-cases resp.body) [
  | inl none_there ↦ rw none_there (omega arith)
  | inr (b, there) ↦ rw there (omega arith)
]
