-- ===== src/Retry/Loop/Outcome.antt =====
-- What a round trip of a request with a body that can be made again sends and returns.
use jttp.Prelude.{
  ℕ, zero, suc, ◌+◌, ◌≤◌, ◌<◌, ◌≡◌, refl, sym, true, false, Option, none, some, List, [], ◌∷◌, ◌++◌,
  arith, Bool-cases, inl, inr, ◌⊎◌,
}
use jttp.Prelude.Int.{ℤ}
use jttp.Errors.{GoError, ok}
use jttp.Http.{Body, Request, Response}
use jttp.Retry.{RetryTransport, RetryWorld, IsRandom, should_retry, has_method}
use jttp.Retry.Body.{GetBody, drain_and_close}
use jttp.Retry.Backoff.Bounds.{HasValidWaits}
use jttp.Retry.Backoff.Total.{backoff_bounded}
use jttp.Retry.Loop.{
  sleep, prepare, start, with_user_agent, round_trip, Event, sent, observed, drained, slept,
  rewound, returned, Run, ready, wait_for_retry, used, observe, stops, turn, attempt_loop,
}
use jttp.Retry.Loop.Bounds.{sends}

-- Every request that was sent is `req`.
abbrev pub AllSent : Request → List Event → Type 0
AllSent req [] = Unit
AllSent req (sent r ∷ es) = (r ≡ req) × AllSent req es
AllSent req (observed n ∷ es) = AllSent req es
AllSent req (drained n ∷ es) = AllSent req es
AllSent req (slept d ∷ es) = AllSent req es
AllSent req (rewound ∷ es) = AllSent req es

-- A run that returns what attempt `k` gave, after `n` attempts that were all given `req`.
abbrev pub ReturnsOutcome : RetryWorld → Request → ℕ → ℕ → Run → Type 0
ReturnsOutcome w req k n run =
    (run.0 ≡ returned (w.next k req).0 (w.next k req).1) × (sends run.1 ≡ n) × AllSent req run.1

ReturnsOutcome-again :
    (w : RetryWorld) (t : RetryTransport) (req : Request) (k i j n : ℕ) (d : ℤ) (run : Run)
    → ReturnsOutcome w req k i run
    → ReturnsOutcome w req k
        (suc i)
        (run.0, sent req ∷ observe t j ++ drained n ∷ slept d ∷ rewound ∷ run.1)
ReturnsOutcome-again w t req k i j n d run h = elim (Bool-cases t.has_observer) [
  | inl e ↦ rw e (h.0, omega (arith, h.1), (refl, h.2))
  | inr e ↦ rw e (h.0, omega (arith, h.1), (refl, h.2))
]

-- Attempt `j` with `req` fails in a way that is retried, and the wait after it is not cut short.
pub record Persists (t : RetryTransport) (w : RetryWorld) (req : Request) (j : ℕ) : Type 0 where
  pub retried : should_retry t (used req) (w.next j req).0 (w.next j req).1 ≡ true
  pub context_lasts : w.context_error j ≡ none
  pub sleeps : (d : ℤ) → sleep (w.woken j d) ≡ none

-- The request that every turn sends, if its body can be made again.
module _ (t : RetryTransport) (w : RetryWorld) (req : Request) (b : Body)
    (e : req.body ≡ some b) where
  again_body : GetBody
  again_body k = ok b

  rewound-eq : record (used req) { body = some b } ≡ req
  rewound-eq = λ i. record req { body = sym e i }

  wait-ready :
      (j : ℕ) (resp : Option Response)
      → HasValidWaits t
      → IsRandom w
      → Persists t w req j
      → (d : ℤ) × (wait_for_retry t w j resp (some again_body) (used req)
          ≡ (ready req, slept d ∷ rewound ∷ []))
  unfolding wait_for_retry again_body
  wait-ready j resp v r p =
      let (d, is, p_pos, le) = backoff_bounded t w j resp v r in
      (d, rw (p.context_lasts, is, p.sleeps d, rewound-eq) refl)

  turn-again :
      (j : ℕ) (again : Request → Run)
      → HasValidWaits t
      → IsRandom w
      → Persists t w req j
      → j < t.max_retries
      → (n : ℕ) × (d : ℤ) × (turn t w j (some again_body) again req (w.next j req) ≡ (
        (again req).0,
        sent req ∷ observe t j ++ drained n ∷ slept d ∷ rewound ∷ (again req).1,
      ))
  turn-again j again v r p small =
      let (resp, n) = drain_and_close (w.next j req).0 in
      let (d, waits) = wait-ready j resp v r p in
      let more : stops t j (used req) (w.next j req).0 (w.next j req).1 ≡ false =
        ground (arith, p.retried) in
      (n, d, rw (more, waits) refl)

  turn-last :
      (j : ℕ) (again : Request → Run)
      → (j ≡ t.max_retries) ⊎ (should_retry t (used req) (w.next j req).0 (w.next j req).1 ≡ false)
      → turn t w j (some again_body) again req (w.next j req)
        ≡ (returned (w.next j req).0 (w.next j req).1, sent req ∷ [])
  turn-last j again h =
      let last : stops t j (used req) (w.next j req).0 (w.next j req).1 ≡ true = ground arith in
      rw last refl

  attempt_loop-outcome :
      (i n j k : ℕ)
      → HasValidWaits t
      → IsRandom w
      → j + i ≡ k
      → j + n ≡ t.max_retries
      → k ≤ t.max_retries
      → ((a : ℕ) → j ≤ a → a < k → Persists t w req a)
      → (k ≡ t.max_retries) ⊎ (should_retry t (used req) (w.next k req).0 (w.next k req).1 ≡ false)
      → ReturnsOutcome w req k (suc i) (attempt_loop t w (some again_body) (suc n) j req)
  unfolding attempt_loop
  attempt_loop-outcome zero n j k v r e f u p h =
      let same : j ≡ k = omega arith in
      rw (same, turn-last k (attempt_loop t w (some again_body) n (suc k)) h)
        (refl, refl, (refl, tt))
  attempt_loop-outcome (suc i) zero j k v r e f u p h = absurd (omega arith)
  attempt_loop-outcome (suc i) (suc n) j k v r e f u p h =
      let ih =
        attempt_loop-outcome i n (suc j) k v r (omega arith) (omega arith) u
          (λ a l x. p a (omega arith) x) h in
      let run = attempt_loop t w (some again_body) (suc n) (suc j) req in
      let (drain, d, step) =
        turn-again j (attempt_loop t w (some again_body) (suc n) (suc j)) v r
          (p j (omega arith) (omega arith)) (omega arith) in
      rw step (ReturnsOutcome-again w t req k (suc i) j drain d run ih)

-- Let the waits be valid, each draw of rand.Int64N be in its range, and the request be prepared as
-- `req`, with a body and a function that always gives that body again. If the
-- attempts before attempt `k` fail in a way that is retried and their waits are not cut short, and
-- attempt `k` is the last that is allowed or is not retried, then RoundTrip returns what attempt `k`
-- gave, after k + 1 attempts that were all given `req`, its whole body included.
pub round_trip-outcome :
    (t : RetryTransport) (w : RetryWorld) (original req : Request) (b : Body) (k : ℕ)
    → HasValidWaits t
    → IsRandom w
    → prepare t (with_user_agent t original) ≡ ok (req, some (λ j. ok b))
    → req.body ≡ some b
    → k ≤ t.max_retries
    → ((a : ℕ) → a < k → Persists t w req a)
    → (k ≡ t.max_retries) ⊎ (should_retry t (used req) (w.next k req).0 (w.next k req).1 ≡ false)
    → ReturnsOutcome w req k (suc k) (round_trip t w original)
unfolding round_trip again_body
round_trip-outcome t w original req b k v r prepared e u p h = rw prepared (
    attempt_loop-outcome t w req b e k t.max_retries 0 k v r (omega arith) (omega arith) u
      (λ a l x. p a x) h)

method-with_user_agent :
    (t : RetryTransport) (req : Request) → (with_user_agent t req).method ≡ req.method
method-with_user_agent t req = ground arith

-- No retry can follow: the method is not retryable, or no retries are allowed.
abbrev pub IsFinal : RetryTransport → Request → Type 0
IsFinal t req = (has_method t.retryable_methods req.method ≡ false) ⊎ (t.max_retries ≡ 0)

prepare-once : (t : RetryTransport) (req : Request) → IsFinal t req → prepare t req ≡ ok (req, none)
prepare-once t req h = ground arith

stops-once :
    (t : RetryTransport) (req : Request) (resp : Option Response) (e : Option GoError)
    → IsFinal t req
    → stops t 0 req resp e ≡ true
unfolding should_retry
stops-once t req resp e h = ground arith

start-once :
    (t : RetryTransport) (w : RetryWorld) (req : Request)
    → IsFinal t req
    → start t w (ok (req, none)) ≡ (returned (w.next 0 req).0 (w.next 0 req).1, sent req ∷ [])
unfolding attempt_loop
start-once t w req h = rw (stops-once t (used req) (w.next 0 req).0 (w.next 0 req).1 h) refl

-- A request that cannot be retried is sent once, with its body as it came, and the outcome is returned:
-- one whose method is not in the retryable set, whatever checkRetry would say, and any if maxRetries
-- is 0.
round_trip-once :
    (t : RetryTransport) (w : RetryWorld) (original : Request)
    → IsFinal t original
    → let req = with_user_agent t original in
      round_trip t w original ≡ (returned (w.next 0 req).0 (w.next 0 req).1, sent req ∷ [])
unfolding round_trip
round_trip-once t w original h =
    let final : IsFinal t (with_user_agent t original) = rw (method-with_user_agent t original) h in
    rw (prepare-once t (with_user_agent t original) final)
      (start-once t w (with_user_agent t original) final)
