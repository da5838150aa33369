-- ===== src/Tests/Hint.antt =====
-- The theorems on the waits of retry.go, applied.
use jttp.Prelude.{min, max, ◌<◌, ℕ, ◌-◌, ◌*◌, ◌^◌, ◌≡◌, refl, none, some, List, [], ◌∷◌, arith}
use jttp.Prelude.Int.{pos, ◌<ℤ◌}
use jttp.Http.{Response, get, codes}
use jttp.Retry.{RetryTransport}
use jttp.Retry.Hint.{clamp_server_wait, parse_server_wait_hint, parse_retry_after}
use jttp.Retry.Hint.Values.{text, value, AreDigits, retry_after-exact, retry_after-wraps}
use jttp.Retry.Backoff.{backoff}
use jttp.Retry.Backoff.Overflow.{backoff_wraps}
use jttp.Tests.Data.{transport, response, world}

-- A response with a Retry-After header.
abbrev hinted : List ℕ → Response
hinted ds = record (response 503) { header = (codes "Retry-After", text ds ∷ []) ∷ [] }

hinted-text : (ds : List ℕ) → get (hinted ds).header (codes "Retry-After") ≡ text ds
unfolding get
hinted-text ds = refl

abbrev two_minutes : List ℕ
two_minutes = 1 ∷ 2 ∷ 0 ∷ []

abbrev long_wait : List ℕ
long_wait = 1 ∷ 8 ∷ 4 ∷ 4 ∷ 6 ∷ 7 ∷ 4 ∷ 4 ∷ 0 ∷ 7 ∷ 4 ∷ []

two_minutes-AreDigits : AreDigits two_minutes
two_minutes-AreDigits = ground arith

long_wait-AreDigits : AreDigits long_wait
long_wait-AreDigits = ground arith

retry_after-exact_example :
    parse_server_wait_hint transport world 0 (hinted two_minutes)
    ≡ some (pos (min (max (value two_minutes * 1_000_000_000) 250_000_000) 60_000_000_000))
retry_after-exact_example =
    retry_after-exact transport world 0 (hinted two_minutes) 1 (2 ∷ 0 ∷ [])
      (hinted-text two_minutes) two_minutes-AreDigits 250_000_000 60_000_000_000 refl refl
      (omega arith) (omega arith) (omega arith)

retry_after-wraps_example :
    (parse_server_wait_hint transport world 0 (hinted long_wait)
      ≡ some (pos (max (value long_wait * 1_000_000_000 - 2 ^ 64) 250_000_000)))
    × (max (value long_wait * 1_000_000_000 - 2 ^ 64) 250_000_000 < 60_000_000_000)
retry_after-wraps_example =
    retry_after-wraps transport world 0 (hinted long_wait) 1
      (8 ∷ 4 ∷ 4 ∷ 6 ∷ 7 ∷ 4 ∷ 4 ∷ 0 ∷ 7 ∷ 4 ∷ []) (hinted-text long_wait) long_wait-AreDigits
      250_000_000 60_000_000_000 refl refl (omega arith) (omega arith) (omega arith) (omega arith)

two_minutes_capped :
    parse_server_wait_hint transport world 0 (hinted two_minutes) ≡ some (pos 60_000_000_000)
unfolding parse_server_wait_hint parse_retry_after clamp_server_wait get
two_minutes_capped = refl

abbrev patient : RetryTransport
patient = record transport { wait_min = pos 8_589_934_593; wait_max = pos 60_000_000_000 }

backoff_wraps_example :
    (backoff patient world 31 none ≡ some (pos (1 * 2 ^ 31)))
    × (pos (1 * 2 ^ 31) <ℤ patient.wait_min)
backoff_wraps_example = backoff_wraps patient world 1 refl (omega arith) (omega arith) (omega arith)
