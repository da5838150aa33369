-- ===== src/Tests/Drained.antt =====
-- The theorem on drained responses, applied: a body that ends after one read of six bytes.
use jttp.Prelude.{
  ℕ, ◌≡◌, ◌≤◌, refl, inl, inr, some, List, [], ◌∷◌, ltb, if◌then◌else◌, arith, Bool-cases,
}
use jttp.Prelude.Int.{wrap64}
use jttp.Errors.{eof, plain}
use jttp.Guard.Body.{ReadStep, read}
use jttp.Guard.Body.Trace.{delivered}
use jttp.Retry.Body.Drain.{Progresses, reads_within, drain}
use jttp.Safety.Observed.{IsObserved}
use jttp.Safety.Drained.{safe_round_trip-drained}
use jttp.Tests.Data.{request}
use jttp.Tests.Safety.{safety_world, public_ip, zipped, floats, chunk}
use jttp.Tests.Observed.{observing, answer, answered, closing, calls}

abbrev last : ReadStep
last = record chunk { count = 0; inner_reads = []; error = some (plain eof) }

abbrev steps : ℕ → ReadStep
steps k = if ltb k 1 then chunk else last

steps-Progresses : (k : ℕ) → Progresses (steps k)
steps-Progresses k = elim (Bool-cases (ltb k 1)) [
  | inl first ↦ rw first (record { gives = inl (omega arith); takes = omega arith })
  | inr later ↦ rw later (record { gives = inr (plain eof, refl); takes = omega arith })
]

ends_after_one : drain floats answer.guard_config steps answer.guard ≡ some (chunk ∷ last ∷ [])
unfolding reads_within read wrap64
ends_after_one = refl

safe_round_trip-drained_example :
    (reads : List ReadStep) × (drain floats answer.guard_config steps answer.guard ≡ some reads)
    × (delivered floats answer.guard_config answer.guard reads ≤ 65_536)
    × IsObserved (safety_world public_ip) observing request zipped answer floats reads closing calls
safe_round_trip-drained_example =
    safe_round_trip-drained (safety_world public_ip) observing request zipped answer floats steps
      closing calls refl answered steps-Progresses (omega arith)
