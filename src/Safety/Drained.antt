-- ===== src/Safety/Drained.antt =====
-- A response of the safety transport that the retry transport drains and closes.
use jttp.Prelude.{ℕ, ◌≤◌, ◌≡◌, some, List, arith}
use jttp.Errors.{ok}
use jttp.Guard.Body.{ReadStep, FloatWorld}
use jttp.Guard.Body.Compressed.{header_bytes}
use jttp.Guard.Body.Trace.{delivered}
use jttp.Guard.Body.Life.{CloseStep}
use jttp.Guard.Body.Trace.{BodyCall}
use jttp.Http.{Request, Response}
use jttp.Config.Client.{SafetyConfig}
use jttp.Safety.{SafeResponse, SafetyWorld, forward, safe_round_trip}
use jttp.Safety.Observed.{IsObserved, safe_round_trip-IsObserved}
use jttp.Retry.Body.{max_drain_bytes}
use jttp.Retry.Body.Drain.{Progresses, drain, delivered-le-supplied, reads_within-IsWithin}

module _ {H : Type 0} where
  -- Let the retry transport drain and close the body of a response of the safety transport, where no read
  -- of the body below gives nothing and no error, nor takes more than 4 GiB of compressed bytes, and gzip
  -- took no more for its header. The drain comes to an end, and has then read 64 KiB of the body at most.
  -- Let the body then be read and closed in any order. In all, the inner body is closed once, the
  -- watchdog, if there is one, is stopped once, the gzip.Reader, if there is one, is closed once, and the
  -- body observer, if there is one, is called once, with exactly the bytes that the drain has read. Each
  -- later Close gives the result of the first.
  pub safe_round_trip-drained :
      (w : SafetyWorld) (cfg : SafetyConfig H) (req : Request) (resp : Response) (r : SafeResponse)
      (floats : FloatWorld) (steps : ℕ → ReadStep) (s : CloseStep) (calls : List BodyCall)
      → w.next (forward cfg req) ≡ ok resp
      → (safe_round_trip w cfg req).0 ≡ ok r
      → ((k : ℕ) → Progresses (steps k))
      → header_bytes (w.gzip_reader resp.body) ≤ 4_294_967_296
      → (reads : List ReadStep) × (drain floats r.guard_config steps r.guard ≡ some reads)
        × (delivered floats r.guard_config r.guard reads ≤ 65_536)
        × IsObserved w cfg req resp r floats reads s calls
  safe_round_trip-drained w cfg req resp r floats steps s calls n e progress small =
      let cfg_of = r.guard_config in
      let (reads, is, supplies, arrives) =
        reads_within-IsWithin floats cfg_of steps progress max_drain_bytes 0 max_drain_bytes r.guard
          (omega arith) in
      (
        reads,
        is,
        omega (arith, delivered-le-supplied floats cfg_of r.guard reads),
        safe_round_trip-IsObserved w cfg req resp r floats reads s calls n e (omega arith)
            (omega arith),
      )
