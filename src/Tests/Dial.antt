-- ===== src/Tests/Dial.antt =====
-- The theorems on the staggered dial, applied.
use jttp.Prelude.{ℕ, ◌+◌, ◌*◌, ◌≡◌, ◌≤◌, ◌<◌, refl, none, some, List, [], ◌∷◌, ◌==◌, length, arith}
use jttp.Errors.{ok, err, plain, deadline_exceeded}
use jttp.Http.{codes}
use jttp.Ssrf.{Network}
use jttp.Ssrf.Dial.{Literal, Dialed, DialWorld}
use jttp.Ssrf.Dial.Staggered.Returns.{Returns, is_cut_short, Run-Returns}
use jttp.Ssrf.Dial.Staggered.{
  Race, begin, off, opened_by, dial_ends, timer_fires, loop_result, loop_timer, drain, Run, here,
  next,
}
use jttp.Ssrf.Dial.Staggered.Ends.{Run-length}
use jttp.Ssrf.Dial.Staggered.Counts.{outstanding, Run-outstanding}
use jttp.Ssrf.Dial.Staggered.Leaks.{count, Run-opened}
use jttp.Ssrf.Dial.Staggered.Approved.{IsStaggered}

abbrev literal : Literal
literal = record {
  addr = record { ip = some (93 ∷ 184 ∷ 216 ∷ 34 ∷ []); zone = [] };
  port = codes "443";
}

-- The timer starts the second attempt while the first runs.
abbrev both : Race ℕ
both = record (begin literal (literal ∷ [])) {
  started = 2;
  waiting = [];
  running = literal ∷ literal ∷ [];
  timer = off;
  dialed = literal ∷ literal ∷ [];
}

run_both : Run 2 (begin literal (literal ∷ [])) 2 both
run_both =
    next (next here (timer_fires (begin literal (literal ∷ [])) refl))
      (loop_timer _ (refl, omega arith) refl)

Run-outstanding_example : 0 < outstanding both
Run-outstanding_example = Run-outstanding literal (literal ∷ []) run_both refl (omega arith)

-- Both attempts connect; the first is returned, and the second is closed.
abbrev drained : Race ℕ
drained = record both {
  completed = 1;
  running = [];
  outcome = some (ok 7);
  opened = 7 ∷ 8 ∷ [];
  closed = 8 ∷ [];
}

run_drained : Run 2 (begin literal (literal ∷ [])) 6 drained
run_drained =
    next
      (next
        (next (next run_both (dial_ends both [] (literal ∷ []) literal (ok 7) refl))
          (loop_result _ (ok 7) [] (refl, omega arith) refl))
        (dial_ends _ [] [] literal (ok 8) refl))
      (drain _ (ok 8) [] 0 refl refl)

Run-length_example : 6 ≤ 4 * length (literal ∷ literal ∷ []) + 1
Run-length_example = Run-length literal (literal ∷ []) run_drained

Run-opened_example :
    (count (λ c. c == 8) drained.opened
      ≡ count (λ c. c == 8) drained.closed + count (λ c. c == 8) (opened_by (ok 7)))
    × (drained.running ≡ [])
Run-opened_example = Run-opened (λ c. c == 8) literal (literal ∷ []) (ok 7) run_drained refl refl

Run-Returns_example : Returns 2 (literal ∷ literal ∷ []) drained (is_cut_short run_drained)
Run-Returns_example = Run-Returns literal (literal ∷ []) run_drained

-- The first attempt always connects at once.
abbrev pub connect : Network → List Literal → Dialed ℕ
connect network [] = (err [], [])
connect network (a ∷ rest) = (ok 7, a ∷ [])

pub connect-IsStaggered : IsStaggered connect
connect-IsStaggered network a rest = record {
  steps = 2;
  last = record (begin a rest) {
    completed = 1;
    running = [];
    timer = off;
    outcome = some (ok 7);
    opened = 7 ∷ [];
  };
  run =
      next (next here (dial_ends (begin a rest) [] [] a (ok 7) refl))
        (loop_result _ (ok 7) [] (refl, omega arith) refl);
  returned = refl;
  dialed_are = refl;
}

abbrev pub world : DialWorld ℕ
world = record {
  split_host_port = λ a. ok (a, codes "443");
  parse_ip = λ h. none;
  lookup_ip_addr = λ h. ok (literal.addr ∷ []);
  attempt = λ n network a. err (plain deadline_exceeded);
  context_error = λ n. none;
}
