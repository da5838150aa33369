-- ===== src/Retry/Hint.antt =====
-- retry.go: the server's hints how long to wait.
pub mod Values
use jttp.Prelude.{
  ℕ, suc, ◌+◌, ◌-◌, ◌*◌, ◌^◌, ◌<◌, ◌≤◌, Bool, true, false, ◌&&◌, Option, none, some, List, [], ◌∷◌,
  ◌==◌, leb, ltb, if◌then◌else◌,
}
use jttp.Prelude.Int.{
  saturate64, ℤ, pos, negsuc, ◌+ℤ◌, ◌-ℤ◌, ◌*ℤ◌, ltb_ℤ, leb_ℤ, max_ℤ, min_ℤ, wrap64,
}
use jttp.Ip.{Bytes}
use jttp.Http.{Header, Response, codes, get}
use jttp.Retry.{RetryTransport, RetryWorld}

-- The decimal digits of a text; a text without any digit, or with another byte, has no value.
unfoldable pub digits : ℕ → Bytes → Option ℕ
digits acc [] = some acc
digits acc (c ∷ cs) =
    let rest = digits (acc * 10 + (c - b'0')) cs in if leb b'0' c && leb c b'9' then rest else none

abbrev number : Bytes → Option ℕ
number [] = none
number (c ∷ cs) = digits 0 (c ∷ cs)

abbrev positive : Option ℕ → Option ℤ
positive none = none
positive (some n) = if ltb n (2 ^ 63) then some (pos n) else none

abbrev negative : Option ℕ → Option ℤ
negative none = none
negative (some n) = if leb n (2 ^ 63) then some (pos 0 -ℤ pos n) else none

-- strconv.Atoi and strconv.ParseInt(val, 10, 64): an optional sign, then digits, in the range of int64.
unfoldable pub parse_int : Bytes → Option ℤ
unfolding digits
parse_int [] = none
parse_int (c ∷ cs) =
    if c == b'+'
    then positive (number cs)
    else if c == b'-'
    then negative (number cs)
    else positive (number (c ∷ cs))

abbrev pub second : ℤ
second = pos 1_000_000_000

-- `time.Duration(seconds) * time.Second`, which wraps.
unfoldable pub seconds_of : ℤ → ℤ
unfolding wrap64
seconds_of n = wrap64 (n *ℤ second)

abbrev delta_seconds : Option ℤ → ℤ
delta_seconds none = pos 0
delta_seconds (some n) = if ltb_ℤ (pos 0) n then seconds_of n else pos 0

unfoldable pub parse_delta_seconds : Bytes → ℤ
unfolding parse_int seconds_of
parse_delta_seconds val = delta_seconds (parse_int val)

-- time.Until of a time given in nanoseconds since 1970.
abbrev until : ℤ → ℤ → ℤ
until t now = saturate64 (t -ℤ now)

abbrev epoch_heuristic_threshold : ℕ
epoch_heuristic_threshold = 1_000_000_000

-- time.Unix(n, 0) in nanoseconds since 1970. A Time counts its seconds from the year 1, in an int64.
unfoldable pub unix_time : ℤ → ℤ
unfolding wrap64
unix_time n =
    let year_1970 : ℤ = pos 62_135_596_800 in (wrap64 (n +ℤ year_1970) -ℤ year_1970) *ℤ second

abbrev positive_or_zero : ℤ → ℤ
positive_or_zero d = if ltb_ℤ (pos 0) d then d else pos 0

abbrev seconds_or_epoch : ℤ → Option ℤ → ℤ
seconds_or_epoch now none = pos 0
seconds_or_epoch now (some n) =
    if leb_ℤ n (pos 0)
    then pos 0
    else if leb_ℤ (pos epoch_heuristic_threshold) n
    then positive_or_zero (until (unix_time n) now)
    else seconds_of n

unfoldable pub parse_delta_seconds_or_epoch : ℤ → Bytes → ℤ
unfolding parse_int saturate64 unix_time seconds_of
parse_delta_seconds_or_epoch now val = seconds_or_epoch now (parse_int val)

abbrev date_or_zero : ℤ → Option ℤ → ℤ
date_or_zero now none = pos 0
date_or_zero now (some t) = positive_or_zero (until t now)

-- The first test of `parseRetryAfter`, and what follows where it fails.
abbrev seconds_or_else : ℤ → Option ℤ → ℤ
seconds_or_else date none = date
seconds_or_else date (some n) = if ltb_ℤ (pos 0) n then seconds_of n else date

unfoldable pub parse_retry_after : (Bytes → Option ℤ) → ℤ → Bytes → ℤ
unfolding parse_int saturate64 seconds_of
parse_retry_after parse_time now val =
    let date = date_or_zero now (parse_time val) in seconds_or_else date (parse_int val)

unfoldable pub clamp_server_wait : RetryTransport → ℤ → ℤ
clamp_server_wait t d =
    let floored = if ltb_ℤ (pos 0) t.wait_min then max_ℤ d t.wait_min else d in
    if ltb_ℤ (pos 0) t.max_retry_after then min_ℤ floored t.max_retry_after else floored

abbrev pub is_empty : Bytes → Bool
is_empty [] = true
is_empty (c ∷ cs) = false

-- The loop over the sources, each a header's value with its parser.
unfoldable pub first_hint : RetryTransport → List (Bytes × (Bytes → ℤ)) → Option ℤ
first_hint t [] = none
first_hint t ((raw, parse) ∷ sources) =
    let rest = first_hint t sources in
    if is_empty raw
    then rest
    else if leb_ℤ (parse raw) (pos 0)
    then rest
    else some (clamp_server_wait t (parse raw))

-- The three sources with the values of their headers. `attempt` gives the time at which they are read.
abbrev pub hint_sources : RetryWorld → ℕ → Response → List (Bytes × (Bytes → ℤ))
hint_sources w attempt resp =
    (get resp.header (codes "Retry-After"), parse_retry_after w.parse_time (w.now attempt 0))
    ∷ (get resp.header (codes "RateLimit-Reset"), parse_delta_seconds)
    ∷ (get resp.header (codes "X-RateLimit-Reset"), parse_delta_seconds_or_epoch (w.now attempt 1))
    ∷ []

unfoldable pub parse_server_wait_hint : RetryTransport → RetryWorld → ℕ → Response → Option ℤ
unfolding first_hint
parse_server_wait_hint t w attempt resp = first_hint t (hint_sources w attempt resp)
