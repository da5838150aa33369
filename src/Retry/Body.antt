-- ===== src/Retry/Body.antt =====
-- retry.go: `prepareBody` makes a request body that can be sent again, and `drainAndClose` empties that
-- of a response.
pub mod Buffered
pub mod Drain
use jttp.Prelude.{
  not, ◌==◌, ℕ, ◌+◌, ◌*◌, ◌^◌, min, Bool, true, false, ◌&&◌, Option, none, some, List, [], ◌∷◌, ltb,
  leb, if◌then◌else◌, length, take,
}
use jttp.Prelude.Int.{ℤ, pos, pos_part, ◌+ℤ◌, ltb_ℤ, wrap64}
use jttp.Errors.{
  GoError, Result, ok, err, errorf, errorf₂, plain, sentinel, err_body_read, err_body_close,
  err_body_too_large,
}
use jttp.Ip.{Bytes}
use jttp.Http.{Body, no_body, stream, in_memory, closed, Request, Response}

-- What a body holds, the error that ends its reading, and the error of its Close.
abbrev pub content : Body → Bytes
content no_body = []
content (stream c read_error along close_error) = c
content (in_memory c) = c
content closed = []

abbrev pub read_error : Body → Option GoError
read_error (stream c e along close_error) = e
read_error b = none

abbrev pub close_error : Body → Option GoError
close_error (stream c read along e) = e
close_error b = none

-- The error comes along with the last bytes.
abbrev pub errs_along : Body → Bool
errs_along (stream c e along close_error) = along
errs_along b = false

-- The read that takes the last of `limit` bytes returns the error, since that is where the body ends.
abbrev pub meets_end : ℕ → Body → Bool
meets_end limit b = ltb 0 limit && (errs_along b && limit == length (content b))

-- io.ReadAll, through io.LimitReader if there is a limit: that ends without an error once it has given
-- `limit` bytes, and at once if the limit is not positive; but an error that comes along with the last of
-- these bytes is returned.
unfoldable pub read_all : Option ℤ → Body → Bytes × Option GoError
read_all none b = (content b, read_error b)
read_all (some limit) b =
    if leb (pos_part limit) (length (content b)) && not (meets_end (pos_part limit) b)
    then (take (pos_part limit) (content b), none)
    else (content b, read_error b)

-- The limit `maxBytes + 1`, which wraps, if maxBytes is positive.
abbrev pub read_limit : ℤ → Option ℤ
read_limit max_bytes = if ltb_ℤ (pos 0) max_bytes then some (wrap64 (max_bytes +ℤ pos 1)) else none

abbrev pub GetBody : Type 0
GetBody = ℕ → Result Body

-- The last part: the size check, and the buffered body in the request.
abbrev pub buffer : Request → ℤ → Bytes → Result (Request × GetBody)
buffer req max_bytes body =
    if ltb_ℤ (pos 0) max_bytes && ltb_ℤ max_bytes (pos (length body))
    then err (errorf (plain (sentinel err_body_too_large)))
    else ok (
      record req {
        content_length = pos (length body);
        get_body = some (λ k. ok (in_memory body));
        body = some (in_memory body);
      },
      λ k. ok (in_memory body),
    )

-- The tests on the two errors, in their order.
abbrev pub buffer_read :
    Request → ℤ → Bytes × Option GoError → Option GoError → Result (Request × GetBody)
buffer_read req max_bytes (body, some e) close = err (errorf₂ (plain (sentinel err_body_read)) e)
buffer_read req max_bytes (body, none) (some e) = err (errorf₂ (plain (sentinel err_body_close)) e)
buffer_read req max_bytes (body, none) none = buffer req max_bytes body

abbrev pub prepare_with : Option GetBody → Body → Request → ℤ → Result (Request × GetBody)
prepare_with (some g) b req max_bytes = ok (req, g)
prepare_with none b req max_bytes =
    buffer_read req max_bytes (read_all (read_limit max_bytes) b) (close_error b)

abbrev pub prepare_from : Option Body → Request → ℤ → Result (Request × GetBody)
prepare_from none req max_bytes = ok (req, λ k. ok no_body)
prepare_from (some no_body) req max_bytes = ok (req, λ k. ok no_body)
prepare_from (some b) req max_bytes = prepare_with req.get_body b req max_bytes

-- The request as it is afterwards, with the function that makes its body again.
unfoldable pub prepare_body : Request → ℤ → Result (Request × GetBody)
unfolding read_all
prepare_body req max_bytes = prepare_from req.body req max_bytes

abbrev pub max_drain_bytes : ℕ
max_drain_bytes = 65_536

-- The response afterwards, and the number of bytes that were read from its body.
unfoldable pub drain_and_close : Option Response → Option Response × ℕ
drain_and_close none = (none, 0)
drain_and_close (some resp) = elim resp.body [
  | none ↦ (some resp, 0)
  | some b ↦ (some (record resp { body = some closed }), min (length (content b)) max_drain_bytes)
]
