-- ===== src/Retry/Body/Buffered.antt =====
-- What `prepareBody` does with a body that has to be read into memory.
use jttp.Prelude.{Bool, ℕ, ◌-◌, ◌^◌, ◌≡◌, refl, Option, none, some, [], length, arith}
use jttp.Prelude.Int.{pos, negsuc, wrap64}
use jttp.Errors.{
  GoError, Result, ok, err, errorf, errorf₂, plain, sentinel, err_body_read, err_body_close,
  err_body_too_large,
}
use jttp.Ip.{Bytes}
use jttp.Http.{Body, stream, in_memory, Request}
use jttp.Retry.Body.{GetBody, read_all, prepare_body}

-- A stream of `c` that ends in `e`, along with its last bytes or after them, and whose Close gives `f`,
-- without a GetBody.
abbrev pub streaming : Request → Bytes → Option GoError → Bool → Option GoError → Request
streaming req c e along f = record req { body = some (stream c e along f); get_body = none }

abbrev pub buffered : Request → Bytes → Request
buffered req c = record req {
  content_length = pos (length c);
  get_body = some (λ k. ok (in_memory c));
  body = some (in_memory c);
}

-- What follows a stream that was read to its limit, with the error that was met there, and one that was
-- read to its end.
abbrev pub refused : Option GoError → Option GoError → Result (Request × GetBody)
refused (some e) f = err (errorf₂ (plain (sentinel err_body_read)) e)
refused none (some f) = err (errorf₂ (plain (sentinel err_body_close)) f)
refused none none = err (errorf (plain (sentinel err_body_too_large)))

abbrev pub kept : Request → Bytes → Option GoError → Option GoError → Result (Request × GetBody)
kept req c (some e) f = err (errorf₂ (plain (sentinel err_body_read)) e)
kept req c none (some f) = err (errorf₂ (plain (sentinel err_body_close)) f)
kept req c none none = ok (buffered req c, λ k. ok (in_memory c))

read_all-negative : (k : ℕ) (b : Body) → read_all (some (negsuc k)) b ≡ ([], none)
unfolding read_all
read_all-negative k b = ground arith

-- With maxBytes at the largest int64 the limit wraps to a negative number, and nothing is read: a
-- stream that can be closed, of a request without GetBody, is replaced by an empty body, without an
-- error.
pub prepare_body-limit_wraps :
    (req : Request) (c : Bytes) (e : Option GoError) (along : Bool)
    → prepare_body (streaming req c e along none) (pos (2 ^ 63 - 1))
      ≡ ok (buffered req [], λ k. ok (in_memory []))
unfolding prepare_body wrap64
prepare_body-limit_wraps req c e along =
    rw (read_all-negative (2 ^ 63 - 1) (stream c e along none)) refl
