-- ===== src/Errors.antt =====
-- errors.go, and Go's error values as errors.Is and errors.As see them. An error is a tree of wrapped
-- errors, which both functions walk in pre-order: the model keeps the nodes in that order, each with
-- what it answers them. A nil error is `none`, or the `ok` of a result.
use jttp.Prelude.{ℕ, Bool, false, Option, none, some, List, [], ◌∷◌, ◌++◌, ◌==◌, any}

-- The sentinels that the package declares.
pub data Sentinel : Type 0 where
  err_body_too_large err_body_read err_body_close err_body_rewind err_too_many_redirects : Sentinel
  err_body_idle_timeout err_body_transfer_too_slow err_response_too_large : Sentinel
  err_decompression_bomb err_redirect_loop err_scheme_downgrade err_blocked_by_ip_policy : Sentinel

-- The targets of errors.Is in the package: its sentinels, and values of the standard library.
pub data Target : Type 0 where
  sentinel : Sentinel → Target
  canceled deadline_exceeded eof unexpected_eof : Target
  econnrefused econnreset econnaborted epipe use_last_response : Target

sentinel_code : Sentinel → ℕ
sentinel_code err_body_too_large = 0
sentinel_code err_body_read = 1
sentinel_code err_body_close = 2
sentinel_code err_body_rewind = 3
sentinel_code err_too_many_redirects = 4
sentinel_code err_body_idle_timeout = 5
sentinel_code err_body_transfer_too_slow = 6
sentinel_code err_response_too_large = 7
sentinel_code err_decompression_bomb = 8
sentinel_code err_redirect_loop = 9
sentinel_code err_scheme_downgrade = 10
sentinel_code err_blocked_by_ip_policy = 11

target_code : Target → ℕ
unfolding sentinel_code
target_code canceled = 0
target_code deadline_exceeded = 1
target_code eof = 2
target_code unexpected_eof = 3
target_code econnrefused = 4
target_code econnreset = 5
target_code econnaborted = 6
target_code epipe = 7
target_code use_last_response = 8
target_code (sentinel s) = sentinel_code s

target_kind : Target → ℕ
target_kind (sentinel s) = 1
target_kind t = 0

unfoldable pub same_target : Target → Target → Bool
unfolding target_code target_kind
same_target s t = elim (target_kind s == target_kind t) [
  | Bool.true ↦ target_code s == target_code t
  | Bool.false ↦ false
]

-- One node: the targets that it is (itself, or by its method Is), what its method Timeout returns if
-- it implements net.Error, and its field IsNotFound if it is a *net.DNSError.
pub record Layer : Type 0 where
  pub is : List Target
  pub timeout : Option Bool
  pub is_not_found : Option Bool

abbrev pub GoError : Type 0
GoError = List Layer

-- A value that is `t` and wraps nothing.
abbrev pub plain : Target → GoError
plain t = record { is = t ∷ []; timeout = none; is_not_found = none } ∷ []

-- A node of fmt.Errorf or errors.New of its own: it is no target.
abbrev pub opaque_layer : Layer
opaque_layer = record { is = []; timeout = none; is_not_found = none }

-- fmt.Errorf with one and with two `%w`, and with none.
abbrev pub errorf : GoError → GoError
errorf e = opaque_layer ∷ e

abbrev pub errorf₂ : GoError → GoError → GoError
errorf₂ e f = opaque_layer ∷ e ++ f

abbrev pub message : GoError
message = opaque_layer ∷ []

-- errors.Join drops nil errors, and is nil if nothing is left.
abbrev pub join : List GoError → GoError
join [] = []
join (e ∷ es) = e ++ join es

abbrev pub wraps : Target → Layer → Bool
wraps t l = any (same_target t) l.is

unfoldable pub errors_is : GoError → Target → Bool
unfolding same_target
errors_is e t = any (wraps t) e

-- errors.As into a net.Error, then its Timeout: only the first net.Error counts.
unfoldable pub first_timeout : GoError → Option Bool
first_timeout [] = none
first_timeout (l ∷ ls) = elim l.timeout [ none ↦ first_timeout ls | some b ↦ some b ]

-- errors.As into a *net.DNSError, then its IsNotFound.
unfoldable pub first_is_not_found : GoError → Option Bool
first_is_not_found [] = none
first_is_not_found (l ∷ ls) = elim l.is_not_found [ none ↦ first_is_not_found ls | some b ↦ some b ]

-- What a fallible Go function returns.
pub data Result {ℓ} (A : Type ℓ) : Type ℓ where
  ok : A → Result A
  err : GoError → Result A
