-- ===== src/Http.antt =====
-- The parts of Go's net/http that the package reads and writes: headers, requests and responses. Texts
-- are lists of bytes; case folding is that of ASCII letters.
use Prim.Native.Char.{code}
use jttp.Prelude.{
  ℕ, ◌+◌, ◌-◌, Bool, true, ◌&&◌, Option, List, [], ◌∷◌, map, String, ◌==◌, leb, if◌then◌else◌,
}
use jttp.Prelude.Int.{ℤ}
use jttp.Errors.{GoError, Result}
use jttp.Ip.{Bytes, bytes_equal}

-- A text literal as its bytes.
abbrev pub codes : String → Bytes
codes String.[] = []
codes (String.◌∷◌ c s) = code c ∷ codes s

unfoldable pub lower : ℕ → ℕ
lower c = if leb b'A' c && leb c b'Z' then c + 32 else c

unfoldable pub upper : ℕ → ℕ
upper c = if leb b'a' c && leb c b'z' then c - 32 else c

-- strings.ToLower and strings.EqualFold
abbrev pub to_lower : Bytes → Bytes
to_lower = map lower

abbrev pub equal_fold : Bytes → Bytes → Bool
equal_fold a b = bytes_equal (to_lower a) (to_lower b)

-- textproto.CanonicalMIMEHeaderKey: a letter is upper case at the start and after a hyphen, and lower
-- case elsewhere; `start` says which.
unfoldable pub canonical_from : Bool → Bytes → Bytes
unfolding lower upper
canonical_from start [] = []
canonical_from start (c ∷ cs) = (if start then upper c else lower c) ∷ canonical_from (c == b'-') cs

unfoldable pub canonical_key : Bytes → Bytes
unfolding canonical_from
canonical_key = canonical_from true

-- An http.Header: canonical keys with their values, each key at most once.
abbrev pub Header : Type 0
Header = List (Bytes × List Bytes)

unfoldable pub header_values : Bytes → Header → List Bytes
header_values key [] = []
header_values key ((k, vs) ∷ h) = if bytes_equal k key then vs else header_values key h

abbrev pub first_or_empty : List Bytes → Bytes
first_or_empty [] = []
first_or_empty (v ∷ vs) = v

-- Header.Get, Header.Del and Header.Set
unfoldable pub get : Header → Bytes → Bytes
unfolding canonical_key header_values
get h name = first_or_empty (header_values (canonical_key name) h)

unfoldable pub remove_key : Bytes → Header → Header
remove_key key [] = []
remove_key key ((k, vs) ∷ h) =
    let rest = remove_key key h in if bytes_equal k key then rest else (k, vs) ∷ rest

unfoldable pub del : Header → Bytes → Header
unfolding canonical_key remove_key
del h name = remove_key (canonical_key name) h

unfoldable pub set : Header → Bytes → Bytes → Header
unfolding canonical_key remove_key
set h name value = (canonical_key name, value ∷ []) ∷ remove_key (canonical_key name) h

-- A body: http.NoBody; a stream with its bytes, the error that ends it in place of io.EOF, whether that
-- comes along with the last bytes or after them, and the error of its Close; a reader over bytes in memory, which has neither error; or a body that was read and
-- closed.
pub data Body : Type 0 where
  no_body : Body
  stream : Bytes → Option GoError → Bool → Option GoError → Body
  in_memory : Bytes → Body
  closed : Body

-- The parts of a url.URL that are read: Scheme, Hostname(), Port(), EscapedPath() and RawQuery.
pub record Url : Type 0 where
  pub scheme : Bytes
  pub hostname : Bytes
  pub port : Bytes
  pub escaped_path : Bytes
  pub raw_query : Bytes

-- An http.Request. A call of GetBody has its number, since two calls may end differently.
pub record Request : Type 0 where
  pub method : Bytes
  pub url : Url
  pub header : Header
  pub body : Option Body
  pub get_body : Option (ℕ → Result Body)
  pub content_length : ℤ

-- An http.Response.
pub record Response : Type 0 where
  pub status_code : ℕ
  pub header : Header
  pub content_length : ℤ
  pub body : Option Body
