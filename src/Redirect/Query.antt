-- ===== src/Redirect/Query.antt =====
-- redirect.go: `canonicalizeQuery`, with the functions of net/url and sort that it calls.
pub mod Sorted
pub mod Reordered
pub mod Codec
pub mod Pairs
pub mod Grouped
pub mod Written
pub mod Decoded
pub mod Permuted
pub mod Classes
use jttp.Prelude.{
  ℕ, ◌+◌, ◌-◌, ◌*◌, ◌/◌, ◌%◌, Bool, true, false, ◌&&◌, ◌||◌, Option, none, some, List, [], ◌∷◌,
  ◌++◌, map, ltb, leb, ◌==◌, if◌then◌else◌, any,
}
use jttp.Ip.{Bytes, bytes_equal}

-- What the reader of a `%XX` has seen of it.
pub data Mode : Type 0 where
  normal : Mode
  percent : Mode
  percent_high : ℕ → Mode

hex_digit : ℕ → Option ℕ
hex_digit c =
    if leb b'0' c && leb c b'9'
    then some (c - b'0')
    else if leb b'a' c && leb c b'f'
    then some (c - b'a' + 10)
    else if leb b'A' c && leb c b'F'
    then some (c - b'A' + 10)
    else none

abbrev prepend : ℕ → Option Bytes → Option Bytes
prepend c none = none
prepend c (some cs) = some (c ∷ cs)

abbrev after_percent : Option ℕ → (ℕ → Option Bytes) → Option Bytes
after_percent none continue = none
after_percent (some h) continue = continue h

-- url.QueryUnescape
unfoldable pub unescape : Mode → Bytes → Option Bytes
unfolding hex_digit
unescape normal [] = some []
unescape percent [] = none
unescape (percent_high h) [] = none
unescape normal (c ∷ cs) =
    let escaped = unescape percent cs in
    let plain = unescape normal cs in
    if c == b'%' then escaped else if c == b'+' then prepend b' ' plain else prepend c plain
unescape percent (c ∷ cs) = after_percent (hex_digit c) (λ h. unescape (percent_high h) cs)
unescape (percent_high h) (c ∷ cs) =
    let plain = unescape normal cs in after_percent (hex_digit c) (λ l. prepend (h * 16 + l) plain)

is_unreserved : ℕ → Bool
is_unreserved c =
    leb b'a' c && leb c b'z'
    || (leb b'A' c && leb c b'Z')
    || (leb b'0' c && leb c b'9')
    || c == b'-'
    || c == b'_'
    || c == b'.'
    || c == b'~'

abbrev hex_upper : ℕ → ℕ
hex_upper d = if ltb d 10 then b'0' + d else b'A' + (d - 10)

-- url.QueryEscape
pub escape : Bytes → Bytes
unfolding is_unreserved
escape [] = []
escape (c ∷ cs) =
    (if c == b' '
      then b'+' ∷ []
      else if is_unreserved c
      then c ∷ []
      else b'%' ∷ hex_upper (c / 16) ∷ hex_upper (c % 16) ∷ [])
    ++ escape cs

-- What stands before the first `sep`, and what after it.
unfoldable pub cut : ℕ → Bytes → Bytes × Bytes
cut sep [] = ([], [])
cut sep (c ∷ cs) =
    let (before, after) = cut sep cs in if c == sep then ([], cs) else (c ∷ before, after)

-- The pieces between the separators.
abbrev pub first_piece : ℕ → List Bytes → List Bytes
first_piece c [] = (c ∷ []) ∷ []
first_piece c (p ∷ ps) = (c ∷ p) ∷ ps

unfoldable pub split : ℕ → Bytes → List Bytes
split sep [] = [] ∷ []
split sep (c ∷ cs) = let rest = split sep cs in if c == sep then [] ∷ rest else first_piece c rest

-- A url.Values: each key once, with its values in the order of the query.
abbrev pub Values : Type 0
Values = List (Bytes × List Bytes)

pub add_value : Bytes → Bytes → Values → Values
add_value key value [] = (key, value ∷ []) ∷ []
add_value key value ((k, vs) ∷ m) =
    if bytes_equal k key then (k, vs ++ value ∷ []) ∷ m else (k, vs) ∷ add_value key value m

abbrev pub add_pair : Option Bytes → Option Bytes → Values → Option Values
unfolding add_value
add_pair (some k) (some v) m = some (add_value k v m)
add_pair k v m = none

-- One piece of the query; `none` is a parse error.
pub parse_piece : Bytes → Values → Option Values
unfolding cut unescape add_value
parse_piece piece m =
    let (key, value) = cut b'=' piece in
    if any (λ c. c == b';') piece
    then none
    else if bytes_equal piece []
    then some m
    else add_pair (unescape normal key) (unescape normal value) m

abbrev pub then_parse : Option Values → (Values → Option Values) → Option Values
then_parse none continue = none
then_parse (some m) continue = continue m

unfoldable pub parse_pieces : List Bytes → Values → Option Values
unfolding parse_piece
parse_pieces [] m = some m
parse_pieces (p ∷ ps) m = then_parse (parse_piece p m) (λ n. parse_pieces ps n)

-- The order of Go's strings: by bytes.
pub text_leb : Bytes → Bytes → Bool
text_leb [] ys = true
text_leb (x ∷ xs) [] = false
text_leb (x ∷ xs) (y ∷ ys) = ltb x y || (x == y && text_leb xs ys)

pub insert_sorted : {A : Type 0} → (A → Bytes) → A → List A → List A
unfolding text_leb
insert_sorted key a [] = a ∷ []
insert_sorted key a (b ∷ bs) =
    let rest = insert_sorted key a bs in if text_leb (key a) (key b) then a ∷ b ∷ bs else b ∷ rest

-- sort.Strings
pub sort_by : {A : Type 0} → (A → Bytes) → List A → List A
unfolding insert_sorted
sort_by key [] = []
sort_by key (a ∷ as') = insert_sorted key a (sort_by key as')

abbrev pub pairs_of : Bytes × List Bytes → List (Bytes × Bytes)
unfolding sort_by
pairs_of (k, vs) = map (λ v. (k, v)) (sort_by (λ v. v) vs)

pub sorted_pairs : Values → List (Bytes × Bytes)
sorted_pairs [] = []
sorted_pairs (kv ∷ m) = pairs_of kv ++ sorted_pairs m

-- The two loops that write the pairs, with an ampersand before each but the first.
pub write_pairs : Bool → List (Bytes × Bytes) → Bytes
unfolding escape
write_pairs first [] = []
write_pairs first ((k, v) ∷ ps) =
    (if first then [] else b'&' ∷ []) ++ (escape k ++ (b'=' ∷ escape v ++ write_pairs false ps))

abbrev pub write_values : Bytes → Option Values → Bytes
write_values raw none = raw
write_values raw (some m) = write_pairs true (sorted_pairs (sort_by (λ kv. kv.0) m))

unfoldable pub canonicalize_query : Bytes → Bytes
unfolding parse_pieces split sort_by sorted_pairs write_pairs
canonicalize_query raw = write_values raw (parse_pieces (split b'&' raw) [])
