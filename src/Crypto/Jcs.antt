-- ===== src/Crypto/Jcs.antt =====
-- src/crypto/jcs.c: the canonical text of a JSON tree, which is what a signature is made of. A tree of
-- cJSON is a data type; a double is what isfinite, the casts, snprintf and strtod tell of it. Memory is
-- taken to suffice, and a growing buffer is the text in it.
pub mod Strings
pub mod Order
pub mod Canonical
mod Tests
use shellclaw.Common.{
  ℕ, zero, suc, ◌+◌, ◌-◌, ◌/◌, ◌%◌, Bool, true, false, ◌&&◌, ◌||◌, not, Option, none, some, List,
  [], ◌∷◌, ◌++◌, ◌==◌, ltb, leb, if◌then◌else◌, Bytes, codes, str_equal, is_empty, length, take,
  drop, get_or, replicate, strchr, strtol, atoi_of, decimal, ℤ, pos, negsuc,
}

pub record Double : Type 0 where
  pub is_finite : Bool
  -- the value as a long long, where it is one within 2 ^ 53 - 1 of 0
  pub integer : Option ℤ
  -- snprintf "%.*g" with a precision
  pub rendered : ℕ → Bytes
  -- whether strtod gives the same bits back
  pub parses_back : Bytes → Bool

mutual
  pub data Json : Type 0 where
    null false_node true_node : Json
    number : Double → Json
    -- the string can be missing in a node that says it has one
    text : Option Bytes → Json
    array : Nodes → Json
    object : Members → Json

  pub data Nodes : Type 0 where
    no_nodes : Nodes
    node : Json → Nodes → Nodes

  pub data Members : Type 0 where
    no_members : Members
    member : Option Bytes → Json → Members → Members

abbrev pub hex_char : ℕ → ℕ
hex_char v = if ltb v 10 then b'0' + v else b'a' + v - 10

-- "\u%04x" of a byte
abbrev pub unicode_escape : ℕ → Bytes
unicode_escape c = codes "\\u" ++ b'0' ∷ b'0' ∷ hex_char (c / 16 % 16) ∷ hex_char (c % 16) ∷ []

unfoldable pub escaped : ℕ → Bytes
escaped c =
    if c == b'"'
    then codes "\\\""
    else if c == b'\\'
    then codes "\\\\"
    else if c == 8
    then codes "\\b"
    else if c == 12
    then codes "\\f"
    else if c == 10
    then codes "\\n"
    else if c == 13
    then codes "\\r"
    else if c == 9
    then codes "\\t"
    else if ltb c 0x20
    then unicode_escape c
    else c ∷ []

unfoldable pub escape_all : Bytes → Bytes
escape_all [] = []
escape_all (c ∷ s) = escaped c ++ escape_all s

abbrev pub escaped_string : Option Bytes → Option Bytes
escaped_string none = none
escaped_string (some s) = some (b'"' ∷ escape_all s ++ b'"' ∷ [])

-- the first precision from `prec` on that round-trips, within `rounds` of them, or 17
unfoldable pub first_precision : Double → ℕ → ℕ → Option ℕ
first_precision v zero prec = none
first_precision v (suc rounds) prec =
    let later = first_precision v rounds (prec + 1) in
    if v.parses_back (v.rendered prec) then some prec else later

abbrev pub rendered_at : Double → Option ℕ → Option Bytes
rendered_at v none = some (take 63 (v.rendered 17))
rendered_at v (some prec) =
    if ltb 64 (length (v.rendered prec) + 1) then none else some (v.rendered prec)

unfoldable pub shortest_roundtrip : Double → Option Bytes
shortest_roundtrip v = rendered_at v (first_precision v 17 1)

abbrev pub signed : ℤ → Bytes
signed (pos n) = decimal n
signed (negsuc n) = b'-' ∷ decimal (n + 1)

-- "e+" or "e-" with the exponent
abbrev pub exponent : ℤ → Bytes
exponent (pos n) = codes "e+" ++ decimal n
exponent (negsuc n) = codes "e-" ++ decimal (n + 1)

unfoldable pub append_exponential : Bytes → ℤ → Bytes
append_exponential s exp =
    take 1 s ++ ((if ltb 1 (length s) then b'.' ∷ drop 1 s else []) ++ exponent exp)

-- the loop from `i` on, for that many rounds
unfoldable pub decimal_digits : Bytes → ℕ → ℕ → ℕ → Bytes
decimal_digits s n i zero = []
decimal_digits s n i (suc rounds) =
    (if i == n then b'.' ∷ [] else [])
    ++ ((if ltb i (length s) then get_or s i 0 else b'0') ∷ decimal_digits s n (i + 1) rounds)

abbrev pub most : ℕ → ℕ → ℕ
most a b = if ltb a b then b else a

unfoldable pub append_decimal : Bytes → ℤ → Bytes
append_decimal s (negsuc n) = codes "0." ++ (replicate (n + 1) b'0' ++ s)
append_decimal s (pos n) =
    if n == 0 then codes "0." ++ s else decimal_digits s n 0 (most (length s) n)

abbrev pub next_int : ℤ → ℤ
next_int (pos n) = pos (n + 1)
next_int (negsuc zero) = pos 0
next_int (negsuc (suc n)) = negsuc n

abbrev pub is_exponential : ℤ → Bool
is_exponential (pos n) = ltb 21 n
is_exponential (negsuc n) = leb 5 n

unfoldable pub without_points : Bytes → Bytes
without_points [] = []
without_points (c ∷ s) = let rest = without_points s in if c == b'.' then rest else c ∷ rest

abbrev pub is_sign : ℕ → Bool
is_sign c = c == b'-' || c == b'+'

-- on the digits of the mantissa and the exponent
abbrev pub scientific : Bool → Bytes → ℤ → Option Bytes
scientific minus digits e =
    if is_empty digits
    then none
    else some (
        (if minus then b'-' ∷ [] else [])
        ++ (if is_exponential (next_int e)
            then append_exponential digits e
            else append_decimal digits (next_int e)))

-- on what is before the "e" and what is from it on
abbrev pub from_parts : Bytes → Bytes → Option Bytes
from_parts before exp =
    let mant = if is_sign (get_or before 0 0) then drop 1 before else before in
    if leb 64 (length mant) || ltb 63 (length (without_points mant))
    then none
    else scientific (get_or before 0 0 == b'-') (without_points mant)
        (atoi_of (strtol (drop 1 exp)))

abbrev pub first_part : Option Bytes → Option Bytes → Option Bytes
first_part none next = next
first_part (some p) next = some p

abbrev pub from_exponent : Bytes → Option Bytes → Option Bytes
from_exponent tmp none = some tmp
from_exponent tmp (some exp) = from_parts (take (length tmp - length exp) tmp) exp

abbrev pub from_shortest : Option Bytes → Option Bytes
from_shortest none = none
from_shortest (some tmp) = from_exponent tmp (first_part (strchr tmp b'e') (strchr tmp b'E'))

abbrev pub number_from : Double → Option ℤ → Option Bytes
number_from v none = from_shortest (shortest_roundtrip v)
number_from v (some n) = some (signed n)

abbrev pub append_number : Double → Option Bytes
append_number v = if not v.is_finite then none else number_from v v.integer

-- strcmp (a, b) < 0
unfoldable pub key_before : Bytes → Bytes → Bool
key_before a [] = false
key_before [] (d ∷ b) = true
key_before (c ∷ a) (d ∷ b) = let rest = key_before a b in if c == d then rest else ltb c d

-- qsort by jcs_key_cmp
unfoldable pub insert_key : Bytes → List Bytes → List Bytes
insert_key k [] = k ∷ []
insert_key k (l ∷ keys) =
    let rest = insert_key k keys in if key_before l k then l ∷ rest else k ∷ l ∷ keys

unfoldable pub sort_keys : List Bytes → List Bytes
sort_keys [] = []
sort_keys (k ∷ keys) = insert_key k (sort_keys keys)

-- the members of an object with the texts of their values
abbrev pub Rendered : Type 0
Rendered = List (Bytes × Option Bytes)

-- cJSON_GetObjectItemCaseSensitive, and the text of the item
unfoldable pub value_of : Rendered → Bytes → Option Bytes
value_of [] key = none
value_of ((k, v) ∷ members) key =
    let rest = value_of members key in if str_equal k key then v else rest

abbrev pub keys_of : Rendered → List Bytes
keys_of [] = []
keys_of ((k, v) ∷ members) = k ∷ keys_of members

abbrev pub joined : Option Bytes → Option Bytes → Option Bytes
joined none b = none
joined (some a) none = none
joined (some a) (some b) = some (a ++ b)

abbrev pub member_text : Bytes → Option Bytes → Option Bytes
member_text key value = joined (escaped_string (some key)) (joined (some (b':' ∷ [])) value)

-- the members after the first, each behind a comma
unfoldable pub members_from : Rendered → List Bytes → Option Bytes
members_from members [] = some (b'}' ∷ [])
members_from members (k ∷ keys) =
    joined (some (b',' ∷ []))
      (joined (member_text k (value_of members k)) (members_from members keys))

abbrev pub sorted_members : Rendered → List Bytes → Option Bytes
sorted_members members [] = some (codes "{}")
sorted_members members (k ∷ keys) =
    joined (some (b'{' ∷ []))
      (joined (member_text k (value_of members k)) (members_from members keys))

unfoldable pub object_text : Rendered → Option Bytes
object_text members = sorted_members members (sort_keys (keys_of members))

abbrev pub text_of_members : Option Rendered → Option Bytes
text_of_members none = none
text_of_members (some members) = object_text members

abbrev pub with_member : Option Bytes → Option Bytes → Option Rendered → Option Rendered
with_member none value rest = none
with_member (some key) value none = none
with_member (some key) value (some rest) = some ((key, value) ∷ rest)

-- the nodes after the first, each behind a comma
abbrev pub first_nodes : Option Bytes → Option Bytes → Option Bytes
first_nodes value rest = joined (some (b'[' ∷ [])) (joined value rest)

unfoldable mutual
  pub serialize : Json → Option Bytes
  serialize null = some (codes "null")
  serialize false_node = some (codes "false")
  serialize true_node = some (codes "true")
  serialize (number v) = append_number v
  serialize (text s) = escaped_string s
  serialize (array nodes) = serialize_array nodes
  serialize (object members) = text_of_members (rendered_members members)

  pub serialize_array : Nodes → Option Bytes
  serialize_array no_nodes = some (codes "[]")
  serialize_array (node x nodes) = first_nodes (serialize x) (nodes_from nodes)

  pub nodes_from : Nodes → Option Bytes
  nodes_from no_nodes = some (b']' ∷ [])
  nodes_from (node x nodes) = joined (some (b',' ∷ [])) (joined (serialize x) (nodes_from nodes))

  -- `none` where a member has no name
  pub rendered_members : Members → Option Rendered
  rendered_members no_members = some []
  rendered_members (member key x members) = with_member key (serialize x) (rendered_members members)

-- the bytes, or -1
abbrev pub canonicalize : Json → Option Bytes
canonicalize root = serialize root
