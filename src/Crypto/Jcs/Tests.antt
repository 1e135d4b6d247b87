-- ===== src/Crypto/Jcs/Tests.antt =====
-- src/crypto/jcs.c: canonical texts of some trees, and the theorems at some of them.
use shellclaw.Common.{
  ℕ, Bool, true, false, Option, none, some, List, [], ◌∷◌, ◌++◌, ◌≡◌, refl, Bytes, codes, ℤ, pos,
  negsuc, str_equal,
}
use shellclaw.Crypto.Jcs.{
  Json, null, false_node, true_node, number, text, array, object, Nodes, no_nodes, node, Members,
  no_members, member, Double, canonicalize, append_number,
}
use shellclaw.Crypto.Jcs.Order.{objects, swap}
use shellclaw.Crypto.Jcs.Canonical.{canonicalize-Same}
use shellclaw.Crypto.Jcs.Strings.{read_string, between, escape_all-read}
use shellclaw.Crypto.Jcs.{escape_all}

abbrev seven : Double
seven = record {
  is_finite = true;
  integer = some (pos 7);
  rendered = λ prec. codes "7";
  parses_back = λ s. true;
}

-- of which "%.1g" gives "1e-07", and of which it gives "3e+20"
abbrev tenth_of_millionth : Double
tenth_of_millionth = record {
  is_finite = true;
  integer = none;
  rendered = λ prec. codes "1e-07";
  parses_back = λ s. true;
}

abbrev large : Double
large = record {
  is_finite = true;
  integer = none;
  rendered = λ prec. codes "3e+20";
  parses_back = λ s. true;
}

exponential : append_number tenth_of_millionth ≡ some (codes "1e-7")
unfolding shellclaw.Crypto.Jcs.shortest_roundtrip shellclaw.Crypto.Jcs.first_precision
    shellclaw.Common.strchr shellclaw.Crypto.Jcs.without_points shellclaw.Common.strtol
    shellclaw.Common.read_digits shellclaw.Crypto.Jcs.append_exponential shellclaw.Common.decimal
    shellclaw.Common.decimal_fuel
exponential = refl

plain_digits : append_number large ≡ some (codes "300000000000000000000")
unfolding shellclaw.Crypto.Jcs.shortest_roundtrip shellclaw.Crypto.Jcs.first_precision
    shellclaw.Common.strchr shellclaw.Crypto.Jcs.without_points shellclaw.Common.strtol
    shellclaw.Common.read_digits shellclaw.Crypto.Jcs.append_decimal
    shellclaw.Crypto.Jcs.decimal_digits
plain_digits = refl

abbrev seven_first : Json
seven_first = object (
    member (some (codes "b")) (number seven) (
      member (some (codes "a")) (array (node null (node (text (some (codes "x\"\n"))) no_nodes)))
        no_members))

abbrev array_first : Json
array_first = object (
    member (some (codes "a")) (array (node null (node (text (some (codes "x\"\n"))) no_nodes)))
      (member (some (codes "b")) (number seven) no_members))

sorted : canonicalize seven_first ≡ some (codes "{\"a\":[null,\"x\\\"\\n\"],\"b\":7}")
unfolding shellclaw.Crypto.Jcs.serialize shellclaw.Crypto.Jcs.object_text
    shellclaw.Crypto.Jcs.sort_keys shellclaw.Crypto.Jcs.insert_key shellclaw.Crypto.Jcs.key_before
    shellclaw.Crypto.Jcs.value_of str_equal shellclaw.Crypto.Jcs.members_from escape_all
    shellclaw.Crypto.Jcs.escaped shellclaw.Common.decimal shellclaw.Common.decimal_fuel
sorted = refl

canonicalize-Same_example : canonicalize seven_first ≡ canonicalize array_first
unfolding str_equal
canonicalize-Same_example = canonicalize-Same seven_first array_first (
    objects _ _ (
      swap (codes "b") (codes "a") (number seven)
        (array (node null (node (text (some (codes "x\"\n"))) no_nodes))) no_members refl))

escape_all-read_example :
    read_string between (escape_all (codes "a\"") ++ b'"' ∷ codes ",")
    ≡ some (codes "a\"", codes ",")
escape_all-read_example = escape_all-read (codes "a\"") (codes ",")
