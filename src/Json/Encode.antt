-- ===== src/Json/Encode.antt =====
-- `json_nd_encode` and the functions under it.
pub mod Plain
pub mod Ends
use bspd.Common.{
  ℕ, zero, suc, ◌+◌, ◌-◌, ◌/◌, ◌%◌, ◌≤◌, true, false, Option, none, some, [], ◌∷◌, ◌++◌, ltb, ◌==◌,
  if◌then◌else◌, Bytes, codes, length, take, drop, byte_at, decimal, decimal_ℤ,
}
use bspd.Json.Value.{
  Value, null, uint, int, double, boolean, string, object, pointer, hash_end, array_end, unknown,
  Object, undetermined, single, array, hash, Items, nil, cons, Fields, end, field,
}

-- What the encoder calls in libbsp and in the C library's floating-point printer:
-- `bsp_escape_char`, the escape of a byte or NULL; `bsp_utf8_value`, the code point at the head of
-- a text as a 32-bit pattern, with the number of bytes that it takes; `%.14g`.
pub record TextLib : Type 0 where
  pub escape_char : ℕ → Option Bytes
  pub utf8_value : Bytes → ℕ × ℕ
  pub utf8_len_pos : (s : Bytes) → 1 ≤ (utf8_value s).1
  pub print_double : ℕ → Bytes

hex_digit : ℕ → ℕ
hex_digit d = if ltb d 10 then b'0' + d else b'a' + (d - 10)

-- The hexadecimal digits of a 32-bit number, highest first.
hex_digits : ℕ → ℕ → Bytes → Bytes
hex_digits zero v acc = acc
hex_digits (suc k) v acc = hex_digits k (v / 16) (hex_digit (v % 16) ∷ acc)

-- `%04x` drops leading zeros while more than four digits are left.
strip_zeros : ℕ → Bytes → Bytes
strip_zeros zero ds = ds
strip_zeros (suc k) [] = []
strip_zeros (suc k) (d ∷ ds) = let rest = strip_zeros k ds in if d == b'0' then rest else d ∷ ds

unfoldable pub print_hex : ℕ → Bytes
unfolding hex_digit hex_digits strip_zeros
print_hex v = strip_zeros 4 (hex_digits 8 v [])

-- The variables of `_append_string_to_json`: `none` is the -1 of `normal_start` and `normal_end`.
pub record Scan : Type 0 where
  pub i : ℕ
  pub normal_start : Option ℕ
  pub normal_end : Option ℕ
  pub json : Bytes

-- "Append normal data"
unfoldable pub flush_from : Bytes → Scan → Option ℕ → Option ℕ → Scan
flush_from s st (some from) (some to) =
    if ltb from to
    then record st {
      normal_start = none;
      normal_end = none;
      json = st.json ++ take (to - from + 1) (drop from s);
    }
    else st
flush_from s st from to = st

abbrev at_end : Bytes → Scan → Scan
at_end s st = if st.i == length s - 1 then record st { normal_end = some st.i } else st

abbrev flush : Bytes → Scan → Scan
flush s st = flush_from s st st.normal_start st.normal_end

-- A byte below 0x80, by what `bsp_escape_char` says of it.
unfoldable pub scan_ascii : Option Bytes → Scan → Scan
scan_ascii (some esc) st = record st { normal_end = some st.i; json = st.json ++ esc }
scan_ascii none st = elim st.normal_start [
  | none ↦ record st { normal_start = some st.i }
  | some from ↦ st
]

module _ (lib : TextLib) where
  open lib use {escape_char, utf8_value, print_double}

  -- A byte from 0x80 on starts a character of several bytes.
  unfoldable pub scan_utf : Bytes → Scan → Scan
  unfolding print_hex
  scan_utf s st =
      let (value, len) = utf8_value (drop st.i s) in
      record st {
        i = st.i + len - 1;
        normal_end = some st.i;
        json = st.json ++ (codes "\\u" ++ print_hex value);
      }

  -- The body of the loop with its `i ++`.
  unfoldable pub scan_byte : Bytes → Scan → Scan
  unfolding scan_ascii scan_utf flush_from
  scan_byte s st =
      let c = byte_at s st.i in
      let seen = if ltb c 0x80 then scan_ascii (escape_char c) st else scan_utf s st in
      let out = flush s (at_end s seen) in record out { i = out.i + 1 }

  -- `for (i = 0; i < len; i ++)`; on as many rounds as there are bytes.
  unfoldable pub scan_loop : ℕ → Bytes → Scan → Scan
  scan_loop zero s st = st
  scan_loop (suc fuel) s st =
      let rest = scan_loop fuel s (scan_byte s st) in if ltb st.i (length s) then rest else st

  abbrev scan_start : Bytes → Scan
  scan_start json = record { i = 0; normal_start = none; normal_end = none; json = json }

  unfoldable pub append_string : Bytes → Bytes → Bytes
  unfolding scan_loop
  append_string json s = (scan_loop (length s) s (scan_start json)).json

  abbrev quoted : Bytes → Bytes → Bytes
  quoted json s = append_string (json ++ codes "\"") s ++ codes "\""

  -- `_append_value_to_json` and `_append_object_to_json`, with the loops over items and pairs.
  unfoldable mutual
    pub append_value : Bytes → Value → Bytes
    append_value json null = json ++ codes "null"
    append_value json (uint n) = json ++ decimal n
    append_value json (int z) = json ++ decimal_ℤ z
    append_value json (double d) = json ++ print_double d
    append_value json (boolean true) = json ++ codes "true"
    append_value json (boolean false) = json ++ codes "false"
    append_value json (string s) = quoted json s
    append_value json (object o) = append_object json o
    append_value json (pointer p) = json
    append_value json hash_end = json
    append_value json array_end = json
    append_value json unknown = json

    pub append_object : Bytes → Object → Bytes
    append_object json undetermined = json
    append_object json (single v) = append_value json v
    append_object json (array xs) = append_items (json ++ codes "[") xs ++ codes "]"
    append_object json (hash fs) = append_fields (json ++ codes "{") fs ++ codes "}"

    pub append_items : Bytes → Items → Bytes
    append_items json nil = json
    append_items json (cons v nil) = append_value json v
    append_items json (cons v (cons w xs)) =
        append_items (append_value json v ++ codes ",") (cons w xs)

    pub append_fields : Bytes → Fields → Bytes
    append_fields json end = json
    append_fields json (field k v end) = append_value (quoted json k ++ codes ":") v
    append_fields json (field k v (field j w fs)) =
        append_fields (append_value (quoted json k ++ codes ":") v ++ codes ",") (field j w fs)

  -- `json_nd_encode` of an object that is not NULL; `none` is the NULL string.
  unfoldable pub json_nd_encode : Object → Option Bytes → Bytes
  unfolding append_object
  json_nd_encode obj none = append_object [] obj
  json_nd_encode obj (some json) = append_object json obj
