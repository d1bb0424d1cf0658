-- ===== src/Json/Decode.antt =====
-- `json_nd_decode` and the functions under it. The rest of the input stands for the cursor of the
-- text (`STR_NOW`). A run of the mutual functions is on fuel; `stuck` means that it ran out.
pub mod Total
use Prim.Native.Nat.{bit_and, bit_or}
use bspd.Common.{
  ℕ, zero, suc, ◌+◌, ◌-◌, ◌*◌, ◌/◌, Bool, true, false, not, ◌&&◌, ◌||◌, Option, none, some, [], ◌∷◌,
  ◌++◌, ltb, leb, ◌==◌, if◌then◌else◌, Bytes, codes, starts_with, length, drop, ℤ, pos, negsuc,
  to_unsigned,
}
use bspd.Json.Value.{
  Value, null, int, double, boolean, string, object, hash_end, array_end, Object, single, array,
  hash, Items, nil, Fields, end, push_item, push_field,
}

-- What the decoder takes from the C library's floating point: `strtod` gives the number of bytes
-- read, the double and whether it set `errno`; `modf(d, &i) == 0`; `(int64_t) d`.
pub record NumLib : Type 0 where
  pub strtod : Bytes → ℕ × ℕ × Bool
  pub is_integral : ℕ → Bool
  pub to_int64 : ℕ → ℤ

pub data Run (A : Type 0) : Type 0 where
  done : A → Run A
  stuck : Run A

infixl 5 ◌>>=◌
abbrev pub ◌>>=◌ : {A B : Type 0} → Run A → (A → Run B) → Run B
done a >>= f = f a
stuck >>= f = stuck

-- What follows a backslash in a string, but for `u`.
unfoldable pub unescape : ℕ → Bytes
unescape c =
    if c == b'\\'
    then b'\\' ∷ []
    else if c == b'/'
    then b'/' ∷ []
    else if c == b'"'
    then b'"' ∷ []
    else if c == b'b'
    then 8 ∷ []
    else if c == b't'
    then 9 ∷ []
    else if c == b'n'
    then 10 ∷ []
    else if c == b'f'
    then 12 ∷ []
    else if c == b'r'
    then 13 ∷ []
    else []

hex_value : ℕ → Option ℕ
hex_value c =
    if leb b'0' c && leb c b'9'
    then some (c - b'0')
    else if leb b'a' c && leb c b'f'
    then some (c - b'a' + 10)
    else if leb b'A' c && leb c b'F'
    then some (c - b'A' + 10)
    else none

hex_number : ℕ → Bytes → ℕ
hex_number acc [] = acc
hex_number acc (c ∷ cs) = elim (hex_value c) [ none ↦ acc | some d ↦ hex_number (acc * 16 + d) cs ]

-- The optional `0x` of `strtol`.
hex_prefixed : Bytes → ℕ
hex_prefixed s =
    if starts_with (codes "0x") s || starts_with (codes "0X") s
    then hex_number 0 (drop 2 s)
    else hex_number 0 s

minus : ℕ → ℤ
minus zero = pos 0
minus (suc n) = negsuc n

hex_signed : Bytes → ℤ
hex_signed [] = pos 0
hex_signed (c ∷ cs) =
    if c == b'-'
    then minus (hex_prefixed cs)
    else if c == b'+'
    then pos (hex_prefixed cs)
    else pos (hex_prefixed (c ∷ cs))

-- `strtol(s, NULL, 16)` on a text so short that nothing overflows.
unfoldable pub strtol_hex : Bytes → ℤ
unfolding hex_value hex_number hex_prefixed minus hex_signed starts_with
strtol_hex [] = pos 0
strtol_hex (c ∷ cs) =
    let rest = strtol_hex cs in
    if c == b' ' || (leb 9 c && leb c 13) then rest else hex_signed (c ∷ cs)

-- The bytes for `utf_value`; a negative one is less than 0x80, and is cut to a `char`.
unfoldable pub utf_data : ℤ → Bytes
unfolding to_unsigned
utf_data (negsuc n) = to_unsigned 8 (negsuc n) ∷ []
utf_data (pos n) =
    if ltb n 0x80
    then n ∷ []
    else if ltb n 0x800
    then bit_or (bit_and (n / 64) 0x1f) 0xc0 ∷ bit_or (bit_and n 0x3f) 0x80 ∷ []
    else bit_or (bit_and (n / 4096) 0x0f) 0xe0
      ∷ bit_or (bit_and (n / 64) 0x3f) 0x80
      ∷ bit_or (bit_and n 0x3f) 0x80
      ∷ []

-- The string mode of `_get_value_from_json`, from behind the opening quote: the text so far
-- (`v_str`), the bytes from `normal` to the cursor, and the flag STRIP. Gives the string and the
-- rest of the input, also where the closing quote is missing.
unfoldable pub string_body : Bytes → Bytes → Bool → Bytes → Bytes × Bytes
unfolding unescape strtol_hex utf_data
string_body str seg strip [] = (str ++ seg, [])
string_body str seg false (c ∷ cs) =
    let strip = string_body (str ++ seg) (seg ++ c ∷ []) true cs in
    let normal = string_body str (seg ++ c ∷ []) false cs in
    if c == b'\\' then strip else if c == b'"' then (str ++ seg, cs) else normal
string_body str seg true (c ∷ h1 ∷ h2 ∷ h3 ∷ h4 ∷ cs) =
    let unicode = string_body (str ++ utf_data (strtol_hex (h1 ∷ h2 ∷ h3 ∷ h4 ∷ []))) [] false cs in
    let other = string_body (str ++ unescape c) [] false (h1 ∷ h2 ∷ h3 ∷ h4 ∷ cs) in
    if c == b'u' then unicode else other
string_body str seg true (c ∷ cs) =
    string_body (str ++ (if c == b'u' then b'u' ∷ [] else unescape c)) [] false cs

-- The bodies of the loops of `_traverse_json_array` and `_traverse_json_hash`, on the values that
-- were read; `next` is the rest of the loop.
unfoldable pub array_step :
    Items → (Items → Bytes → Run (Items × Bytes)) → Option Value × Bytes → Run (Items × Bytes)
array_step items next (none, rest) = done (items, rest)
array_step items next (some array_end, rest) = done (items, rest)
array_step items next (some v, rest) = next (push_item items v) rest

unfoldable pub add_pair : Fields → Value → Value → Fields
add_pair fs (string key) v = push_field fs key v
add_pair fs key v = fs

unfoldable pub pair_step :
    Fields
    → Value
    → (Fields → Bytes → Run (Fields × Bytes))
    → Option Value × Bytes
    → Run (Fields × Bytes)
unfolding add_pair
pair_step fs key next (none, rest) = done (fs, rest)
pair_step fs key next (some hash_end, rest) = done (fs, rest)
pair_step fs key next (some v, rest) = next (add_pair fs key v) rest

unfoldable pub hash_step :
    Fields
    → (Bytes → Run (Option Value × Bytes))
    → (Fields → Bytes → Run (Fields × Bytes))
    → Option Value × Bytes
    → Run (Fields × Bytes)
unfolding pair_step
hash_step fs get next (none, rest) = done (fs, rest)
hash_step fs get next (some hash_end, rest) = done (fs, rest)
hash_step fs get next (some key, rest) = get rest >>= pair_step fs key next

abbrev as_hash : Fields × Bytes → Run (Option Value × Bytes)
as_hash r = done (some (object (hash r.0)), r.1)

abbrev as_array : Items × Bytes → Run (Option Value × Bytes)
as_array r = done (some (object (array r.0)), r.1)

abbrev as_string : Bytes × Bytes → Run (Option Value × Bytes)
as_string r = done (some (string r.0), r.1)

unfoldable pub to_object : Option Value × Bytes → Run (Option Object)
to_object (none, rest) = done none
to_object (some (object o), rest) = done (some o)
to_object (some v, rest) = done (some (single v))

module _ (lib : NumLib) where
  open lib use {strtod, is_integral, to_int64}

  abbrev number : ℕ → Value
  number d = if is_integral d then int (to_int64 d) else double d

  -- "Digit", or any other byte above the space; `skip` goes on behind one that starts no number.
  unfoldable pub digit : Bytes → Run (Option Value × Bytes) → Run (Option Value × Bytes)
  digit s skip =
      let (n, d, errno) = strtod s in
      if ltb 0 n && not errno then done (some (number d), drop n s) else skip

  unfoldable mutual
    unfolding string_body array_step hash_step digit starts_with

    pub get_value : ℕ → Bytes → Run (Option Value × Bytes)
    get_value zero s = stuck
    get_value (suc f) [] = done (none, [])
    get_value (suc f) (c ∷ cs) =
        let new_hash = traverse_hash f cs end in
        let new_array = traverse_array f cs nil in
        let skip = get_value f cs in
        let s = c ∷ cs in
        if c == b'"'
        then as_string (string_body [] [] false cs)
        else if c == b'{'
        then new_hash >>= as_hash
        else if c == b'}'
        then done (some hash_end, cs)
        else if c == b'['
        then new_array >>= as_array
        else if c == b']'
        then done (some array_end, cs)
        else if leb 4 (length s) && starts_with (codes "null") s
        then done (some null, drop 4 s)
        else if leb 4 (length s) && starts_with (codes "true") s
        then done (some (boolean true), drop 4 s)
        else if leb 5 (length s) && starts_with (codes "false") s
        then done (some (boolean false), drop 5 s)
        else if ltb 0x20 c
        then digit s skip
        else skip

    pub traverse_array : ℕ → Bytes → Items → Run (Items × Bytes)
    traverse_array zero s items = stuck
    traverse_array (suc f) s items =
        get_value f s >>= array_step items (λ xs rest. traverse_array f rest xs)

    pub traverse_hash : ℕ → Bytes → Fields → Run (Fields × Bytes)
    traverse_hash zero s fs = stuck
    traverse_hash (suc f) s fs =
        get_value f s >>= hash_step fs (get_value f) (λ gs rest. traverse_hash f rest gs)

  -- On two rounds for each byte, and one for the end of the input.
  unfoldable pub json_nd_decode : Bytes → Run (Option Object)
  unfolding get_value to_object
  json_nd_decode s = get_value (2 * length s + 1) s >>= to_object
