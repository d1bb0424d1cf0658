-- ===== src/Tests/Json.antt =====
-- Runs of serialization/json.c on small inputs.
use bspd.Common.{
  ◌≡◌, ◌≢◌, refl, Bool, not, byte_at, decimal_ℤ, ◌&&◌, All, ltb, true, Option, none, some, [], ◌∷◌,
  arith, ◌==◌, if◌then◌else◌, Bytes, codes, length, pos, negsuc,
}
use bspd.Json.Value.{null, int, boolean, string, object, Object, array, hash, nil, cons, end, field}
use bspd.Json.Encode.{TextLib, append_string, scan_byte, json_nd_encode}
use bspd.Json.Encode.Plain.{IsPlain}
use bspd.Json.Decode.{done, json_nd_decode}
use bspd.Json.Decode.Total.{json_nd_decode-total}
use bspd.Json.RoundTrip.{
  GoodText, Good, good_null, good_boolean, good_int, good_string, good_array, good_hash, good_nil,
  good_cons, good_end, good_field,
}
use bspd.Json.RoundTrip.Objects.{json_nd_decode-encode}
use bspd.Tests.Numbers.{integers, integers_laws}

-- A newline and a quote are escaped; every character has one byte.
abbrev pub ascii : TextLib
ascii = record {
  escape_char =
      λ c. if c == 10 then some (codes "\\n") else if c == b'"' then some (codes "\\\"") else none;
  utf8_value = λ s. (0xe9, 1);
  utf8_len_pos = λ s. omega arith;
  print_double = λ d. codes "0.5";
}

abbrev plain_test : Bytes → Bool
plain_test [] = true
plain_test (c ∷ s) =
    ltb c 0x80 && not (c == 10) && not (c == b'"') && not (c == b'\\') && plain_test s

plain_test-IsPlain : (s : Bytes) → plain_test s ≡ true → All (IsPlain ascii) s
plain_test-IsPlain [] h = tt
plain_test-IsPlain (c ∷ s) h = ((ground arith, ground arith), plain_test-IsPlain s (ground arith))

plain_test_unquoted : (s : Bytes) → plain_test s ≡ true → All (λ c. (c ≢ b'"') × (c ≢ b'\\')) s
plain_test_unquoted [] h = tt
plain_test_unquoted (c ∷ s) h = ((ground arith, ground arith), plain_test_unquoted s (ground arith))

plain_test-GoodText : (s : Bytes) → plain_test s ≡ true → length s ≢ 1 → GoodText ascii s
plain_test-GoodText s h ne = record {
  plain = plain_test-IsPlain s h;
  unquoted = plain_test_unquoted s h;
  not_single = ne;
}

-- {"key": [12, null, -3, true], "name": "bspd"}
abbrev sample : Object
sample = hash (
    field (codes "key")
      (object
        (array (cons (int (pos 12)) (cons null (cons (int (negsuc 2)) (cons (boolean true) nil))))))
      (field (codes "name") (string (codes "bspd")) end))

sample-Good : Good ascii (object sample)
sample-Good = good_hash (
    good_field (plain_test-GoodText (codes "key") refl (omega arith))
      (good_array (
        good_cons (good_int (omega arith)) (
          good_cons good_null
            (good_cons (good_int (omega arith)) (good_cons (good_boolean true) good_nil)))))
      (good_field (plain_test-GoodText (codes "name") refl (omega arith))
        (good_string (plain_test-GoodText (codes "bspd") refl (omega arith))) good_end))

json_nd_decode-encode_example :
    json_nd_decode integers (json_nd_encode ascii sample none) ≡ done (some sample)
json_nd_decode-encode_example =
    json_nd_decode-encode ascii integers integers_laws sample sample-Good

sample_text :
    json_nd_encode ascii sample none ≡ codes "{\"key\":[12,null,-3,true],\"name\":\"bspd\"}"
unfolding json_nd_encode append_string scan_byte byte_at decimal_ℤ
sample_text = refl

json_nd_decode-total_example :
    (o : Option Object) × (json_nd_decode integers (codes "[1,{") ≡ done o)
json_nd_decode-total_example = json_nd_decode-total integers (codes "[1,{")
