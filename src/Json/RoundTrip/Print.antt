-- ===== src/Json/RoundTrip/Print.antt =====
-- The encoder of serialization/json.c on good values, against `print`.
use bspd.Common.{◌≡◌, refl, ◌∙◌, true, false, ◌∷◌, ◌++◌, append_assoc, Bytes, codes}
use bspd.Json.Value.{Value, Items, cons, Fields, field}
use bspd.Json.Encode.{TextLib, append_string, append_value, append_items, append_fields}
use bspd.Json.Encode.Plain.{append_string_plain}
use bspd.Json.RoundTrip.{
  GoodText, Good, good_null, good_boolean, good_int, good_string, good_array, good_hash, GoodItems,
  good_nil, good_cons, GoodFields, good_end, good_field, print, print_items, print_more_items,
  print_fields, print_more_fields, print_text,
}

module _ (lib : TextLib) where
  quoted-print :
      (json s rest : Bytes)
      → GoodText lib s
      → (append_string lib (json ++ codes "\"") s ++ codes "\"") ++ rest ≡ json ++ print_text s rest
  quoted-print json s rest g = simp (append_string_plain lib _ s g.plain g.not_single, append_assoc)

  mutual
    unfolding append_value print

    pub append_value-print :
        {v : Value} (g : Good lib v) (json rest : Bytes)
        → append_value lib json v ++ rest ≡ json ++ print v rest
    append_value-print good_null json rest = simp append_assoc
    append_value-print (good_boolean true) json rest = simp append_assoc
    append_value-print (good_boolean false) json rest = simp append_assoc
    append_value-print (good_int h) json rest = simp append_assoc
    append_value-print (good_string {s} g) json rest = quoted-print json s rest g
    append_value-print (good_array g) json rest =
        append_assoc _ (codes "]") rest
        ∙ append_items-print g (json ++ codes "[") rest
        ∙ append_assoc json (codes "[") _
    append_value-print (good_hash g) json rest =
        append_assoc _ (codes "}") rest
        ∙ append_fields-print g (json ++ codes "{") rest
        ∙ append_assoc json (codes "{") _

    append_items-print :
        {xs : Items} (g : GoodItems lib xs) (json rest : Bytes)
        → append_items lib json xs ++ (b']' ∷ rest) ≡ json ++ print_items xs rest
    append_items-print good_nil json rest = refl
    append_items-print (good_cons v good_nil) json rest = append_value-print v json (b']' ∷ rest)
    append_items-print (good_cons {v = a} v (good_cons {v = b} {xs = xs} w g)) json rest =
        let head = append_value lib json a in
        append_items-print (good_cons w g) (head ++ codes ",") rest
        ∙ append_assoc head (codes ",") (print_items (cons b xs) rest)
        ∙ append_value-print v json (print_more_items (cons b xs) rest)

    append_fields-print :
        {fs : Fields} (g : GoodFields lib fs) (json rest : Bytes)
        → append_fields lib json fs ++ (b'}' ∷ rest) ≡ json ++ print_fields fs rest
    append_fields-print good_end json rest = refl
    append_fields-print (good_field {k = key} {v = a} k v good_end) json rest =
        let name = append_string lib (json ++ codes "\"") key ++ codes "\"" in
        append_value-print v (name ++ codes ":") (b'}' ∷ rest)
        ∙ append_assoc name (codes ":") (print a (b'}' ∷ rest))
        ∙ quoted-print json key _ k
    append_fields-print
          (good_field {k = key} {v = a} k v (good_field {k = j} {v = b} {fs = fs} n w g)) json
          rest =
        let name = append_string lib (json ++ codes "\"") key ++ codes "\"" in
        let more = print_more_fields (field j b fs) rest in
        let head = append_value lib (name ++ codes ":") a in
        append_fields-print (good_field n w g) (head ++ codes ",") rest
        ∙ append_assoc head (codes ",") (print_fields (field j b fs) rest)
        ∙ append_value-print v (name ++ codes ":") more
        ∙ append_assoc name (codes ":") (print a more)
        ∙ quoted-print json key _ k
