-- ===== src/Json/RoundTrip/Objects.antt =====
-- `json_nd_decode` after `json_nd_encode`.
use bspd.Common.{◌+◌, ◌*◌, ◌≡◌, sym, ◌∙◌, none, some, [], append-nil, arith, length}
use bspd.Json.Value.{Value, object, Object}
use bspd.Json.Encode.{TextLib, append_value, json_nd_encode}
use bspd.Json.Decode.{NumLib, done, get_value, json_nd_decode}
use bspd.Json.RoundTrip.{Good, NumLaws, print}
use bspd.Json.RoundTrip.Print.{append_value-print}
use bspd.Json.RoundTrip.Read.{get_value-print}

module _ (text : TextLib) (lib : NumLib) (laws : NumLaws lib) where
  append_value-nil : {v : Value} → Good text v → append_value text [] v ≡ print v []
  append_value-nil {v} g =
      sym (append-nil (append_value text [] v)) ∙ append_value-print text g [] []

  get_value-append_value :
      {v : Value} (g : Good text v)
      → get_value lib (2 * length (append_value text [] v) + 1) (append_value text [] v)
        ≡ done (some v, [])
  get_value-append_value {v} g =
      rw (append_value-nil g)
        (get_value-print lib laws text g (2 * length (print v []) + 1) [] tt (omega arith))

  -- An array or a hash of good values is read back as it was written: null, Booleans, integers that
  -- a double holds exactly, and texts and keys of plain bytes that do not have length one, nested
  -- to any depth.
  pub json_nd_decode-encode :
      (o : Object)
      → Good text (object o)
      → json_nd_decode lib (json_nd_encode text o none) ≡ done (some o)
  unfolding json_nd_decode json_nd_encode
  json_nd_decode-encode o g = rw (get_value-append_value g)
