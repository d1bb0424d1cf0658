-- ===== src/Json/RoundTrip/Read.antt =====
-- The decoder of serialization/json.c on what `print` writes.
use bspd.Common.{
  ℕ, zero, suc, ◌+◌, ◌*◌, ◌<◌, ◌≡◌, inl, inr, refl, sym, ◌∙◌, ap, Bool, true, false, some, ◌∷◌,
  ◌++◌, arith, Bytes, codes, starts_with, length,
}
use bspd.Json.Value.{
  Value, null, boolean, string, Items, nil, cons, push_item, Fields, end, field, push_field,
}
use bspd.Json.Encode.{TextLib}
use bspd.Json.Decode.{NumLib, done, get_value, traverse_array, traverse_hash}
use bspd.Json.RoundTrip.{
  Good, good_null, good_boolean, good_int, good_string, good_array, good_hash, GoodItems, good_nil,
  good_cons, GoodFields, good_end, good_field, print, print_text, print_items, print_more_items,
  print_fields, print_more_fields, Stops, NumLaws,
}
use bspd.Json.RoundTrip.Numbers.{get_value_separator, get_value_integer}
use bspd.Json.RoundTrip.Rounds.{
  concat_items, concat_items-nil, concat_items-push, concat_fields, concat_fields-end,
  concat_fields-push, shorter, get_value_text, array_round, array_close, hash_round, hash_close,
  get_value_array, get_value_hash,
}

Stops-items : (xs : Items) (rest : Bytes) → Stops (print_more_items xs rest)
unfolding print
Stops-items nil rest = inr (inl refl)
Stops-items (cons v xs) rest = inl refl

Stops-fields : (fs : Fields) (rest : Bytes) → Stops (print_more_fields fs rest)
unfolding print
Stops-fields end rest = inr (inr refl)
Stops-fields (field k v fs) rest = inl refl

module _ (lib : NumLib) (laws : NumLaws lib) (text : TextLib) where
  get_value_null :
      (f : ℕ) (rest : Bytes) → get_value lib (suc f) (codes "null" ++ rest) ≡ done (some null, rest)
  unfolding get_value starts_with
  get_value_null f rest = ground arith

  get_value_boolean :
      (f : ℕ) (b : Bool) (rest : Bytes)
      → get_value lib (suc f) (print (boolean b) rest) ≡ done (some (boolean b), rest)
  unfolding get_value starts_with print
  get_value_boolean f true rest = ground arith
  get_value_boolean f false rest = ground arith

  mutual
    unfolding print

    pub get_value-print :
        {v : Value} (g : Good text v) (f : ℕ) (rest : Bytes)
        → Stops rest
        → 2 * length (print v rest) < f
        → get_value lib f (print v rest) ≡ done (some v, rest)
    get_value-print g zero rest st h = absurd (omega arith)
    get_value-print good_null (suc f) rest st h = get_value_null f rest
    get_value-print (good_boolean b) (suc f) rest st h = get_value_boolean f b rest
    get_value-print (good_int {z} e) (suc f) rest st h = get_value_integer lib laws f z rest e st
    get_value-print (good_string {s} g) (suc f) rest st h = get_value_text lib laws text f s rest g
    get_value-print (good_array {xs} g) (suc f) rest st h =
        get_value_array lib laws text f (print_items xs rest) rest xs
          (print_items-read g f rest (omega arith))
    get_value-print (good_hash {fs} g) (suc f) rest st h =
        get_value_hash lib laws text f (print_fields fs rest) rest fs
          (print_fields-read g f rest (omega arith))

    print_items-read :
        {xs : Items} (g : GoodItems text xs) (f : ℕ) (rest : Bytes)
        → 2 * length (print_items xs rest) + 1 < f
        → traverse_array lib f (print_items xs rest) nil ≡ done (xs, rest)
    print_items-read g zero rest h = absurd (omega arith)
    print_items-read g (suc zero) rest h = absurd (omega arith)
    print_items-read good_nil (suc (suc f)) rest h = array_close lib laws text f rest nil
    print_items-read (good_cons {v} {xs} g gs) (suc (suc f)) rest h =
        let more = print_more_items xs rest in
        let e = get_value-print g (suc f) more (Stops-items xs rest) (omega arith) in
        let lt = shorter lib laws text (suc f) (print v more) v more (omega arith) e in
        array_round lib laws text (suc f) (print v more) more nil g e
        ∙ print_more_items-read gs (suc f) rest (push_item nil v) (omega arith)
        ∙ ap (λ ys. done (ys, rest)) (concat_items-push nil v xs)

    print_more_items-read :
        {xs : Items} (g : GoodItems text xs) (f : ℕ) (rest : Bytes) (acc : Items)
        → 2 * length (print_more_items xs rest) + 1 < f
        → traverse_array lib f (print_more_items xs rest) acc ≡ done (concat_items acc xs, rest)
    print_more_items-read g zero rest acc h = absurd (omega arith)
    print_more_items-read g (suc zero) rest acc h = absurd (omega arith)
    print_more_items-read good_nil (suc (suc f)) rest acc h =
        array_close lib laws text f rest acc
        ∙ ap (λ ys. done (ys, rest)) (sym (concat_items-nil acc))
    print_more_items-read (good_cons {v} {xs} g gs) (suc (suc f)) rest acc h =
        let more = print_more_items xs rest in
        let e = get_value-print g f more (Stops-items xs rest) (omega arith) in
        let lt = shorter lib laws text f (print v more) v more (omega arith) e in
        let e' = get_value_separator lib laws f b',' (print v more) (inl refl) ∙ e in
        array_round lib laws text (suc f) (b',' ∷ print v more) more acc g e'
        ∙ print_more_items-read gs (suc f) rest (push_item acc v) (omega arith)
        ∙ ap (λ ys. done (ys, rest)) (concat_items-push acc v xs)

    print_fields-read :
        {fs : Fields} (g : GoodFields text fs) (f : ℕ) (rest : Bytes)
        → 2 * length (print_fields fs rest) + 1 < f
        → traverse_hash lib f (print_fields fs rest) end ≡ done (fs, rest)
    print_fields-read g zero rest h = absurd (omega arith)
    print_fields-read g (suc zero) rest h = absurd (omega arith)
    print_fields-read good_end (suc (suc f)) rest h = hash_close lib laws text f rest end
    print_fields-read (good_field {k} {v} {fs} t g gs) (suc (suc f)) rest h =
        let more = print_more_fields fs rest in
        let mid = b':' ∷ print v more in
        let e = get_value_text lib laws text f k mid t in
        let lt = shorter lib laws text (suc f) (print_text k mid) (string k) mid (omega arith) e in
        let e' = get_value-print g f more (Stops-fields fs rest) (omega arith) in
        let lt' = shorter lib laws text f (print v more) v more (omega arith) e' in
        let e'' = get_value_separator lib laws f b':' (print v more) (inr refl) ∙ e' in
        hash_round lib laws text (suc f) (print_text k mid) mid more k end g e e''
        ∙ print_more_fields-read gs (suc f) rest (push_field end k v) (omega arith)
        ∙ ap (λ ys. done (ys, rest)) (concat_fields-push end k v fs)

    print_more_fields-read :
        {fs : Fields} (g : GoodFields text fs) (f : ℕ) (rest : Bytes) (acc : Fields)
        → 2 * length (print_more_fields fs rest) + 1 < f
        → traverse_hash lib f (print_more_fields fs rest) acc ≡ done (concat_fields acc fs, rest)
    print_more_fields-read g zero rest acc h = absurd (omega arith)
    print_more_fields-read g (suc zero) rest acc h = absurd (omega arith)
    print_more_fields-read good_end (suc (suc f)) rest acc h =
        hash_close lib laws text f rest acc
        ∙ ap (λ ys. done (ys, rest)) (sym (concat_fields-end acc))
    print_more_fields-read g (suc (suc zero)) rest acc h = absurd (omega arith)
    print_more_fields-read (good_field {k} {v} {fs} t g gs) (suc (suc (suc f))) rest acc h =
        let more = print_more_fields fs rest in
        let mid = b':' ∷ print v more in
        let e = get_value_text lib laws text f k mid t in
        let lt = shorter lib laws text (suc f) (print_text k mid) (string k) mid (omega arith) e in
        let e' = get_value-print g (suc f) more (Stops-fields fs rest) (omega arith) in
        let lt' = shorter lib laws text (suc f) (print v more) v more (omega arith) e' in
        let k' = get_value_separator lib laws (suc f) b',' (print_text k mid) (inl refl) ∙ e in
        let v' = get_value_separator lib laws (suc f) b':' (print v more) (inr refl) ∙ e' in
        hash_round lib laws text (suc (suc f)) (b',' ∷ print_text k mid) mid more k acc g k' v'
        ∙ print_more_fields-read gs (suc (suc f)) rest (push_field acc k v) (omega arith)
        ∙ ap (λ ys. done (ys, rest)) (concat_fields-push acc k v fs)
