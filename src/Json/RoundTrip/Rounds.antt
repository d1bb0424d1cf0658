-- ===== src/Json/RoundTrip/Rounds.antt =====
-- One round of each loop of the decoder of serialization/json.c, on a printed item or pair.
use bspd.Common.{
  ℕ, suc, ◌*◌, ◌<◌, ◌≡◌, ◌≢◌, refl, ap, false, some, [], ◌∷◌, ◌++◌, arith, append-nil, append_assoc,
  Bytes, length, All,
}
use bspd.Json.Value.{
  Value, string, object, array, hash, Items, nil, cons, push_item, Fields, end, field, push_field,
}
use bspd.Json.Encode.{TextLib}
use bspd.Json.Decode.{
  NumLib, Run, done, string_body, array_step, hash_step, pair_step, get_value, traverse_array,
  traverse_hash,
}
use bspd.Json.Decode.Total.{get_value-Returns}
use bspd.Json.RoundTrip.{GoodText, Good, good_null, print_text, NumLaws}

-- A text with no quote and no backslash is read as it is, up to the closing quote.
string_body-unquoted :
    (s str seg rest : Bytes)
    → All (λ c. (c ≢ b'"') × (c ≢ b'\\')) s
    → string_body str seg false (s ++ (b'"' ∷ rest)) ≡ (str ++ (seg ++ s), rest)
unfolding string_body
string_body-unquoted [] str seg rest h = rw append-nil
string_body-unquoted (c ∷ s) str seg rest h =
    ground (arith, string_body-unquoted s str (seg ++ c ∷ []) rest h.1, append_assoc seg (c ∷ []) s)

abbrev pub concat_items : Items → Items → Items
concat_items nil ys = ys
concat_items (cons x xs) ys = cons x (concat_items xs ys)

pub concat_items-nil : (xs : Items) → concat_items xs nil ≡ xs
concat_items-nil nil = refl
concat_items-nil (cons x xs) = ap (cons x) (concat_items-nil xs)

pub concat_items-push :
    (xs : Items) (v : Value) (ys : Items)
    → concat_items (push_item xs v) ys ≡ concat_items xs (cons v ys)
unfolding push_item
concat_items-push nil v ys = refl
concat_items-push (cons x xs) v ys = ap (cons x) (concat_items-push xs v ys)

abbrev pub concat_fields : Fields → Fields → Fields
concat_fields end gs = gs
concat_fields (field k v fs) gs = field k v (concat_fields fs gs)

pub concat_fields-end : (fs : Fields) → concat_fields fs end ≡ fs
concat_fields-end end = refl
concat_fields-end (field k v fs) = ap (field k v) (concat_fields-end fs)

pub concat_fields-push :
    (fs : Fields) (k : Bytes) (v : Value) (gs : Fields)
    → concat_fields (push_field fs k v) gs ≡ concat_fields fs (field k v gs)
unfolding push_field
concat_fields-push end k v gs = refl
concat_fields-push (field j w fs) k v gs = ap (field j w) (concat_fields-push fs k v gs)

module _ (lib : NumLib) where
  array_step-Good :
      (text : TextLib) {v : Value}
      → Good text v
      → (xs : Items) (next : Items → Bytes → Run (Items × Bytes)) (rest : Bytes)
      → array_step xs next (some v, rest) ≡ next (push_item xs v) rest
  unfolding array_step
  array_step-Good text good_null xs next rest = refl
  array_step-Good text _ xs next rest = refl

  pair_step-Good :
      (text : TextLib) {v : Value}
      → Good text v
      → (fs : Fields) (k : Bytes) (next : Fields → Bytes → Run (Fields × Bytes)) (rest : Bytes)
      → pair_step fs (string k) next (some v, rest) ≡ next (push_field fs k v) rest
  unfolding pair_step
  pair_step-Good text good_null fs k next rest = refl
  pair_step-Good text _ fs k next rest = refl

module _ (lib : NumLib) (laws : NumLaws lib) (text : TextLib) where
  pub shorter :
      (f : ℕ) (s : Bytes) (v : Value) (rest : Bytes)
      → 2 * length s < f
      → get_value lib f s ≡ done (some v, rest)
      → length rest < length s
  shorter f s v rest h e = rw e at (get_value-Returns lib f s h)

  pub get_value_text :
      (f : ℕ) (s rest : Bytes)
      → GoodText text s
      → get_value lib (suc f) (print_text s rest) ≡ done (some (string s), rest)
  unfolding get_value
  get_value_text f s rest g = rw (string_body-unquoted s [] [] rest g.unquoted)

  -- One round of `_traverse_json_array`.
  pub array_round :
      (f : ℕ) (s rest : Bytes) (xs : Items) {v : Value}
      → Good text v
      → get_value lib f s ≡ done (some v, rest)
      → traverse_array lib (suc f) s xs ≡ traverse_array lib f rest (push_item xs v)
  unfolding traverse_array
  array_round f s rest xs g e =
      rw e (array_step-Good lib text g xs (λ ys r. traverse_array lib f r ys) rest)

  pub array_close :
      (f : ℕ) (rest : Bytes) (xs : Items)
      → traverse_array lib (suc (suc f)) (b']' ∷ rest) xs ≡ done (xs, rest)
  unfolding traverse_array get_value array_step
  array_close f rest xs = refl

  pub hash_round :
      (f : ℕ) (s mid rest k : Bytes) (fs : Fields) {v : Value}
      → Good text v
      → get_value lib f s ≡ done (some (string k), mid)
      → get_value lib f mid ≡ done (some v, rest)
      → traverse_hash lib (suc f) s fs ≡ traverse_hash lib f rest (push_field fs k v)
  unfolding traverse_hash hash_step
  hash_round f s mid rest k fs g e e' =
      rw (e, e') (pair_step-Good lib text g fs k (λ gs r. traverse_hash lib f r gs) rest)

  pub hash_close :
      (f : ℕ) (rest : Bytes) (fs : Fields)
      → traverse_hash lib (suc (suc f)) (b'}' ∷ rest) fs ≡ done (fs, rest)
  unfolding traverse_hash get_value hash_step
  hash_close f rest fs = refl

  pub get_value_array :
      (f : ℕ) (s rest : Bytes) (xs : Items)
      → traverse_array lib f s nil ≡ done (xs, rest)
      → get_value lib (suc f) (b'[' ∷ s) ≡ done (some (object (array xs)), rest)
  unfolding get_value
  get_value_array f s rest xs e = rw e

  pub get_value_hash :
      (f : ℕ) (s rest : Bytes) (fs : Fields)
      → traverse_hash lib f s end ≡ done (fs, rest)
      → get_value lib (suc f) (b'{' ∷ s) ≡ done (some (object (hash fs)), rest)
  unfolding get_value
  get_value_hash f s rest fs e = rw e
