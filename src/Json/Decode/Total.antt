-- ===== src/Json/Decode/Total.antt =====
-- How far each function of the decoder of serialization/json.c moves, and its fuel.
use bspd.Common.{
  ℕ, zero, suc, ◌+◌, ◌*◌, ◌≤◌, ◌<◌, ◌≡◌, refl, Bool, true, false, Option, none, some, [], ◌∷◌, ◌++◌,
  arith, ltb, leb, ◌&&◌, starts_with, codes, ◌==◌, if◌then◌else◌, Bytes, length, length-drop,
}
use bspd.Json.Value.{
  Value, object, hash_end, array_end, Object, single, Items, nil, Fields, end, push_item,
}
use bspd.Json.Decode.{
  NumLib, Run, done, stuck, add_pair, ◌>>=◌, string_body, array_step, pair_step, hash_step,
  unescape, strtol_hex, utf_data, digit, get_value, traverse_array, traverse_hash, to_object,
  json_nd_decode, as_hash, as_array,
}

abbrev pub Returns : {A : Type 0} → (A → Type 0) → Run A → Type 0
Returns P (done a) = P a
Returns P stuck = ⊥

-- A value takes a byte at least, and none is left where there is no value.
abbrev pub Moves : ℕ → Option Value × Bytes → Type 0
Moves n (none, rest) = rest ≡ []
Moves n (some v, rest) = length rest < n

abbrev Shrinks : {A : Type 0} → ℕ → A × Bytes → Type 0
Shrinks n r = length r.1 ≤ n

string_body-le :
    (str seg : Bytes) (strip : Bool) (s : Bytes) → length (string_body str seg strip s).1 ≤ length s
unfolding string_body
string_body-le str seg strip [] = omega arith
string_body-le str seg false (c ∷ cs) = ground (
  arith,
  string_body-le (str ++ seg) (seg ++ c ∷ []) true cs,
  string_body-le str (seg ++ c ∷ []) false cs,
)
string_body-le str seg true (c ∷ h1 ∷ h2 ∷ h3 ∷ h4 ∷ cs) =
    let u = strtol_hex (h1 ∷ h2 ∷ h3 ∷ h4 ∷ []) in
    ground (
      arith,
      string_body-le (str ++ utf_data u) [] false cs,
      string_body-le (str ++ unescape c) [] false (h1 ∷ h2 ∷ h3 ∷ h4 ∷ cs),
    )
string_body-le str seg true (c ∷ cs) =
    omega (arith, string_body-le (str ++ (if c == b'u' then b'u' ∷ [] else unescape c)) [] false cs)

digit-Moves :
    (lib : NumLib) (c : ℕ) (cs : Bytes) (skip : Run (Option Value × Bytes))
    → Returns (Moves (suc (length cs))) skip
    → Returns (Moves (suc (length cs))) (digit lib (c ∷ cs) skip)
unfolding digit
digit-Moves lib c cs skip h = ground (arith, length-drop (lib.strtod (c ∷ cs)).0 (c ∷ cs))

bind-Returns :
    {A B : Type 0} (P : A → Type 0) (Q : B → Type 0) (m : Run A) (k : A → Run B)
    → Returns P m
    → ((a : A) → P a → Returns Q (k a))
    → Returns Q (m >>= k)
bind-Returns P Q (done a) k h next = next a h
bind-Returns P Q stuck k h next = absurd h

Moves-mono :
    (m n : ℕ) (r : Run (Option Value × Bytes)) → m ≤ n → Returns (Moves m) r → Returns (Moves n) r
Moves-mono m n (done (none, rest)) h p = p
Moves-mono m n (done (some v, rest)) h p = omega arith
Moves-mono m n stuck h p = p

if-Moves :
    (n : ℕ) (b : Bool) (x y : Run (Option Value × Bytes))
    → (b ≡ true → Returns (Moves n) x)
    → (b ≡ false → Returns (Moves n) y)
    → Returns (Moves n) (if b then x else y)
if-Moves n true x y h k = h refl
if-Moves n false x y h k = k refl

Shrinks-mono :
    {A : Type 0} (m n : ℕ) (r : Run (A × Bytes))
    → m ≤ n
    → Returns (Shrinks m) r
    → Returns (Shrinks n) r
Shrinks-mono m n (done r) h p = omega arith
Shrinks-mono m n stuck h p = p

array_step-Returns :
    (n : ℕ) (items : Items) (next : Items → Bytes → Run (Items × Bytes)) (r : Option Value × Bytes)
    → Moves n r
    → ((xs : Items) (rest : Bytes) → length rest < n → Returns (Shrinks n) (next xs rest))
    → Returns (Shrinks n) (array_step items next r)
unfolding array_step
array_step-Returns n items next (none, rest) m h = ground arith
array_step-Returns n items next (some array_end, rest) m h = omega arith
array_step-Returns n items next (some v, rest) m h = h (push_item items v) rest m

pair_step-Returns :
    (n : ℕ) (fs : Fields) (key : Value) (next : Fields → Bytes → Run (Fields × Bytes))
    (r : Option Value × Bytes)
    → Moves n r
    → ((gs : Fields) (rest : Bytes) → length rest < n → Returns (Shrinks n) (next gs rest))
    → Returns (Shrinks n) (pair_step fs key next r)
unfolding pair_step
pair_step-Returns n fs key next (none, rest) m h = ground arith
pair_step-Returns n fs key next (some hash_end, rest) m h = omega arith
pair_step-Returns n fs key next (some v, rest) m h = h (add_pair fs key v) rest m

hash_step-Returns :
    (n : ℕ) (fs : Fields) (get : Bytes → Run (Option Value × Bytes))
    (next : Fields → Bytes → Run (Fields × Bytes)) (r : Option Value × Bytes)
    → Moves n r
    → ((rest : Bytes) → length rest < n → Returns (Moves (length rest)) (get rest))
    → ((gs : Fields) (rest : Bytes) → length rest < n → Returns (Shrinks n) (next gs rest))
    → Returns (Shrinks n) (hash_step fs get next r)
unfolding hash_step
hash_step-Returns n fs get next (none, rest) m g h = ground arith
hash_step-Returns n fs get next (some hash_end, rest) m g h = omega arith
hash_step-Returns n fs get next (some key, rest) m g h =
    bind-Returns (Moves n) (Shrinks n) (get rest) (pair_step fs key next)
      (Moves-mono (length rest) n (get rest) (omega arith) (g rest m))
      (λ a p. pair_step-Returns n fs key next a p h)

as_hash-Returns :
    (n : ℕ) (m : Run (Fields × Bytes))
    → Returns (Shrinks n) m
    → Returns (Moves (suc n)) (m >>= as_hash)
as_hash-Returns n (done r) h = omega arith
as_hash-Returns n stuck h = h

as_array-Returns :
    (n : ℕ) (m : Run (Items × Bytes))
    → Returns (Shrinks n) m
    → Returns (Moves (suc n)) (m >>= as_array)
as_array-Returns n (done r) h = omega arith
as_array-Returns n stuck h = h

module _ (lib : NumLib) where
  mutual
    unfolding get_value

    pub get_value-Returns :
        (f : ℕ) (s : Bytes) → 2 * length s < f → Returns (Moves (length s)) (get_value lib f s)
    get_value-Returns zero s h = absurd (omega arith)
    get_value-Returns (suc f) [] h = refl
    get_value-Returns (suc f) (c ∷ cs) h =
        let rec = get_value-Returns f cs (omega arith) in
        let skip =
          Moves-mono (length cs) (suc (length cs)) (get_value lib f cs) (omega arith) rec in
        let n = suc (length cs) in
        let s = c ∷ cs in
        if-Moves n (c == b'"') _ _ (λ _. omega (arith, string_body-le [] [] false cs))
          λ _.
            if-Moves n (c == b'{') _ _
              (λ _.
                as_hash-Returns (length cs) (traverse_hash lib f cs end)
                  (traverse_hash-Returns f cs end (omega arith)))
              λ _.
                if-Moves n (c == b'}') _ _ (λ _. omega arith)
                  λ _.
                    if-Moves n (c == b'[') _ _
                      (λ _.
                        as_array-Returns (length cs) (traverse_array lib f cs nil)
                          (traverse_array-Returns f cs nil (omega arith)))
                      λ _.
                        if-Moves n (c == b']') _ _ (λ _. omega arith)
                          λ _.
                            if-Moves n (leb 4 (length s) && starts_with (codes "null") s) _ _
                              (λ _. omega (arith, length-drop 4 s))
                              λ _.
                                if-Moves n (leb 4 (length s) && starts_with (codes "true") s) _ _
                                  (λ _. omega (arith, length-drop 4 s))
                                  λ _.
                                    if-Moves n (leb 5 (length s) && starts_with (codes "false") s) _
                                      _ (λ _. omega (arith, length-drop 5 s))
                                      λ _.
                                        if-Moves n (ltb 0x20 c) _ _
                                          (λ _. digit-Moves lib c cs (get_value lib f cs) skip)
                                          λ _. skip

    traverse_array-Returns :
        (f : ℕ) (s : Bytes) (items : Items)
        → 2 * length s + 1 < f
        → Returns (Shrinks (length s)) (traverse_array lib f s items)
    traverse_array-Returns zero s items h = absurd (omega arith)
    traverse_array-Returns (suc f) s items h =
        let n = length s in
        bind-Returns (Moves n) (Shrinks n) (get_value lib f s) _
          (get_value-Returns f s (omega arith))
          (λ r m.
            array_step-Returns n items (λ xs rest. traverse_array lib f rest xs) r m
              (λ xs rest lt.
                Shrinks-mono (length rest) n (traverse_array lib f rest xs) (omega arith)
                  (traverse_array-Returns f rest xs (omega arith))))

    traverse_hash-Returns :
        (f : ℕ) (s : Bytes) (fs : Fields)
        → 2 * length s + 1 < f
        → Returns (Shrinks (length s)) (traverse_hash lib f s fs)
    traverse_hash-Returns zero s fs h = absurd (omega arith)
    traverse_hash-Returns (suc f) s fs h =
        let n = length s in
        bind-Returns (Moves n) (Shrinks n) (get_value lib f s) _
          (get_value-Returns f s (omega arith))
          (λ r m.
            hash_step-Returns n fs (get_value lib f) (λ gs rest. traverse_hash lib f rest gs) r m
              (λ rest lt. get_value-Returns f rest (omega arith))
              (λ gs rest lt.
                Shrinks-mono (length rest) n (traverse_hash lib f rest gs) (omega arith)
                  (traverse_hash-Returns f rest gs (omega arith))))

to_object-Returns : (r : Option Value × Bytes) → (o : Option Object) × (to_object r ≡ done o)
unfolding to_object
to_object-Returns (none, rest) = (none, refl)
to_object-Returns (some (object o), rest) = (some o, refl)
to_object-Returns (some v, rest) = (some (single v), refl)

-- The decoder gives a result on every input: there is fuel enough for its recursion, whatever the
-- number functions answer.
pub json_nd_decode-total :
    (lib : NumLib) (s : Bytes) → (o : Option Object) × (json_nd_decode lib s ≡ done o)
unfolding json_nd_decode
json_nd_decode-total lib s =
    decoded (get_value lib (2 * length s + 1) s) (get_value-Returns lib _ s (omega arith))
  where
    decoded :
        (m : Run (Option Value × Bytes))
        → Returns (Moves (length s)) m
        → (o : Option Object) × ((m >>= to_object) ≡ done o)
    decoded (done r) h = to_object-Returns r
    decoded stuck h = absurd h
