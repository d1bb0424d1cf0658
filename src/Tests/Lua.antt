-- ===== src/Tests/Lua.antt =====
-- A small Lua for the runs of server/script.c: a table is the entries that were set, the newest first.
use mathlib.Core.List.{Permᴰ}
use mathlib.Core.List.Permᴰ
use bspd.Common.{
  ℕ, zero, suc, ◌+◌, ◌-◌, ◌^◌, ◌≤◌, ◌<◌, ◌≡◌, ◌≢◌, refl, Bool, true, false, Option, none, some, ◌∷◌,
  ltb, if◌then◌else◌, Bytes, ℤ, pos, negsuc, arith, inl, inr, Bool-cases, lt→ltb, ◌==◌, ==_refl,
}
use bspd.Json.Value.{Value, uint, int}
use bspd.Script.Lua.{
  Lua, t_nil, t_boolean, t_integer, t_number, t_string, t_light_userdata, t_userdata, t_table,
  t_function, t_thread, Table, new_table, entry, LuaLib, LuaLaws, IsExact, entries, is_index,
  raw_geti,
}

abbrev put : Table → Lua → Lua → Table
put t k t_nil = t
put t k v = entry k v t

abbrev key_bound : Lua → ℕ
key_bound (t_integer (pos j)) = j
key_bound _ = 0

abbrev bound : Table → ℕ
bound new_table = 0
bound (entry k v t) = key_bound k + bound t

abbrev is_nil : Lua → Bool
is_nil t_nil = true
is_nil _ = false

abbrev places : ℕ → ℕ → Table → ℕ
places zero i t = i
places (suc f) i t =
    let rest = places f (suc i) t in if is_nil (raw_geti t (suc i)) then i else rest

abbrev text_of_key : Lua → Option Bytes
text_of_key (t_string s) = some s
text_of_key _ = none

abbrev int_of : Value → ℤ
int_of (int z) = z
int_of (uint n) = pos n
int_of _ = pos 0

abbrev number_of : ℤ → ℕ
number_of (pos n) = n
number_of (negsuc n) = 2 ^ 60 + n

abbrev integer_of : ℕ → Option ℤ
integer_of d =
    if ltb d (2 ^ 60)
    then some (pos d)
    else if ltb d (2 ^ 61)
    then some (negsuc (d - 2 ^ 60))
    else none

abbrev pub lua : LuaLib
lua = record {
  set = put;
  len = λ t. places (bound t) 0 t;
  get_int = int_of;
  to_number = number_of;
  integral = integer_of;
  key_text = text_of_key;
}

put-entry : (t : Table) (k v : Lua) → v ≢ t_nil → put t k v ≡ entry k v t
put-entry t k t_nil h = absurd (h refl)
put-entry t k (t_boolean b) h = refl
put-entry t k (t_integer z) h = refl
put-entry t k (t_number d) h = refl
put-entry t k (t_string s) h = refl
put-entry t k (t_light_userdata p) h = refl
put-entry t k (t_userdata p) h = refl
put-entry t k (t_table u) h = refl
put-entry t k (t_function f) h = refl
put-entry t k (t_thread p) h = refl

is_nil-t_nil : (v : Lua) → v ≢ t_nil → is_nil v ≡ false
is_nil-t_nil t_nil h = absurd (h refl)
is_nil-t_nil (t_boolean b) h = refl
is_nil-t_nil (t_integer z) h = refl
is_nil-t_nil (t_number d) h = refl
is_nil-t_nil (t_string s) h = refl
is_nil-t_nil (t_light_userdata p) h = refl
is_nil-t_nil (t_userdata p) h = refl
is_nil-t_nil (t_table u) h = refl
is_nil-t_nil (t_function f) h = refl
is_nil-t_nil (t_thread p) h = refl

is_index-bound : (k : Lua) (i : ℕ) → is_index k i ≡ true → i ≤ key_bound k
unfolding is_index
is_index-bound t_nil i h = cc
is_index-bound (t_boolean b) i h = cc
is_index-bound (t_integer (pos j)) i h = ground arith
is_index-bound (t_integer (negsuc j)) i h = cc
is_index-bound (t_number d) i h = cc
is_index-bound (t_string s) i h = cc
is_index-bound (t_light_userdata p) i h = cc
is_index-bound (t_userdata p) i h = cc
is_index-bound (t_table u) i h = cc
is_index-bound (t_function f) i h = cc
is_index-bound (t_thread p) i h = cc

raw_geti-bound : (t : Table) (i : ℕ) → raw_geti t i ≢ t_nil → i ≤ bound t
unfolding raw_geti
raw_geti-bound new_table i h = absurd (h refl)
raw_geti-bound (entry k v t) i h = elim (Bool-cases (is_index k i)) [
  | inl e ↦ omega (arith, is_index-bound k i e)
  | inr e ↦ omega (arith, raw_geti-bound t i (λ z. h (rw e z)))
]

places-n :
    (t : Table) (n f i : ℕ)
    → ((j : ℕ) → j < n → raw_geti t (suc j) ≢ t_nil)
    → ((j : ℕ) → n ≤ j → raw_geti t (suc j) ≡ t_nil)
    → i ≤ n
    → n ≤ i + f
    → places f i t ≡ n
places-n t n zero i a b h k = omega arith
places-n t n (suc f) i a b h k = elim (Bool-cases (ltb i n)) [
  | inl e ↦
      rw (is_nil-t_nil (raw_geti t (suc i)) (a i (ground arith)))
        (places-n t n f (suc i) a b (ground arith) (omega arith))
  | inr e ↦ rw (b i (ground arith)) (ground arith)
]

bound-n : (t : Table) (n : ℕ) → ((j : ℕ) → j < n → raw_geti t (suc j) ≢ t_nil) → n ≤ bound t
bound-n t zero a = omega arith
bound-n t (suc n) a = raw_geti-bound t (suc n) (a n (omega arith))

integer_of-number_of : (z : ℤ) → IsExact z → integer_of (number_of z) ≡ some z
integer_of-number_of (pos n) h = rw (lt→ltb n (2 ^ 60) (omega (arith, h))) refl
integer_of-number_of (negsuc n) h = ground arith

==_ne : (i j : ℕ) → i ≢ j → (i == j) ≡ false
==_ne i j h = ground arith

set_fresh_put :
    (t : Table) (k v : Lua) → v ≢ t_nil → Permᴰ (entries (put t k v)) ((k, v) ∷ entries t)
set_fresh_put t k v h = rw (put-entry t k v h) (Permᴰ.refl ((k, v) ∷ entries t))

raw_geti-put :
    (t : Table) (i : ℕ) (v : Lua) → v ≢ t_nil → raw_geti (put t (t_integer (pos i)) v) i ≡ v
unfolding raw_geti is_index
raw_geti-put t i v h = rw (put-entry t (t_integer (pos i)) v h, ==_refl i) refl

raw_geti-put_other :
    (t : Table) (i j : ℕ) (v : Lua)
    → i ≢ j
    → raw_geti (put t (t_integer (pos i)) v) j ≡ raw_geti t j
unfolding raw_geti is_index
raw_geti-put_other t i j t_nil h = refl
raw_geti-put_other t i j (t_boolean b) h = rw (==_ne i j h) refl
raw_geti-put_other t i j (t_integer z) h = rw (==_ne i j h) refl
raw_geti-put_other t i j (t_number d) h = rw (==_ne i j h) refl
raw_geti-put_other t i j (t_string s) h = rw (==_ne i j h) refl
raw_geti-put_other t i j (t_light_userdata p) h = rw (==_ne i j h) refl
raw_geti-put_other t i j (t_userdata p) h = rw (==_ne i j h) refl
raw_geti-put_other t i j (t_table u) h = rw (==_ne i j h) refl
raw_geti-put_other t i j (t_function f) h = rw (==_ne i j h) refl
raw_geti-put_other t i j (t_thread p) h = rw (==_ne i j h) refl

pub lua_laws : LuaLaws lua
lua_laws = record {
  set_fresh = λ t {k} {v} key h n. set_fresh_put t k v n;
  raw_geti-set = raw_geti-put;
  raw_geti-set_other = raw_geti-put_other;
  len_sequence =
      λ t n a b. places-n t n (bound t) 0 a b (omega arith) (omega (arith, bound-n t n a));
  get_int-int = λ z. refl;
  get_int-uint = λ n h. refl;
  integral-to_number = integer_of-number_of;
  key_text-string = λ s. refl;
}
