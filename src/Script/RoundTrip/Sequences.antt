-- ===== src/Script/RoundTrip/Sequences.antt =====
-- Tables that server/script.c fills with items at the places 1 to n.
use bspd.Common.{
  ℕ, suc, ◌+◌, ◌≤◌, ◌<◌, ◌≡◌, ◌≢◌, refl, sym, ◌∙◌, List, [], ◌∷◌, length, All, arith, pos,
  Bool-cases, inl, inr, ◌==◌, ◌⊎◌,
}
use bspd.Json.Value.{Value, Items, nil, cons}
use bspd.Script.Lua.{
  Lua, t_nil, t_integer, integer_key, Table, new_table, LuaLib, LuaLaws, entries, raw_geti,
}
use bspd.Script.Push.Balance.{lua_of, set_items}
use bspd.Script.RoundTrip.{
  Readable, readable_uint, readable_int, readable_double, readable_boolean, readable_string,
  readable_pointer, readable_array, readable_hash, ReadableItems, readable_nil, readable_cons,
}
use bspd.Script.RoundTrip.Entries.{length-Perm, All-Perm}

-- The keys are integers up to `n`.
abbrev pub IsBelow : ℕ → Lua × Lua → Type 0
IsBelow n e = (j : ℕ) × (e.0 ≡ t_integer (pos j)) × (j ≤ n)

pub record Sequence (t : Table) (n : ℕ) : Type 0 where
  pub filled : (i : ℕ) → i < n → raw_geti t (suc i) ≢ t_nil
  pub open_end : (i : ℕ) → n ≤ i → raw_geti t (suc i) ≡ t_nil
  pub size : length (entries t) ≡ n
  pub below : All (IsBelow n) (entries t)

pub new_table-Sequence : Sequence new_table 0
unfolding raw_geti
new_table-Sequence = record {
  filled = λ i h. absurd (omega arith);
  open_end = λ i h. refl;
  size = refl;
  below = tt;
}

pos_lt : {j n : ℕ} → j ≤ n → t_integer (pos j) ≢ t_integer (pos (n + 1))
pos_lt h e = ground arith

ne_or_eq : (i n : ℕ) → (i ≡ n) ⊎ (i ≢ n)
ne_or_eq i n = elim (Bool-cases (i == n)) [
  | inl e ↦ inl (ground arith)
  | inr e ↦ inr (λ e'. ground arith)
]

n_zero : (n : ℕ) → n + 0 ≡ n
n_zero n = omega arith

suc_shift : (n m : ℕ) → n + suc m ≡ n + 1 + m
suc_shift n m = omega arith

below-fresh :
    (n : ℕ) (es : List (Lua × Lua))
    → All (IsBelow n) es
    → All (λ (e : Lua × Lua). e.0 ≢ t_integer (pos (n + 1))) es
below-fresh n [] h = tt
below-fresh n (e ∷ es) h = ((λ e'. pos_lt (h.0.2) (sym h.0.1 ∙ e')), below-fresh n es h.1)

IsBelow-suc : (n : ℕ) (es : List (Lua × Lua)) → All (IsBelow n) es → All (IsBelow (n + 1)) es
IsBelow-suc n [] h = tt
IsBelow-suc n (e ∷ es) h = ((h.0.0, h.0.1, omega (arith, h.0.2)), IsBelow-suc n es h.1)

abbrev pub count : Items → ℕ
count nil = 0
count (cons v xs) = suc (count xs)

pub lua_of_ne : (lib : LuaLib) {v : Value} → Readable v → lua_of lib v ≢ t_nil
unfolding lua_of
lua_of_ne lib (readable_uint e) = λ h. cc
lua_of_ne lib (readable_int e) = λ h. cc
lua_of_ne lib (readable_double d) = λ h. cc
lua_of_ne lib (readable_boolean b) = λ h. cc
lua_of_ne lib (readable_string s) = λ h. cc
lua_of_ne lib (readable_pointer p) = λ h. cc
lua_of_ne lib (readable_array xs) = λ h. cc
lua_of_ne lib (readable_hash fs) = λ h. cc

module _ (lib : LuaLib) (laws : LuaLaws lib) where
  pub raw_geti-set_place :
      (t : Table) (n i : ℕ) (v : Lua)
      → v ≢ t_nil
      → i ≡ n
      → raw_geti (lib.set t (t_integer (pos (n + 1))) v) (suc i) ≡ v
  raw_geti-set_place t n i v h e =
      let place : suc i ≡ n + 1 = omega arith in rw place (laws.raw_geti-set t (n + 1) v h)

  raw_geti-set_away :
      (t : Table) (n i : ℕ) (v : Lua)
      → i ≢ n
      → raw_geti (lib.set t (t_integer (pos (n + 1))) v) (suc i) ≡ raw_geti t (suc i)
  raw_geti-set_away t n i v h = laws.raw_geti-set_other t (n + 1) (suc i) v (λ e. h (omega arith))

  pub set-Sequence :
      (t : Table) (n : ℕ) (v : Lua)
      → Sequence t n
      → v ≢ t_nil
      → Sequence (lib.set t (t_integer (pos (n + 1))) v) (n + 1)
  set-Sequence t n v s h =
      let p = laws.set_fresh t (integer_key (pos (n + 1))) (below-fresh n (entries t) s.below) h in
      record {
        filled = λ i l. elim (ne_or_eq i n) [
          | inl e ↦ λ z. h (sym (raw_geti-set_place t n i v h e) ∙ z)
          | inr e ↦ λ z. s.filled i (omega arith) (sym (raw_geti-set_away t n i v e) ∙ z)
        ];
        open_end = λ i l.
            raw_geti-set_away t n i v (λ e. absurd (omega arith)) ∙ s.open_end i (omega arith);
        size = omega (arith, length-Perm p, s.size);
        below =
            All-Perm (IsBelow (n + 1)) p
              ((n + 1, refl, omega arith), IsBelow-suc n (entries t) s.below);
      }

  -- What stands at a place of the sequence stays there.
  pub set_items_keeps :
      (xs : Items) (t : Table) (n i : ℕ)
      → i < n
      → raw_geti (set_items lib t n xs) (suc i) ≡ raw_geti t (suc i)
  unfolding set_items
  set_items_keeps nil t n i h = refl
  set_items_keeps (cons v xs) t n i h =
      set_items_keeps xs (lib.set t (t_integer (pos (n + 1))) (lua_of lib v)) (n + 1) i
        (omega arith)
      ∙ raw_geti-set_away t n i (lua_of lib v) (λ e. absurd (omega arith))

  pub set_items-Sequence :
      {xs : Items} (t : Table) (n : ℕ)
      → ReadableItems xs
      → Sequence t n
      → Sequence (set_items lib t n xs) (n + count xs)
  unfolding set_items
  set_items-Sequence t n readable_nil s = rw ((n_zero n)) s
  set_items-Sequence t n (readable_cons {v = v} {xs = xs} r rs) s = rw (suc_shift n (count xs)) (
      set_items-Sequence (lib.set t (t_integer (pos (n + 1))) (lua_of lib v)) (n + 1) rs
        (set-Sequence t n (lua_of lib v) s (lua_of_ne lib r)))

  -- The table of an array of readable items has them at the places from 1 on, and no more.
  pub set_items-len :
      {xs : Items}
      → ReadableItems xs
      → (lib.len (set_items lib new_table 0 xs) ≡ count xs)
        × (length (entries (set_items lib new_table 0 xs)) ≡ count xs)
  set_items-len {xs} rs =
      let s = set_items-Sequence new_table 0 rs new_table-Sequence in
      (
        laws.len_sequence (set_items lib new_table 0 xs) (count xs)
            (λ i h. s.filled i (omega (arith, h))) (λ i h. s.open_end i (omega (arith, h))),
        omega (arith, s.size),
      )
