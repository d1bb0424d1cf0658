-- ===== src/Wrapper/Dump/Balanced.antt =====
-- What `misc_var_dump` of wrapper/misc.c prints, and what it leaves on the stack.
use Prim.Native.Nat.{max}
use bspd.Common.{
  ℕ, zero, suc, ◌+◌, ◌*◌, ◌≤◌, ◌≡◌, refl, sym, ap, ◌∙◌, Bool, true, false, some, List, ◌∷◌, ◌++◌,
  append-nil, append_assoc, [], Bytes, codes, length, arith,
}
use bspd.Script.Lua.{
  Lua, t_nil, t_boolean, t_integer, t_number, t_string, t_light_userdata, t_userdata, t_table,
  t_function, t_thread, Table, new_table, entry, Stack,
}
use bspd.Wrapper.Dump.{
  PrintLib, c_text, tabs, key_line, Printed, ◌>>=◌, pop, guarded, boolean_text, output_type,
  output_entries, output_var, framed, misc_var_dump,
}

-- How deep tables stand in one another.
unfoldable mutual
  pub depth : Lua → ℕ
  depth (t_table t) = suc (table_depth t)
  depth _ = 0

  pub table_depth : Table → ℕ
  table_depth new_table = 0
  table_depth (entry k v t) = max (depth v) (table_depth t)

-- The dump as lines. The first one of a value shows its type and, but for tables, what it holds.
abbrev pub headline : PrintLib → Lua → Bytes
headline lib t_nil = codes "(" ++ 27 ∷ codes "[1;34mNIL" ++ 27 ∷ codes "[0m)"
headline lib (t_boolean true) = codes "(" ++ 27 ∷ codes "[1;34mBOOLEAN" ++ 27 ∷ codes "[0m) : TRUE"
headline lib (t_boolean false) =
    codes "(" ++ 27 ∷ codes "[1;34mBOOLEAN" ++ 27 ∷ codes "[0m) : FALSE"
headline lib (t_integer z) =
    codes "(" ++ 27 ∷ codes "[1;34mNUMBER" ++ 27 ∷ codes "[0m) : " ++ lib.number_text (t_integer z)
headline lib (t_number d) =
    codes "(" ++ 27 ∷ codes "[1;34mNUMBER" ++ 27 ∷ codes "[0m) : " ++ lib.number_text (t_number d)
headline lib (t_string s) =
    codes "(" ++ 27 ∷ codes "[1;34mSTRING" ++ 27 ∷ codes "[0m) : " ++ c_text s
headline lib (t_light_userdata p) =
    codes "(" ++ 27 ∷ codes "[1;34mUSERDATA" ++ 27 ∷ codes "[0m) : " ++ lib.pointer_text p
headline lib (t_userdata p) =
    codes "(" ++ 27 ∷ codes "[1;34mUSERDATA" ++ 27 ∷ codes "[0m) : " ++ lib.pointer_text p
headline lib (t_table t) = codes "(" ++ 27 ∷ codes "[1;34mTABLE" ++ 27 ∷ codes "[0m) =>"
headline lib (t_function p) = codes "(" ++ 27 ∷ codes "[1;34mFUNCTION" ++ 27 ∷ codes "[0m)"
headline lib (t_thread p) = codes "(" ++ 27 ∷ codes "[1;33mNULL" ++ 27 ∷ codes "[0m)"

abbrev pub indent : ℕ → Bytes
indent zero = []
indent (suc n) = 9 ∷ indent n

-- What an entry shows before its value, with as many tabs as tables are around it.
abbrev pub label : PrintLib → ℕ → Lua → Bytes
label lib n k = indent n ++ 27 ∷ codes "[1;32m" ++ lib.key_text k ++ 27 ∷ codes "[0m : "

-- The lines of the entries of a table, and of a value below its first line.
unfoldable mutual
  pub rows : PrintLib → ℕ → Table → List Bytes
  rows lib n new_table = []
  rows lib n (entry k v t) =
      (label lib n k ++ headline lib v) ∷ (below lib (suc n) v ++ rows lib n t)

  pub below : PrintLib → ℕ → Lua → List Bytes
  below lib n (t_table t) = rows lib n t
  below lib n _ = []

abbrev pub ended : List Bytes → Bytes
ended [] = []
ended (r ∷ rs) = r ++ 10 ∷ ended rs

ended-append : (rs qs : List Bytes) → ended (rs ++ qs) ≡ ended rs ++ ended qs
ended-append [] qs = refl
ended-append (r ∷ rs) qs = rw (ended-append rs qs) (simp append_assoc)

-- All of it: the value between two lines, and an empty line.
abbrev pub dump_lines : PrintLib → Lua → List Bytes
dump_lines lib l =
    (27 ∷ codes "[1;35m> > > Variable Dump > > >" ++ 27 ∷ codes "[0m")
    ∷ headline lib l
    ∷ (below lib 1 l
        ++ ((27 ∷ codes "[0;35m< < < Variable Dump < < <" ++ 27 ∷ codes "[0m") ∷ [] ∷ []))

tabs-indent : (n : ℕ) → tabs n ≡ indent n
unfolding tabs
tabs-indent zero = refl
tabs-indent (suc n) = ap (◌∷◌ 9) (tabs-indent n)

key_line-label :
    (lib : PrintLib) (layer : ℕ) (k : Lua) → key_line lib layer k ≡ label lib (suc layer) k
unfolding key_line
key_line-label lib layer k =
    ap (λ (b : Bytes). b ++ 27 ∷ codes "[1;32m" ++ lib.key_text k ++ 27 ∷ codes "[0m : ")
      (tabs-indent (suc layer))

guarded_room : (b : Bool) (st : Stack) (p : Printed) → b ≡ true → guarded b st p ≡ p
unfolding guarded
guarded_room true st p e = refl
guarded_room false st p e = cc

module _ (lib : PrintLib) (limit : ℕ)
    (room : (st : Stack) → length st ≤ limit → lib.check_stack st ≡ true) where
  entry-ended :
      (layer : ℕ) (k v : Lua) (t : Table) (text : Bytes)
      → (text ++ key_line lib layer k ++ ended (headline lib v ∷ below lib (suc (suc layer)) v))
          ++ ended (rows lib (suc layer) t)
        ≡ text ++ ended (rows lib (suc layer) (entry k v t))
  unfolding rows
  entry-ended layer k v t text =
      rw
        (
          key_line-label lib layer k,
          ended-append (below lib (suc (suc layer)) v) (rows lib (suc layer) t),
        )
        (simp append_assoc)

  mutual
    unfolding output_type rows depth pop boolean_text

    output_type-ended :
        (layer : ℕ) (l : Lua) (st : Stack)
        → length (l ∷ st) + 2 * depth l ≤ limit
        → output_type lib layer l st
          ≡ some (ended (headline lib l ∷ below lib (suc layer) l), l ∷ st)
    output_type-ended layer t_nil st h = refl
    output_type-ended layer (t_boolean true) st h = refl
    output_type-ended layer (t_boolean false) st h = refl
    output_type-ended layer (t_integer z) st h = refl
    output_type-ended layer (t_number d) st h = refl
    output_type-ended layer (t_string s) st h = refl
    output_type-ended layer (t_light_userdata p) st h = refl
    output_type-ended layer (t_userdata p) st h = refl
    output_type-ended layer (t_function p) st h = refl
    output_type-ended layer (t_thread p) st h = refl
    output_type-ended layer (t_table t) st h =
        output_entries-ended layer t t_nil (t_table t ∷ st) (headline lib (t_table t) ++ 10 ∷ [])
          (omega (arith, h))

    output_entries-ended :
        (layer : ℕ) (t : Table) (key : Lua) (st : Stack) (text : Bytes)
        → length st + 2 + 2 * table_depth t ≤ limit
        → output_entries lib layer t (key ∷ st) text
          ≡ some (text ++ ended (rows lib (suc layer) t), st)
    output_entries-ended layer new_table key st text h =
        ap (λ (b : Bytes). some (b, st)) (sym (append-nil text))
    output_entries-ended layer (entry k v t) key st text h =
        let shown = ended (headline lib v ∷ below lib (suc (suc layer)) v) in
        ap
          (λ (o : Printed). o >>= (λ (part : Bytes) (st1 : Stack).
            pop st1 (text ++ key_line lib layer k ++ part)
            >>= (λ (text' : Bytes) (st2 : Stack). output_entries lib layer t st2 text')))
          (guarded_room (lib.check_stack (v ∷ k ∷ st)) (v ∷ k ∷ st)
              (output_type lib (suc layer) v (k ∷ st)) (room (v ∷ k ∷ st) (omega (arith, h)))
            ∙ output_type-ended (suc layer) v (k ∷ st) (omega (arith, h)))
        ∙ output_entries-ended layer t k st (text ++ key_line lib layer k ++ shown)
            (omega (arith, h))
        ∙ ap (λ (b : Bytes). some (b, st)) (entry-ended layer k v t text)

framed-ended :
    (lib : PrintLib) (l : Lua)
    → framed (ended (headline lib l ∷ below lib 1 l)) ≡ ended (dump_lines lib l)
unfolding framed
framed-ended lib l =
    rw
      (ended-append (below lib 1 l)
        ((27 ∷ codes "[0;35m< < < Variable Dump < < <" ++ 27 ∷ codes "[0m") ∷ [] ∷ []))
      (simp append_assoc)

-- The dump of a value is its lines, whatever tables stand in it, and the stack is what it was: if
-- Lua's stack has room up to `limit` values, and two of them are left for each table around another.
pub misc_var_dump-ended :
    (lib : PrintLib) (limit : ℕ) (l : Lua) (st : Stack)
    → ((t : Stack) → length t ≤ limit → lib.check_stack t ≡ true)
    → length (l ∷ st) + 2 * depth l ≤ limit
    → misc_var_dump lib (l ∷ st) ≡ some (ended (dump_lines lib l), l ∷ st)
unfolding misc_var_dump output_var
misc_var_dump-ended lib limit l st room h =
    ap (λ (o : Printed). o >>= (λ (text : Bytes) (st' : Stack). some (framed text, st')))
      (guarded_room (lib.check_stack (l ∷ st)) (l ∷ st) (output_type lib 0 l st)
          (room (l ∷ st) (omega (arith, h)))
        ∙ output_type-ended lib limit room 0 l st h)
    ∙ ap (λ (b : Bytes). some (b, l ∷ st)) (framed-ended lib l)
