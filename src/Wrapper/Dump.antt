-- ===== src/Wrapper/Dump.antt =====
-- `misc_var_dump` of wrapper/misc.c: a Lua value is printed, tables with what they hold.
pub mod Balanced
use bspd.Common.{
  ℕ, zero, suc, Bool, true, false, Option, none, some, List, [], ◌∷◌, ◌++◌, Bytes, codes,
}
use bspd.Script.Lua.{
  Lua, t_nil, t_boolean, t_integer, t_number, t_string, t_light_userdata, t_userdata, t_table,
  t_function, t_thread, Table, new_table, entry, Stack,
}

-- How C prints what Lua gives: `%g` of `lua_tonumber`, `%p` of `lua_touserdata`, and `%s` of
-- `lua_tostring`, for a copy of a key, which is a NULL pointer unless it is a string or a number. And
-- whether a stack has room for three values more, which `lua_checkstack` tells.
pub record PrintLib : Type 0 where
  pub number_text : Lua → Bytes
  pub pointer_text : ℕ → Bytes
  pub key_text : Lua → Bytes
  pub check_stack : Stack → Bool

abbrev pub blue : Bytes → Bytes
blue name = codes "(" ++ 27 ∷ codes "[1;34m" ++ name ++ 27 ∷ codes "[0m)"

abbrev pub newline : Bytes
newline = 10 ∷ []

unfoldable pub boolean_text : Bool → Bytes
boolean_text true = codes "TRUE"
boolean_text false = codes "FALSE"

-- `%s` ends at the first NUL.
unfoldable pub c_text : Bytes → Bytes
c_text [] = []
c_text (zero ∷ s) = []
c_text (suc c ∷ s) = suc c ∷ c_text s

unfoldable pub tabs : ℕ → Bytes
tabs zero = []
tabs (suc n) = 9 ∷ tabs n

-- What one entry shows before its value.
unfoldable pub key_line : PrintLib → ℕ → Lua → Bytes
unfolding tabs
key_line lib layer k =
    tabs (suc layer) ++ 27 ∷ codes "[1;32m" ++ lib.key_text k ++ 27 ∷ codes "[0m : "

-- What was printed and the stack; `none` is a stack with too few values.
abbrev pub Printed : Type 0
Printed = Option (Bytes × Stack)

infixl 5 ◌>>=◌
abbrev pub ◌>>=◌ : Printed → (Bytes → Stack → Printed) → Printed
◌>>=◌ none f = none
◌>>=◌ (some (text, st)) f = f text st

-- `lua_pop(s, 1)`
unfoldable pub pop : Stack → Bytes → Printed
pop [] text = none
pop (x ∷ st) text = some (text, st)

-- Without room nothing is printed, and the stack stays.
unfoldable pub guarded : Bool → Stack → Printed → Printed
guarded true st p = p
guarded false st p = some ([], st)

unfoldable mutual
  unfolding guarded

  -- The `switch` over the type of the value, which is on top.
  pub output_type : PrintLib → ℕ → Lua → Stack → Printed
  output_type lib layer t_nil st = some (blue (codes "NIL") ++ newline, t_nil ∷ st)
  output_type lib layer (t_boolean b) st =
      some (blue (codes "BOOLEAN") ++ codes " : " ++ boolean_text b ++ newline, t_boolean b ∷ st)
  output_type lib layer (t_integer z) st = some (
    blue (codes "NUMBER") ++ codes " : " ++ lib.number_text (t_integer z) ++ newline,
    t_integer z ∷ st,
  )
  output_type lib layer (t_number d) st = some (
    blue (codes "NUMBER") ++ codes " : " ++ lib.number_text (t_number d) ++ newline,
    t_number d ∷ st,
  )
  output_type lib layer (t_string s) st =
      some (blue (codes "STRING") ++ codes " : " ++ c_text s ++ newline, t_string s ∷ st)
  output_type lib layer (t_light_userdata p) st = some (
    blue (codes "USERDATA") ++ codes " : " ++ lib.pointer_text p ++ newline,
    t_light_userdata p ∷ st,
  )
  output_type lib layer (t_userdata p) st =
      some
        (blue (codes "USERDATA") ++ codes " : " ++ lib.pointer_text p ++ newline, t_userdata p ∷ st)
  output_type lib layer (t_function p) st =
      some (blue (codes "FUNCTION") ++ newline, t_function p ∷ st)
  output_type lib layer (t_thread p) st =
      some (codes "(" ++ 27 ∷ codes "[1;33mNULL" ++ 27 ∷ codes "[0m)" ++ newline, t_thread p ∷ st)
  output_type lib layer (t_table t) st =
      output_entries lib layer t (t_nil ∷ t_table t ∷ st)
        (blue (codes "TABLE") ++ codes " =>" ++ newline)

  -- The loop: `lua_next` takes the key of before from the top and pushes the next key and its value,
  -- or nothing at the end; the value is printed and popped.
  pub output_entries : PrintLib → ℕ → Table → Stack → Bytes → Printed
  output_entries lib layer new_table st text = pop st text
  output_entries lib layer (entry k v t) st text =
      pop st text >>= (λ (text : Bytes) (below : Stack).
        guarded (lib.check_stack (v ∷ k ∷ below)) (v ∷ k ∷ below)
          (output_type lib (suc layer) v (k ∷ below))
        >>= (λ (shown : Bytes) (st1 : Stack).
            pop st1 (text ++ key_line lib layer k ++ shown)
            >>= (λ (text' : Bytes) (st2 : Stack). output_entries lib layer t st2 text')))

unfoldable pub output_var : PrintLib → ℕ → Lua → Stack → Printed
unfolding output_type guarded
output_var lib layer l st = guarded (lib.check_stack (l ∷ st)) (l ∷ st) (output_type lib layer l st)

-- The lines before and behind the value.
unfoldable pub framed : Bytes → Bytes
framed text =
    27 ∷ codes "[1;35m> > > Variable Dump > > >"
    ++ 27 ∷ codes "[0m"
    ++ newline
    ++ (text
        ++ (27 ∷ codes "[0;35m< < < Variable Dump < < <" ++ 27 ∷ codes "[0m" ++ newline ++ newline))

unfoldable pub misc_var_dump : PrintLib → Stack → Printed
unfolding output_var
misc_var_dump lib [] = none
misc_var_dump lib (l ∷ st) =
    output_var lib 0 l st >>= (λ (text : Bytes) (st' : Stack). some (framed text, st'))
