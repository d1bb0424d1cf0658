-- ===== src/Utils/Dump.antt =====
-- The dumps of utils/debug.c: of values and objects of libbsp, and of a stack of Lua.
pub mod Lines
use mathlib.Core.List.{reverse}
use bspd.Common.{
  ℕ, zero, suc, ◌+◌, Bool, true, false, Option, none, some, List, [], ◌∷◌, ◌++◌, Bytes, codes, ℤ,
}
use bspd.Json.Value.{
  Value, null, uint, int, double, boolean, string, object, pointer, hash_end, array_end, unknown,
  Object, undetermined, single, array, hash, Items, nil, cons, Fields, end, field,
}
use bspd.Script.Lua.{Lua}
use bspd.Utils.Hex.{escape}

-- What goes to the error output: constant text, bytes handed to `write`, an address of memory, a
-- pointer that a value holds, and a number, a float by its pattern.
pub data Piece : Type 0 where
  text : Bytes → Piece
  written : Bytes → Piece
  address : Piece
  held : ℕ → Piece
  signed : ℤ → Piece
  unsigned : ℕ → Piece
  float : ℕ → Piece

unfoldable pub paint : Bytes → Bytes → Bytes
paint color s = escape color ++ (s ++ escape (codes "0"))

unfoldable pub end_line : Bytes → Bytes
end_line s = s ++ 10 ∷ []

-- `write` of nothing returns 0; of some bytes it is taken to succeed.
unfoldable pub written_or : Bytes → Bytes → Piece
written_or other [] = text other
written_or other (c ∷ s) = written (c ∷ s)

unfoldable pub indent : ℕ → Bytes
indent zero = []
indent (suc n) = codes "    " ++ indent n

-- What follows "(%p) ".
abbrev behind_address : List Piece → List Piece
behind_address ps = text (codes "(") ∷ address ∷ text (codes ") ") ∷ ps

unfoldable mutual
  unfolding paint end_line written_or

  -- Behind "(%p) ". Of a value that is not NULL, whose string is not NULL.
  pub dump_content : ℕ → Value → List Piece
  dump_content layer null = text (end_line (paint (codes "1;31") (codes "(NULL)"))) ∷ []
  dump_content layer (int z) =
      text (paint (codes "1;33") (codes "(INTEGER)"))
      ∷ text (codes " : ")
      ∷ signed z
      ∷ text (end_line [])
      ∷ []
  dump_content layer (uint n) =
      text (paint (codes "1;33") (codes "(UNSIGNED INTEGER)"))
      ∷ text (codes " : ")
      ∷ unsigned n
      ∷ text (end_line [])
      ∷ []
  dump_content layer (double d) =
      text (paint (codes "1;33") (codes "(FLOAT)"))
      ∷ text (codes " : ")
      ∷ float d
      ∷ text (end_line [])
      ∷ []
  dump_content layer (boolean true) =
      text (paint (codes "1;33") (codes "(BOOLEAN)")) ∷ text (end_line (codes " : true")) ∷ []
  dump_content layer (boolean false) =
      text (paint (codes "1;33") (codes "(BOOLEAN)")) ∷ text (end_line (codes " : false")) ∷ []
  dump_content layer (string s) =
      text (paint (codes "1;32") (codes "(STRING)"))
      ∷ text (codes " (")
      ∷ address
      ∷ text (codes ") : ")
      ∷ written_or (paint (codes "1;37") (codes "### STRING ###")) s
      ∷ text (end_line [])
      ∷ []
  dump_content layer (object o) =
      text (paint (codes "1;36") (codes "(OBJECT)"))
      ∷ text (codes " (")
      ∷ address
      ∷ text (codes ") : ")
      ∷ dump_object (suc layer) o
  dump_content layer (pointer n) =
      text (paint (codes "1;36") (codes "(POINTER)"))
      ∷ text (codes " : ")
      ∷ held n
      ∷ text (end_line [])
      ∷ []
  dump_content layer hash_end = text (end_line (paint (codes "1;31") (codes "(NOTHING)"))) ∷ []
  dump_content layer array_end = text (end_line (paint (codes "1;31") (codes "(NOTHING)"))) ∷ []
  dump_content layer unknown = text (end_line (paint (codes "1;31") (codes "(NOTHING)"))) ∷ []

  pub dump_object : ℕ → Object → List Piece
  dump_object layer (single v) =
      text (end_line (paint (codes "1;37") (codes "Object type : [SINGLE]")))
      ∷ behind_address (dump_content layer v)
  dump_object layer (array xs) =
      text (end_line (paint (codes "1;37") (codes "Object type : [ARRAY]"))) ∷ dump_items layer 0 xs
  dump_object layer (hash fs) =
      text (end_line (paint (codes "1;37") (codes "Object type : [HASH]"))) ∷ dump_fields layer fs
  dump_object layer undetermined =
      text (end_line (paint (codes "1;36") (codes "Object type : [UNKNOWN]"))) ∷ []

  pub dump_items : ℕ → ℕ → Items → List Piece
  dump_items layer idx nil = []
  dump_items layer idx (cons v xs) =
      text (indent (suc layer))
      ∷ text (escape (codes "1;35"))
      ∷ unsigned idx
      ∷ text (escape (codes "0") ++ 9 ∷ codes "=> ")
      ∷ (behind_address (dump_content layer v) ++ dump_items layer (suc idx) xs)

  pub dump_fields : ℕ → Fields → List Piece
  dump_fields layer end = []
  dump_fields layer (field k v fs) =
      text (indent (suc layer))
      ∷ text (escape (codes "1;33"))
      ∷ written_or (codes "KEY") k
      ∷ text (escape (codes "0") ++ codes " => ")
      ∷ (behind_address (dump_content layer v) ++ dump_fields layer fs)

unfoldable pub dump_value : ℕ → Value → List Piece
unfolding dump_content
dump_value layer v = behind_address (dump_content layer v)

-- The line before and after the dump; `kind` is "Object : " or "Value : ".
unfoldable pub border : Bytes → Bytes → List Piece
unfolding end_line
border kind place =
    text (escape (codes "1;37") ++ codes "=== [Debug " ++ kind)
    ∷ address
    ∷ text (end_line (codes "] === < " ++ place ++ codes " > ===" ++ escape (codes "0")))
    ∷ []

unfoldable pub bordered : Bytes → List Piece → List Piece
unfolding border end_line
bordered kind ps =
    text (end_line [])
    ∷ (border kind (codes "START")
        ++ (ps ++ (border kind (codes "END") ++ text (end_line []) ∷ [])))

unfoldable pub debug_object : Option Object → List Piece
unfolding bordered dump_object paint end_line
debug_object none =
    text (end_line [])
    ∷ text (end_line (end_line (paint (codes "1;37") (codes " === [NO OBJECT INPUT] ==="))))
    ∷ []
debug_object (some o) = bordered (codes "Object : ") (dump_object 0 o)

unfoldable pub debug_value : Option Value → List Piece
unfolding bordered dump_value paint end_line
debug_value none =
    text (end_line [])
    ∷ text (end_line (end_line (paint (codes "1;37") (codes " === [NOTHING TO DEBUG] ==="))))
    ∷ []
debug_value (some v) = bordered (codes "Value : ") (dump_value 0 v)

-- The loop over a stack from the bottom on; `type_name` is `lua_typename` of `lua_type`.
unfoldable pub stack_lines : (Lua → Bytes) → ℕ → List Lua → List Piece
unfolding paint end_line
stack_lines type_name i [] = []
stack_lines type_name i (v ∷ st) =
    text (codes " " ++ escape (codes "1;35"))
    ∷ unsigned i
    ∷ text (escape (codes "0") ++ codes " => ")
    ∷ text (end_line (paint (codes "1;34") (type_name v)))
    ∷ stack_lines type_name (suc i) st

unfoldable pub stack_border : List Piece
unfolding end_line
stack_border =
    text (end_line [])
    ∷ text (escape (codes "1;37") ++ codes "=== [Debug LUA stack : ")
    ∷ address
    ∷ text (end_line (codes "] ===" ++ escape (codes "0")))
    ∷ []

-- `none` is the NULL state; the top of the stack is the first of the list.
unfoldable pub debug_lua_stack : (Lua → Bytes) → Option (List Lua) → List Piece
unfolding stack_lines stack_border
debug_lua_stack type_name none = []
debug_lua_stack type_name (some st) =
    stack_border ++ (stack_lines type_name 1 (reverse st) ++ stack_border)
