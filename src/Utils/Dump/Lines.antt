-- ===== src/Utils/Dump/Lines.antt =====
-- How many lines the dumps of utils/debug.c have.
use bspd.Common.{
  ℕ, zero, suc, ◌+◌, ◌≡◌, refl, true, false, some, List, [], ◌∷◌, ◌++◌, arith, ◌==◌, if◌then◌else◌,
  Bytes, codes,
}
use bspd.Json.Value.{
  Value, null, uint, int, double, boolean, string, object, pointer, hash_end, array_end, unknown,
  Object, undetermined, single, array, hash, Items, nil, cons, Fields, end, field,
}
use bspd.Utils.Hex.{escape}
use bspd.Utils.Dump.{
  Piece, text, written, address, held, signed, unsigned, float, paint, end_line, written_or, indent,
  dump_content, dump_value, dump_object, dump_items, dump_fields, border, bordered, debug_object,
}

-- The values and objects that stand in one.
abbrev mutual
  pub value_nodes : Value → ℕ
  value_nodes (object o) = object_nodes o
  value_nodes _ = 1

  pub object_nodes : Object → ℕ
  object_nodes undetermined = 1
  object_nodes (single v) = suc (value_nodes v)
  object_nodes (array xs) = suc (items_nodes xs)
  object_nodes (hash fs) = suc (fields_nodes fs)

  items_nodes : Items → ℕ
  items_nodes nil = 0
  items_nodes (cons v xs) = value_nodes v + items_nodes xs

  fields_nodes : Fields → ℕ
  fields_nodes end = 0
  fields_nodes (field k v fs) = value_nodes v + fields_nodes fs

abbrev newlines : Bytes → ℕ
newlines [] = 0
newlines (c ∷ s) = let rest = newlines s in if c == 10 then suc rest else rest

-- The lines that the dump itself ends.
abbrev pub lines : List Piece → ℕ
lines [] = 0
lines (text s ∷ ps) = newlines s + lines ps
lines (_ ∷ ps) = lines ps

lines-append : (ps qs : List Piece) → lines (ps ++ qs) ≡ lines ps + lines qs
lines-append [] qs = omega arith
lines-append (text s ∷ ps) qs = omega (arith, lines-append ps qs)
lines-append (written s ∷ ps) qs = lines-append ps qs
lines-append (address ∷ ps) qs = lines-append ps qs
lines-append (held n ∷ ps) qs = lines-append ps qs
lines-append (signed z ∷ ps) qs = lines-append ps qs
lines-append (unsigned n ∷ ps) qs = lines-append ps qs
lines-append (float d ∷ ps) qs = lines-append ps qs

newlines-indent : (n : ℕ) → newlines (indent n) ≡ 0
unfolding indent
newlines-indent zero = refl
newlines-indent (suc n) = newlines-indent n

lines-written_or :
    (other s : Bytes) (ps : List Piece)
    → newlines other ≡ 0
    → lines (written_or other s ∷ ps) ≡ lines ps
unfolding written_or
lines-written_or other [] ps e = omega (arith, e)
lines-written_or other (c ∷ s) ps e = refl

mutual
  unfolding dump_value dump_content dump_object dump_items dump_fields paint end_line

  lines-dump_content : (layer : ℕ) (v : Value) → lines (dump_content layer v) ≡ value_nodes v
  lines-dump_content layer null = refl
  lines-dump_content layer (uint n) = refl
  lines-dump_content layer (int z) = refl
  lines-dump_content layer (double d) = refl
  lines-dump_content layer (boolean true) = refl
  lines-dump_content layer (boolean false) = refl
  lines-dump_content layer (string s) = omega (
    arith,
    lines-written_or (paint (codes "1;37") (codes "### STRING ###")) s (text (end_line []) ∷ [])
        refl,
  )
  lines-dump_content layer (object o) = omega (arith, lines-dump_object (suc layer) o)
  lines-dump_content layer (pointer n) = refl
  lines-dump_content layer hash_end = refl
  lines-dump_content layer array_end = refl
  lines-dump_content layer unknown = refl

  lines-dump_object : (layer : ℕ) (o : Object) → lines (dump_object layer o) ≡ object_nodes o
  lines-dump_object layer undetermined = refl
  lines-dump_object layer (single v) = omega (arith, lines-dump_content layer v)
  lines-dump_object layer (array xs) = omega (arith, lines-dump_items layer 0 xs)
  lines-dump_object layer (hash fs) = omega (arith, lines-dump_fields layer fs)

  lines-dump_items : (layer idx : ℕ) (xs : Items) → lines (dump_items layer idx xs) ≡ items_nodes xs
  lines-dump_items layer idx nil = refl
  lines-dump_items layer idx (cons v xs) = omega (
    arith,
    newlines-indent (suc layer),
    lines-append (dump_value layer v) (dump_items layer (suc idx) xs),
    lines-dump_content layer v,
    lines-dump_items layer (suc idx) xs,
  )

  lines-dump_fields : (layer : ℕ) (fs : Fields) → lines (dump_fields layer fs) ≡ fields_nodes fs
  lines-dump_fields layer end = refl
  lines-dump_fields layer (field k v fs) = omega (
    arith,
    newlines-indent (suc layer),
    lines-written_or (codes "KEY") k
        (text (escape (codes "0") ++ codes " => ") ∷ (dump_value layer v ++ dump_fields layer fs))
        refl,
    lines-append (dump_value layer v) (dump_fields layer fs),
    lines-dump_content layer v,
    lines-dump_fields layer fs,
  )

-- Between its four lines the dump has one for each value and object that stands in the object.
lines-debug_object : (o : Object) → lines (debug_object (some o)) ≡ object_nodes o + 4
unfolding debug_object bordered border end_line
lines-debug_object o =
    let tail = border (codes "Object : ") (codes "END") ++ text (end_line []) ∷ [] in
    omega (arith, lines-append (dump_object 0 o) tail, lines-dump_object 0 o)
