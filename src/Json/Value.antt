-- ===== src/Json/Value.antt =====
-- The values of libbsp that the server passes around (`BSP_VALUE`, `BSP_OBJECT`), by their contents.
-- A double is its 64-bit pattern. A string has a buffer: a `BSP_STRING` without one, for which
-- script.c pushes nil, is left out. An array is the sequence of its items, a hash the sequence of the
-- pairs that the cursor visits, or, while it is filled, of the pairs that were set.
use bspd.Common.{ℕ, Bool, Bytes, ℤ}

mutual
  pub data Value : Type 0 where
    null : Value
    uint : ℕ → Value
    int : ℤ → Value
    double : ℕ → Value
    boolean : Bool → Value
    string : Bytes → Value
    object : Object → Value
    pointer : ℕ → Value
    hash_end : Value
    array_end : Value
    unknown : Value

  pub data Object : Type 0 where
    undetermined : Object
    single : Value → Object
    array : Items → Object
    hash : Fields → Object

  pub data Items : Type 0 where
    nil : Items
    cons : Value → Items → Items

  pub data Fields : Type 0 where
    end : Fields
    field : Bytes → Value → Fields → Fields

-- `bsp_object_set_array(obj, -1, val)` puts a value behind the others.
unfoldable pub push_item : Items → Value → Items
push_item nil v = cons v nil
push_item (cons x xs) v = cons x (push_item xs v)

-- A further pair handed to `bsp_object_set_hash`.
unfoldable pub push_field : Fields → Bytes → Value → Fields
push_field end k v = field k v end
push_field (field j x fs) k v = field j x (push_field fs k v)
