-- ===== src/Script/RoundTrip/Values.antt =====
-- A value that server/script.c gives to Lua and reads back.
use bspd.Common.{
  ℕ, zero, suc, ◌+◌, ◌<◌, ◌≡◌, refl, sym, ◌∙◌, ap, List, [], ◌∷◌, length, arith, ℤ, pos, Bytes,
}
use bspd.Json.Value.{
  Value, int, object, array, hash, Items, nil, cons, push_item, Fields, end, field,
}
use bspd.Json.RoundTrip.Rounds.{concat_items, concat_items-nil, concat_items-push}
use bspd.Script.Lua.{Lua, t_integer, IsExact, Table, new_table, LuaLib, LuaLaws, entries, raw_geti}
use bspd.Script.Push.Balance.{lua_of, set_items, set_fields}
use bspd.Script.Read.{
  Outcome, done, number_value, table_size, items_loop, fields_loop, table_to_object, value_of_lua,
}
use bspd.Script.RoundTrip.{
  Readable, readable_uint, readable_int, readable_double, readable_boolean, readable_string,
  readable_pointer, readable_array, readable_hash, ReadableItems, readable_nil, readable_cons,
  ReadableFields, readable_end, readable_field, fields_of, Back, back_uint, back_int, back_double,
  back_boolean, back_string, back_pointer, back_array, back_hash, BackItems, back_nil, back_cons,
  BackFields, back_end, back_field, depth, items_depth, fields_depth,
}
use bspd.Script.RoundTrip.Entries.{Pairwise, pairwise_nil, pairwise_cons, Pairwise-Perm}
use bspd.Script.RoundTrip.Sequences.{
  Sequence, new_table-Sequence, set-Sequence, count, lua_of_ne, raw_geti-set_place, set_items_keeps,
  set_items-len,
}
use bspd.Script.RoundTrip.Hashes.{
  lua_pairs, ReadAs, read_as, fields_loop-ReadAs, set_fields_new, set_fields-len,
}

module _ (lib : LuaLib) (laws : LuaLaws lib) where
  table_to_object-array :
      (read : Lua → Outcome Value) (t : Table) (n : ℕ) (xs : Items)
      → lib.len t ≡ n
      → length (entries t) ≡ n
      → items_loop read t n 1 nil ≡ done xs
      → table_to_object lib read t ≡ done (array xs)
  unfolding table_to_object table_size
  table_to_object-array read t n xs l s r = ground (arith, l, s, r)

  table_to_object-hash :
      (read : Lua → Outcome Value) (t : Table) (n : ℕ) (fs : Fields)
      → lib.len t ≡ 0
      → length (entries t) ≡ suc n
      → fields_loop lib read (entries t) end ≡ done fs
      → table_to_object lib read t ≡ done (hash fs)
  unfolding table_to_object table_size
  table_to_object-hash read t n fs l s r = ground (arith, l, s, r)

  integer_back :
      {z : ℤ} → IsExact z → number_value (lib.integral (lib.to_number z)) (lib.to_number z) ≡ int z
  unfolding number_value
  integer_back {z} e = rw (laws.integral-to_number z e) refl

  first_place :
      (xs : Items) (t : Table) (n : ℕ) (v : Value)
      → Readable v
      → raw_geti (set_items lib t n (cons v xs)) (suc n) ≡ lua_of lib v
  unfolding set_items
  first_place xs t n v r =
      set_items_keeps lib laws xs (lib.set t (t_integer (pos (n + 1))) (lua_of lib v)) (n + 1) n
        (omega arith)
      ∙ raw_geti-set_place lib laws t n n (lua_of lib v) (lua_of_ne lib r) refl

  items_loop_next :
      (read : Lua → Outcome Value) (t : Table) (m n : ℕ) (acc : Items) (l : Lua) (w : Value)
      → raw_geti t (suc n) ≡ l
      → read l ≡ done w
      → items_loop read t (suc m) (suc n) acc ≡ items_loop read t m (suc (n + 1)) (push_item acc w)
  unfolding items_loop
  items_loop_next read t m n acc l w g r =
      let place : suc (suc n) ≡ suc (n + 1) = omega arith in rw (g, r, place) refl

  mutual
    unfolding value_of_lua lua_of depth items_loop set_items

    pub value-Back :
        {v : Value} (fuel : ℕ)
        → Readable v
        → depth v < fuel
        → (w : Value) × (value_of_lua lib fuel (lua_of lib v) ≡ done w) × Back lib v w
    value-Back zero r d = absurd (omega arith)
    value-Back (suc fuel) (readable_uint {n = n} e) d = (
      int (pos n),
      rw (laws.get_int-uint n (omega (arith, e))) (ap done (integer_back {z = pos n} e)),
      back_uint n,
    )
    value-Back (suc fuel) (readable_int {z = z} e) d =
        (int z, rw (laws.get_int-int z) (ap done (integer_back {z = z} e)), back_int z)
    value-Back (suc fuel) (readable_double x) d = (_, refl, back_double x)
    value-Back (suc fuel) (readable_boolean b) d = (_, refl, back_boolean b)
    value-Back (suc fuel) (readable_string s) d = (_, refl, back_string s)
    value-Back (suc fuel) (readable_pointer p) d = (_, refl, back_pointer p)
    value-Back (suc fuel) (readable_array {xs = xs} rs) d =
        let ys = items-Back fuel new_table 0 nil rs new_table-Sequence (omega arith) in
        let size = set_items-len lib laws rs in
        (
          object (array ys.0),
          rw
              (table_to_object-array (value_of_lua lib fuel) (set_items lib new_table 0 xs)
                (count xs) ys.0 size.0 size.1 ys.1)
              refl,
          back_array ys.2,
        )
    value-Back (suc fuel) (readable_hash {k = k} {v = v} {fs = fs} rs) d =
        let t = set_fields lib new_table (field k v fs) in
        let ps = fields-Back fuel rs (omega arith) in
        let size = set_fields-len lib laws rs in
        let qs = Pairwise-Perm (set_fields_new lib laws rs) ps.1 in
        (
          object (hash (fields_of qs.0)),
          rw
              (table_to_object-hash (value_of_lua lib fuel) t (length (lua_pairs lib fs))
                (fields_of qs.0) size.0 size.1 (fields_loop-ReadAs lib laws end qs.1))
              refl,
          back_hash ps.2 qs.2,
        )

    items-Back :
        {xs : Items} (fuel : ℕ) (t : Table) (n : ℕ) (acc : Items)
        → ReadableItems xs
        → Sequence t n
        → items_depth xs < fuel
        → (ys : Items) × (items_loop
              (value_of_lua lib fuel)
              (set_items lib t n xs)
              (count xs)
              (suc n)
              acc
            ≡ done (concat_items acc ys))
          × BackItems lib xs ys
    items-Back fuel t n acc readable_nil s d = (nil, ap done (sym (concat_items-nil acc)), back_nil)
    items-Back fuel t n acc (readable_cons {v = v} {xs = xs} r rs) s d =
        let w = value-Back fuel r (omega arith) in
        let l = lua_of lib v in
        let ys =
          items-Back fuel (lib.set t (t_integer (pos (n + 1))) l) (n + 1) (push_item acc w.0) rs
            (set-Sequence lib laws t n l s (lua_of_ne lib r)) (omega arith) in
        (
          cons w.0 ys.0,
          items_loop_next (value_of_lua lib fuel) (set_items lib t n (cons v xs)) (count xs) n acc l
                w.0 (first_place xs t n v r) w.1
              ∙ ys.1
              ∙ ap done (concat_items-push acc w.0 ys.0),
          back_cons w.2 ys.2,
        )

    fields-Back :
        {fs : Fields} (fuel : ℕ)
        → ReadableFields fs
        → fields_depth fs < fuel
        → (ps : List (Bytes × Value)) × Pairwise
            (ReadAs lib (value_of_lua lib fuel))
            (lua_pairs lib fs)
            ps
          × BackFields lib fs ps
    fields-Back fuel readable_end d = ([], pairwise_nil, back_end)
    fields-Back fuel (readable_field {k = k} h r rs) d =
        let w = value-Back fuel r (omega arith) in
        let ps = fields-Back fuel rs (omega arith) in
        ((k, w.0) ∷ ps.0, pairwise_cons (read_as k w.1) ps.1, back_field w.2 ps.2)
