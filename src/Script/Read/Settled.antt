-- ===== src/Script/Read/Settled.antt =====
-- What server/script.c reads from Lua can be pushed to Lua again.
use bspd.Common.{
  ℕ, zero, suc, ◌≡◌, refl, true, false, Option, none, some, List, [], ◌∷◌, ◌==◌, Bytes, arith,
}
use bspd.Json.Value.{
  Value, object, Object, single, array, hash, Items, nil, cons, push_item, Fields, end, field,
  push_field,
}
use bspd.Script.Lua.{
  Lua, t_nil, t_boolean, t_integer, t_number, t_string, t_light_userdata, t_userdata, t_table,
  t_function, t_thread, Table, Stack, LuaLib, entries, raw_geti,
}
use bspd.Script.Push.{object_to_lua}
use bspd.Script.Push.Balance.{
  settled, settled_object, settled_items, settled_fields, lua_of_object, object_to_lua-lua_of,
}
use bspd.Script.Read.{
  Outcome, done, lua_error, no_fuel, ◌>>=◌, table_size, number_value, items_loop, fields_loop,
  table_to_object, value_of_lua, single_of, lua_to_object,
}

bind_done :
    {A B : Type 0} (r : Outcome A) (f : A → Outcome B) {b : B}
    → (r >>= f) ≡ done b
    → (a : A) × (r ≡ done a) × (f a ≡ done b)
bind_done (done a) f e = (a, refl, e)
bind_done lua_error f e = cc
bind_done no_fuel f e = cc

settled-push_item :
    (xs : Items) (v : Value)
    → settled_items xs ≡ true
    → settled v ≡ true
    → settled_items (push_item xs v) ≡ true
unfolding settled push_item
settled-push_item nil v h k = ground (arith, k)
settled-push_item (cons x xs) v h k = ground (arith, settled-push_item xs v)

settled-push_field :
    (fs : Fields) (key : Bytes) (v : Value)
    → settled_fields fs ≡ true
    → settled v ≡ true
    → settled_fields (push_field fs key v) ≡ true
unfolding settled push_field
settled-push_field end key v h k = ground (arith, k)
settled-push_field (field j x fs) key v h k = ground (arith, settled-push_field fs key v)

-- What a reader gives is settled.
abbrev ReadsSettled : (Lua → Outcome Value) → Type 0
ReadsSettled read = (l : Lua) (v : Value) → read l ≡ done v → settled v ≡ true

settled-items_loop :
    (read : Lua → Outcome Value) (t : Table) (n i : ℕ) (xs ys : Items)
    → ReadsSettled read
    → settled_items xs ≡ true
    → items_loop read t n i xs ≡ done ys
    → settled_items ys ≡ true
unfolding items_loop
settled-items_loop read t zero i xs ys r h e = ground (arith, h, e)
settled-items_loop read t (suc n) i xs ys r h e =
    let (v, p, q) =
      bind_done (read (raw_geti t i)) (λ v. items_loop read t n (suc i) (push_item xs v)) e in
    settled-items_loop read t n (suc i) (push_item xs v) ys r
      (settled-push_item xs v h (r (raw_geti t i) v p)) q

settled_number : (o : Option _) (d : ℕ) → settled (number_value o d) ≡ true
unfolding settled number_value
settled_number none d = refl
settled_number (some z) d = refl

module _ (lib : LuaLib) where
  settled-fields_loop :
      (read : Lua → Outcome Value) (es : List (Lua × Lua)) (fs gs : Fields)
      → ReadsSettled read
      → settled_fields fs ≡ true
      → fields_loop lib read es fs ≡ done gs
      → settled_fields gs ≡ true
  unfolding fields_loop
  settled-fields_loop read [] fs gs r h e = ground (arith, h, e)
  settled-fields_loop read ((k, l) ∷ rest) fs gs r h e =
      let next = λ (v : Value) (o : Option Bytes). elim o as (λ x. Outcome Fields) [
        | none ↦ lua_error
        | some key ↦ fields_loop lib read rest (push_field fs key v)
      ] in
      let (v, p, q) = bind_done (read l) (λ v. next v (lib.key_text k)) e in
      elim (lib.key_text k) as (λ o. next v o ≡ done gs → settled_fields gs ≡ true) [
        | none ↦ λ z. cc
        | some key ↦ λ z.
            settled-fields_loop read rest (push_field fs key v) gs r
              (settled-push_field fs key v h (r l v p)) z
      ]
        q

  settled-table_to_object :
      (read : Lua → Outcome Value) (t : Table) (o : Object)
      → ReadsSettled read
      → table_to_object lib read t ≡ done o
      → settled_object o ≡ true
  unfolding table_to_object settled
  settled-table_to_object read t o r e =
      elim (lib.len t == table_size t)
          as (λ b.
            (elim b as (λ x. Outcome Object) [
              | true ↦ items_loop read t (lib.len t) 1 nil >>= (λ (xs : Items). done (array xs))
              | false ↦ fields_loop lib read (entries t) end >>= (λ (fs : Fields). done (hash fs))
            ])
              ≡ done o
            → settled_object o ≡ true) [
              | true ↦ λ z.
                  let (xs, p, q) =
                    bind_done (items_loop read t (lib.len t) 1 nil) (λ xs. done (array xs)) z in
                  ground (arith, q, settled-items_loop read t (lib.len t) 1 nil xs r refl p)
              | false ↦ λ z.
                  let (fs, p, q) =
                    bind_done (fields_loop lib read (entries t) end) (λ fs. done (hash fs)) z in
                  ground (arith, q, settled-fields_loop read (entries t) end fs r refl p)
            ]
        e

  settled-value_of_lua : (fuel : ℕ) → ReadsSettled (value_of_lua lib fuel)
  unfolding value_of_lua settled
  settled-value_of_lua zero l v e = cc
  settled-value_of_lua (suc fuel) t_nil v e = ground (arith, e)
  settled-value_of_lua (suc fuel) (t_boolean b) v e = ground (arith, e)
  settled-value_of_lua (suc fuel) (t_integer z) v e =
      let d = lib.to_number z in ground (arith, e, settled_number (lib.integral d) d)
  settled-value_of_lua (suc fuel) (t_number d) v e =
      ground (arith, e, settled_number (lib.integral d) d)
  settled-value_of_lua (suc fuel) (t_string s) v e = ground (arith, e)
  settled-value_of_lua (suc fuel) (t_light_userdata p) v e = ground (arith, e)
  settled-value_of_lua (suc fuel) (t_userdata p) v e = ground (arith, e)
  settled-value_of_lua (suc fuel) (t_table t) v e =
      let (o, p, q) =
        bind_done (table_to_object lib (value_of_lua lib fuel) t) (λ o. done (object o)) e in
      ground (
        arith,
        q,
        settled-table_to_object (value_of_lua lib fuel) t o (settled-value_of_lua fuel) p,
      )
  settled-value_of_lua (suc fuel) (t_function p) v e = ground (arith, e)
  settled-value_of_lua (suc fuel) (t_thread p) v e = ground (arith, e)

  settled-single_of :
      (fuel : ℕ) (l : Lua) (o : Object)
      → single_of lib (value_of_lua lib fuel l) ≡ done o
      → settled_object o ≡ true
  unfolding single_of settled
  settled-single_of fuel l o e =
      let (v, p, q) = bind_done (value_of_lua lib fuel l) (λ v. done (single v)) e in
      ground (arith, q, settled-value_of_lua fuel l v p)

  settled-lua_to_object :
      (fuel : ℕ) (l : Lua) (o : Object)
      → lua_to_object lib fuel l ≡ done o
      → settled_object o ≡ true
  unfolding lua_to_object
  settled-lua_to_object fuel (t_table t) o e =
      settled-table_to_object (value_of_lua lib fuel) t o (settled-value_of_lua fuel) e
  settled-lua_to_object fuel t_nil o e = settled-single_of fuel t_nil o e
  settled-lua_to_object fuel (t_boolean b) o e = settled-single_of fuel (t_boolean b) o e
  settled-lua_to_object fuel (t_integer z) o e = settled-single_of fuel (t_integer z) o e
  settled-lua_to_object fuel (t_number d) o e = settled-single_of fuel (t_number d) o e
  settled-lua_to_object fuel (t_string s) o e = settled-single_of fuel (t_string s) o e
  settled-lua_to_object fuel (t_light_userdata p) o e =
      settled-single_of fuel (t_light_userdata p) o e
  settled-lua_to_object fuel (t_userdata p) o e = settled-single_of fuel (t_userdata p) o e
  settled-lua_to_object fuel (t_function p) o e = settled-single_of fuel (t_function p) o e
  settled-lua_to_object fuel (t_thread p) o e = settled-single_of fuel (t_thread p) o e

  -- Every object that is read from Lua is of a type that pushes to Lua again: no object of the type
  -- UNDETERMINED stands in it, and pushing it raises no error, and leaves one value more.
  pub lua_to_object-settled :
      (fuel : ℕ) (l : Lua) (o : Object) (st : Stack)
      → lua_to_object lib fuel l ≡ done o
      → (settled_object o ≡ true) × (object_to_lua lib o st ≡ some (lua_of_object lib o ∷ st))
  lua_to_object-settled fuel l o st e =
      let h = settled-lua_to_object fuel l o e in (h, object_to_lua-lua_of lib o st h)
