-- ===== src/Script/RoundTrip/Hashes.antt =====
-- Tables that server/script.c fills with the pairs of a hash.
use mathlib.Core.List.{Permᴰ}
use mathlib.Core.List.Permᴰ
use bspd.Common.{ℕ, suc, ◌≡◌, ◌≢◌, refl, sym, ap, List, [], ◌∷◌, length, All, arith, Bytes, ◌++◌}
use bspd.Json.Value.{Value, Fields, end, field, push_field}
use bspd.Json.RoundTrip.Rounds.{concat_fields, concat_fields-end, concat_fields-push}
use bspd.Script.Lua.{
  Lua, t_nil, t_string, string_key, Table, new_table, entry, LuaLib, LuaLaws, entries, is_index,
  raw_geti, IsFresh,
}
use bspd.Script.Push.Balance.{lua_of, set_fields}
use bspd.Script.Read.{Outcome, done, fields_loop}
use bspd.Script.RoundTrip.{pairs, fields_of, ReadableFields, readable_end, readable_field}
use bspd.Script.RoundTrip.Entries.{length-Perm, All-Perm, Pairwise, pairwise_nil, pairwise_cons}
use bspd.Script.RoundTrip.Sequences.{lua_of_ne}

abbrev pub HasText : Lua × Lua → Type 0
HasText e = (s : Bytes) × (e.0 ≡ t_string s)

-- A table with nothing but texts for keys has no items.
pub raw_geti-texts : (t : Table) (i : ℕ) → All HasText (entries t) → raw_geti t i ≡ t_nil
unfolding raw_geti is_index
raw_geti-texts new_table i h = refl
raw_geti-texts (entry k v t) i h = rw (h.0.1) (raw_geti-texts t i h.1)

module _ (lib : LuaLib) where
  -- The entries of a hash in its own order.
  abbrev pub lua_pairs : Fields → List (Lua × Lua)
  lua_pairs end = []
  lua_pairs (field k v fs) = (t_string k, lua_of lib v) ∷ lua_pairs fs

  pub lua_pairs-texts : (fs : Fields) → All HasText (lua_pairs fs)
  lua_pairs-texts end = tt
  lua_pairs-texts (field k v fs) = ((k, refl), lua_pairs-texts fs)

  -- One entry that was read: its key and the value that it became.
  pub data ReadAs (read : Lua → Outcome Value) : Lua × Lua → Bytes × Value → Type 0 where
    read_as :
        (k : Bytes) {l : Lua} {w : Value} → read l ≡ done w → ReadAs read (t_string k, l) (k, w)

  pub fields_loop-ReadAs :
      (laws : LuaLaws lib) {read : Lua → Outcome Value} {es : List (Lua × Lua)}
      {qs : List (Bytes × Value)} (acc : Fields)
      → Pairwise (ReadAs read) es qs
      → fields_loop lib read es acc ≡ done (concat_fields acc (fields_of qs))
  unfolding fields_loop
  fields_loop-ReadAs laws acc pairwise_nil = ap done (sym (concat_fields-end acc))
  fields_loop-ReadAs laws acc (pairwise_cons {ys = qs} (read_as k {w = w} e) rest) =
      rw (e, laws.key_text-string k, fields_loop-ReadAs laws (push_field acc k w) rest)
        (ap done (concat_fields-push acc k w (fields_of qs)))

  IsFresh-set :
      (laws : LuaLaws lib) (t : Table) (k : Bytes) (v : Lua) (ps : List (Bytes × Value))
      → IsFresh (t_string k) t
      → v ≢ t_nil
      → All (λ (p : Bytes × Value). p.0 ≢ k) ps
      → All (λ (p : Bytes × Value). IsFresh (t_string p.0) t) ps
      → All (λ (p : Bytes × Value). IsFresh (t_string p.0) (lib.set t (t_string k) v)) ps
  IsFresh-set laws t k v [] f n h g = tt
  IsFresh-set laws t k v (p ∷ ps) f n h g = (
    All-Perm (λ (e : Lua × Lua). e.0 ≢ t_string p.0) (laws.set_fresh t (string_key k) f n)
        ((λ e. h.0 cc), g.0),
    IsFresh-set laws t k v ps f n h.1 g.1,
  )

  -- The table that is filled has the pairs, in some order, besides what it had, if no key is there
  -- twice.
  pub set_fields-lua_pairs :
      (laws : LuaLaws lib) {fs : Fields} (t : Table)
      → ReadableFields fs
      → All (λ (p : Bytes × Value). IsFresh (t_string p.0) t) (pairs fs)
      → Permᴰ (entries (set_fields lib t fs)) (lua_pairs fs ++ entries t)
  unfolding set_fields
  set_fields-lua_pairs laws t readable_end g = Permᴰ.refl (entries t)
  set_fields-lua_pairs laws t (readable_field {k = k} {v = v} {fs = fs} h r rs) g =
      let l = lua_of lib v in
      let p = laws.set_fresh t (string_key k) g.0 (lua_of_ne lib r) in
      Permᴰ.trans
        (set_fields-lua_pairs laws (lib.set t (t_string k) l) rs
          (IsFresh-set laws t k l (pairs fs) g.0 (lua_of_ne lib r) h g.1))
        (Permᴰ.trans (Permᴰ.append_left (lua_pairs fs) p)
          (Permᴰ.middle (t_string k, l) (lua_pairs fs) (entries t)))

  none-IsFresh :
      (ps : List (Bytes × Value)) → All (λ (p : Bytes × Value). IsFresh (t_string p.0) new_table) ps
  none-IsFresh [] = tt
  none-IsFresh (p ∷ ps) = (tt, none-IsFresh ps)

  -- Of a new table, just the pairs.
  pub set_fields_new :
      (laws : LuaLaws lib) {fs : Fields}
      → ReadableFields fs
      → Permᴰ (entries (set_fields lib new_table fs)) (lua_pairs fs)
  set_fields_new laws {fs} rs =
      Permᴰ.trans (set_fields-lua_pairs laws new_table rs (none-IsFresh (pairs fs)))
        (Permᴰ.append-nil (lua_pairs fs))

  -- The table of a hash has no items, so its length tells it from that of an array.
  pub set_fields-len :
      (laws : LuaLaws lib) {k : Bytes} {v : Value} {fs : Fields}
      → ReadableFields (field k v fs)
      → (lib.len (set_fields lib new_table (field k v fs)) ≡ 0)
        × (length (entries (set_fields lib new_table (field k v fs))) ≡ suc (length (lua_pairs fs)))
  set_fields-len laws {k} {v} {fs} rs =
      let t = set_fields lib new_table (field k v fs) in
      let p = set_fields_new laws rs in
      (
        laws.len_sequence t 0 (λ i h. absurd (omega arith))
            (λ i h. raw_geti-texts t (suc i) (All-Perm HasText p (lua_pairs-texts (field k v fs)))),
        length-Perm p,
      )
