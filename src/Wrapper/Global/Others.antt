-- ===== src/Wrapper/Global/Others.antt =====
-- What the store of wrapper/global.c leaves alone when something is set.
use bspd.Common.{
  ℕ, ◌≡◌, ◌≢◌, refl, sym, ◌∙◌, ap, true, false, Bool-cases, inl, inr, if_true, if_false, Option,
  none, some, [], ◌∷◌, ◌++◌, ◌==◌, if◌then◌else◌, Bytes, arith,
}
use bspd.Json.Value.{Value, Object}
use bspd.Script.Lua.{Stack, LuaLib}
use bspd.Wrapper.Global.{
  StoreLib, sub_object, without, set_last, set_end, put_sub, on_sub, set_from, global_set, get_from,
  push_found, global_get,
}
use bspd.Wrapper.Global.Paths.{
  is_hash, StoreLaws, set_stop, set_byte, get_stop, get_byte, without-is_hash,
}

-- The first key of a path.
unfoldable pub first_key : Bytes → Bytes → Bytes
first_key seg [] = seg
first_key seg (c ∷ path) =
    let more = first_key (seg ++ c ∷ []) path in if c == b'.' then seg else more

first_stop : (seg path : Bytes) (c : ℕ) → (c == b'.') ≡ true → first_key seg (c ∷ path) ≡ seg
unfolding first_key
first_stop seg path c e = if_true (c == b'.') _ _ e

first_byte :
    (seg path : Bytes) (c : ℕ)
    → (c == b'.') ≡ false
    → first_key seg (c ∷ path) ≡ first_key (seg ++ c ∷ []) path
unfolding first_key
first_byte seg path c e = if_false (c == b'.') _ _ e

module _ (store : StoreLib) (laws : StoreLaws store) where
  without-other :
      (o : Object) (k j : Bytes)
      → is_hash o ≡ true
      → k ≢ j
      → store.value_hash (without store o k) j ≡ store.value_hash o j
  unfolding without
  without-other o k j h n = ground (arith, laws.value_hash-set_other o k j none h n)

  set_last-other :
      (o : Object) (k j : Bytes) (new : Object)
      → is_hash o ≡ true
      → k ≢ j
      → store.value_hash (set_last store o k new) j ≡ store.value_hash o j
  unfolding set_last
  set_last-other o k j new h n =
      laws.value_hash-set_other (without store o k) k j _ (without-is_hash store laws o k h) n
      ∙ without-other o k j h n

  put_sub-other :
      (o : Object) (k j : Bytes) (old : Option Object) (sub : Object)
      → is_hash o ≡ true
      → k ≢ j
      → store.value_hash (put_sub store o k old sub) j ≡ store.value_hash o j
  unfolding put_sub
  put_sub-other o k j none sub h n =
      laws.value_hash-set_other (without store o k) k j _ (without-is_hash store laws o k h) n
      ∙ without-other o k j h n
  put_sub-other o k j (some old) sub h n = laws.value_hash-set_other o k j _ h n

  set_end-other :
      (o : Object) (k j : Bytes) (new : Object)
      → is_hash o ≡ true
      → k ≢ j
      → store.value_hash (set_end store o k new) j ≡ store.value_hash o j
  unfolding set_end
  set_end-other o [] j new h n = refl
  set_end-other o (x ∷ k) j new h n = set_last-other o (x ∷ k) j new h n

  set_from-other :
      (o : Object) (seg path j : Bytes) (new : Object)
      → is_hash o ≡ true
      → first_key seg path ≢ j
      → store.value_hash (set_from store o seg path new) j ≡ store.value_hash o j
  unfolding set_from first_key
  set_from-other o seg [] j new h n = set_end-other o seg j new h n
  set_from-other o seg (c ∷ path) j new h n = elim (Bool-cases (c == b'.')) [
    | inl e ↦
        ap (λ (x : Object). store.value_hash x j) (set_stop store o seg path c new e)
        ∙ put_sub-other o seg j (sub_object (store.value_hash o seg)) _ h
            (λ z. n (first_stop seg path c e ∙ z))
    | inr e ↦
        ap (λ (x : Object). store.value_hash x j) (set_byte store o seg path c new e)
        ∙ set_from-other o (seg ++ c ∷ []) path j new h (λ z. n (first_byte seg path c e ∙ z))
  ]

  get_from-same :
      (o o' : Object) (seg path : Bytes)
      → store.value_hash o (first_key seg path) ≡ store.value_hash o' (first_key seg path)
      → get_from store o seg path ≡ get_from store o' seg path
  unfolding get_from first_key
  get_from-same o o' seg [] h = h
  get_from-same o o' seg (c ∷ path) h = elim (Bool-cases (c == b'.')) [
    | inl e ↦
        get_stop store o seg path c e
        ∙ ap
            (λ (v : Option Value).
              on_sub none (λ (sub : Object). get_from store sub [] path) (sub_object v))
            (ap (store.value_hash o) (sym (first_stop seg path c e))
              ∙ h
              ∙ ap (store.value_hash o') (first_stop seg path c e))
        ∙ sym (get_stop store o' seg path c e)
    | inr e ↦
        get_byte store o seg path c e
        ∙ get_from-same o o' (seg ++ c ∷ []) path (rw⁻¹ (first_byte seg path c e) h)
        ∙ sym (get_byte store o' seg path c e)
  ]

  -- What is set under a path changes nothing that the store gives for a path with another first key,
  -- if the store is a hash.
  pub global_set-other :
      (lua : LuaLib) (base : Object) (path other : Bytes) (new : Object) (st st' : Stack)
      → is_hash base ≡ true
      → first_key [] path ≢ first_key [] other
      → global_get store lua (global_set store base (some path) new st).0 (some other) st'
        ≡ global_get store lua base (some other) st'
  unfolding global_get global_set
  global_set-other lua base path other new st st' h n =
      ap (λ (v : Option Value). push_found store lua v st')
        (get_from-same (set_from store base [] path new) base [] other
          (set_from-other base [] path (first_key [] other) new h n))
