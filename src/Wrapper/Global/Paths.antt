-- ===== src/Wrapper/Global/Paths.antt =====
-- What the store of wrapper/global.c finds after something was set.
use bspd.Common.{
  ℕ, ◌≡◌, ◌≢◌, refl, sym, ◌∙◌, ap, Bool, true, false, not, ◌&&◌, and_left, and_right, if_true,
  if_false, Bool-cases, inl, inr, Option, none, some, [], ◌∷◌, ◌++◌, ◌==◌, if◌then◌else◌, Bytes,
  arith,
}
use bspd.Json.Value.{Value, object, Object, hash, end}
use bspd.Script.Lua.{Stack, LuaLib}
use bspd.Script.Push.{push_value, object_to_lua}
use bspd.Wrapper.Global.{
  StoreLib, sub_object, stored, without, set_last, set_end, put_sub, sub_or_new, on_sub, set_from,
  global_set, get_from, push_found, global_get,
}

abbrev pub is_hash : Object → Bool
is_hash (hash fs) = true
is_hash _ = false

-- How libbsp's hashes behave.
pub record StoreLaws (store : StoreLib) : Type 0 where
  pub value_hash-end : (k : Bytes) → store.value_hash (hash end) k ≡ none
  pub set_hash-is_hash :
      (o : Object) (k : Bytes) (v : Option Value)
      → is_hash o ≡ true
      → is_hash (store.set_hash o k v) ≡ true
  pub value_hash-set :
      (o : Object) (k : Bytes) (v : Value)
      → is_hash o ≡ true
      → store.value_hash (store.set_hash o k (some v)) k ≡ some v
  pub value_hash-set_other :
      (o : Object) (k j : Bytes) (v : Option Value)
      → is_hash o ≡ true
      → k ≢ j
      → store.value_hash (store.set_hash o k v) j ≡ store.value_hash o j

-- The path does not end with a full stop, and is not empty; `started` is whether its last key has a
-- byte already.
abbrev pub is_named : Bool → Bytes → Bool
is_named started [] = started
is_named started (c ∷ path) = is_named (not (c == b'.')) path

abbrev pub is_started : Bytes → Bool
is_started [] = false
is_started (c ∷ seg) = true

started-snoc : (seg : Bytes) (c : ℕ) → is_started (seg ++ c ∷ []) ≡ true
started-snoc [] c = refl
started-snoc (x ∷ seg) c = refl

module _ (store : StoreLib) where
  -- Each object on the way of the path is a hash.
  unfoldable pub opens : Object → Bytes → Bytes → Bool
  opens obj seg [] = is_hash obj
  opens obj seg (c ∷ path) =
      let more = opens obj (seg ++ c ∷ []) path in
      if c == b'.'
      then is_hash obj
        && on_sub true (λ (sub : Object). opens sub [] path) (sub_object (store.value_hash obj seg))
      else more

  opens_stop :
      (obj : Object) (seg path : Bytes) (c : ℕ)
      → (c == b'.') ≡ true
      → opens obj seg (c ∷ path) ≡ (
          is_hash obj
          && on_sub true
              (λ (sub : Object). opens sub [] path)
              (sub_object (store.value_hash obj seg)))
  unfolding opens
  opens_stop obj seg path c e = if_true (c == b'.') _ _ e

  opens_byte :
      (obj : Object) (seg path : Bytes) (c : ℕ)
      → (c == b'.') ≡ false
      → opens obj seg (c ∷ path) ≡ opens obj (seg ++ c ∷ []) path
  unfolding opens
  opens_byte obj seg path c e = if_false (c == b'.') _ _ e

  pub set_stop :
      (obj : Object) (seg path : Bytes) (c : ℕ) (new : Object)
      → (c == b'.') ≡ true
      → set_from store obj seg (c ∷ path) new
        ≡ put_sub store obj seg
            (sub_object (store.value_hash obj seg))
            (set_from store (sub_or_new (sub_object (store.value_hash obj seg))) [] path new)
  unfolding set_from
  set_stop obj seg path c new e = if_true (c == b'.') _ _ e

  pub set_byte :
      (obj : Object) (seg path : Bytes) (c : ℕ) (new : Object)
      → (c == b'.') ≡ false
      → set_from store obj seg (c ∷ path) new ≡ set_from store obj (seg ++ c ∷ []) path new
  unfolding set_from
  set_byte obj seg path c new e = if_false (c == b'.') _ _ e

  pub get_stop :
      (obj : Object) (seg path : Bytes) (c : ℕ)
      → (c == b'.') ≡ true
      → get_from store obj seg (c ∷ path)
        ≡ on_sub none
            (λ (sub : Object). get_from store sub [] path)
            (sub_object (store.value_hash obj seg))
  unfolding get_from
  get_stop obj seg path c e = if_true (c == b'.') _ _ e

  pub get_byte :
      (obj : Object) (seg path : Bytes) (c : ℕ)
      → (c == b'.') ≡ false
      → get_from store obj seg (c ∷ path) ≡ get_from store obj (seg ++ c ∷ []) path
  unfolding get_from
  get_byte obj seg path c e = if_false (c == b'.') _ _ e

  opens-is_hash : (obj : Object) (seg path : Bytes) → opens obj seg path ≡ true → is_hash obj ≡ true
  unfolding opens
  opens-is_hash obj seg [] h = h
  opens-is_hash obj seg (c ∷ path) h = elim (Bool-cases (c == b'.')) [
    | inl e ↦ and_left _ _ (sym (opens_stop obj seg path c e) ∙ h)
    | inr e ↦ opens-is_hash obj (seg ++ c ∷ []) path (sym (opens_byte obj seg path c e) ∙ h)
  ]

  module _ (laws : StoreLaws store) where
    opens_new : (seg path : Bytes) → opens (hash end) seg path ≡ true
    unfolding opens sub_object
    opens_new seg [] = refl
    opens_new seg (c ∷ path) = elim (Bool-cases (c == b'.')) [
      | inl e ↦
          opens_stop (hash end) seg path c e
          ∙ ap
              (λ (v : Option Value).
                on_sub true (λ (sub : Object). opens sub [] path) (sub_object v))
              (laws.value_hash-end seg)
      | inr e ↦ opens_byte (hash end) seg path c e ∙ opens_new (seg ++ c ∷ []) path
    ]

    pub without-is_hash :
        (o : Object) (k : Bytes) → is_hash o ≡ true → is_hash (without store o k) ≡ true
    unfolding without
    without-is_hash o k h = ground (arith, laws.set_hash-is_hash o k none h)

    set_last-value_hash :
        (o : Object) (k : Bytes) (new : Object)
        → is_hash o ≡ true
        → store.value_hash (set_last store o k new) k ≡ some (stored new)
    unfolding set_last
    set_last-value_hash o k new h =
        laws.value_hash-set (without store o k) k (stored new) (without-is_hash o k h)

    put_sub-value_hash :
        (o : Object) (k : Bytes) (old : Option Object) (sub : Object)
        → is_hash o ≡ true
        → store.value_hash (put_sub store o k old sub) k ≡ some (object sub)
    unfolding put_sub
    put_sub-value_hash o k none sub h =
        laws.value_hash-set (without store o k) k (object sub) (without-is_hash o k h)
    put_sub-value_hash o k (some old) sub h = laws.value_hash-set o k (object sub) h

    open_below :
        (obj : Object) (seg path : Bytes) (c : ℕ)
        → (c == b'.') ≡ true
        → opens obj seg (c ∷ path) ≡ true
        → opens (sub_or_new (sub_object (store.value_hash obj seg))) [] path ≡ true
    unfolding sub_or_new
    open_below obj seg path c e h =
        by_sub (sub_object (store.value_hash obj seg))
          (and_right _ _ (sym (opens_stop obj seg path c e) ∙ h))
      where
        by_sub :
            (o : Option Object)
            → on_sub true (λ (sub : Object). opens sub [] path) o ≡ true
            → opens (sub_or_new o) [] path ≡ true
        by_sub none g = opens_new [] path
        by_sub (some sub) g = g

    get_below :
        (obj : Object) (seg path : Bytes) (c : ℕ) (sub : Object)
        → (c == b'.') ≡ true
        → is_hash obj ≡ true
        → get_from store
            (put_sub store obj seg (sub_object (store.value_hash obj seg)) sub)
            seg
            (c ∷ path)
          ≡ get_from store sub [] path
    unfolding sub_object
    get_below obj seg path c sub e h =
        get_stop (put_sub store obj seg (sub_object (store.value_hash obj seg)) sub) seg path c e
        ∙ ap
            (λ (v : Option Value).
              on_sub none (λ (o : Object). get_from store o [] path) (sub_object v))
            (put_sub-value_hash obj seg (sub_object (store.value_hash obj seg)) sub h)

    is_named-rest :
        (seg path : Bytes) (c : ℕ) (b : Bool)
        → (c == b'.') ≡ b
        → is_named (is_started seg) (c ∷ path) ≡ true
        → is_named (not b) path ≡ true
    is_named-rest seg path c b e n = sym (ap (λ (x : Bool). is_named (not x) path) e) ∙ n

    get_from-set_end :
        (obj : Object) (seg : Bytes) (new : Object)
        → is_hash obj ≡ true
        → is_started seg ≡ true
        → get_from store (set_from store obj seg [] new) seg [] ≡ some (stored new)
    unfolding get_from set_from set_end
    get_from-set_end obj [] new h n = cc
    get_from-set_end obj (x ∷ seg) new h n = set_last-value_hash obj (x ∷ seg) new h

    get_from-set_from :
        (obj : Object) (seg path : Bytes) (new : Object)
        → opens obj seg path ≡ true
        → is_named (is_started seg) path ≡ true
        → get_from store (set_from store obj seg path new) seg path ≡ some (stored new)
    get_from-set_from obj seg [] new h n =
        get_from-set_end obj seg new (opens-is_hash obj seg [] h) n
    get_from-set_from obj seg (c ∷ path) new h n = elim (Bool-cases (c == b'.')) [
      | inl e ↦
          let sub = sub_or_new (sub_object (store.value_hash obj seg)) in
          ap (λ (o : Object). get_from store o seg (c ∷ path)) (set_stop obj seg path c new e)
          ∙ get_below obj seg path c (set_from store sub [] path new) e
              (opens-is_hash obj seg (c ∷ path) h)
          ∙ get_from-set_from sub [] path new (open_below obj seg path c e h)
              (is_named-rest seg path c true e n)
      | inr e ↦
          ap (λ (o : Object). get_from store o seg (c ∷ path)) (set_byte obj seg path c new e)
          ∙ get_byte (set_from store obj (seg ++ c ∷ []) path new) seg path c e
          ∙ get_from-set_from obj (seg ++ c ∷ []) path new (sym (opens_byte obj seg path c e) ∙ h) (
              ap (λ (b : Bool). is_named b path) (started-snoc seg c)
              ∙ is_named-rest seg path c false e n)
    ]

    -- What was set under a path is what the store gives to Lua for that path, if the path is neither
    -- empty nor ends with a full stop, and each object on its way is a hash.
    pub global_get-global_set :
        (lua : LuaLib) (base : Object) (path : Bytes) (new : Object) (st st' : Stack)
        → opens base [] path ≡ true
        → is_named false path ≡ true
        → global_get store lua (global_set store base (some path) new st).0 (some path) st'
          ≡ push_value lua (stored new) st'
    unfolding global_get global_set push_found object_to_lua push_value
    global_get-global_set lua base path new st st' h n =
        ap (λ (v : Option Value). push_found store lua v st')
          (get_from-set_from base [] path new h n)
