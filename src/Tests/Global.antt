-- ===== src/Tests/Global.antt =====
-- Runs of wrapper/global.c.
use bspd.Common.{
  arith, ==_iff, ◌==◌, and_left, and_right, if_true, if_false, Bool-cases, inl, inr, ◌≡◌, ◌≢◌, refl,
  sym, ◌∙◌, ap, true, false, Option, none, some, [], ◌∷◌, if◌then◌else◌, Bytes, codes, pos,
}
use bspd.Json.Value.{Value, int, Object, undetermined, single, array, hash, Fields, end, field}
use bspd.Script.Push.{push_value}
use bspd.Wrapper.Global.{StoreLib, sub_object, stored, global_set, global_get}
use bspd.Wrapper.Global.Paths.{is_hash, StoreLaws, opens, global_get-global_set}
use bspd.Wrapper.Global.Others.{first_key, global_set-other}
use bspd.Tests.Clients.{same, same_refl}
use bspd.Tests.Conf.{entry}
use bspd.Tests.Lua.{lua}

-- The newest pair stands first.
abbrev cut : Fields → Bytes → Fields
cut end key = end
cut (field k v fs) key = let rest = cut fs key in if same k key then rest else field k v rest

abbrev value_in : Object → Bytes → Option Value
value_in (hash fs) key = entry fs key
value_in _ key = none

abbrev set_in : Object → Bytes → Option Value → Object
set_in (hash fs) key (some v) = hash (field key v fs)
set_in (hash fs) key none = hash (cut fs key)
set_in o key v = o

abbrev fields : StoreLib
fields = record { value_hash = value_in; set_hash = set_in }

same-eq : (s t : Bytes) → same s t ≡ true → s ≡ t
same-eq [] [] h = refl
same-eq [] (d ∷ t) h = cc
same-eq (c ∷ s) [] h = cc
same-eq (c ∷ s) (d ∷ t) h =
    let e = (==_iff c d).0 (and_left (c == d) (same s t) h) in
    rw (e, same-eq s t (and_right (c == d) (same s t) h)) refl

same-ne : (s t : Bytes) → s ≢ t → same s t ≡ false
same-ne s t h = elim (Bool-cases (same s t)) [ inl e ↦ absurd (h (same-eq s t e)) | inr e ↦ e ]

entry-cut : (fs : Fields) (k j : Bytes) → k ≢ j → entry (cut fs k) j ≡ entry fs j
entry-cut end k j h = refl
entry-cut (field x v fs) k j h = elim (Bool-cases (same x k)) [
  | inl e ↦
      ap (λ (f : Fields). entry f j) (if_true (same x k) _ _ e)
      ∙ entry-cut fs k j h
      ∙ sym (if_false (same x j) _ _ (same-ne x j (λ z. h (sym (same-eq x k e) ∙ z))))
  | inr e ↦
      ap (λ (f : Fields). entry f j) (if_false (same x k) _ _ e)
      ∙ ap (λ (o : Option Value). if same x j then some v else o) (entry-cut fs k j h)
]

set_in-is_hash :
    (o : Object) (k : Bytes) (v : Option Value) → is_hash o ≡ true → is_hash (set_in o k v) ≡ true
set_in-is_hash undetermined k v h = cc
set_in-is_hash (single w) k v h = cc
set_in-is_hash (array xs) k v h = cc
set_in-is_hash (hash fs) k none h = refl
set_in-is_hash (hash fs) k (some v) h = refl

value_in-set_in :
    (o : Object) (k : Bytes) (v : Value)
    → is_hash o ≡ true
    → value_in (set_in o k (some v)) k ≡ some v
value_in-set_in undetermined k v h = cc
value_in-set_in (single w) k v h = cc
value_in-set_in (array xs) k v h = cc
value_in-set_in (hash fs) k v h = if_true (same k k) _ _ (same_refl k)

value_in-set_in_other :
    (o : Object) (k j : Bytes) (v : Option Value)
    → is_hash o ≡ true
    → k ≢ j
    → value_in (set_in o k v) j ≡ value_in o j
value_in-set_in_other undetermined k j v h n = cc
value_in-set_in_other (single w) k j v h n = cc
value_in-set_in_other (array xs) k j v h n = cc
value_in-set_in_other (hash fs) k j none h n = entry-cut fs k j n
value_in-set_in_other (hash fs) k j (some v) h n = if_false (same k j) _ _ (same-ne k j n)

fields_laws : StoreLaws fields
fields_laws = record {
  value_hash-end = λ k. refl;
  set_hash-is_hash = set_in-is_hash;
  value_hash-set = value_in-set_in;
  value_hash-set_other = value_in-set_in_other;
}

abbrev shared : Object
shared = hash (field (codes "a") (int (pos 1)) end)

-- "a.b" takes the place of the number at "a".
global_get-global_set_example :
    global_get fields lua
      (global_set fields shared (some (codes "a.b")) (single (int (pos 5))) []).0
      (some (codes "a.b"))
      []
    ≡ push_value lua (stored (single (int (pos 5)))) []
unfolding opens sub_object
global_get-global_set_example =
    global_get-global_set fields fields_laws lua shared (codes "a.b") (single (int (pos 5))) [] []
      refl refl

global_set-other_example :
    global_get fields lua
      (global_set fields shared (some (codes "b.c")) (single (int (pos 5))) []).0
      (some (codes "a"))
      []
    ≡ global_get fields lua shared (some (codes "a")) []
unfolding first_key
global_set-other_example =
    global_set-other fields fields_laws lua shared (codes "b.c") (codes "a") (single (int (pos 5)))
      [] [] refl (λ e. ground arith)
