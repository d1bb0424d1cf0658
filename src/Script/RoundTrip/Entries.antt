-- ===== src/Script/RoundTrip/Entries.antt =====
-- Lists of entries up to their order, for the tables of server/script.c.
use mathlib.Core.List.{Permᴰ}
use bspd.Common.{suc, ◌≡◌, ◌∙◌, refl, ap, sym, List, [], ◌∷◌, length, All}
use mathlib.Core.Path.{subst}

module _ {ℓ} {A : Type ℓ} where
  pub length-Perm : {xs ys : List A} → Permᴰ xs ys → length xs ≡ length ys
  length-Perm Permᴰ.nil = refl
  length-Perm (Permᴰ.cons e p) = ap suc (length-Perm p)
  length-Perm (Permᴰ.swap e e') = refl
  length-Perm (Permᴰ.trans p q) = length-Perm p ∙ length-Perm q

  pub All-Perm {κ} : (P : A → Type κ) {xs ys : List A} → Permᴰ xs ys → All P ys → All P xs
  All-Perm P Permᴰ.nil h = h
  All-Perm P (Permᴰ.cons e p) h = (subst P (sym e) h.0, All-Perm P p h.1)
  All-Perm P (Permᴰ.swap e e') h = (subst P (sym e) h.1.0, (subst P (sym e') h.0, h.1.1))
  All-Perm P (Permᴰ.trans p q) h = All-Perm P p (All-Perm P q h)

module _ {A B : Type 0} where
  -- Two lists of one length, related place by place.
  pub data Pairwise (R : A → B → Type 0) : List A → List B → Type 0 where
    pairwise_nil : Pairwise R [] []
    pairwise_cons :
        {a : A} {b : B} {xs : List A} {ys : List B}
        → R a b
        → Pairwise R xs ys
        → Pairwise R (a ∷ xs) (b ∷ ys)

  -- The other list can be put in the same order.
  pub Pairwise-Perm :
      {R : A → B → Type 0} {xs ys : List A} {bs : List B}
      → Permᴰ xs ys
      → Pairwise R ys bs
      → (cs : List B) × Pairwise R xs cs × Permᴰ cs bs
  Pairwise-Perm Permᴰ.nil pairwise_nil = ([], pairwise_nil, Permᴰ.nil)
  Pairwise-Perm {R} (Permᴰ.cons e p) (pairwise_cons {b = b} r rs) =
      let rest = Pairwise-Perm p rs in
      (b ∷ rest.0, pairwise_cons (subst (λ a. R a b) (sym e) r) rest.1, Permᴰ.cons refl rest.2)
  Pairwise-Perm {R} (Permᴰ.swap e e')
        (pairwise_cons {b = b} r (pairwise_cons {b = c} {ys = bs} s rs)) =
      (
        c ∷ b ∷ bs,
        pairwise_cons (subst (λ a. R a c) (sym e) s)
            (pairwise_cons (subst (λ a. R a b) (sym e') r) rs),
        Permᴰ.swap refl refl,
      )
  Pairwise-Perm (Permᴰ.trans p q) rs =
      let second = Pairwise-Perm q rs in
      let first = Pairwise-Perm p second.1 in (first.0, first.1, Permᴰ.trans first.2 second.2)
