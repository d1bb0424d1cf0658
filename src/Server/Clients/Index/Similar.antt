-- ===== src/Server/Clients/Index/Similar.antt =====
-- Changes in server/clients.c that leave the dynamic channels where they are.
use mathlib.Core.Path.{subst}
use bspd.Common.{
  ℕ, ◌≡◌, refl, sym, ap, ◌∙◌, Bool, true, false, Bool-cases, inl, inr, Option, none, some, ◌==◌,
  ==_iff, if_true, if_false, if◌then◌else◌, arith,
}
use bspd.Server.Clients.{
  HashLib, Channel, World, assign, list_or_new, with_id, add_joined, join_with, join_channel,
}
use bspd.Server.Clients.Index.{IsIndexed}
use bspd.Server.Session.{Session}
use bspd.Server.Status.{Rtn, rtn_success, rtn_err_general}
use bspd.Server.Task.{Ptr, null_ptr}

module _ (lib : HashLib) where
  -- The same channel, but for its members, or none.
  abbrev pub SameChannel : Option (Channel lib) → Option (Channel lib) → Type 0
  SameChannel none none = Unit {0}
  SameChannel (some c) (some c') = (c'.id ≡ c.id) × (c'.type_of ≡ c.type_of)
  SameChannel none (some c) = ⊥
  SameChannel (some c) none = ⊥

  pub SameChannel-refl : (o : Option (Channel lib)) → SameChannel o o
  SameChannel-refl none = tt
  SameChannel-refl (some c) = (refl, refl)

  -- Another world with the same places and the same channels.
  pub record Similar (w w' : World lib) : Type 0 where
    pub list : (i : ℕ) → w'.dynamic_list i ≡ w.dynamic_list i
    pub size : w'.dynamic_list_size ≡ w.dynamic_list_size
    pub next_id : w'.next_dynamic_id ≡ w.next_dynamic_id
    pub channels : (p : Ptr) → SameChannel (w.channels p) (w'.channels p)

  pub Similar-refl : (w : World lib) → Similar w w
  Similar-refl w = record {
    list = λ i. refl;
    size = refl;
    next_id = refl;
    channels = λ p. SameChannel-refl (w.channels p);
  }

  pub SameChannel-assign :
      (cell : Ptr → Option (Channel lib)) (p q : Ptr) (c c' : Channel lib)
      → cell p ≡ some c
      → c'.id ≡ c.id
      → c'.type_of ≡ c.type_of
      → SameChannel (cell q) (assign cell p (some c') q)
  unfolding assign
  SameChannel-assign cell p q c c' h i t = elim (Bool-cases (q == p)) [
    | inl e ↦
        let at : cell q ≡ some c = ap cell ((==_iff q p).0 e) ∙ h in
        subst (λ o. SameChannel o (assign cell p (some c') q)) (sym at)
          (subst (λ o. SameChannel (some c) o) (sym (if_true (q == p) (some c') (cell q) e)) (i, t))
    | inr e ↦
        subst (λ o. SameChannel (cell q) o) (sym (if_false (q == p) (some c') (cell q) e))
          (SameChannel-refl (cell q))
  ]

  -- Of a call that returns: what it leaves.
  abbrev pub Leaves : {A : Type 0} → (World lib → Type 0) → Option (A × World lib) → Type 0
  Leaves P none = Unit {0}
  Leaves P (some (a, w)) = P w

  pub Leaves-some :
      {A : Type 0} (P : World lib → Type 0) (o : Option (A × World lib)) (a : A) (w : World lib)
      → Leaves P o
      → o ≡ some (a, w)
      → P w
  Leaves-some {A = A} P o a w h e = subst (Leaves {A = A} P) e h

  join_with-Similar :
      (w : World lib) (channel session : Ptr) (c : Channel lib) (s : Session)
      → w.channels channel ≡ some c
      → Similar w (join_with lib w channel c session s).1
  unfolding join_with
  join_with-Similar w channel session c s h =
      elim (with_id lib s)
        as (λ o.
          Similar w
            (elim o as (λ x. Rtn × World lib) [
              | none ↦ (
                rtn_err_general,
                record w {
                  channels =
                      assign w.channels channel
                        (some (record c { list = some (list_or_new lib c.list) }));
                },
              )
              | some s' ↦ (
                rtn_success,
                record w {
                  channels = assign w.channels channel (
                      some (record c {
                        list = some (lib.set (list_or_new lib c.list) s'.session_id session);
                      }));
                  sessions = assign w.sessions session (some (add_joined lib s' channel));
                },
              )
            ]).1) [
              | none ↦ record {
                list = λ i. refl;
                size = refl;
                next_id = refl;
                channels = λ q.
                    SameChannel-assign w.channels channel q c
                      (record c { list = some (list_or_new lib c.list) }) h refl refl;
              }
              | some s' ↦ record {
                list = λ i. refl;
                size = refl;
                next_id = refl;
                channels = λ q.
                    SameChannel-assign w.channels channel q c
                      (record c {
                        list = some (lib.set (list_or_new lib c.list) s'.session_id session);
                      })
                      h refl refl;
              }
            ]

  pub Leaves-if :
      {A : Type 0} (P : World lib → Type 0) (b : Bool) (x y : Option (A × World lib))
      → Leaves P x
      → Leaves P y
      → Leaves P (if b then x else y)
  Leaves-if P true x y h k = h
  Leaves-if P false x y h k = k

  pub Leaves-elim :
      {A B : Type 0} (P : World lib → Type 0) (o : Option B) (f : B → Option (A × World lib))
      → ((b : B) → o ≡ some b → Leaves P (f b))
      → Leaves P (elim o [ none ↦ none | some b ↦ f b ])
  Leaves-elim P none f h = tt
  Leaves-elim P (some b) f h = h b refl

  pub Leaves-cases :
      {A B : Type 0} (P : World lib → Type 0) (o : Option B) (x : Option (A × World lib))
      (f : B → Option (A × World lib))
      → Leaves P x
      → ((b : B) → o ≡ some b → Leaves P (f b))
      → Leaves P (elim o [ none ↦ x | some b ↦ f b ])
  Leaves-cases P none x f k h = k
  Leaves-cases P (some b) x f k h = h b refl

  join_channel-Similar :
      (channel session : Ptr) (w : World lib)
      → Leaves (Similar w) (join_channel lib channel session w)
  unfolding join_channel
  join_channel-Similar channel session w =
      Leaves-if (Similar w) (channel == null_ptr) _ _ (Similar-refl w) (
        Leaves-if (Similar w) (session == null_ptr) _ _ (Similar-refl w) (
          Leaves-elim (Similar w) (w.channels channel) _ (λ c h.
            Leaves-elim (Similar w) (w.sessions session) _
              (λ s k. join_with-Similar w channel session c s h))))

  SameChannel-left :
      (o o' : Option (Channel lib)) (c : Channel lib)
      → SameChannel o o'
      → o ≡ some c
      → (c' : Channel lib) × (o' ≡ some c') × (c'.id ≡ c.id) × (c'.type_of ≡ c.type_of)
  SameChannel-left none o' c h e = cc
  SameChannel-left (some d) none c h e = absurd h
  SameChannel-left (some d) (some d') c h e = (d', refl, ground (arith, e), ground (arith, e))

  SameChannel-right :
      (o o' : Option (Channel lib)) (c' : Channel lib)
      → SameChannel o o'
      → o' ≡ some c'
      → (c : Channel lib) × (o ≡ some c) × (c'.id ≡ c.id) × (c'.type_of ≡ c.type_of)
  SameChannel-right none none c' h e = cc
  SameChannel-right none (some d') c' h e = absurd h
  SameChannel-right (some d) none c' h e = absurd h
  SameChannel-right (some d) (some d') c' h e = (d, refl, ground (arith, e), ground (arith, e))

  SameChannel-none : (o o' : Option (Channel lib)) → SameChannel o o' → o ≡ none → o' ≡ none
  SameChannel-none none none h e = refl
  SameChannel-none none (some c) h e = absurd h
  SameChannel-none (some c) o' h e = cc

  pub Similar-IsIndexed : (w w' : World lib) → IsIndexed lib w → Similar w w' → IsIndexed lib w'
  Similar-IsIndexed w w' v s = record {
    listed = λ i lt ne.
        let e = s.list i in
        let (c, at, ci, ct) = v.listed i (rw s.size at lt) (λ z. ne (e ∙ z)) in
        let (c', at', i', t') =
          SameChannel-left (w.channels (w.dynamic_list i)) (w'.channels (w.dynamic_list i)) c
            (s.channels (w.dynamic_list i)) at in
        (c', ap w'.channels e ∙ at', i' ∙ ci, t' ∙ ct);
    placed = λ p c' at' t'.
        let (c, at, ci, ct) =
          SameChannel-right (w.channels p) (w'.channels p) c' (s.channels p) at' in
        let (lt, e) = v.placed p c at (sym ct ∙ t') in
        (omega (arith, s.size, ci, lt), s.list c'.id ∙ ap w.dynamic_list ci ∙ e);
    no_null =
        SameChannel-none (w.channels null_ptr) (w'.channels null_ptr) (s.channels null_ptr)
          v.no_null;
    place = record {
      in_range = omega (arith, s.size, s.next_id, v.place.in_range);
      is_empty = s.list w'.next_dynamic_id ∙ ap w.dynamic_list s.next_id ∙ v.place.is_empty;
    };
  }

  Similar-Leaves :
      (w : World lib) (o : Option (Rtn × World lib))
      → IsIndexed lib w
      → Leaves (Similar w) o
      → Leaves (IsIndexed lib) o
  Similar-Leaves w none v h = tt
  Similar-Leaves w (some (code, w')) v h = Similar-IsIndexed w w' v h

  pub join_channel-IsIndexed :
      (channel session : Ptr) (w : World lib)
      → IsIndexed lib w
      → Leaves (IsIndexed lib) (join_channel lib channel session w)
  join_channel-IsIndexed channel session w v =
      Similar-Leaves w (join_channel lib channel session w) v
        (join_channel-Similar channel session w)
