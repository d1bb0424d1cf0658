-- ===== src/Server/Clients/Index/Freed.antt =====
-- What deleting a channel of server/clients.c leaves of the places of the dynamic channels.
use mathlib.Core.Path.{subst}
use bspd.Common.{
  ℕ, ◌<◌, ◌≡◌, ◌≢◌, refl, sym, ap, ◌∙◌, Bool-cases, inl, inr, Option, none, some, ◌==◌, ==_iff, ltb,
  if_true, if_false, if◌then◌else◌, arith,
}
use bspd.Server.Clients.{
  HashLib, ChannelType, all, global, static, dynamic, Channel, World, assign, release, unlist,
  free_channel, del_channel,
}
use bspd.Server.Clients.Index.{IsIndexed}
use bspd.Server.Clients.Index.Similar.{Leaves, Leaves-if, Leaves-elim}
use bspd.Server.Clients.New.{HasPlace}
use bspd.Server.Task.{Ptr, null_ptr}

pub assign_kept :
    {A : Type 0} (cell : Ptr → Option A) (p q : Ptr) (a : A)
    → q ≢ p
    → cell q ≡ some a
    → assign cell p none q ≡ some a
unfolding assign
assign_kept cell p q a ne e = elim (Bool-cases (q == p)) [
  | inl z ↦ absurd (ne ((==_iff q p).0 z))
  | inr z ↦ if_false (q == p) none (cell q) z ∙ e
]

assign-some :
    {A : Type 0} (cell : Ptr → Option A) (p q : Ptr) (a : A)
    → assign cell p none q ≡ some a
    → (q ≢ p) × (cell q ≡ some a)
unfolding assign
assign-some cell p q a h = elim (Bool-cases (q == p)) [
  | inl z ↦ cc (h, if_true (q == p) none (cell q) z)
  | inr z ↦ (λ e. cc (z, (==_iff q p).1 e), sym (if_false (q == p) none (cell q) z) ∙ h)
]

pub assign-none :
    {A : Type 0} (cell : Ptr → Option A) (p q : Ptr) → cell q ≡ none → assign cell p none q ≡ none
unfolding assign
assign-none cell p q e = elim (Bool-cases (q == p)) [
  | inl z ↦ if_true (q == p) none (cell q) z
  | inr z ↦ if_false (q == p) none (cell q) z ∙ e
]

module _ (lib : HashLib) where
  apart :
      (w : World lib) (p q : Ptr) (c d : Channel lib)
      → w.channels p ≡ some c
      → w.channels q ≡ some d
      → c.type_of ≢ d.type_of
      → p ≢ q
  apart w p q c d h k ne e = ne (ground (arith, h, k, ap w.channels e))

  -- A channel of another type is at no place.
  freed-IsIndexed :
      (w : World lib) (channel : Ptr) (c : Channel lib) (static_list : lib.Hash)
      → IsIndexed lib w
      → w.channels channel ≡ some c
      → c.type_of ≢ dynamic
      → IsIndexed lib
          (record w { static_list = static_list; channels = assign w.channels channel none })
  freed-IsIndexed w channel c static_list v h other = record {
    listed = λ i lt ne.
        let (d, at, di, dt) = v.listed i lt ne in
        (
          d,
          assign_kept w.channels channel (w.dynamic_list i) d
              (apart w (w.dynamic_list i) channel d c at h (λ e. other (sym e ∙ dt))) at,
          di,
          dt,
        );
    placed = λ p d at dt. v.placed p d (assign-some w.channels channel p d at).1 dt;
    no_null = assign-none w.channels channel null_ptr v.no_null;
    place = record { in_range = v.place.in_range; is_empty = v.place.is_empty };
  }

  -- The place of a dynamic channel becomes empty.
  abbrev emptied : World lib → Ptr → Channel lib → World lib
  emptied w channel c = record w {
    dynamic_list = λ n. if n == c.id then null_ptr else w.dynamic_list n;
    next_dynamic_id = (if ltb c.id w.next_dynamic_id then c.id else w.next_dynamic_id);
    channels = assign w.channels channel none;
  }

  emptied_at :
      (w : World lib) (channel : Ptr) (c : Channel lib) (n : ℕ)
      → w.dynamic_list n ≡ null_ptr
      → (emptied w channel c).dynamic_list n ≡ null_ptr
  emptied_at w channel c n e = elim (Bool-cases (n == c.id)) [
    | inl z ↦ if_true (n == c.id) null_ptr (w.dynamic_list n) z
    | inr z ↦ if_false (n == c.id) null_ptr (w.dynamic_list n) z ∙ e
  ]

  emptied_place :
      (w : World lib) (channel : Ptr) (c : Channel lib)
      → IsIndexed lib w
      → w.channels channel ≡ some c
      → c.type_of ≡ dynamic
      → HasPlace lib (emptied w channel c)
  emptied_place w channel c v h t = elim (Bool-cases (ltb c.id w.next_dynamic_id)) [
    | inl e ↦
        let n = if_true (ltb c.id w.next_dynamic_id) c.id w.next_dynamic_id e in
        record {
          in_range = subst (λ k. k < w.dynamic_list_size) (sym n) (v.placed channel c h t).0;
          is_empty =
              ap (emptied w channel c).dynamic_list n
              ∙ if_true (c.id == c.id) null_ptr (w.dynamic_list c.id) ((==_iff c.id c.id).1 refl);
        }
    | inr e ↦
        let n = if_false (ltb c.id w.next_dynamic_id) c.id w.next_dynamic_id e in
        record {
          in_range = subst (λ k. k < w.dynamic_list_size) (sym n) v.place.in_range;
          is_empty =
              ap (emptied w channel c).dynamic_list n
              ∙ emptied_at w channel c w.next_dynamic_id v.place.is_empty;
        }
  ]

  released :
      (w : World lib) (channel : Ptr) (c : Channel lib)
      → IsIndexed lib w
      → w.channels channel ≡ some c
      → c.type_of ≡ dynamic
      → release lib w channel c ≡ record w {
        dynamic_list = λ n. if n == c.id then null_ptr else w.dynamic_list n;
        next_dynamic_id = (if ltb c.id w.next_dynamic_id then c.id else w.next_dynamic_id);
      }
  unfolding release
  released w channel c v h t =
      if_true (w.dynamic_list c.id == channel) _ _
        ((==_iff (w.dynamic_list c.id) channel).1 (v.placed channel c h t).1)

  emptied-IsIndexed :
      (w : World lib) (channel : Ptr) (c : Channel lib)
      → IsIndexed lib w
      → w.channels channel ≡ some c
      → c.type_of ≡ dynamic
      → IsIndexed lib (emptied w channel c)
  emptied-IsIndexed w channel c v h t = record {
    listed = λ i lt ne. elim (Bool-cases (i == c.id)) [
      | inl e ↦ absurd (ne (if_true (i == c.id) null_ptr (w.dynamic_list i) e))
      | inr e ↦
          let same = if_false (i == c.id) null_ptr (w.dynamic_list i) e in
          let (d, at, di, dt) = v.listed i lt (λ z. ne (same ∙ z)) in
          let away : w.dynamic_list i ≢ channel =
            λ z. cc (e, (==_iff i c.id).1 (ground (arith, at, h, di, ap w.channels z))) in
          (
            d,
            ap (assign w.channels channel none) same
                ∙ assign_kept w.channels channel (w.dynamic_list i) d away at,
            di,
            dt,
          )
    ];
    placed = λ p d at dt.
        let (away, kept) = assign-some w.channels channel p d at in
        let (lt, e) = v.placed p d kept dt in
        let mine = (v.placed channel c h t).1 in
        (
          lt,
          elim (Bool-cases (d.id == c.id)) [
            | inl z ↦ absurd (away (sym e ∙ ap w.dynamic_list ((==_iff d.id c.id).0 z) ∙ mine))
            | inr z ↦ if_false (d.id == c.id) null_ptr (w.dynamic_list d.id) z ∙ e
          ],
        );
    no_null = assign-none w.channels channel null_ptr v.no_null;
    place = emptied_place w channel c v h t;
  }

  unlist-IsIndexed :
      (w : World lib) (channel : Ptr) (c : Channel lib) (type : ChannelType)
      → IsIndexed lib w
      → w.channels channel ≡ some c
      → c.type_of ≡ type
      → IsIndexed lib (free_channel lib (unlist lib w channel c type) channel)
  unfolding unlist free_channel
  unlist-IsIndexed w channel c all v h t = freed-IsIndexed w channel c w.static_list v h (λ e. cc)
  unlist-IsIndexed w channel c global v h t =
      freed-IsIndexed w channel c w.static_list v h (λ e. cc)
  unlist-IsIndexed w channel c static v h t =
      freed-IsIndexed w channel c (lib.unset w.static_list c.name) v h (λ e. cc)
  unlist-IsIndexed w channel c dynamic v h t =
      subst (λ x. IsIndexed lib (free_channel lib x channel)) (sym (released w channel c v h t))
        (emptied-IsIndexed w channel c v h t)

  pub del_channel-IsIndexed :
      (channel : Ptr) (w : World lib)
      → IsIndexed lib w
      → Leaves lib (IsIndexed lib) (del_channel lib channel w)
  unfolding del_channel
  del_channel-IsIndexed channel w v = Leaves-if lib (IsIndexed lib) (channel == null_ptr) _ _ v (
      Leaves-if lib (IsIndexed lib) (channel == w.global_channel) _ _ v (
        Leaves-elim lib (IsIndexed lib) (w.channels channel) _
          (λ c h. unlist-IsIndexed w channel c c.type_of v h refl)))
