-- ===== src/Server/Clients/Index/Named.antt =====
-- What a new named channel of server/clients.c leaves of the places of the dynamic channels.
use bspd.Common.{
  ◌≡◌, ◌≢◌, refl, sym, ap, ◌∙◌, Bool-cases, inl, inr, Option, none, some, ◌==◌, ==_iff, Bytes, take,
  arith,
}
use bspd.Server.Clients.{
  HashLib, ChannelType, all, global, static, dynamic, Channel, World, assign, release, unlist,
  free_channel, del_channel, put_static, add_static,
}
use bspd.Server.Clients.Index.{IsIndexed}
use bspd.Server.Clients.Index.Freed.{assign-none, del_channel-IsIndexed}
use bspd.Server.Clients.Index.Similar.{Leaves, Leaves-if, Leaves-elim, Leaves-cases}
use bspd.Server.Clients.Logged.{assign_same, assign_other}
use bspd.Server.Status.{Rtn}
use bspd.Server.Task.{Ptr, null_ptr}

module _ (lib : HashLib) where
  -- The block `p` is not in use.
  record Fresh (p : Ptr) (w : World lib) : Type 0 where
    indexed : IsIndexed lib w
    unused : w.channels p ≡ none

  abbrev named : Bytes → Channel lib
  named name = record { id = 0; name = take 63 name; type_of = static; list = none }

  put_static-IsIndexed :
      (p : Ptr) (name : Bytes) (w : World lib)
      → p ≢ null_ptr
      → Fresh p w
      → IsIndexed lib (put_static lib p name w)
  unfolding put_static
  put_static-IsIndexed p name w nn f = record {
    listed = λ i lt ne.
        let (d, at, di, dt) = f.indexed.listed i lt ne in
        let away : w.dynamic_list i ≢ p = λ e. cc (at, f.unused, ap w.channels e) in
        (d, assign_other w.channels p (w.dynamic_list i) (some (named name)) away ∙ at, di, dt);
    placed = λ q c at t. elim (Bool-cases (q == p)) [
      | inl z ↦
          let c_is : some (named name) ≡ some c =
            sym (assign_same w.channels p (some (named name)))
            ∙ ap (assign w.channels p (some (named name))) (sym ((==_iff q p).0 z))
            ∙ at in
          absurd (ground (arith, c_is, t))
      | inr z ↦
          let away : q ≢ p = λ k. cc (z, (==_iff q p).1 k) in
          f.indexed.placed q c (sym (assign_other w.channels p q (some (named name)) away) ∙ at) t
    ];
    no_null =
        assign_other w.channels p null_ptr (some (named name)) (λ k. nn (sym k))
        ∙ f.indexed.no_null;
    place = record { in_range = f.indexed.place.in_range; is_empty = f.indexed.place.is_empty };
  }

  unlist_channels :
      (w : World lib) (channel : Ptr) (c : Channel lib) (type : ChannelType)
      → (unlist lib w channel c type).channels ≡ w.channels
  unfolding unlist release
  unlist_channels w channel c dynamic = ground arith
  unlist_channels w channel c static = refl
  unlist_channels w channel c all = refl
  unlist_channels w channel c global = refl

  free_channel_unused :
      (p channel : Ptr) (w x : World lib)
      → x.channels ≡ w.channels
      → w.channels p ≡ none
      → (free_channel lib x channel).channels p ≡ none
  unfolding free_channel
  free_channel_unused p channel w x e free =
      assign-none x.channels channel p (ap (λ f. f p) e ∙ free)

  del_channel_unused :
      (p channel : Ptr) (w : World lib)
      → w.channels p ≡ none
      → Leaves lib (λ x. x.channels p ≡ none) (del_channel lib channel w)
  unfolding del_channel
  del_channel_unused p channel w free =
      Leaves-if lib (λ x. x.channels p ≡ none) (channel == null_ptr) _ _ free
        (Leaves-if lib (λ x. x.channels p ≡ none) (channel == w.global_channel) _ _ free
          (Leaves-elim lib (λ x. x.channels p ≡ none) (w.channels channel) _
            (λ c h.
              free_channel_unused p channel w (unlist lib w channel c c.type_of)
                (unlist_channels w channel c c.type_of) free)))

  put_after-IsIndexed :
      (p : Ptr) (name : Bytes) (o : Option (Rtn × World lib))
      → p ≢ null_ptr
      → Leaves lib (IsIndexed lib) o
      → Leaves lib (λ x. x.channels p ≡ none) o
      → Leaves lib (IsIndexed lib) (elim o as (λ x. Option (Ptr × World lib)) [
        | none ↦ none
        | some (code, w') ↦ some (p, put_static lib p name w')
      ])
  put_after-IsIndexed p name none nn v free = tt
  put_after-IsIndexed p name (some (code, w')) nn v free =
      put_static-IsIndexed p name w' nn (record { indexed = v; unused = free })

  pub add_static-IsIndexed :
      (p : Ptr) (name : Bytes) (w : World lib)
      → IsIndexed lib w
      → p ≢ null_ptr
      → w.channels p ≡ none
      → Leaves lib (IsIndexed lib) (add_static lib p name w)
  unfolding add_static
  add_static-IsIndexed p name w v nn free =
      let put = put_static-IsIndexed p name w nn (record { indexed = v; unused = free }) in
      Leaves-cases lib (IsIndexed lib) (lib.find (some w.static_list) name) _ _ put (λ old e.
        Leaves-if lib (IsIndexed lib) (old == null_ptr) _ _ put (
          put_after-IsIndexed p name (del_channel lib old w) nn (del_channel-IsIndexed lib old w v)
            (del_channel_unused p old w free)))
