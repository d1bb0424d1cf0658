-- ===== src/Server/Clients/Index/Quit.antt =====
-- What leaving a channel of server/clients.c makes of the places of the dynamic channels.
use bspd.Common.{ℕ, zero, suc, ◌≡◌, refl, Option, none, some, [], ◌∷◌, ◌==◌, Bytes}
use bspd.Server.Clients.{
  HashLib, del_channel, ChannelType, all, global, static, dynamic, Channel, World, assign,
  after_quit, quit_listed, quit_with, quit_channel,
}
use bspd.Server.Clients.Index.{IsIndexed}
use bspd.Server.Clients.Index.Freed.{del_channel-IsIndexed}
use bspd.Server.Clients.Index.Similar.{
  Leaves, Leaves-if, Leaves-elim, Leaves-cases, SameChannel-assign, Similar-IsIndexed,
}
use bspd.Server.Status.{Rtn, rtn_success}
use bspd.Server.Task.{Ptr, null_ptr}

module _ (lib : HashLib) where
  after_success-IsIndexed :
      (o : Option (Rtn × World lib))
      → Leaves lib (IsIndexed lib) o
      → Leaves lib (IsIndexed lib) (elim o as (λ x. Option (Rtn × World lib)) [
        | none ↦ none
        | some (code, w') ↦ some (rtn_success, w')
      ])
  after_success-IsIndexed none h = tt
  after_success-IsIndexed (some (code, w)) h = h

  after_quit-IsIndexed :
      (channel : Ptr) (type : ChannelType) (n : ℕ) (w : World lib)
      → IsIndexed lib w
      → Leaves lib (IsIndexed lib) (after_quit lib channel type n w)
  unfolding after_quit
  after_quit-IsIndexed channel dynamic zero w v =
      after_success-IsIndexed (del_channel lib channel w) (del_channel-IsIndexed lib channel w v)
  after_quit-IsIndexed channel dynamic (suc n) w v = v
  after_quit-IsIndexed channel all n w v = v
  after_quit-IsIndexed channel global n w v = v
  after_quit-IsIndexed channel static n w v = v

  quit_listed-IsIndexed :
      (channel : Ptr) (c : Channel lib) (h : lib.Hash) (id : Bytes) (w : World lib)
      → IsIndexed lib w
      → w.channels channel ≡ some c
      → Leaves lib (IsIndexed lib) (quit_listed lib channel c h id w)
  unfolding quit_listed
  quit_listed-IsIndexed channel c h [] w v at = v
  quit_listed-IsIndexed channel c h (b ∷ id) w v at =
      let h' = lib.unset h (b ∷ id) in
      let c' : Channel lib = record c { list = some h' } in
      after_quit-IsIndexed channel c.type_of (lib.size h')
        (record w { channels = assign w.channels channel (some c') })
        (Similar-IsIndexed lib w (record w { channels = assign w.channels channel (some c') }) v
          (record {
            list = λ i. refl;
            size = refl;
            next_id = refl;
            channels = λ q. SameChannel-assign lib w.channels channel q c c' at refl refl;
          }))

  quit_with-IsIndexed :
      (channel : Ptr) (c : Channel lib) (session : Ptr) (w : World lib)
      → IsIndexed lib w
      → w.channels channel ≡ some c
      → Leaves lib (IsIndexed lib) (quit_with lib channel c session w)
  unfolding quit_with
  quit_with-IsIndexed channel c session w v at =
      Leaves-cases lib (IsIndexed lib) c.list _ _ v (λ h e.
        Leaves-if lib (IsIndexed lib) (session == null_ptr) _ _ v (
          Leaves-elim lib (IsIndexed lib) (w.sessions session) _
            (λ s f. quit_listed-IsIndexed channel c h s.session_id w v at)))

  pub quit_channel-IsIndexed :
      (channel session : Ptr) (w : World lib)
      → IsIndexed lib w
      → Leaves lib (IsIndexed lib) (quit_channel lib channel session w)
  unfolding quit_channel
  quit_channel-IsIndexed channel session w v =
      Leaves-if lib (IsIndexed lib) (channel == null_ptr) _ _ v (
        Leaves-elim lib (IsIndexed lib) (w.channels channel) _
          (λ c at. quit_with-IsIndexed channel c session w v at))
