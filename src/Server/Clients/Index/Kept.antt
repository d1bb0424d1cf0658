-- ===== src/Server/Clients/Index/Kept.antt =====
-- In every world that server/clients.c reaches the dynamic channels are found by their ids.
use mathlib.Core.Path.{subst}
use bspd.Common.{
  ℕ, ◌≡◌, ◌≢◌, refl, sym, ap, ◌∙◌, Bool-cases, inl, inr, Option, none, some, ◌==◌, leb, if_true,
  if_false, Bytes, arith,
}
use bspd.Server.Clients.{
  HashLib, del_channel, join_channel, dynamic, Channel, World, add_dynamic, add_static, new_channel,
  check_dynamic_channel, quit_channel,
}
use bspd.Server.Clients.Index.{
  IsIndexed, Step, new_dynamic, new_named, join, quit, delete, log_on, log_off, delete_session,
  change_sessions, Reach, start, next,
}
use bspd.Server.Clients.Index.Added.{add_dynamic-IsIndexed}
use bspd.Server.Clients.Index.Freed.{del_channel-IsIndexed}
use bspd.Server.Clients.Index.Named.{add_static-IsIndexed}
use bspd.Server.Clients.Index.Quit.{quit_channel-IsIndexed}
use bspd.Server.Clients.Index.Ended.{
  logon_session-IsIndexed, logoff_session-IsIndexed, del_session-IsIndexed,
  change_sessions-IsIndexed,
}
use bspd.Server.Sessions.{logon_session, logoff_session, del_session}
use bspd.Server.Clients.Index.Similar.{Leaves-some, join_channel-IsIndexed}
use bspd.Server.Startup.Init.{first_world}
use bspd.Server.Task.{Ptr, null_ptr}

module _ (lib : HashLib) where
  new_channel_dynamic :
      (garbage : ℕ → Ptr) (p : Ptr) (w : World lib)
      → p ≢ null_ptr
      → some (p, add_dynamic lib garbage p w) ≡ new_channel lib garbage p none w
  unfolding new_channel
  new_channel_dynamic garbage p w nn = ground arith

  new_channel_named :
      (garbage : ℕ → Ptr) (p : Ptr) (name : Bytes) (w : World lib)
      → p ≢ null_ptr
      → add_static lib p name w ≡ new_channel lib garbage p (some name) w
  unfolding new_channel
  new_channel_named garbage p name w nn = ground arith

  some_second :
      (o : Option (Ptr × World lib)) (p : Ptr) (w w' : World lib)
      → o ≡ some (p, w')
      → some (p, w) ≡ o
      → w ≡ w'
  some_second none p w w' e f = cc
  some_second (some (q, x)) p w w' e f = cc

  Step-IsIndexed : {w w' : World lib} → Step lib w w' → IsIndexed lib w → IsIndexed lib w'
  Step-IsIndexed (new_dynamic garbage p {w = w} {w' = w'} nn free zeros e) v =
      subst (IsIndexed lib)
        (some_second (new_channel lib garbage p none w) p (add_dynamic lib garbage p w) w' e
          (new_channel_dynamic garbage p w nn))
        (add_dynamic-IsIndexed lib garbage p w v nn free zeros)
  Step-IsIndexed (new_named garbage p name {w = w} {w' = w'} nn free e) v =
      Leaves-some lib (IsIndexed lib) (add_static lib p name w) p w'
        (add_static-IsIndexed lib p name w v nn free) (new_channel_named garbage p name w nn ∙ e)
  Step-IsIndexed (join channel session code {w = w} {w' = w'} e) v =
      Leaves-some lib (IsIndexed lib) (join_channel lib channel session w) code w'
        (join_channel-IsIndexed lib channel session w v) e
  Step-IsIndexed (quit channel session code {w = w} {w' = w'} e) v =
      Leaves-some lib (IsIndexed lib) (quit_channel lib channel session w) code w'
        (quit_channel-IsIndexed lib channel session w v) e
  Step-IsIndexed (delete channel code {w = w} {w' = w'} e) v =
      Leaves-some lib (IsIndexed lib) (del_channel lib channel w) code w'
        (del_channel-IsIndexed lib channel w v) e
  Step-IsIndexed (log_on session code {w = w} {w' = w'} e) v =
      Leaves-some lib (IsIndexed lib) (logon_session lib session w) code w'
        (logon_session-IsIndexed lib session w v) e
  Step-IsIndexed (log_off session code {w = w} {w' = w'} e) v =
      Leaves-some lib (IsIndexed lib) (logoff_session lib session w) code w'
        (logoff_session-IsIndexed lib session w v) e
  Step-IsIndexed (delete_session session code {w = w} {w' = w'} e) v =
      Leaves-some lib (IsIndexed lib) (del_session lib session w) code w'
        (del_session-IsIndexed lib session w v) e
  Step-IsIndexed (change_sessions {w = w} sessions) v = change_sessions-IsIndexed lib w sessions v

  first_world_dynamic :
      (p q : Ptr) (c : Channel lib) → (first_world lib p).channels q ≡ some c → c.type_of ≢ dynamic
  first_world_dynamic p q c at t = elim (Bool-cases (q == p)) [
    | inl z ↦ ground (arith, sym (if_true (q == p) _ none z) ∙ at)
    | inr z ↦ ground (arith, at)
  ]

  first_world-IsIndexed : (p : Ptr) → p ≢ null_ptr → IsIndexed lib (first_world lib p)
  first_world-IsIndexed p nn = record {
    listed = λ i lt ne. absurd (ne refl);
    placed = λ q c at t. absurd (first_world_dynamic p q c at t);
    no_null = if_false (null_ptr == p) _ none (ground (arith, nn));
    place = record { in_range = omega arith; is_empty = refl };
  }

  Reach-IsIndexed : {p : Ptr} {w : World lib} → p ≢ null_ptr → Reach lib p w → IsIndexed lib w
  Reach-IsIndexed {p = p} nn start = first_world-IsIndexed p nn
  Reach-IsIndexed nn (next r s) = Step-IsIndexed s (Reach-IsIndexed nn r)

  -- Whatever calls for channels and sessions have been made since `clients_init`: an id below the
  -- size of the list leads to NULL or to the dynamic channel in use that has this id, and each dynamic
  -- channel in use is found by its id; if blocks that are handed out are not in use, and the list
  -- grows into memory of zeros.
  pub Reach-check_dynamic_channel :
      (p : Ptr) (w : World lib)
      → p ≢ null_ptr
      → Reach lib p w
      → ((id : ℕ)
          → check_dynamic_channel lib id w ≢ null_ptr
          → (c : Channel lib) × (w.channels (check_dynamic_channel lib id w) ≡ some c)
            × (c.id ≡ id)
            × (c.type_of ≡ dynamic))
        × ((q : Ptr) (c : Channel lib)
            → w.channels q ≡ some c
            → c.type_of ≡ dynamic
            → check_dynamic_channel lib c.id w ≡ q)
  unfolding check_dynamic_channel
  Reach-check_dynamic_channel p w nn r =
      let v = Reach-IsIndexed nn r in
      (
        λ id. elim (Bool-cases (leb w.dynamic_list_size id)) [
          | inl e ↦ λ ne. absurd (ne (if_true (leb w.dynamic_list_size id) _ _ e))
          | inr e ↦ λ ne.
              let at = if_false (leb w.dynamic_list_size id) null_ptr (w.dynamic_list id) e in
              let (c, ci, cd, ct) = v.listed id (ground (arith, e)) (λ z. ne (at ∙ z)) in
              (c, ap w.channels at ∙ ci, cd, ct)
        ],
        λ q c at t.
            let (lt, e) = v.placed q c at t in
            if_false (leb w.dynamic_list_size c.id) _ _ (ground (arith, lt)) ∙ e,
      )
