-- ===== src/Server/Clients/Index/Ended.antt =====
-- What sessions of server/clients.c that log on, log off and end leave of the places of the dynamic
-- channels.
use bspd.Common.{refl, Bool, true, false, Option, none, some, List, [], ◌∷◌, ◌==◌}
use bspd.Server.Clients.{HashLib, World, assign, join_channel, quit_channel}
use bspd.Server.Clients.Index.{IsIndexed}
use bspd.Server.Clients.Index.Quit.{quit_channel-IsIndexed}
use bspd.Server.Clients.Index.Similar.{
  Leaves, Leaves-if, Leaves-elim, SameChannel-refl, Similar-IsIndexed, join_channel-IsIndexed,
}
use bspd.Server.Session.{Session}
use bspd.Server.Sessions.{
  set_logged, logon_session, logoff_session, quit_all, free_session, del_with, del_session,
}
use bspd.Server.Status.{
  Rtn, rtn_success, rtn_invalid, rtn_err_general, rtn_err_memory, rtn_err_thread, rtn_err_io_read,
  rtn_err_process, rtn_fatal,
}
use bspd.Server.Task.{Ptr, null_ptr}

module _ (lib : HashLib) where
  pub change_sessions-IsIndexed :
      (w : World lib) (sessions : Ptr → Option Session)
      → IsIndexed lib w
      → IsIndexed lib (record w { sessions = sessions })
  change_sessions-IsIndexed w sessions v =
      Similar-IsIndexed lib w (record w { sessions = sessions }) v
        (record {
          list = λ i. refl;
          size = refl;
          next_id = refl;
          channels = λ p. SameChannel-refl lib (w.channels p);
        })

  set_logged-IsIndexed :
      (flag : Bool) (session : Ptr) (code : Rtn) (w : World lib)
      → IsIndexed lib w
      → IsIndexed lib (set_logged lib flag session (code, w)).1
  unfolding set_logged
  set_logged-IsIndexed flag session rtn_success w v =
      elim (w.sessions session)
        as (λ o.
          IsIndexed lib
            (elim o as (λ x. Rtn × World lib) [
              | none ↦ (rtn_success, w)
              | some s ↦ (
                rtn_success,
                record w {
                  sessions = assign w.sessions session (some (record s { logged = flag }));
                },
              )
            ]).1) [ none ↦ v | some s ↦ change_sessions-IsIndexed w _ v ]
  set_logged-IsIndexed flag session rtn_invalid w v = v
  set_logged-IsIndexed flag session rtn_err_general w v = v
  set_logged-IsIndexed flag session rtn_err_memory w v = v
  set_logged-IsIndexed flag session rtn_err_thread w v = v
  set_logged-IsIndexed flag session rtn_err_io_read w v = v
  set_logged-IsIndexed flag session rtn_err_process w v = v
  set_logged-IsIndexed flag session rtn_fatal w v = v

  then_set_logged-IsIndexed :
      (flag : Bool) (session : Ptr) (o : Option (Rtn × World lib))
      → Leaves lib (IsIndexed lib) o
      → Leaves lib (IsIndexed lib) (elim o as (λ x. Option (Rtn × World lib)) [
        | none ↦ none
        | some r ↦ some (set_logged lib flag session r)
      ])
  then_set_logged-IsIndexed flag session none h = tt
  then_set_logged-IsIndexed flag session (some (code, w)) h =
      set_logged-IsIndexed flag session code w h

  pub logon_session-IsIndexed :
      (session : Ptr) (w : World lib)
      → IsIndexed lib w
      → Leaves lib (IsIndexed lib) (logon_session lib session w)
  unfolding logon_session
  logon_session-IsIndexed session w v =
      then_set_logged-IsIndexed true session (join_channel lib w.global_channel session w)
        (join_channel-IsIndexed lib w.global_channel session w v)

  pub logoff_session-IsIndexed :
      (session : Ptr) (w : World lib)
      → IsIndexed lib w
      → Leaves lib (IsIndexed lib) (logoff_session lib session w)
  unfolding logoff_session
  logoff_session-IsIndexed session w v =
      then_set_logged-IsIndexed false session (quit_channel lib w.global_channel session w)
        (quit_channel-IsIndexed lib w.global_channel session w v)

  abbrev IndexedWorld : Option (World lib) → Type 0
  IndexedWorld none = Unit {0}
  IndexedWorld (some w) = IsIndexed lib w

  then_quit-IndexedWorld :
      (channels : List Ptr) (session : Ptr) (o : Option (Rtn × World lib))
      → ((w : World lib) → IsIndexed lib w → IndexedWorld (quit_all lib channels session w))
      → Leaves lib (IsIndexed lib) o
      → IndexedWorld (elim o as (λ x. Option (World lib)) [
        | none ↦ none
        | some (code, w') ↦ quit_all lib channels session w'
      ])
  then_quit-IndexedWorld channels session none rest h = tt
  then_quit-IndexedWorld channels session (some (code, w)) rest h = rest w h

  quit_all-IndexedWorld :
      (channels : List Ptr) (session : Ptr) (w : World lib)
      → IsIndexed lib w
      → IndexedWorld (quit_all lib channels session w)
  unfolding quit_all
  quit_all-IndexedWorld [] session w v = v
  quit_all-IndexedWorld (channel ∷ channels) session w v =
      then_quit-IndexedWorld channels session (quit_channel lib channel session w)
        (λ w' v'. quit_all-IndexedWorld channels session w' v')
        (quit_channel-IsIndexed lib channel session w v)

  then_free-IsIndexed :
      (session : Ptr) (o : Option (World lib))
      → IndexedWorld o
      → Leaves lib (IsIndexed lib) (elim o as (λ x. Option (Rtn × World lib)) [
        | none ↦ none
        | some w ↦ some (rtn_success, free_session lib session w)
      ])
  unfolding free_session
  then_free-IsIndexed session none h = tt
  then_free-IsIndexed session (some w) h = change_sessions-IsIndexed w _ h

  then_end-IsIndexed :
      (session : Ptr) (s : Session) (o : Option (Rtn × World lib))
      → Leaves lib (IsIndexed lib) o
      → Leaves lib (IsIndexed lib) (elim o as (λ x. Option (Rtn × World lib)) [
        | none ↦ none
        | some (code, w') ↦ elim (quit_all lib s.joined_list session w') [
          | none ↦ none
          | some w'' ↦ some (rtn_success, free_session lib session w'')
        ]
      ])
  then_end-IsIndexed session s none h = tt
  then_end-IsIndexed session s (some (code, w)) h =
      then_free-IsIndexed session (quit_all lib s.joined_list session w)
        (quit_all-IndexedWorld s.joined_list session w h)

  del_with-IsIndexed :
      (session : Ptr) (s : Session) (w : World lib)
      → IsIndexed lib w
      → Leaves lib (IsIndexed lib) (del_with lib session s w)
  unfolding del_with
  del_with-IsIndexed session s w v =
      then_end-IsIndexed session s (quit_channel lib w.global_channel session w)
        (quit_channel-IsIndexed lib w.global_channel session w v)

  pub del_session-IsIndexed :
      (session : Ptr) (w : World lib)
      → IsIndexed lib w
      → Leaves lib (IsIndexed lib) (del_session lib session w)
  unfolding del_session
  del_session-IsIndexed session w v = Leaves-if lib (IsIndexed lib) (session == null_ptr) _ _ v (
      Leaves-elim lib (IsIndexed lib) (w.sessions session) _
        (λ s e. del_with-IsIndexed session s w v))
