-- ===== src/Server/Sessions.antt =====
-- Sessions of server/clients.c that log on, log off and are deleted. `none` is a use of a block
-- that is not in use.
use bspd.Common.{Bool, true, false, Option, none, some, List, [], ◌∷◌, ◌==◌, if◌then◌else◌, Bytes}
use bspd.Server.Clients.{HashLib, World, assign, join_channel, quit_channel}
use bspd.Server.Session.{Session}
use bspd.Server.Status.{Rtn, rtn_success, rtn_invalid}
use bspd.Server.Task.{Ptr, null_ptr}

module _ (lib : HashLib) where
  open lib use {find}

  unfoldable pub set_logged : Bool → Ptr → Rtn × World lib → Rtn × World lib
  set_logged flag session (rtn_success, w) = elim (w.sessions session) [
    | none ↦ (rtn_success, w)
    | some s ↦ (
      rtn_success,
      record w { sessions = assign w.sessions session (some (record s { logged = flag })) },
    )
  ]
  set_logged flag session (code, w) = (code, w)

  unfoldable pub logon_session : Ptr → World lib → Option (Rtn × World lib)
  unfolding set_logged
  logon_session session w = elim (join_channel lib w.global_channel session w) [
    | none ↦ none
    | some r ↦ some (set_logged true session r)
  ]

  unfoldable pub logoff_session : Ptr → World lib → Option (Rtn × World lib)
  unfolding set_logged
  logoff_session session w = elim (quit_channel lib w.global_channel session w) [
    | none ↦ none
    | some r ↦ some (set_logged false session r)
  ]

  -- The session that is logged on under an id, or NULL.
  unfoldable pub check_logged_session : Bytes → World lib → Option (Option Ptr)
  check_logged_session id w = elim (w.channels w.global_channel) [
    | none ↦ none
    | some c ↦ some (find c.list id)
  ]

  -- `for (i = 0; i < session->total_joined; i ++)`: no call of it changes the list.
  unfoldable pub quit_all : List Ptr → Ptr → World lib → Option (World lib)
  quit_all [] session w = some w
  quit_all (channel ∷ channels) session w = elim (quit_channel lib channel session w) [
    | none ↦ none
    | some (code, w') ↦ quit_all channels session w'
  ]

  unfoldable pub free_session : Ptr → World lib → World lib
  unfolding assign
  free_session session w = record w { sessions = assign w.sessions session none }

  unfoldable pub del_with : Ptr → Session → World lib → Option (Rtn × World lib)
  unfolding quit_all free_session
  del_with session s w = elim (quit_channel lib w.global_channel session w) [
    | none ↦ none
    | some (code, w') ↦ elim (quit_all s.joined_list session w') [
      | none ↦ none
      | some w'' ↦ some (rtn_success, free_session session w'')
    ]
  ]

  unfoldable pub del_session : Ptr → World lib → Option (Rtn × World lib)
  unfolding del_with
  del_session session w =
      if session == null_ptr
      then some (rtn_invalid, w)
      else (elim (w.sessions session) [ none ↦ none | some s ↦ del_with session s w ])
