-- ===== src/Server/Clients/Index.antt =====
-- The places of the dynamic channels in server/clients.c, and what keeps them right.
pub mod Similar
pub mod Freed
pub mod Added
pub mod Named
pub mod Quit
pub mod Ended
pub mod Kept
use bspd.Common.{ℕ, ◌≤◌, ◌<◌, ◌≡◌, ◌≢◌, Option, none, some, Bytes}
use bspd.Server.Clients.{
  HashLib, ChannelType, dynamic, Channel, World, new_channel, join_channel, quit_channel,
  del_channel, check_static_channel,
}
use bspd.Server.Clients.New.{HasPlace}
use bspd.Server.Session.{Session}
use bspd.Server.Sessions.{logon_session, logoff_session, del_session}
use bspd.Server.Startup.Init.{first_world}
use bspd.Server.Status.{Rtn}
use bspd.Server.Task.{Ptr, null_ptr}

module _ (lib : HashLib) where
  -- Each pointer in the list is the dynamic channel with that id, each dynamic channel stands at its
  -- id, NULL is no channel, and the next place is in range and empty.
  pub record IsIndexed (w : World lib) : Type 0 where
    pub listed :
        (i : ℕ)
        → i < w.dynamic_list_size
        → w.dynamic_list i ≢ null_ptr
        → (c : Channel lib) × (w.channels (w.dynamic_list i) ≡ some c)
          × (c.id ≡ i)
          × (c.type_of ≡ dynamic)
    pub placed :
        (p : Ptr) (c : Channel lib)
        → w.channels p ≡ some c
        → c.type_of ≡ dynamic
        → (c.id < w.dynamic_list_size) × (w.dynamic_list c.id ≡ p)
    pub no_null : w.channels null_ptr ≡ none
    pub place : HasPlace lib w

  -- One call, from any thread, for a channel or a session, or any other change of the sessions. The blocks that
  -- the pool hands out are not in use, and the memory behind a list that has grown holds zeros.
  pub data Step : World lib → World lib → Type 0 where
    new_dynamic :
        (garbage : ℕ → Ptr) (p : Ptr) {w w' : World lib}
        → p ≢ null_ptr
        → w.channels p ≡ none
        → ((i : ℕ) → garbage i ≡ null_ptr)
        → new_channel lib garbage p none w ≡ some (p, w')
        → Step w w'
    new_named :
        (garbage : ℕ → Ptr) (p : Ptr) (name : Bytes) {w w' : World lib}
        → p ≢ null_ptr
        → w.channels p ≡ none
        → new_channel lib garbage p (some name) w ≡ some (p, w')
        → Step w w'
    join :
        (channel session : Ptr) (code : Rtn) {w w' : World lib}
        → join_channel lib channel session w ≡ some (code, w')
        → Step w w'
    quit :
        (channel session : Ptr) (code : Rtn) {w w' : World lib}
        → quit_channel lib channel session w ≡ some (code, w')
        → Step w w'
    delete :
        (channel : Ptr) (code : Rtn) {w w' : World lib}
        → del_channel lib channel w ≡ some (code, w')
        → Step w w'
    log_on :
        (session : Ptr) (code : Rtn) {w w' : World lib}
        → logon_session lib session w ≡ some (code, w')
        → Step w w'
    log_off :
        (session : Ptr) (code : Rtn) {w w' : World lib}
        → logoff_session lib session w ≡ some (code, w')
        → Step w w'
    delete_session :
        (session : Ptr) (code : Rtn) {w w' : World lib}
        → del_session lib session w ≡ some (code, w')
        → Step w w'
    change_sessions :
        {w : World lib} (sessions : Ptr → Option Session)
        → Step w (record w { sessions = sessions })

  -- What is reached from the world that `clients_init` leaves.
  pub data Reach (p : Ptr) : World lib → Type 0 where
    start : Reach p (first_world lib p)
    next : {w w' : World lib} → Reach p w → Step w w' → Reach p w'
