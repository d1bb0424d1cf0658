-- ===== src/Server/Clients/Logged.antt =====
-- Who is found by an id in server/clients.c after logging on and off.
use bspd.Common.{
  ℕ, zero, suc, ◌+◌, ◌*◌, ◌<◌, ◌≡◌, ◌≢◌, ap, ◌∙◌, Bool, true, false, Option, none, some, [], arith,
  Bytes,
}
use bspd.Server.Clients.{
  HashLib, global, Channel, World, assign, grow, list_or_new, add_joined, join_channel,
  quit_channel,
}
use bspd.Server.Sessions.{logon_session, logoff_session, check_logged_session}
use bspd.Server.Session.{Session}
use bspd.Server.Status.{rtn_success, rtn_err_general}
use bspd.Server.Task.{Ptr, null_ptr}

-- The doubling ends with room for one more channel.
grow-fits : (fuel total size : ℕ) → 0 < size → total < size + fuel → total < grow fuel total size
unfolding grow
grow-fits zero total size h lt = omega arith
grow-fits (suc fuel) total size h lt =
    ground (arith, grow-fits fuel total (2 * size) (omega arith) (omega arith))

-- After the doubling the joined list has room for one more channel, whatever its capacity was, if a
-- list of no capacity has no channels.
pub grow-enough : (total size : ℕ) → (size ≡ 0 → total ≡ 0) → total < grow (suc total) total size
unfolding grow
grow-enough total size h =
    ground (arith, grow-fits total total 64 (omega arith), grow-fits total total (2 * size))

pub assign_same :
    {A : Type 0} (cell : Ptr → Option A) (p : Ptr) (v : Option A) → assign cell p v p ≡ v
unfolding assign
assign_same cell p v = ground arith

pub assign_other :
    {A : Type 0} (cell : Ptr → Option A) (p q : Ptr) (v : Option A)
    → q ≢ p
    → assign cell p v q ≡ cell q
unfolding assign
assign_other cell p q v h = ground arith

module _ (lib : HashLib) where
  -- What joining makes of the world, for a session with an id.
  abbrev pub joined : World lib → Ptr → Channel lib → Ptr → Session → World lib
  joined w channel c session s = record w {
    channels =
        assign w.channels channel
          (some (record c { list = some (lib.set (list_or_new lib c.list) s.session_id session) }));
    sessions = assign w.sessions session (some (add_joined lib s channel));
  }

  pub join_channel-joined :
      (w : World lib) (channel session : Ptr) (c : Channel lib) (s : Session)
      → channel ≢ null_ptr
      → session ≢ null_ptr
      → w.channels channel ≡ some c
      → w.sessions session ≡ some s
      → s.session_id ≢ []
      → join_channel lib channel session w ≡ some (rtn_success, joined w channel c session s)
  unfolding join_channel
  join_channel-joined w channel session c s cn sn cc ss id = ground arith

  -- The flag of a session.
  abbrev pub flagged : World lib → Ptr → Session → Bool → World lib
  flagged w session s flag = record w {
    sessions = assign w.sessions session (some (record s { logged = flag }));
  }

  logon_session-flagged :
      (w : World lib) (session : Ptr) (c : Channel lib) (s : Session)
      → w.global_channel ≢ null_ptr
      → session ≢ null_ptr
      → w.channels w.global_channel ≡ some c
      → w.sessions session ≡ some s
      → s.session_id ≢ []
      → logon_session lib session w
        ≡ some (
          rtn_success,
          flagged
              (joined w w.global_channel c session s)
              session
              (add_joined lib s w.global_channel)
              true,
        )
  unfolding logon_session
  logon_session-flagged w session c s gn sn gc ss id = ground (
    arith,
    join_channel-joined w w.global_channel session c s gn sn gc ss id,
    assign_same w.sessions session (some (add_joined lib s w.global_channel)),
  )

  check_logged_session-find :
      (id : Bytes) (w : World lib) (c : Channel lib)
      → w.channels w.global_channel ≡ some c
      → check_logged_session lib id w ≡ some (lib.find c.list id)
  unfolding check_logged_session
  check_logged_session-find id w c e = ground arith

  -- If the blocks of the session and the global channel are in use, a session with an id that logs on
  -- is found by it, and is marked as logged on.
  pub logon_session-check_logged_session :
      (w : World lib) (session : Ptr) (c : Channel lib) (s : Session)
      → w.global_channel ≢ null_ptr
      → session ≢ null_ptr
      → w.channels w.global_channel ≡ some c
      → w.sessions session ≡ some s
      → s.session_id ≢ []
      → (w' : World lib) × (logon_session lib session w ≡ some (rtn_success, w'))
        × (check_logged_session lib s.session_id w' ≡ some (some session))
        × (w'.sessions session
            ≡ some (record (add_joined lib s w.global_channel) { logged = true }))
  logon_session-check_logged_session w session c s gn sn gc ss id =
      let j = joined w w.global_channel c session s in
      let c' : Channel lib = record c {
        list = some (lib.set (list_or_new lib c.list) s.session_id session);
      } in
      let w' : World lib = flagged j session (add_joined lib s w.global_channel) true in
      (
        w',
        logon_session-flagged w session c s gn sn gc ss id,
        check_logged_session-find s.session_id w' c'
              (assign_same w.channels w.global_channel (some c'))
            ∙ ap some (lib.find-set (list_or_new lib c.list) s.session_id session),
        assign_same j.sessions session _,
      )

  -- What leaving the global channel makes of the world.
  abbrev pub left : World lib → Channel lib → lib.Hash → Bytes → World lib
  left w c h id = record w {
    channels =
        assign w.channels w.global_channel (some (record c { list = some (lib.unset h id) }));
  }

  pub quit_channel-left :
      (w : World lib) (session : Ptr) (c : Channel lib) (h : lib.Hash) (s : Session)
      → w.global_channel ≢ null_ptr
      → session ≢ null_ptr
      → w.channels w.global_channel ≡ some c
      → c.type_of ≡ global
      → c.list ≡ some h
      → w.sessions session ≡ some s
      → s.session_id ≢ []
      → quit_channel lib w.global_channel session w ≡ some (rtn_success, left w c h s.session_id)
  unfolding quit_channel
  quit_channel-left w session c h s gn sn gc t l ss id = ground arith

  -- If the blocks of the session and the global channel are in use, and the channel has a list, a
  -- session with an id that logs off is found no more, and is marked as logged off.
  pub logoff_session-check_logged_session :
      (w : World lib) (session : Ptr) (c : Channel lib) (h : lib.Hash) (s : Session)
      → w.global_channel ≢ null_ptr
      → session ≢ null_ptr
      → w.channels w.global_channel ≡ some c
      → c.type_of ≡ global
      → c.list ≡ some h
      → w.sessions session ≡ some s
      → s.session_id ≢ []
      → (w' : World lib) × (logoff_session lib session w ≡ some (rtn_success, w'))
        × (check_logged_session lib s.session_id w' ≡ some none)
        × (w'.sessions session ≡ some (record s { logged = false }))
  unfolding logoff_session
  logoff_session-check_logged_session w session c h s gn sn gc t l ss id =
      let c' : Channel lib = record c { list = some (lib.unset h s.session_id) } in
      let w' : World lib = flagged (left w c h s.session_id) session s false in
      (
        w',
        ground (arith, quit_channel-left w session c h s gn sn gc t l ss id),
        check_logged_session-find s.session_id w' c'
              (assign_same w.channels w.global_channel (some c'))
            ∙ ap some (lib.find-unset h s.session_id),
        assign_same w.sessions session _,
      )

  -- A session with neither an id nor a number can join no channel, if the blocks of both are in use;
  -- the channel gets its list, and nothing else changes.
  pub join_channel_no_id :
      (w : World lib) (channel session : Ptr) (c : Channel lib) (s : Session)
      → channel ≢ null_ptr
      → session ≢ null_ptr
      → w.channels channel ≡ some c
      → w.sessions session ≡ some s
      → s.session_id ≡ []
      → s.session_id_int ≡ 0
      → join_channel lib channel session w
        ≡ some (
          rtn_err_general,
          record w {
            channels =
                assign w.channels channel
                  (some (record c { list = some (list_or_new lib c.list) }));
          },
        )
  unfolding join_channel
  join_channel_no_id w channel session c s cn sn cc ss id n = ground arith
