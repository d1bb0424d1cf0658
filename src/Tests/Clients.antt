-- ===== src/Tests/Clients.antt =====
-- Runs of server/clients.c, with a list of pairs for a hash.
use bspd.Common.{
  ℕ, ◌≡◌, ◌≢◌, refl, Bool, true, false, ◌&&◌, Option, none, some, List, [], ◌∷◌, arith, ◌==◌,
  if◌then◌else◌, Bytes, codes, length,
}
use bspd.Server.Clients.{
  add_dynamic, put_static, add_static, assign, set_next, free_place, HashLib, global, dynamic,
  Channel, World, add_joined, new_channel, check_dynamic_channel,
}
use bspd.Server.Sessions.{logon_session, check_logged_session}
use bspd.Server.Clients.Logged.{logon_session-check_logged_session}
use bspd.Server.Clients.Index.{Reach, start, next, new_dynamic, new_named}
use bspd.Server.Clients.Index.Kept.{Reach-check_dynamic_channel}
use bspd.Server.Startup.Init.{first_world}
use bspd.Server.Session.{Session}
use bspd.Server.Status.{rtn_success}
use bspd.Server.Task.{Ptr, null_ptr}
use bspd.Tests.Packets.{peer_session}

abbrev pub Pairs : Type 0
Pairs = List (Bytes × Ptr)

abbrev pub same : Bytes → Bytes → Bool
same [] [] = true
same (c ∷ s) (d ∷ t) = (c == d) && same s t
same _ _ = false

pub same_refl : (s : Bytes) → same s s ≡ true
same_refl [] = refl
same_refl (c ∷ s) = ground (arith, same_refl s)

abbrev pub lookup : Pairs → Bytes → Option Ptr
lookup [] k = none
lookup ((j, p) ∷ h) k = let rest = lookup h k in if same j k then some p else rest

abbrev pub remove : Pairs → Bytes → Pairs
remove [] k = []
remove ((j, p) ∷ h) k = let rest = remove h k in if same j k then rest else (j, p) ∷ rest

pub lookup-remove : (h : Pairs) (k : Bytes) → lookup (remove h k) k ≡ none
lookup-remove [] k = refl
lookup-remove ((j, p) ∷ h) k = ground (arith, lookup-remove h k)

abbrev pub lookup_in : Option Pairs → Bytes → Option Ptr
lookup_in none k = none
lookup_in (some h) k = lookup h k

abbrev pub pairs : HashLib
pairs = record {
  Hash = Pairs;
  new_hash = [];
  find = lookup_in;
  set = λ h k p. (k, p) ∷ h;
  unset = remove;
  size = length;
  members = λ h. h;
  find-set = λ h k p. rw (same_refl k) refl;
  find-unset = lookup-remove;
  size-unset_set = λ k p. rw (same_refl k) refl;
}

abbrev pub lobby : Channel pairs
lobby = record { id = 0; name = []; type_of = global; list = none }

abbrev pub room : Channel pairs
room = record { id = 0; name = []; type_of = dynamic; list = some ((codes "id", 64) ∷ []) }

abbrev pub member : Session
member = record peer_session { joined_list = 32 ∷ []; joined_list_size = 64 }

abbrev pub channels : Ptr → Option (Channel pairs)
channels p = if p == 16 then some lobby else if p == 32 then some room else none

abbrev pub sessions : Ptr → Option Session
sessions p =
    if p == 64
    then some member
    else if p == 80
    then some (record member { session_id = [] })
    else none

abbrev pub world : World pairs
world = record {
  global_channel = 16;
  static_list = [];
  dynamic_list = λ n. if n == 0 then 32 else null_ptr;
  dynamic_list_size = 4;
  next_dynamic_id = 1;
  channels = channels;
  sessions = sessions;
}

logon_session-check_logged_session_example :
    (w : World pairs) × (logon_session pairs 64 world ≡ some (rtn_success, w))
    × (check_logged_session pairs (codes "id") w ≡ some (some 64))
    × (w.sessions 64 ≡ some (record (add_joined pairs member 16) { logged = true }))
logon_session-check_logged_session_example =
    logon_session-check_logged_session pairs world 64 lobby member (omega arith) (omega arith) refl
      refl (λ e. cc)

abbrev logged_world : World pairs
logged_world = record world {
  channels =
      λ p. if p == 16 then some (record lobby { list = some ((codes "id", 64) ∷ []) }) else none;
}

-- After `clients_init`: a channel with no name, and one with a name.
abbrev first : World pairs
first = add_dynamic pairs (λ i. null_ptr) 32 (first_world pairs 16)

abbrev second : World pairs
second = put_static pairs 48 (codes "news") first

first_Reach : Reach pairs 16 second
unfolding new_channel add_static add_dynamic free_place set_next assign
first_Reach =
    next (next start (new_dynamic (λ i. null_ptr) 32 (omega arith) refl (λ i. refl) refl))
      (new_named (λ i. null_ptr) 48 (codes "news") (omega arith) refl refl)

Reach-check_dynamic_channel_example :
    ((id : ℕ)
      → check_dynamic_channel pairs id second ≢ null_ptr
      → (c : Channel pairs) × (second.channels (check_dynamic_channel pairs id second) ≡ some c)
        × (c.id ≡ id)
        × (c.type_of ≡ dynamic))
    × ((q : Ptr) (c : Channel pairs)
        → second.channels q ≡ some c
        → c.type_of ≡ dynamic
        → check_dynamic_channel pairs c.id second ≡ q)
Reach-check_dynamic_channel_example =
    Reach-check_dynamic_channel pairs 16 second (omega arith) first_Reach
