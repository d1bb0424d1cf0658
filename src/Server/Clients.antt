-- ===== src/Server/Clients.antt =====
-- The channels of server/clients.c and the sessions in them, on a store of the blocks that are in
-- use. `none` is a use of a block that is not. The hashes of libbsp are behind an interface.
pub mod Logged
pub mod Dangling
pub mod New
pub mod Index
use bspd.Common.{
  ℕ, zero, suc, ◌+◌, ◌-◌, ◌*◌, ◌≡◌, ◌≢◌, Bool, true, false, Option, none, some, List, [], ◌∷◌, ◌++◌,
  ltb, leb, ◌==◌, if◌then◌else◌, Bytes, length, take, decimal,
}
use bspd.Server.Session.{Session}
use bspd.Server.Status.{Rtn, rtn_success, rtn_invalid, rtn_err_general}
use bspd.Server.Task.{Ptr, null_ptr}

-- A hash of pointers: `bsp_object_value_hash_original`, of a hash that may be NULL,
-- `bsp_object_set_hash` of a value and of NULL, `bsp_object_size`, and the pairs in the order in
-- which `bsp_object_curr` and `bsp_object_next` visit them.
pub record HashLib : Type 1 where
  pub Hash : Type 0
  pub new_hash : Hash
  pub find : Option Hash → Bytes → Option Ptr
  pub set : Hash → Bytes → Ptr → Hash
  pub unset : Hash → Bytes → Hash
  pub size : Hash → ℕ
  pub members : Hash → List (Bytes × Ptr)
  pub find-set : (h : Hash) (k : Bytes) (p : Ptr) → find (some (set h k p)) k ≡ some p
  pub find-unset : (h : Hash) (k : Bytes) → find (some (unset h k)) k ≡ none
  pub size-unset_set : (k : Bytes) (p : Ptr) → size (unset (set new_hash k p) k) ≡ 0

pub data ChannelType : Type 0 where
  all global static dynamic : ChannelType

-- `p ↦ v` in a store
unfoldable pub assign : {A : Type 0} → (Ptr → Option A) → Ptr → Option A → Ptr → Option A
assign cell p v q = if q == p then v else cell q

-- The capacity of the joined list, doubled until one more channel fits; none is the NULL list.
unfoldable pub grow : ℕ → ℕ → ℕ → ℕ
grow zero total size = size
grow (suc fuel) total size =
    let rest = grow fuel total (if size == 0 then 64 else 2 * size) in
    if leb size total then rest else size

-- "Find next": the first empty place of `n` from `i` on.
unfoldable pub free_place : ℕ → ℕ → (ℕ → Ptr) → Option ℕ
free_place zero i list = none
free_place (suc n) i list =
    let rest = free_place n (suc i) list in if list i == null_ptr then some i else rest

-- `set_session_id`, of a text with no NUL.
unfoldable pub set_session_id : Bytes → Session → Session
set_session_id id s = record s { session_id = take 63 id }

module _ (lib : HashLib) where
  open lib use {Hash, new_hash, find, set, unset, size}

  pub record Channel : Type 0 where
    pub id : ℕ
    pub name : Bytes
    pub type_of : ChannelType
    pub list : Option Hash

  -- `dynamic_list` is the pointer at each place of the dynamic channel list.
  pub record World : Type 0 where
    pub global_channel : Ptr
    pub static_list : Hash
    pub dynamic_list : ℕ → Ptr
    pub dynamic_list_size : ℕ
    pub next_dynamic_id : ℕ
    pub channels : Ptr → Option Channel
    pub sessions : Ptr → Option Session

  abbrev pub list_or_new : Option Hash → Hash
  list_or_new none = new_hash
  list_or_new (some h) = h

  -- The session with the id that it is known by, or nothing if it has none.
  unfoldable pub with_id : Session → Option Session
  with_id s = elim s.session_id [
    | c ∷ cs ↦ some s
    | [] ↦
        if ltb 0 s.session_id_int
        then some (record s { session_id = decimal s.session_id_int })
        else none
  ]

  unfoldable pub add_joined : Session → Ptr → Session
  unfolding grow
  add_joined s channel = record s {
    joined_list = s.joined_list ++ channel ∷ [];
    joined_list_size = grow (suc (length s.joined_list)) (length s.joined_list) s.joined_list_size;
  }

  unfoldable pub join_with : World → Ptr → Channel → Ptr → Session → Rtn × World
  unfolding with_id
  join_with w channel c session s =
      let h = list_or_new c.list in
      elim (with_id s) [
        | none ↦ (
          rtn_err_general,
          record w { channels = assign w.channels channel (some (record c { list = some h })) },
        )
        | some s' ↦ (
          rtn_success,
          record w {
            channels =
                assign w.channels channel
                  (some (record c { list = some (set h s'.session_id session) }));
            sessions = assign w.sessions session (some (add_joined s' channel));
          },
        )
      ]

  unfoldable pub join_channel : Ptr → Ptr → World → Option (Rtn × World)
  unfolding join_with
  join_channel channel session w =
      if channel == null_ptr
      then some (rtn_invalid, w)
      else if session == null_ptr
      then some (rtn_invalid, w)
      else (elim (w.channels channel) [
        | none ↦ none
        | some c ↦ elim (w.sessions session) [
          | none ↦ none
          | some s ↦ some (join_with w channel c session s)
        ]
      ])

  -- A place of the dynamic list is free again, and a lower one is the next to be used.
  unfoldable pub release : World → Ptr → Channel → World
  release w channel c =
      if w.dynamic_list c.id == channel
      then record w {
        dynamic_list = λ n. if n == c.id then null_ptr else w.dynamic_list n;
        next_dynamic_id = (if ltb c.id w.next_dynamic_id then c.id else w.next_dynamic_id);
      }
      else w

  unfoldable pub unlist : World → Ptr → Channel → ChannelType → World
  unfolding release
  unlist w channel c dynamic = release w channel c
  unlist w channel c static = record w { static_list = unset w.static_list c.name }
  unlist w channel c _ = w

  unfoldable pub free_channel : World → Ptr → World
  free_channel w channel = record w { channels = assign w.channels channel none }

  unfoldable pub del_channel : Ptr → World → Option (Rtn × World)
  unfolding unlist free_channel
  del_channel channel w =
      if channel == null_ptr
      then some (rtn_invalid, w)
      else if channel == w.global_channel
      then some (rtn_invalid, w)
      else (elim (w.channels channel) [
        | none ↦ none
        | some c ↦ some (rtn_success, free_channel (unlist w channel c c.type_of) channel)
      ])

  -- `garbage` is what the memory behind the old list holds after `bsp_realloc`.
  unfoldable pub set_next : (ℕ → Ptr) → World → Option ℕ → World
  set_next garbage w (some i) = record w { next_dynamic_id = i }
  set_next garbage w none = record w {
    dynamic_list = λ n. if ltb n w.dynamic_list_size then w.dynamic_list n else garbage n;
    dynamic_list_size = 2 * w.dynamic_list_size;
    next_dynamic_id = w.dynamic_list_size;
  }

  unfoldable pub add_dynamic : (ℕ → Ptr) → Ptr → World → World
  unfolding set_next
  add_dynamic garbage p w =
      let list : ℕ → Ptr = λ n. if n == w.next_dynamic_id then p else w.dynamic_list n in
      set_next garbage
        (record w {
          channels =
              assign w.channels p (
                some
                  (record { id = w.next_dynamic_id; name = []; type_of = dynamic; list = none }));
          dynamic_list = list;
        })
        (free_place (w.dynamic_list_size - 1) 1 list)

  unfoldable pub put_static : Ptr → Bytes → World → World
  put_static p name w = record w {
    channels =
        assign w.channels p
          (some (record { id = 0; name = take 63 name; type_of = static; list = none }));
    static_list = set w.static_list (take 63 name) p;
  }

  -- The channel that had the name is deleted.
  unfoldable pub add_static : Ptr → Bytes → World → Option (Ptr × World)
  unfolding del_channel put_static
  add_static p name w = elim (find (some w.static_list) name) [
    | none ↦ some (p, put_static p name w)
    | some old ↦
        if old == null_ptr then some (p, put_static p name w) else (elim (del_channel old w) [
          | none ↦ none
          | some (code, w') ↦ some (p, put_static p name w')
        ])
  ]

  -- `p` is the block from the memory pool, and `none` the NULL name.
  unfoldable pub new_channel : (ℕ → Ptr) → Ptr → Option Bytes → World → Option (Ptr × World)
  unfolding add_static add_dynamic
  new_channel garbage p (some name) w =
      if p == null_ptr then some (null_ptr, w) else add_static p name w
  new_channel garbage p none w =
      if p == null_ptr then some (null_ptr, w) else some (p, add_dynamic garbage p w)

  unfoldable pub check_static_channel : Bytes → World → Option Ptr
  check_static_channel name w = find (some w.static_list) name

  -- For an id that is not negative.
  unfoldable pub check_dynamic_channel : ℕ → World → Ptr
  check_dynamic_channel id w = if leb w.dynamic_list_size id then null_ptr else w.dynamic_list id

  -- After the session was taken off: a dynamic channel with no members is deleted, and the result
  -- of that is not used.
  unfoldable pub after_quit : Ptr → ChannelType → ℕ → World → Option (Rtn × World)
  unfolding del_channel
  after_quit channel dynamic zero w = elim (del_channel channel w) [
    | none ↦ none
    | some (code, w') ↦ some (rtn_success, w')
  ]
  after_quit channel type n w = some (rtn_success, w)

  unfoldable pub quit_listed : Ptr → Channel → Hash → Bytes → World → Option (Rtn × World)
  unfolding after_quit assign
  quit_listed channel c h [] w = some (rtn_err_general, w)
  quit_listed channel c h (b ∷ id) w =
      let h' = unset h (b ∷ id) in
      after_quit channel c.type_of (size h')
        (record w { channels = assign w.channels channel (some (record c { list = some h' })) })

  unfoldable pub quit_with : Ptr → Channel → Ptr → World → Option (Rtn × World)
  unfolding quit_listed
  quit_with channel c session w = elim c.list [
    | none ↦ some (rtn_invalid, w)
    | some h ↦ if session == null_ptr then some (rtn_invalid, w) else (elim (w.sessions session) [
      | none ↦ none
      | some s ↦ quit_listed channel c h s.session_id w
    ])
  ]

  unfoldable pub quit_channel : Ptr → Ptr → World → Option (Rtn × World)
  unfolding quit_with
  quit_channel channel session w =
      if channel == null_ptr
      then some (rtn_invalid, w)
      else (elim (w.channels channel) [ none ↦ none | some c ↦ quit_with channel c session w ])
