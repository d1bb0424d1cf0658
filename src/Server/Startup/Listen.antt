-- ===== src/Server/Startup/Listen.antt =====
-- How `bspd_startup` of server/main.c opens the servers of the configuration.
use bspd.Common.{ℕ, Bool, true, false, Option, none, some, List, [], ◌∷◌, if◌then◌else◌, Bytes}
use bspd.Server.Conf.{ServerConf, InetType, inet_local, SockType}
use bspd.Server.Link.{ServerType, normal}

-- The type of a socket of libbsp.
pub data SockKind : Type 0 where
  tcp sctp_to_one sctp_to_many udp other : SockKind

pub record Sock : Type 0 where
  pub fd : ℕ
  pub kind : SockKind

pub data ThreadKind : Type 0 where
  acceptor io : ThreadKind

-- What libbsp answers: the sockets of a new server, if it is made, the event container of the thread
-- that `bsp_select_thread` chooses for a socket, and whether `bsp_reg_fd` takes the descriptor.
pub record NetLib : Type 0 where
  pub new_unix_server : Bytes → Option (List Sock)
  pub new_net_server : Option Bytes → ℕ → InetType → SockType → Option (List Sock)
  pub select_thread : ThreadKind → ℕ → Option ℕ
  pub reg_fd : ℕ → Bool

unfoldable pub thread_kind : SockKind → ThreadKind
thread_kind tcp = acceptor
thread_kind sctp_to_one = acceptor
thread_kind sctp_to_many = acceptor
thread_kind udp = io
thread_kind other = io

-- A server that is open: its description, the descriptors that wait for connections, each with its
-- event container, and whether `normal_on_event` is its event hook.
pub record Listening : Type 0 where
  pub conf : ServerConf
  pub accepts : List (ℕ × ℕ)
  pub normal_hook : Bool

unfoldable pub has_normal_hook : ServerType → Bool
has_normal_hook normal = true
has_normal_hook _ = false

module _ (net : NetLib) where
  open net use {new_unix_server, new_net_server, select_thread, reg_fd}

  unfoldable pub accept_events : List Sock → List (ℕ × ℕ)
  unfolding thread_kind
  accept_events [] = []
  accept_events (s ∷ socks) =
      let rest = accept_events socks in
      elim (select_thread (thread_kind s.kind) s.fd) [
        | none ↦ rest
        | some container ↦ if reg_fd s.fd then (s.fd, container) ∷ rest else rest
      ]

  -- A local server without an address is not made.
  unfoldable pub new_server : ServerConf → InetType → Option (List Sock)
  new_server c inet_local = elim c.addr [ none ↦ none | some addr ↦ new_unix_server addr ]
  new_server c inet = new_net_server c.addr c.port inet c.sock_type

  unfoldable pub listen : ServerConf → Option Listening
  unfolding accept_events new_server has_normal_hook
  listen c = elim (new_server c c.inet_type) [
    | none ↦ none
    | some socks ↦ some (record {
      conf = c;
      accepts = accept_events socks;
      normal_hook = has_normal_hook c.prop.type_of;
    })
  ]

  -- The loop over the servers, from the head of the list on.
  unfoldable pub listen_all : List ServerConf → List Listening
  unfolding listen
  listen_all [] = []
  listen_all (c ∷ cs) =
      let rest = listen_all cs in elim (listen c) [ none ↦ rest | some l ↦ l ∷ rest ]
