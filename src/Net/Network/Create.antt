-- ===== src/Net/Network/Create.antt =====
-- ANetworkSession.cpp, `createClientOrServer` and the functions that call it. What the system calls
-- answer is an argument.
pub mod Sockets
use how_to_miracast_on_aosp.Prelude.{
  ℕ, ◌+◌, Bool, true, false, not, ◌||◌, List, [], ◌∷◌, ◌++◌, Option, none, some, ◌==◌,
  if◌then◌else◌,
}
use how_to_miracast_on_aosp.Prelude.Outcome.{Outcome, done, fault}
use how_to_miracast_on_aosp.Net.Session.{
  Session, State, connecting, listening_rtsp, listening_tcp_dgrams, datagram,
  set_is_rtsp_connection,
}
use how_to_miracast_on_aosp.Net.Session.Notice.{einprogress}
use how_to_miracast_on_aosp.Net.Network.{
  Network, Answer, result, failure, Lookup, found, unknown, SockAddr, Call, open_socket,
  reuse_address, receive_buffer, send_buffer, get_flags, set_non_blocking, connect, bind, listen,
  close_socket, interrupt, next_id, add,
}

-- `enum Mode`.
pub data Mode : Type 0 where
  create_udp_session create_tcp_datagram_session_passive : Mode
  create_tcp_datagram_session_active create_rtsp_server create_rtsp_client : Mode

abbrev pub is_udp : Mode → Bool
is_udp create_udp_session = true
is_udp _ = false

abbrev pub is_server : Mode → Bool
is_server create_rtsp_server = true
is_server create_tcp_datagram_session_passive = true
is_server _ = false

abbrev pub is_client : Mode → Bool
is_client create_rtsp_client = true
is_client create_tcp_datagram_session_active = true
is_client _ = false

-- The arguments behind the mode: `localAddr`, `port`, whether `remoteHost` is given, `remotePort`,
-- `notify`.
pub record Request : Type 0 where
  pub mode : Mode
  pub local_address : Option ℕ
  pub port : ℕ
  pub has_remote : Bool
  pub remote_port : ℕ
  pub notify_message : ℕ

-- What each call answers, should it be made; `lookup` is gethostbyname of the remote host.
pub record Answers : Type 0 where
  pub socket : Answer
  pub reuse : Answer
  pub receive : Answer
  pub send : Answer
  pub flags : Answer
  pub non_blocking : Answer
  pub lookup : Lookup
  pub connects : Answer
  pub binds : Answer
  pub listens : Answer

-- The steps between `socket` and `bail2`: done, stopped with an error, or aborted by a CHECK; with
-- the calls made.
pub data Setup (A : Type 0) : Type 0 where
  ready : List Call → A → Setup A
  bail : List Call → ℕ → Setup A
  abort : Setup A

abbrev pub after : {A : Type 0} → List Call → Setup A → Setup A
after cs (ready ds a) = ready (cs ++ ds) a
after cs (bail ds e) = bail (cs ++ ds) e
after cs abort = abort

infixl 5 ◌>>=◌ ◌>>◌
abbrev pub ◌>>=◌ : {A B : Type 0} → Setup A → (A → Setup B) → Setup B
ready cs a >>= f = after cs (f a)
bail cs e >>= f = bail cs e
abort >>= f = abort

abbrev pub ◌>>◌ : {A B : Type 0} → Setup A → Setup B → Setup B
m >> k = m >>= λ _. k

abbrev pub call : Call → Answer → Setup ℕ
call c (result r) = ready (c ∷ []) r
call c (failure e) = bail (c ∷ []) e

abbrev pub when : Bool → Setup ℕ → Setup ℕ
when true m = m
when false m = ready [] 0

-- `MakeSocketNonBlocking`.
unfoldable pub make_socket_non_blocking : ℕ → Answer → Answer → Setup ℕ
make_socket_non_blocking fd (result flags) answer =
    after (get_flags fd ∷ []) (call (set_non_blocking fd flags) answer)
make_socket_non_blocking fd (failure e) answer =
    after (get_flags fd ∷ []) (call (set_non_blocking fd 0) answer)

unfoldable pub resolve : Lookup → ℕ → Setup SockAddr
resolve (found address) port = ready [] (record { address = address; port = port })
resolve (unknown h) port = bail [] h

-- `INADDR_ANY` is 0.
unfoldable pub local_sock_addr : Request → SockAddr
local_sock_addr q = elim q.local_address [
  | none ↦ record { address = 0; port = q.port }
  | some address ↦ record { address = address; port = q.port }
]

-- `CHECK_LT(res, 0)`, then EINPROGRESS is no error.
unfoldable pub start_connecting : ℕ → SockAddr → Answer → Setup ℕ
start_connecting fd to (result r) = abort
start_connecting fd to (failure e) =
    if e == einprogress then ready (connect fd to ∷ []) 0 else bail (connect fd to ∷ []) e

unfoldable pub set_up_client : Request → Answers → ℕ → Setup ℕ
unfolding resolve start_connecting
set_up_client q a fd = do to ← resolve a.lookup q.remote_port; start_connecting fd to a.connects

unfoldable pub set_up_bound : Request → Answers → ℕ → Setup ℕ
unfolding resolve local_sock_addr
set_up_bound q a fd = do
  call (bind fd (local_sock_addr q)) a.binds
  if is_server q.mode
      then call (listen fd) a.listens
      else when q.has_remote
          (do to ← resolve a.lookup q.remote_port; call (connect fd to) a.connects)

unfoldable pub set_up : Request → Answers → ℕ → Setup ℕ
unfolding make_socket_non_blocking set_up_client set_up_bound
set_up q a fd = do
  when (is_server q.mode) (call (reuse_address fd) a.reuse)
  when (is_udp q.mode) (do call (receive_buffer fd) a.receive; call (send_buffer fd) a.send)
  make_socket_non_blocking fd a.flags a.non_blocking
  if is_client q.mode then set_up_client q a fd else set_up_bound q a fd

unfoldable pub initial_state : Mode → State
initial_state create_rtsp_client = connecting
initial_state create_tcp_datagram_session_active = connecting
initial_state create_tcp_datagram_session_passive = listening_tcp_dgrams
initial_state create_rtsp_server = listening_rtsp
initial_state create_udp_session = datagram

-- `Session::Session`, for a state other than CONNECTED.
unfoldable pub new_session : ℕ → State → ℕ → ℕ → Session
new_session id state fd notify_message = record {
  session_id = id;
  state = state;
  is_rtsp_connection = false;
  socket = some fd;
  notify_message = notify_message;
  saw_receive_failure = false;
  saw_send_failure = false;
  out_buffer = [];
  out_datagrams = [];
  in_buffer = [];
}

abbrev is_rtsp_client : Mode → Bool
is_rtsp_client create_rtsp_client = true
is_rtsp_client _ = false

unfoldable pub created : Network → Request → ℕ → Session
unfolding new_session set_is_rtsp_connection initial_state
created net q fd =
    set_is_rtsp_connection
      (new_session net.next_session_id (initial_state q.mode) fd q.notify_message)
      (is_rtsp_client q.mode)

-- The network, the calls made, the status and `*sessionID`.
unfoldable pub create_client_or_server :
    Network → Request → Answers → Outcome (Network × List Call × ℕ × ℕ)
create_client_or_server net q a = elim a.socket [
  | failure e ↦ done (net, open_socket (is_udp q.mode) ∷ [], e, 0)
  | result fd ↦ elim (set_up q a fd) [
    | abort ↦ fault
    | bail calls e ↦ done (net, open_socket (is_udp q.mode) ∷ (calls ++ close_socket fd ∷ []), e, 0)
    | ready calls r ↦ done (
      record net {
        next_session_id = next_id net.next_session_id;
        sessions = add net.next_session_id (created net q fd) net.sessions;
      },
      open_socket (is_udp q.mode) ∷ (calls ++ interrupt ∷ []),
      0,
      net.next_session_id,
    )
  ]
]

-- The public functions, each with its own arguments for `createClientOrServer`.
abbrev pub rtsp_client : ℕ → ℕ → Request
rtsp_client port notify_message = record {
  mode = create_rtsp_client;
  local_address = none;
  port = 0;
  has_remote = true;
  remote_port = port;
  notify_message = notify_message;
}

abbrev pub rtsp_server : ℕ → ℕ → ℕ → Request
rtsp_server address port notify_message = record {
  mode = create_rtsp_server;
  local_address = some address;
  port = port;
  has_remote = false;
  remote_port = 0;
  notify_message = notify_message;
}

abbrev pub udp_session : ℕ → Bool → ℕ → ℕ → Request
udp_session local_port has_remote remote_port notify_message = record {
  mode = create_udp_session;
  local_address = none;
  port = local_port;
  has_remote = has_remote;
  remote_port = remote_port;
  notify_message = notify_message;
}

abbrev pub tcp_datagram_passive : ℕ → ℕ → ℕ → Request
tcp_datagram_passive address port notify_message = record {
  mode = create_tcp_datagram_session_passive;
  local_address = some address;
  port = port;
  has_remote = false;
  remote_port = 0;
  notify_message = notify_message;
}

abbrev pub tcp_datagram_active : ℕ → ℕ → ℕ → Request
tcp_datagram_active local_port remote_port notify_message = record {
  mode = create_tcp_datagram_session_active;
  local_address = none;
  port = local_port;
  has_remote = true;
  remote_port = remote_port;
  notify_message = notify_message;
}
