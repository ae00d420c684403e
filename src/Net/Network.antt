-- ===== src/Net/Network.antt =====
-- ANetworkSession.cpp and .h, `struct ANetworkSession`: the table of sessions, the wake-up pipe and
-- the thread. Each operation gives the system calls that it makes, in order, beside its results.
pub mod Create
pub mod Loop
pub mod Table
pub mod Access
use how_to_miracast_on_aosp.Prelude.{
  ℕ, ◌+◌, ◌%◌, ◌^◌, Bool, true, false, List, [], ◌∷◌, ◌++◌, Option, none, some, ltb, ◌==◌,
  if◌then◌else◌, Bytes, ◌⊎◌, inl, inr, ◌≡◌, refl,
}
use how_to_miracast_on_aosp.Prelude.Int.{ℤ}
use how_to_miracast_on_aosp.Prelude.Outcome.{Outcome, done, ◌>>=◌}
use how_to_miracast_on_aosp.Net.Session.{Session, State, send_request}
use how_to_miracast_on_aosp.Net.Session.Notice.{enoent, enosys}

-- What a system call returns: its result, or -1 with `errno`.
pub data Answer : Type 0 where
  result : ℕ → Answer
  failure : ℕ → Answer

pub Answer-cases : (a : Answer) → ((r : ℕ) × (a ≡ result r)) ⊎ ((e : ℕ) × (a ≡ failure e))
Answer-cases (result r) = inl (r, refl)
Answer-cases (failure e) = inr (e, refl)

-- What gethostbyname returns: an address, or NULL with `h_errno`.
pub data Lookup : Type 0 where
  found : ℕ → Lookup
  unknown : ℕ → Lookup

pub record SockAddr : Type 0 where
  pub address : ℕ
  pub port : ℕ

-- The calls with an effect. `open_socket true` asks for a datagram socket.
pub data Call : Type 0 where
  open_socket : Bool → Call
  reuse_address receive_buffer send_buffer get_flags : ℕ → Call
  -- the flags found, to which O_NONBLOCK is added
  set_non_blocking : ℕ → ℕ → Call
  connect bind : ℕ → SockAddr → Call
  listen close_socket : ℕ → Call
  make_pipe interrupt : Call

-- `mSessions` in the order of its keys; `mPipeFd`, `none` for -1; whether `mThread` is set.
pub record Network : Type 0 where
  pub next_session_id : ℕ
  pub sessions : List (ℕ × Session)
  pub pipe : Option (ℕ × ℕ)
  pub running : Bool

abbrev pub empty : Network
empty = record { next_session_id = 1; sessions = []; pipe = none; running = false }

-- `mNextSessionID++` of an `int32_t`, as a bit pattern.
abbrev pub next_id : ℕ → ℕ
next_id n = (n + 1) % 2 ^ 32

-- KeyedVector: `indexOfKey` with `valueAt`, `add`, `removeItemsAt`, and a change through the
-- pointer.
unfoldable pub lookup : ℕ → List (ℕ × Session) → Option Session
lookup k [] = none
lookup k ((j, s) ∷ rest) = if j == k then some s else lookup k rest

unfoldable pub add : ℕ → Session → List (ℕ × Session) → List (ℕ × Session)
add k s [] = (k, s) ∷ []
add k s ((j, t) ∷ rest) =
    if ltb j k
    then (j, t) ∷ add k s rest
    else if j == k
    then (k, s) ∷ rest
    else (k, s) ∷ (j, t) ∷ rest

unfoldable pub remove : ℕ → List (ℕ × Session) → List (ℕ × Session)
remove k [] = []
remove k ((j, t) ∷ rest) = if j == k then rest else (j, t) ∷ remove k rest

unfoldable pub update : ℕ → Session → List (ℕ × Session) → List (ℕ × Session)
update k s [] = []
update k s ((j, t) ∷ rest) = if j == k then (k, s) ∷ rest else (j, t) ∷ update k s rest

-- `~Session`: the table holds the last reference.
unfoldable pub close_session : Session → List Call
close_session s = elim s.socket [ none ↦ [] | some fd ↦ close_socket fd ∷ [] ]

abbrev connect_session : Session → SockAddr → List Call
connect_session s to = elim s.socket [ none ↦ [] | some fd ↦ connect fd to ∷ [] ]

unfoldable pub destroy_session : Network → ℕ → Network × List Call × ℕ
unfolding close_session
destroy_session net id = elim (lookup id net.sessions) [
  | none ↦ (net, [], enoent)
  | some s ↦
      (record net { sessions = remove id net.sessions }, close_session s ++ interrupt ∷ [], 0)
]

unfoldable pub send_to : Network → ℕ → Bytes → ℤ → Outcome (Network × List Call × ℕ)
send_to net id contents size = elim (lookup id net.sessions) [
  | none ↦ done (net, [], enoent)
  | some s ↦ do
    s' ← send_request s contents size
    done (record net { sessions = update id s' net.sessions }, interrupt ∷ [], 0)
]

-- `connectUDPSession`: the remote host, and what connect answers.
unfoldable pub connect_udp_session : Network → ℕ → Lookup → ℕ → Answer → List Call × ℕ
connect_udp_session net id host port answer = elim (lookup id net.sessions) [
  | none ↦ ([], enoent)
  | some s ↦ elim host [
    | unknown h ↦ ([], h)
    | found address ↦ (
      connect_session s (record { address = address; port = port }),
      elim answer [ result r ↦ 0 | failure e ↦ e ],
    )
  ]
]

-- What pipe answers: both ends, or `errno`; and the status of the thread's `run`.
unfoldable pub start : Network → (ℕ × ℕ) ⊎ ℕ → ℕ → Network × List Call × ℕ
start net ends run = if net.running then (net, [], enosys) else elim ends [
  | inr e ↦ (record net { pipe = none }, make_pipe ∷ [], e)
  | inl (r, w) ↦
      if run == 0
      then (record net { pipe = some (r, w); running = true }, make_pipe ∷ [], 0)
      else (record net { pipe = none }, make_pipe ∷ close_socket r ∷ close_socket w ∷ [], run)
]

abbrev close_pipe : Option (ℕ × ℕ) → List Call
close_pipe none = []
close_pipe (some (r, w)) = close_socket r ∷ close_socket w ∷ []

unfoldable pub stop : Network → Network × List Call × ℕ
stop net =
    if net.running
    then (record net { pipe = none; running = false }, interrupt ∷ close_pipe net.pipe, 0)
    else (net, [], enosys)
