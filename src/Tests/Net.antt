-- ===== src/Tests/Net.antt =====
-- A network of ANetworkSession.cpp with a server and a connection.
use how_to_miracast_on_aosp.Prelude.{
  ℕ, ◌≤◌, ◌≡◌, ◌≢◌, refl, Bool, true, false, ◌||◌, none, some, List, [], ◌∷◌, arith, ◌==◌,
  if◌then◌else◌, ◌⊎◌,
}
use how_to_miracast_on_aosp.Prelude.Outcome.{fault, Ensures}
use how_to_miracast_on_aosp.Net.Session.{listening_rtsp, wants_to_write}
use how_to_miracast_on_aosp.Net.Session.Notice.{enoent}
use how_to_miracast_on_aosp.Net.Session.Read.{received}
use how_to_miracast_on_aosp.Net.Session.Write.{sent}
use how_to_miracast_on_aosp.Net.Network.{
  Network, Call, result, failure, found, lookup, destroy_session,
}
use how_to_miracast_on_aosp.Net.Network.Create.{
  Answers, Request, rtsp_server, create_client_or_server,
}
use how_to_miracast_on_aosp.Net.Network.Create.Sockets.{
  Refused, Registered, create_client_or_server-cases,
}
use how_to_miracast_on_aosp.Net.Network.Table.{WellFormed}
use how_to_miracast_on_aosp.Net.Network.Access.{destroy_session-lookup}
use how_to_miracast_on_aosp.Net.Network.Loop.{
  write_set, Events, Posted, tally, serve_all, thread_round,
}
use how_to_miracast_on_aosp.Net.Network.Loop.Asked.{AllApart, is_among, thread_round-write_set}
use how_to_miracast_on_aosp.Net.Network.Loop.Ready.{
  ready_count, serve_every, with_left, serve_all-every,
}
use how_to_miracast_on_aosp.Net.Network.Loop.Numbers.{thread_round-WellFormed}
use how_to_miracast_on_aosp.Net.Network.Loop.Safe.{Owed, AllOwed, thread_round-ne-fault}
use how_to_miracast_on_aosp.Tests.Stream.{be16, one_byte, no_content, clock, session, sender}

-- The server has number 0 and descriptor 10, the connection number 1 and descriptor 11.
abbrev net : Network
net = record {
  next_session_id = 2;
  sessions = (0, session 0 listening_rtsp) ∷ (1, sender) ∷ [];
  pipe = some (3, 4);
  running = true;
}

net-WellFormed : WellFormed net
net-WellFormed = (omega arith, omega arith, refl, (omega arith, omega arith, refl, tt))

-- listen fails with EADDRINUSE, 98.
abbrev in_use : Answers
in_use = record {
  socket = result 12;
  reuse = result 0;
  receive = result 0;
  send = result 0;
  flags = result 2;
  non_blocking = result 0;
  lookup = found 0x7f000001;
  connects = failure 115;
  binds = result 0;
  listens = failure 98;
}

abbrev server : Request
server = rtsp_server 0x7f000001 7236 7

create_client_or_server-cases_example :
    Ensures
      (λ (r : Network × List Call × ℕ × ℕ).
        Refused net server in_use r ⊎ Registered net server in_use r)
      (create_client_or_server net server in_use)
create_client_or_server-cases_example = create_client_or_server-cases net server in_use

destroy_session-lookup_example :
    ((i : ℕ)
      → lookup i (destroy_session net 1).0.sessions
        ≡ (if 1 == i then none else lookup i net.sessions))
    × WellFormed (destroy_session net 1).0
    × ((destroy_session net 1).0.next_session_id ≡ 2)
    × (lookup 1 net.sessions ≡ none
        → ((destroy_session net 1).1 ≡ []) × ((destroy_session net 1).2 ≡ enoent))
destroy_session-lookup_example = destroy_session-lookup net 1 net-WellFormed

-- A client is waiting for the server, and the connection takes four bytes.
abbrev events : ℕ → Events
events k = record {
  datagrams = [];
  stream = received (0 ∷ 1 ∷ 5 ∷ []) ∷ [];
  sends = sent 4 ∷ [];
  so_error = some 0;
  clock = clock;
  accepts = result 20;
  flags = result 2;
  non_blocking = result 0;
  local = some (record { address = 0x7f000001; port = 7236 });
  peer = some (record { address = 0x7f000001; port = 5000 });
}

abbrev readable : ℕ → Bool
readable fd = fd == 10 || fd == 11

abbrev writable : ℕ → Bool
writable fd = fd == 11

wants : wants_to_write sender ≡ true
unfolding wants_to_write
wants = refl

server-Owed :
    (fd : ℕ) → some 10 ≡ some fd → Owed (session 0 listening_rtsp) (writable fd) (events 0)
server-Owed fd e = record {
  local_known = λ h. cc;
  peer_known = λ h. cc;
  so_error_known = λ h. cc;
  asked_for = λ h. absurd (ground arith);
  headers = tt;
}

connection-Owed : (fd : ℕ) → some 11 ≡ some fd → Owed sender (writable fd) (events 1)
connection-Owed fd e = record {
  local_known = λ h. cc;
  peer_known = λ h. cc;
  so_error_known = λ h. cc;
  asked_for = λ h. wants;
  headers = tt;
}

owed : AllOwed be16 one_byte no_content writable events net.sessions
owed = (server-Owed, (connection-Owed, tt))

thread_round-ne-fault_example :
    thread_round be16 one_byte no_content net (result 2) false readable writable events ≢ fault
thread_round-ne-fault_example =
    thread_round-ne-fault be16 one_byte no_content net (result 2) false readable writable events
      owed

thread_round-WellFormed_example :
    Ensures
      (λ (r : Network × List (Posted ℕ) × List ℕ). WellFormed r.0)
      (thread_round be16 one_byte no_content net (result 2) false readable writable events)
thread_round-WellFormed_example =
    thread_round-WellFormed be16 one_byte no_content net (result 2) false readable writable events
      net-WellFormed (omega arith)

two : ready_count readable writable net.sessions ≤ 2
two = omega arith

serve_all-every_example :
    serve_all be16 one_byte no_content readable writable events (tally 2 2) net.sessions
    ≡ with_left be16 one_byte no_content readable writable events 0
        (serve_every be16 one_byte no_content readable writable events (tally 2 2) net.sessions)
serve_all-every_example =
    serve_all-every be16 one_byte no_content readable writable events (tally 2 2) net.sessions two

apart : AllApart net.sessions
apart = ((λ fd e. ground arith), ((λ fd e. refl), tt))

all_known :
    (k : ℕ) → ((events k).local ≢ none) × ((events k).peer ≢ none) × ((events k).so_error ≢ none)
all_known k = ((λ h. cc), (λ h. cc), λ h. cc)

finds : (fd : ℕ) → writable fd ≡ true → is_among fd (write_set net) ≡ true
unfolding write_set wants_to_write
finds fd h = ground arith

thread_round-write_set_example :
    thread_round be16 one_byte no_content net (result 2) false readable writable events ≢ fault
thread_round-write_set_example =
    thread_round-write_set be16 one_byte no_content net (result 2) false readable writable events
      apart (tt, (tt, tt)) all_known finds
