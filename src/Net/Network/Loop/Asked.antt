-- ===== src/Net/Network/Loop/Asked.antt =====
-- ANetworkSession.cpp, `threadLoop`: the sets that select is given, and a round that uses what
-- select found in them with no change of the sessions meanwhile.
use how_to_miracast_on_aosp.Prelude.{
  ℕ, ◌≡◌, ◌≢◌, Bool, true, false, ◌||◌, List, [], ◌∷◌, Option, none, some, arith, ◌==◌, Bytes,
}
use how_to_miracast_on_aosp.Prelude.Outcome.{fault}
use how_to_miracast_on_aosp.Net.Session.{Session, wants_to_write}
use how_to_miracast_on_aosp.Net.Session.Write.Failure.{AllRtp}
use how_to_miracast_on_aosp.Net.Network.{Network, Answer}
use how_to_miracast_on_aosp.Net.Network.Loop.{Events, asked, write_set, thread_round}
use how_to_miracast_on_aosp.Net.Network.Loop.Safe.{AllOwed, thread_round-ne-fault}

abbrev pub is_among : ℕ → List ℕ → Bool
is_among fd [] = false
is_among fd (x ∷ xs) = x == fd || is_among fd xs

-- A session of the table has this socket.
abbrev pub is_held : ℕ → List (ℕ × Session) → Bool
is_held fd [] = false
is_held fd ((k, s) ∷ rest) = elim s.socket [
  | none ↦ is_held fd rest
  | some g ↦ g == fd || is_held fd rest
]

-- No two sessions share a socket, as the system gives out descriptors.
abbrev pub AllApart : List (ℕ × Session) → Type 0
AllApart [] = Unit {0}
AllApart ((k, s) ∷ rest) = ((fd : ℕ) → s.socket ≡ some fd → is_held fd rest ≡ false) × AllApart rest

abbrev pub AllHeaders : List (ℕ × Session) → Type 0
AllHeaders [] = Unit {0}
AllHeaders ((k, s) ∷ rest) = AllRtp s.out_datagrams × AllHeaders rest

is_held-asked :
    (wants : Session → Bool) (fd : ℕ) (m : List (ℕ × Session))
    → is_among fd (asked wants m) ≡ true
    → is_held fd m ≡ true
unfolding asked
is_held-asked wants fd [] h = absurd (cc)
is_held-asked wants fd ((k, s) ∷ m) h = ground (arith, is_held-asked wants fd m)

asked_first :
    (wants : Session → Bool) (fd k : ℕ) (s : Session) (m : List (ℕ × Session))
    → s.socket ≡ some fd
    → is_held fd m ≡ false
    → is_among fd (asked wants ((k, s) ∷ m)) ≡ true
    → wants s ≡ true
unfolding asked
asked_first wants fd k s m e apart h = ground (arith, is_held-asked wants fd m)

asked_later :
    (wants : Session → Bool) (fd k : ℕ) (s : Session) (m : List (ℕ × Session))
    → s.socket ≢ some fd
    → is_among fd (asked wants ((k, s) ∷ m)) ≡ true
    → is_among fd (asked wants m) ≡ true
unfolding asked
asked_later wants fd k s m other h = ground arith

module _ (ws : ℕ → Bool) (env : ℕ → Events) where
  asked-AllOwed :
      (u16_at : ℕ → ℕ → ℕ) {M : Type 0} (parse : Bytes → Bool → Option (M × ℕ))
      (get_content : M → Option Bytes) (m : List (ℕ × Session))
      → AllApart m
      → AllHeaders m
      → ((k : ℕ) → ((env k).local ≢ none) × ((env k).peer ≢ none) × ((env k).so_error ≢ none))
      → ((fd : ℕ)
          → is_held fd m ≡ true
          → ws fd ≡ true
          → is_among fd (asked wants_to_write m) ≡ true)
      → AllOwed u16_at parse get_content ws env m
  asked-AllOwed u16_at parse get_content [] apart headers known found = tt
  asked-AllOwed u16_at parse get_content ((k, s) ∷ m) apart headers known found = (
    (λ fd e. record {
      local_known = (known k).0;
      peer_known = (known k).1;
      so_error_known = (known k).2;
      asked_for =
          λ w. asked_first wants_to_write fd k s m e (apart.0 fd e) (found fd (ground arith) w);
      headers = headers.0;
    }),
    asked-AllOwed u16_at parse get_content m apart.1 headers.1 known λ fd held w.
        asked_later wants_to_write fd k s m (λ e. absurd (let no = apart.0 fd e in cc))
          (found fd (ground arith) w),
  )

-- A round whose sessions stay as they were when the sets were built does not abort: select finds
-- only descriptors writable that it was asked about, no two sessions share a socket, every queued
-- datagram has the 8 bytes of an RTP header, accepted sockets have their addresses, and getsockopt
-- gives SO_ERROR.
pub thread_round-write_set :
    (u16_at : ℕ → ℕ → ℕ) {M : Type 0} (parse : Bytes → Bool → Option (M × ℕ))
    (get_content : M → Option Bytes) (net : Network) (found : Answer) (woken : Bool)
    (rs ws : ℕ → Bool) (env : ℕ → Events)
    → AllApart net.sessions
    → AllHeaders net.sessions
    → ((k : ℕ) → ((env k).local ≢ none) × ((env k).peer ≢ none) × ((env k).so_error ≢ none))
    → ((fd : ℕ) → ws fd ≡ true → is_among fd (write_set net) ≡ true)
    → thread_round u16_at parse get_content net found woken rs ws env ≢ fault
unfolding write_set
thread_round-write_set u16_at parse get_content net found woken rs ws env apart headers known
      finds =
    thread_round-ne-fault u16_at parse get_content net found woken rs ws env (
      asked-AllOwed ws env u16_at parse get_content net.sessions apart headers known
        λ fd held w. finds fd w)
