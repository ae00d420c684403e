-- ===== src/Net/Network/Loop/Numbers.antt =====
-- ANetworkSession.cpp, `threadLoop`: a round keeps the table of sessions well formed, and numbers
-- the clients that it accepts one after the other.
use how_to_miracast_on_aosp.Prelude.{
  ℕ, suc, ◌+◌, ◌-◌, ◌^◌, ◌<◌, ◌≤◌, ◌≡◌, refl, sym, ◌∙◌, Bool, true, false, ◌||◌, List, [], ◌∷◌,
  ◌++◌, Option, arith, ◌==◌, if◌then◌else◌, Bytes, Option-cases, Bool-cases, inl, inr, length,
  length-append, subst,
}
use how_to_miracast_on_aosp.Prelude.Outcome.{done, ◌>>=◌, Ensures, ensures, Ensures->>=}
use how_to_miracast_on_aosp.Net.Session.{
  Session, set_is_rtsp_connection, is_rtsp_server, is_tcp_datagram_server,
}
use how_to_miracast_on_aosp.Net.Session.Read.{read_more}
use how_to_miracast_on_aosp.Net.Session.Read.Failure as Reading
use how_to_miracast_on_aosp.Net.Session.Write.{write_more}
use how_to_miracast_on_aosp.Net.Session.Write.Failure as Writing
use how_to_miracast_on_aosp.Net.Network.{
  Network, Answer, Answer-cases, result, failure, next_id, add,
}
use how_to_miracast_on_aosp.Net.Network.Create
use how_to_miracast_on_aosp.Net.Network.Create.{make_socket_non_blocking, new_session, Setup}
use how_to_miracast_on_aosp.Net.Network.Table.{Rising, WellFormed, add-Rising, Rising-raise}
use how_to_miracast_on_aosp.Net.Network.Loop.{
  Events, Tally, Turn, Posted, tally, serve_listener, accept_client, serve_readable, serve_writable,
  serve, take_turn, serve_all, add_all, thread_round,
}

-- The sessions bear consecutive numbers from `id` up to `next`.
abbrev pub Numbered : ℕ → List Session → ℕ → Type 0
Numbered id [] next = next ≡ id
Numbered id (c ∷ cs) next = (c.session_id ≡ id) × Numbered (next_id id) cs next

Numbered-append :
    (id mid next : ℕ) (cs ds : List Session)
    → Numbered id cs mid
    → Numbered mid ds next
    → Numbered id (cs ++ ds) next
Numbered-append id mid next [] ds h k = subst (λ m. Numbered m ds next) h k
Numbered-append id mid next (c ∷ cs) ds h k =
    (h.0, Numbered-append (next_id id) mid next cs ds h.1 k)

-- A turn keeps the session's number and accepts at most one client, which takes the next number.
abbrev GoodTurn : {M : Type 0} → Session → ℕ → Turn M → Type 0
GoodTurn s id r = (r.0.session_id ≡ s.session_id) × Numbered id r.2 r.1 × (length r.2 ≤ 1)

accept_client-GoodTurn :
    (M : Type 0) (s : Session) (ev : Events) (id fd : ℕ)
    → Ensures (GoodTurn s id) (accept_client {M = M} s ev id fd)
unfolding accept_client new_session set_is_rtsp_connection
accept_client-GoodTurn M s ev id fd = elim (Option-cases ev.local) [
  | inl e ↦ rw (e, accept_client) tt
  | inr (server, e) ↦ elim (Option-cases ev.peer) [
    | inl e' ↦ rw (e, accept_client, e') tt
    | inr (client, e') ↦ rw (e, accept_client, e') (omega arith)
  ]
]

at_setup :
    (M : Type 0) (s : Session) (ev : Events) (id fd : ℕ) (setup : Setup ℕ)
    → Ensures (GoodTurn {M = M} s id) (elim setup [
      | Create.ready cs r ↦ accept_client s ev id fd
      | _ ↦ done (s, id, [], [], fd ∷ [])
    ])
at_setup M s ev id fd (Create.ready cs r) = accept_client-GoodTurn M s ev id fd
at_setup M s ev id fd (Create.bail cs e) = omega arith
at_setup M s ev id fd Create.abort = omega arith

serve_listener-GoodTurn :
    (M : Type 0) (s : Session) (ev : Events) (id : ℕ)
    → Ensures (GoodTurn s id) (serve_listener {M = M} s ev id)
unfolding serve_listener
serve_listener-GoodTurn M s ev id = elim (Answer-cases ev.accepts) [
  | inr (e, h) ↦ rw (h, serve_listener) (omega arith)
  | inl (fd, h) ↦
      rw (h, serve_listener)
        (at_setup M s ev id fd (make_socket_non_blocking fd ev.flags ev.non_blocking))
]

serve_writable_id :
    (M : Type 0) (s : Session) (ev : Events)
    → Ensures
        (λ (w : Session × List (Posted M)). w.0.session_id ≡ s.session_id)
        (serve_writable s ev)
unfolding serve_writable
serve_writable_id M s ev =
    Ensures->>= (Writing.Settled s ev.clock ev.so_error ev.sends) _
      (write_more s ev.clock ev.so_error ev.sends) _
      (ensures _ (write_more s ev.clock ev.so_error ev.sends)
        (Writing.write_more-Settled s ev.clock ev.so_error ev.sends))
      λ r settled. settled.same_id

module _ (u16_at : ℕ → ℕ → ℕ) {M : Type 0} (parse : Bytes → Bool → Option (M × ℕ))
    (get_content : M → Option Bytes) where
  serve_readable-GoodTurn :
      (s : Session) (ev : Events) (id : ℕ)
      → Ensures (GoodTurn s id) (serve_readable u16_at parse get_content s ev id)
  unfolding serve_readable
  serve_readable-GoodTurn s ev id =
      elim (Bool-cases (is_rtsp_server s || is_tcp_datagram_server s)) [
        | inl listens ↦ rw listens (serve_listener-GoodTurn M s ev id)
        | inr other ↦
            let read = read_more u16_at parse get_content s ev.clock ev.datagrams ev.stream in
            rw other (
              Ensures->>= (Reading.Settled u16_at parse get_content s ev.clock) (GoodTurn s id) read
                _
                (ensures _ read (
                  Reading.read_more-Settled u16_at parse get_content s ev.clock ev.datagrams
                    ev.stream))
                λ r settled. (settled.same_id, refl, omega arith))
      ]

  serve-GoodTurn :
      (s : Session) (readable writable : Bool) (ev : Events) (id : ℕ)
      → Ensures (GoodTurn s id) (serve u16_at parse get_content s readable writable ev id)
  unfolding serve
  serve-GoodTurn s readable writable ev id =
      Ensures->>= (GoodTurn s id) (GoodTurn s id) _ _ (reading readable)
        λ r good. writing writable r good
    where
      reading :
          (b : Bool)
          → Ensures (GoodTurn {M = M} s id) (
              if b
              then serve_readable u16_at parse get_content s ev id
              else done (s, id, [], [], []))
      reading true = serve_readable-GoodTurn s ev id
      reading false = omega arith

      writing :
          (b : Bool) (r : Turn M)
          → GoodTurn s id r
          → Ensures (GoodTurn {M = M} s id) (
              if b
              then (serve_writable r.0 ev >>= λ w. done (w.0, r.1, r.2, r.3 ++ w.1, r.4))
              else done r)
      writing false r good = good
      writing true r good =
          Ensures->>= (λ (w : Session × List (Posted M)). w.0.session_id ≡ r.0.session_id)
            (GoodTurn s id) (serve_writable r.0 ev) _ (serve_writable_id M r.0 ev)
            λ w same. (same ∙ good.0, good.1, good.2)

  abbrev GoodStep : Session → List Session → ℕ → Session × Tally M → Type 0
  GoodStep s clients base r =
      (r.0.session_id ≡ s.session_id)
      × Numbered base r.1.clients r.1.next
      × (length r.1.clients ≤ length clients + 1)

  take_turn-GoodStep :
      (rs ws : ℕ → Bool) (ev : Events) (s : Session) (t : Tally M) (base : ℕ)
      → Numbered base t.clients t.next
      → Ensures (GoodStep s t.clients base) (take_turn u16_at parse get_content rs ws ev s t)
  unfolding take_turn
  take_turn-GoodStep rs ws ev s t base numbered = elim (Bool-cases (t.left == 0)) [
    | inl stop ↦ rw stop (refl, numbered, omega arith)
    | inr go ↦ elim (Option-cases s.socket) [
      | inl e ↦ rw (go, e, take_turn) (refl, numbered, omega arith)
      | inr (fd, e) ↦
          rw (go, e, take_turn)
            (Ensures->>= (GoodTurn s t.next) (GoodStep s t.clients base)
              (serve u16_at parse get_content s (rs fd) (ws fd) ev t.next) _
              (serve-GoodTurn s (rs fd) (ws fd) ev t.next)
              λ r good. (
                good.0,
                Numbered-append base t.next r.1 t.clients r.2 numbered good.1,
                omega (arith, length-append t.clients r.2, good.2),
              ))
    ]
  ]

  abbrev GoodRound : ℕ → ℕ → ℕ → ℕ → List (ℕ × Session) × Tally M → Type 0
  GoodRound lo hi base count r =
      Rising lo hi r.0 × Numbered base r.1.clients r.1.next × (length r.1.clients ≤ count)

  serve_all-GoodRound :
      (rs ws : ℕ → Bool) (env : ℕ → Events) (t : Tally M) (lo hi base : ℕ) (m : List (ℕ × Session))
      → Numbered base t.clients t.next
      → Rising lo hi m
      → Ensures
          (GoodRound lo hi base (length t.clients + length m))
          (serve_all u16_at parse get_content rs ws env t m)
  unfolding serve_all
  serve_all-GoodRound rs ws env t lo hi base [] numbered rising = (tt, numbered, omega arith)
  serve_all-GoodRound rs ws env t lo hi base ((k, s) ∷ rest) numbered rising =
      Ensures->>= (GoodRound (suc k) hi base (length t.clients + length rest))
        (GoodRound lo hi base (length t.clients + suc (length rest)))
        (serve_all u16_at parse get_content rs ws env t rest) _
        (serve_all-GoodRound rs ws env t (suc k) hi base rest numbered rising.3)
        λ r good.
          Ensures->>= (GoodStep s r.1.clients base) _
            (take_turn u16_at parse get_content rs ws (env k) s r.1) _
            (take_turn-GoodStep rs ws (env k) s r.1 base good.1)
            λ v step. (
              (rising.0, rising.1, step.0 ∙ rising.2, good.0),
              step.1,
              omega (arith, step.2, good.2),
            )

  -- The numbers stay below the bound of `int32_t`.
  add_all-Rising :
      (base next : ℕ) (cs : List Session) (m : List (ℕ × Session))
      → base + length cs < 2 ^ 31
      → Numbered base cs next
      → Rising 0 base m
      → Rising 0 next (add_all cs m)
  unfolding add_all
  add_all-Rising base next [] m h n r = subst (λ b. Rising 0 b m) (sym n) r
  add_all-Rising base next (c ∷ cs) m h n r =
      let up : next_id base ≡ base + 1 = omega arith in
      add_all-Rising (base + 1) next cs (add c.session_id c m) (omega arith)
        (subst (λ b. Numbered b cs next) up n.1)
        (add-Rising 0 (base + 1) c.session_id c m (omega arith) (omega (arith, n.0)) refl
          (Rising-raise 0 base (base + 1) m (omega arith) r))

  -- A round keeps the table well formed, whatever select finds and the system answers, as long as
  -- one new number for each session keeps `mNextSessionID` below the bound of `int32_t`.
  pub thread_round-WellFormed :
      (net : Network) (found : Answer) (woken : Bool) (rs ws : ℕ → Bool) (env : ℕ → Events)
      → WellFormed net
      → net.next_session_id + length net.sessions < 2 ^ 31
      → Ensures
          (λ (r : Network × List (Posted M) × List ℕ). WellFormed r.0)
          (thread_round u16_at parse get_content net found woken rs ws env)
  unfolding thread_round
  thread_round-WellFormed net (failure e) woken rs ws env wf h = wf
  thread_round-WellFormed net (result count) woken rs ws env wf h = elim (Bool-cases (count == 0)) [
    | inl none_found ↦ rw none_found wf
    | inr some_found ↦
        let t : Tally M = tally (if woken then count - 1 else count) net.next_session_id in
        rw some_found (
          Ensures->>=
            (GoodRound 0 net.next_session_id net.next_session_id (0 + length net.sessions)) _
            (serve_all u16_at parse get_content rs ws env t net.sessions) _
            (serve_all-GoodRound rs ws env t 0 net.next_session_id net.next_session_id net.sessions
              refl wf)
            λ r good.
              add_all-Rising net.next_session_id r.1.next r.1.clients r.0 (omega (arith, good.2))
                good.1 good.0)
  ]
