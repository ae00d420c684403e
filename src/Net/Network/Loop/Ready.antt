-- ===== src/Net/Network/Loop/Ready.antt =====
-- ANetworkSession.cpp, `threadLoop`: the count `res` of descriptors that are left.
use how_to_miracast_on_aosp.Prelude.{
  ℕ, ◌+◌, ◌-◌, ◌≤◌, ◌≡◌, refl, Bool, false, ◌||◌, List, [], ◌∷◌, ◌++◌, Option, none, some, arith,
  if◌then◌else◌, Bytes, Option-cases, inl, inr, append-nil,
}
use how_to_miracast_on_aosp.Prelude.Outcome.{Outcome, done, blocked, fault, ◌>>=◌, Outcome-cases}
use how_to_miracast_on_aosp.Net.Session.{Session}
use how_to_miracast_on_aosp.Net.Network.Loop.{Events, Tally, serve, take_turn, serve_all}

abbrev pub is_ready : (ℕ → Bool) → (ℕ → Bool) → Session → Bool
is_ready rs ws s = elim s.socket [ none ↦ false | some fd ↦ rs fd || ws fd ]

-- The sessions with a ready descriptor.
abbrev pub ready_count : (ℕ → Bool) → (ℕ → Bool) → List (ℕ × Session) → ℕ
ready_count rs ws [] = 0
ready_count rs ws ((k, s) ∷ rest) = (if is_ready rs ws s then 1 else 0) + ready_count rs ws rest

module _ (u16_at : ℕ → ℕ → ℕ) {M : Type 0} (parse : Bytes → Bool → Option (M × ℕ))
    (get_content : M → Option Bytes) (rs ws : ℕ → Bool) (env : ℕ → Events) where
  -- One session's turn with no count of descriptors.
  abbrev pub full_turn : Events → Session → Tally M → Outcome (Session × Tally M)
  full_turn ev s t = elim s.socket [
    | none ↦ done (s, t)
    | some fd ↦ do
      (s', id, clients, posted, closed) ← serve u16_at parse get_content s (rs fd) (ws fd) ev t.next
      done (
        s',
        record t {
          next = id;
          clients = t.clients ++ clients;
          posted = t.posted ++ posted;
          closed = t.closed ++ closed;
        },
      )
  ]

  -- The specification: every session has its turn.
  abbrev pub serve_every : Tally M → List (ℕ × Session) → Outcome (List (ℕ × Session) × Tally M)
  serve_every t [] = done ([], t)
  serve_every t ((k, s) ∷ rest) = do
    (ss, u) ← serve_every t rest
    (s', v) ← full_turn (env k) s u
    done ((k, s') ∷ ss, v)

  abbrev pub with_left :
      ℕ → Outcome (List (ℕ × Session) × Tally M) → Outcome (List (ℕ × Session) × Tally M)
  with_left n m = do (ss, t) ← m; done (ss, record t { left = n })

  abbrev turn_left : ℕ → Outcome (Session × Tally M) → Outcome (Session × Tally M)
  turn_left n m = do (s, t) ← m; done (s, record t { left = n })

  serve_quiet :
      (s : Session) (ev : Events) (id : ℕ)
      → serve u16_at parse get_content s false false ev id ≡ done (s, id, [], [], [])
  unfolding serve
  serve_quiet s ev id = refl

  take_turn-full :
      (ev : Events) (s : Session) (t : Tally M)
      → (if is_ready rs ws s then 1 else 0) ≤ t.left
      → take_turn u16_at parse get_content rs ws ev s t
        ≡ turn_left (t.left - (if is_ready rs ws s then 1 else 0)) (full_turn ev s t)
  unfolding take_turn
  take_turn-full ev s t h = elim (Option-cases s.socket) [
    | inl e ↦ ground arith
    | inr (fd, e) ↦
        elim (Outcome-cases (serve u16_at parse get_content s (rs fd) (ws fd) ev t.next)) [
          | inl (r, q) ↦ ground (
            arith,
            serve_quiet s ev t.next,
            append-nil t.clients,
            append-nil t.posted,
            append-nil t.closed,
          )
          | inr (inl q) ↦ ground (arith, serve_quiet s ev t.next)
          | inr (inr q) ↦ ground (arith, serve_quiet s ev t.next)
        ]
  ]

  full_turn-left :
      (ev : Events) (s : Session) (t : Tally M) (n k : ℕ)
      → turn_left k (full_turn ev s (record t { left = n })) ≡ turn_left k (full_turn ev s t)
  full_turn-left ev s t n k = elim (Option-cases s.socket) [
    | inl e ↦ ground arith
    | inr (fd, e) ↦
        elim (Outcome-cases (serve u16_at parse get_content s (rs fd) (ws fd) ev t.next)) [
          | inl (r, q) ↦ ground arith
          | inr (inl q) ↦ ground arith
          | inr (inr q) ↦ ground arith
        ]
  ]

  regroup :
      (k : ℕ) (ss : List (ℕ × Session)) (turn : Outcome (Session × Tally M)) (a b : ℕ)
      → a ≡ b
      → (turn_left a turn >>= λ x. done ((k, x.0) ∷ ss, x.1))
        ≡ with_left b (turn >>= λ x. done ((k, x.0) ∷ ss, x.1))
  regroup k ss (done x) a b e = rw e
  regroup k ss blocked a b e = refl
  regroup k ss fault a b e = refl

  -- If `res` is at least the number of sessions with a ready descriptor when the loop begins, then
  -- the loop that stops at 0 does to every session what it would do without the count, and `res`
  -- ends as what is left over.
  pub serve_all-every :
      (t : Tally M) (m : List (ℕ × Session))
      → ready_count rs ws m ≤ t.left
      → serve_all u16_at parse get_content rs ws env t m
        ≡ with_left (t.left - ready_count rs ws m) (serve_every t m)
  unfolding serve_all
  serve_all-every t [] h = ground arith
  serve_all-every t ((k, s) ∷ rest) h =
      rw (serve_all-every t rest (omega arith)) (elim (Outcome-cases (serve_every t rest)) [
        | inl ((ss, u), q) ↦
            rw
              (
                q,
                take_turn-full (env k) s (record u { left = t.left - ready_count rs ws rest })
                    (omega arith),
                full_turn-left (env k) s u (t.left - ready_count rs ws rest)
                    (t.left - ready_count rs ws rest - (if is_ready rs ws s then 1 else 0)),
              )
              (regroup k ss (full_turn (env k) s u)
                (t.left - ready_count rs ws rest - (if is_ready rs ws s then 1 else 0))
                (t.left - ((if is_ready rs ws s then 1 else 0) + ready_count rs ws rest))
                (omega arith))
        | inr (inl q) ↦ rw q
        | inr (inr q) ↦ rw q
      ])
