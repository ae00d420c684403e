-- ===== src/Net/Network/Access.antt =====
-- ANetworkSession.cpp, `destroySession` and `sendRequest` on the table of sessions.
use how_to_miracast_on_aosp.Prelude.{
  ℕ, ◌≡◌, refl, ◌∙◌, List, [], none, arith, ◌==◌, if◌then◌else◌, Bytes, Option-cases, inl, inr,
}
use how_to_miracast_on_aosp.Prelude.Int.{ℤ}
use how_to_miracast_on_aosp.Prelude.Outcome.{done, Ensures, ensures, Ensures->>=}
use how_to_miracast_on_aosp.Net.Session.{Session, send_request}
use how_to_miracast_on_aosp.Net.Session.Notice.{enoent}
use how_to_miracast_on_aosp.Net.Network.{Network, Call, lookup, destroy_session, send_to}
use how_to_miracast_on_aosp.Net.Network.Table.{
  WellFormed, remove-Rising, update-Rising, lookup-remove, lookup_id,
}

destroy_session-none :
    (net : Network) (id : ℕ)
    → lookup id net.sessions ≡ none
    → destroy_session net id ≡ (net, [], enoent)
unfolding destroy_session
destroy_session-none net id e = rw (e, destroy_session)

-- In a well-formed network `destroySession` takes away the session of that number and no other,
-- and the network stays well formed, with the same next number. For an unknown number the status is
-- ENOENT, and there are no system calls.
pub destroy_session-lookup :
    (net : Network) (id : ℕ)
    → WellFormed net
    → let r = destroy_session net id in
      ((i : ℕ) → lookup i r.0.sessions ≡ (if id == i then none else lookup i net.sessions))
      × WellFormed r.0
      × (r.0.next_session_id ≡ net.next_session_id)
      × (lookup id net.sessions ≡ none → (r.1 ≡ []) × (r.2 ≡ enoent))
unfolding destroy_session
destroy_session-lookup net id wf = elim (Option-cases (lookup id net.sessions)) [
  | inl e ↦ rw (e, destroy_session) (λ i. ground arith, wf, refl, λ _. (refl, refl))
  | inr (s, e) ↦
      rw (e, destroy_session)
        (
          (λ i. lookup-remove i id 0 net.next_session_id net.sessions wf),
          remove-Rising 0 net.next_session_id id net.sessions wf,
          refl,
          λ h. absurd (cc),
        )
]

-- A request for a session that was destroyed gets ENOENT, and nothing is queued or called.
pub send_to-destroy_session :
    (net : Network) (id : ℕ) (contents : Bytes) (size : ℤ)
    → WellFormed net
    → let after = (destroy_session net id).0 in
      send_to after id contents size ≡ done (after, [], enoent)
unfolding send_to
send_to-destroy_session net id contents size wf =
    let gone : lookup id (destroy_session net id).0.sessions ≡ none =
      (destroy_session-lookup net id wf).0 id ∙ ground arith in
    rw (gone, send_to)

send_request-id :
    (s : Session) (contents : Bytes) (size : ℤ)
    → Ensures (λ (t : Session). t.session_id ≡ s.session_id) (send_request s contents size)
unfolding send_request
send_request-id s contents size =
    ensures (λ (t : Session). t.session_id ≡ s.session_id) (send_request s contents size)
      (λ t e. ground arith)

-- Queuing a request keeps the network well formed.
pub send_to-WellFormed :
    (net : Network) (id : ℕ) (contents : Bytes) (size : ℤ)
    → WellFormed net
    → Ensures (λ (r : Network × List Call × ℕ). WellFormed r.0) (send_to net id contents size)
unfolding send_to
send_to-WellFormed net id contents size wf = elim (Option-cases (lookup id net.sessions)) [
  | inl e ↦ rw (e, send_to) wf
  | inr (s, e) ↦
      rw (e, send_to)
        (Ensures->>= (λ (t : Session). t.session_id ≡ s.session_id) _ (send_request s contents size)
          _ (send_request-id s contents size)
          λ t same.
            update-Rising 0 net.next_session_id id t net.sessions
              (same ∙ lookup_id id 0 net.next_session_id s net.sessions wf e) wf)
]
