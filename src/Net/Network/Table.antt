-- ===== src/Net/Network/Table.antt =====
-- ANetworkSession.cpp: the table of sessions, `mSessions`. It is well formed where each session
-- stands under its own number, the keys rise, and all are below `mNextSessionID`.
use how_to_miracast_on_aosp.Prelude.{
  ℕ, suc, ◌<◌, ◌≤◌, ◌≡◌, refl, List, [], ◌∷◌, none, some, arith, ◌==◌, if◌then◌else◌,
}
use how_to_miracast_on_aosp.Net.Session.{Session}
use how_to_miracast_on_aosp.Net.Network.{Network, lookup, add, remove, update}

-- Keys from `lo` on, rising, each the number of its session, and below `hi`.
abbrev pub Rising : ℕ → ℕ → List (ℕ × Session) → Type 0
Rising lo hi [] = Unit {0}
Rising lo hi ((k, s) ∷ rest) = (lo ≤ k) × (k < hi) × (s.session_id ≡ k) × Rising (suc k) hi rest

abbrev pub WellFormed : Network → Type 0
WellFormed net = Rising 0 net.next_session_id net.sessions

pub Rising-lower :
    (lo lo' hi : ℕ) (m : List (ℕ × Session)) → lo' ≤ lo → Rising lo hi m → Rising lo' hi m
Rising-lower lo lo' hi [] h r = tt
Rising-lower lo lo' hi ((k, s) ∷ m) h r = (omega arith, r.1, r.2, r.3)

pub Rising-raise :
    (lo hi hi' : ℕ) (m : List (ℕ × Session)) → hi ≤ hi' → Rising lo hi m → Rising lo hi' m
Rising-raise lo hi hi' [] h r = tt
Rising-raise lo hi hi' ((k, s) ∷ m) h r =
    (r.0, omega arith, r.2, Rising-raise (suc k) hi hi' m h r.3)

pub lookup_above :
    (k lo hi : ℕ) (m : List (ℕ × Session)) → Rising lo hi m → k < lo → lookup k m ≡ none
unfolding lookup
lookup_above k lo hi [] r h = refl
lookup_above k lo hi ((j, s) ∷ m) r h = ground (arith, lookup_above k (suc j) hi m r.3)

pub lookup_below :
    (k lo hi : ℕ) (m : List (ℕ × Session)) → Rising lo hi m → hi ≤ k → lookup k m ≡ none
unfolding lookup
lookup_below k lo hi [] r h = refl
lookup_below k lo hi ((j, s) ∷ m) r h = ground (arith, lookup_below k (suc j) hi m r.3)

pub add-Rising :
    (lo hi k : ℕ) (s : Session) (m : List (ℕ × Session))
    → lo ≤ k
    → k < hi
    → s.session_id ≡ k
    → Rising lo hi m
    → Rising lo hi (add k s m)
unfolding add
add-Rising lo hi k s [] a b c r = (a, b, c, tt)
add-Rising lo hi k s ((j, t) ∷ m) a b c r =
    ground (arith, add-Rising (suc j) hi k s m, Rising-lower (suc j) (suc k) hi m)

pub remove-Rising :
    (lo hi k : ℕ) (m : List (ℕ × Session)) → Rising lo hi m → Rising lo hi (remove k m)
unfolding remove
remove-Rising lo hi k [] r = tt
remove-Rising lo hi k ((j, t) ∷ m) r =
    ground (arith, remove-Rising (suc j) hi k m r.3, Rising-lower (suc j) lo hi m)

pub update-Rising :
    (lo hi k : ℕ) (s : Session) (m : List (ℕ × Session))
    → s.session_id ≡ k
    → Rising lo hi m
    → Rising lo hi (update k s m)
unfolding update
update-Rising lo hi k s [] e r = tt
update-Rising lo hi k s ((j, t) ∷ m) e r = ground (arith, update-Rising (suc j) hi k s m e r.3)

pub lookup-add :
    (i k : ℕ) (s : Session) (m : List (ℕ × Session))
    → lookup i (add k s m) ≡ (if k == i then some s else lookup i m)
unfolding lookup add
lookup-add i k s [] = refl
lookup-add i k s ((j, t) ∷ m) = ground (arith, lookup-add i k s m)

pub lookup-remove :
    (i k lo hi : ℕ) (m : List (ℕ × Session))
    → Rising lo hi m
    → lookup i (remove k m) ≡ (if k == i then none else lookup i m)
unfolding lookup remove
lookup-remove i k lo hi [] r = ground arith
lookup-remove i k lo hi ((j, t) ∷ m) r =
    ground (arith, lookup-remove i k (suc j) hi m r.3, lookup_above i (suc j) hi m r.3)

pub lookup_id :
    (k lo hi : ℕ) (s : Session) (m : List (ℕ × Session))
    → Rising lo hi m
    → lookup k m ≡ some s
    → s.session_id ≡ k
unfolding lookup
lookup_id k lo hi s [] r e = ground arith
lookup_id k lo hi s ((j, t) ∷ m) r e = ground (arith, lookup_id k (suc j) hi s m r.3)
