-- ===== src/Rtsp/Machine.antt =====
-- The handlers of sink/WifiDisplaySink.cpp and source/WifiDisplaySource.cpp run on a world `W`:
-- they change it, wait for ever, or fail a CHECK.
use how_to_miracast_on_aosp.Prelude.{Bool, true, false}
use how_to_miracast_on_aosp.Prelude.Outcome.{Outcome, done, blocked, fault}

abbrev pub Run : Type 0 → Type 0 → Type 0
Run W A = W → Outcome (A × W)

infixl 5 ◌>>=◌ ◌>>◌
abbrev pub ◌>>=◌ : {W A B : Type 0} → Run W A → (A → Run W B) → Run W B
◌>>=◌ m f w = elim (m w) [ done (a, w') ↦ f a w' | blocked ↦ blocked | fault ↦ fault ]

abbrev pub ◌>>◌ : {W A B : Type 0} → Run W A → Run W B → Run W B
m >> k = m >>= λ _. k

abbrev pub return : {W A : Type 0} → A → Run W A
return a w = done (a, w)

-- CHECK.
abbrev pub check : {W : Type 0} → Bool → Run W (Unit {0})
check true w = done (tt, w)
check false w = fault
