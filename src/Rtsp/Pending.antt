-- ===== src/Rtsp/Pending.antt =====
-- `mResponseHandlers` of sink/WifiDisplaySink.cpp and source/WifiDisplaySource.cpp: a KeyedVector
-- from ResponseID to the function that deals with the response, here a value of `H`.
use how_to_miracast_on_aosp.Prelude.{
  ℕ, suc, ◌<◌, ◌≤◌, ◌≡◌, ◌≢◌, refl, ◌&&◌, List, [], ◌∷◌, Option, none, some, arith, ◌==◌,
  if◌then◌else◌,
}

-- `ResponseID` with its function.
pub record Expected (H : Type 0) : Type 0 where
  pub session : ℕ
  pub cseq : ℕ
  pub handler : H

module _ {H : Type 0} where
  -- KeyedVector::add replaces what stands under the key.
  unfoldable pub register : ℕ → ℕ → H → List (Expected H) → List (Expected H)
  register session cseq h [] = record { session = session; cseq = cseq; handler = h } ∷ []
  register session cseq h (x ∷ xs) =
      if x.session == session && x.cseq == cseq
      then record { session = session; cseq = cseq; handler = h } ∷ xs
      else x ∷ register session cseq h xs

  unfoldable pub expected : ℕ → ℕ → List (Expected H) → Option H
  expected session cseq [] = none
  expected session cseq (x ∷ xs) =
      if x.session == session && x.cseq == cseq then some x.handler else expected session cseq xs

  unfoldable pub forget : ℕ → ℕ → List (Expected H) → List (Expected H)
  forget session cseq [] = []
  forget session cseq (x ∷ xs) =
      if x.session == session && x.cseq == cseq then xs else x ∷ forget session cseq xs

  -- CSeq numbers from `lo` on, rising, and below `hi`.
  abbrev pub Rising : ℕ → ℕ → List (Expected H) → Type 0
  Rising lo hi [] = Unit {0}
  Rising lo hi (x ∷ xs) = (lo ≤ x.cseq) × (x.cseq < hi) × Rising (suc x.cseq) hi xs

  Rising-lower :
      (lo lo' hi : ℕ) (xs : List (Expected H)) → lo' ≤ lo → Rising lo hi xs → Rising lo' hi xs
  Rising-lower lo lo' hi [] h r = tt
  Rising-lower lo lo' hi (x ∷ xs) h r = (omega arith, r.1, r.2)

  expected_above :
      (session c lo hi : ℕ) (xs : List (Expected H))
      → Rising lo hi xs
      → c < lo
      → expected session c xs ≡ none
  unfolding expected
  expected_above session c lo hi [] r h = refl
  expected_above session c lo hi (x ∷ xs) r h =
      ground (arith, expected_above session c (suc x.cseq) hi xs r.2)

  pub expected_below :
      (session c lo hi : ℕ) (h : H) (xs : List (Expected H))
      → Rising lo hi xs
      → expected session c xs ≡ some h
      → c < hi
  unfolding expected
  expected_below session c lo hi h [] r e = absurd (cc)
  expected_below session c lo hi h (x ∷ xs) r e =
      ground (arith, expected_below session c (suc x.cseq) hi h xs r.2)

  pub expected-forget :
      (session c lo hi : ℕ) (xs : List (Expected H))
      → Rising lo hi xs
      → expected session c (forget session c xs) ≡ none
  unfolding expected forget
  expected-forget session c lo hi [] r = refl
  expected-forget session c lo hi (x ∷ xs) r = ground (
    arith,
    expected-forget session c (suc x.cseq) hi xs r.2,
    expected_above session c (suc x.cseq) hi xs r.2,
  )

  pub forget-Rising :
      (session c lo hi : ℕ) (xs : List (Expected H))
      → Rising lo hi xs
      → Rising lo hi (forget session c xs)
  unfolding forget
  forget-Rising session c lo hi [] r = tt
  forget-Rising session c lo hi (x ∷ xs) r =
      ground
        (arith, forget-Rising session c (suc x.cseq) hi xs r.2, Rising-lower (suc x.cseq) lo hi xs)

  pub register-Rising :
      (session lo hi : ℕ) (h : H) (xs : List (Expected H))
      → lo ≤ hi
      → Rising lo hi xs
      → Rising lo (suc hi) (register session hi h xs)
  unfolding register
  register-Rising session lo hi h [] le r = (le, omega arith, tt)
  register-Rising session lo hi h (x ∷ xs) le r =
      ground (arith, register-Rising session (suc x.cseq) hi h xs)

  pub expected-register :
      (session c session' k : ℕ) (h : H) (xs : List (Expected H))
      → c ≢ k
      → expected session c (register session' k h xs) ≡ expected session c xs
  unfolding expected register
  expected-register session c session' k h [] ne = ground arith
  expected-register session c session' k h (x ∷ xs) ne =
      ground (arith, expected-register session c session' k h xs ne)
