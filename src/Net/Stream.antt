-- ===== src/Net/Stream.antt =====
-- The receive loops of `Session::readMore`: as long as a whole unit stands at the front of
-- `mInBuffer`, take it off. `next` is the body's attempt to take one unit.
use how_to_miracast_on_aosp.Prelude.{
  ℕ, zero, suc, ◌<◌, ◌≡◌, refl, sym, ◌∙◌, inl, inr, Option, none, some, List, [], ◌∷◌, ◌++◌, arith,
  length, length-append, Bytes, Option-cases,
}

module _ {ℓ} {A : Type ℓ} where
  -- Takes units until none is complete; gives the units and the bytes left.
  unfoldable pub drain : (Bytes → Option (A × Bytes)) → ℕ → Bytes → List A × Bytes
  drain next zero buf = ([], buf)
  drain next (suc fuel) buf = elim (next buf) [
    | none ↦ ([], buf)
    | some (p, rest) ↦ let (ps, left) = drain next fuel rest in (p ∷ ps, left)
  ]

  -- With fuel for every byte.
  unfoldable pub drained : (Bytes → Option (A × Bytes)) → Bytes → List A × Bytes
  unfolding drain
  drained next buf = drain next (suc (length buf)) buf

  -- A unit takes at least one byte off.
  abbrev pub Progress : (Bytes → Option (A × Bytes)) → Type ℓ
  Progress next =
      (buf : Bytes) (p : A) (rest : Bytes) → next buf ≡ some (p, rest) → length rest < length buf

  -- A unit that is complete stays the first one when more bytes arrive.
  abbrev pub Stable : (Bytes → Option (A × Bytes)) → Type ℓ
  Stable next =
      (buf more : Bytes) (p : A) (rest : Bytes)
      → next buf ≡ some (p, rest)
      → next (buf ++ more) ≡ some (p, rest ++ more)

  abbrev pub then_more : List A × Bytes → List A × Bytes → List A × Bytes
  then_more (ps, _) (qs, left) = (ps ++ qs, left)

module _ {ℓ} {A : Type ℓ} (next : Bytes → Option (A × Bytes)) where
  pub drain-none : (fuel : ℕ) (buf : Bytes) → next buf ≡ none → drain next fuel buf ≡ ([], buf)
  unfolding drain
  drain-none zero buf e = refl
  drain-none (suc fuel) buf e = rw (e, drain)

  pub drain-some :
      (fuel : ℕ) (buf : Bytes) (p : A) (rest : Bytes)
      → next buf ≡ some (p, rest)
      → drain next (suc fuel) buf ≡ (p ∷ (drain next fuel rest).0, (drain next fuel rest).1)
  unfolding drain
  drain-some fuel buf p rest e = rw (e, drain)

module _ {ℓ} {A : Type ℓ} (next : Bytes → Option (A × Bytes)) (progress : Progress next) where
  -- With fuel above the buffer's length more fuel changes nothing.
  pub drain_fuel :
      (f g : ℕ) (buf : Bytes)
      → length buf < f
      → length buf < g
      → drain next f buf ≡ drain next g buf
  drain_fuel zero g buf h k = absurd (omega arith)
  drain_fuel (suc f) zero buf h k = absurd (omega arith)
  drain_fuel (suc f) (suc g) buf h k = elim (Option-cases (next buf)) [
    | inl e ↦ drain-none next (suc f) buf e ∙ sym (drain-none next (suc g) buf e)
    | inr ((p, rest), e) ↦
        let shorter : length rest < length buf = progress buf p rest e in
        rw (
          drain-some next f buf p rest e,
          drain-some next g buf p rest e,
          drain_fuel f g rest (omega arith) (omega arith),
        )
  ]

  pub drain-next : (f : ℕ) (buf : Bytes) → length buf < f → next (drain next f buf).1 ≡ none
  drain-next zero buf h = absurd (omega arith)
  drain-next (suc f) buf h = elim (Option-cases (next buf)) [
    | inl e ↦ rw (drain-none next (suc f) buf e) e
    | inr ((p, rest), e) ↦
        let shorter : length rest < length buf = progress buf p rest e in
        rw (drain-some next f buf p rest e) (drain-next f rest (omega arith))
  ]

  drain-append :
      Stable next
      → (f g : ℕ) (xs ys : Bytes) → length xs < f
      → length (xs ++ ys) < f
      → length ((drain next f xs).1 ++ ys) < g
      → drain next f (xs ++ ys)
        ≡ then_more (drain next f xs) (drain next g ((drain next f xs).1 ++ ys))
  drain-append stable zero g xs ys h k l = absurd (omega arith)
  drain-append stable (suc f) g xs ys h k l = elim (Option-cases (next xs)) [
    | inl e ↦
        let none_yet = drain-none next (suc f) xs e in
        rw none_yet (drain_fuel (suc f) g (xs ++ ys) k (rw none_yet at l))
    | inr ((p, rest), e) ↦
        let shorter : length rest < length xs = progress xs p rest e in
        let one = drain-some next f xs p rest e in
        rw (
          one,
          drain-some next f (xs ++ ys) p (rest ++ ys) (stable xs ys p rest e),
          drain-append stable f g rest ys (omega arith)
              (omega (arith, length-append rest ys, length-append xs ys)) (rw one at l),
        )
  ]

  drained-fuel : (f : ℕ) (buf : Bytes) → length buf < f → drain next f buf ≡ drained next buf
  unfolding drained
  drained-fuel f buf h = drain_fuel f (suc (length buf)) buf h (omega arith)

  -- The loop over bytes that came in two pieces does what it does over the bytes in one piece.
  pub drained-append :
      Stable next
      → (xs ys : Bytes)
      → drained next (xs ++ ys)
        ≡ then_more (drained next xs) (drained next ((drained next xs).1 ++ ys))
  drained-append stable xs ys =
      let n = suc (length (xs ++ ys)) in
      let g = suc (length ((drain next n xs).1 ++ ys)) in
      let first = drained-fuel n xs (omega (arith, length-append xs ys)) in
      sym (drained-fuel n (xs ++ ys) (omega arith))
      ∙ drain-append stable n g xs ys (omega (arith, length-append xs ys)) (omega arith)
          (omega arith)
      ∙ rw (drained-fuel g ((drain next n xs).1 ++ ys) (omega arith), first)

  -- What the loop leaves behind is no complete unit.
  pub drained-next : (buf : Bytes) → next (drained next buf).1 ≡ none
  unfolding drained
  drained-next buf = drain-next (suc (length buf)) buf (omega arith)

  pub drained-some :
      (buf : Bytes) (p : A) (rest : Bytes)
      → next buf ≡ some (p, rest)
      → drained next buf ≡ (p ∷ (drained next rest).0, (drained next rest).1)
  unfolding drained
  drained-some buf p rest e =
      let shorter : length rest < length buf = progress buf p rest e in
      drain-some next (length buf) buf p rest e
      ∙ rw (drain_fuel (length buf) (suc (length rest)) rest (omega arith) (omega arith))

  pub drained-none : (buf : Bytes) → next buf ≡ none → drained next buf ≡ ([], buf)
  unfolding drained
  drained-none buf e = drain-none next (suc (length buf)) buf e
