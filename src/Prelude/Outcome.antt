-- ===== src/Prelude/Outcome.antt =====
-- What a call of the modelled code comes to. `done` is a return, `blocked` is a system call that
-- has not answered yet, and `fault` is an abort: a failed CHECK or an access out of bounds.
use mathlib.Core.Path.{◌≡◌, refl, subst}
use mathlib.Core.Logic.{◌≢◌, ◌⊎◌, inl, inr}

pub data Outcome {ℓ} (A : Type ℓ) : Type ℓ where
  done : A → Outcome A
  blocked fault : Outcome A

infixl 5 ◌>>=◌ ◌>>◌
abbrev pub ◌>>=◌ {ℓ κ} : {A : Type ℓ} {B : Type κ} → Outcome A → (A → Outcome B) → Outcome B
done a >>= f = f a
blocked >>= f = blocked
fault >>= f = fault

abbrev pub ◌>>◌ {ℓ κ} : {A : Type ℓ} {B : Type κ} → Outcome A → Outcome B → Outcome B
m >> k = m >>= λ _. k

-- Inversion of a bind that returns.
pub >>=-eq-done {ℓ κ} :
    {A : Type ℓ} {B : Type κ} (m : Outcome A) (f : A → Outcome B) {b : B}
    → (m >>= f) ≡ done b
    → (a : A) × (m ≡ done a) × (f a ≡ done b)
>>=-eq-done (done a) f h = (a, refl, h)
>>=-eq-done blocked f h = cc
>>=-eq-done fault f h = cc

-- A bind aborts only where a part does.
pub >>=-ne-fault {ℓ κ} :
    {A : Type ℓ} {B : Type κ} (m : Outcome A) (f : A → Outcome B)
    → m ≢ fault
    → ((a : A) → m ≡ done a → f a ≢ fault)
    → (m >>= f) ≢ fault
>>=-ne-fault (done a) f h k = k a refl
>>=-ne-fault blocked f h k = λ e. cc
>>=-ne-fault fault f h k = absurd (h refl)

pub done-injective {ℓ} : {A : Type ℓ} {a b : A} → done a ≡ done b → a ≡ b
done-injective e = cc

abbrev pub Outcome-Cases {ℓ} : {A : Type ℓ} → Outcome A → Type ℓ
Outcome-Cases {A = A} m = ((a : A) × (m ≡ done a)) ⊎ ((m ≡ blocked) ⊎ (m ≡ fault))

pub Outcome-cases {ℓ} : {A : Type ℓ} (m : Outcome A) → Outcome-Cases m
Outcome-cases (done a) = inl (a, refl)
Outcome-cases blocked = inr (inl refl)
Outcome-cases fault = inr (inr refl)

-- Whatever is returned satisfies `P`.
abbrev pub Ensures {ℓ κ} : {A : Type ℓ} → (A → Type κ) → Outcome A → Type κ
Ensures P (done a) = P a
Ensures P _ = Unit

pub ensures {ℓ κ} :
    {A : Type ℓ} (P : A → Type κ) (m : Outcome A) → ((a : A) → m ≡ done a → P a) → Ensures P m
ensures P (done a) h = h a refl
ensures P blocked h = tt
ensures P fault h = tt

pub ensured {ℓ κ} :
    {A : Type ℓ} (P : A → Type κ) (m : Outcome A) {a : A} → Ensures P m → m ≡ done a → P a
ensured P (done b) h e = subst P (done-injective e) h
ensured P blocked h e = absurd (cc)
ensured P fault h e = absurd (cc)

pub Ensures->>= {ℓ κ μ ν} :
    {A : Type ℓ} {B : Type κ} (Q : A → Type μ) (P : B → Type ν) (m : Outcome A) (f : A → Outcome B)
    → Ensures Q m
    → ((a : A) → Q a → Ensures P (f a))
    → Ensures P (m >>= f)
Ensures->>= Q P (done a) f h k = k a h
Ensures->>= Q P blocked f h k = tt
Ensures->>= Q P fault f h k = tt
