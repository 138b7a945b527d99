-- ===== src/Soroban.antt =====
-- What both contracts take from the Soroban SDK: addresses, a call as a state monad whose panic
-- carries no state (the host rolls a panicking transaction back), and the answer of a `try_` call.
pub mod I128
use stellar_upshift_vault_co.Base.{ℕ, ◌≡◌, Bool, true, false, Option, none, some}
use stellar_upshift_vault_co.Base.Int.{ℤ}

-- Addresses are only compared.
abbrev pub Address : Type 0
Address = ℕ

-- How an invocation ends: with a value and the new state, or with a panic.
pub data Outcome (E S A : Type 0) : Type 0 where
  ok : A → S → Outcome E S A
  panic : E → Outcome E S A

abbrev pub Call : Type 0 → Type 0 → Type 0 → Type 0
Call E S A = S → Outcome E S A

-- `Result<Result<i128, ConversionError>, InvokeError>`, what a `try_` client method returns.
pub data Probe : Type 0 where
  value : ℤ → Probe
  convert_error invoke_error : Probe

module _ {E S : Type 0} where
  abbrev pub pure : {A : Type 0} → A → Call E S A
  pure a s = ok a s

  infixl 5 ◌>>=◌ ◌>>◌
  abbrev pub ◌>>=◌ : {A B : Type 0} → Call E S A → (A → Call E S B) → Call E S B
  ◌>>=◌ m f s = elim (m s) [ ok a s' ↦ f a s' | panic p ↦ panic p ]

  abbrev pub ◌>>◌ : {A B : Type 0} → Call E S A → Call E S B → Call E S B
  m >> k = m >>= λ _. k

  -- `panic_with_error!`
  abbrev pub panic_with_error : {A : Type 0} → E → Call E S A
  panic_with_error p s = panic p

  -- `if b { panic_with_error!(e, p) }`
  abbrev pub panic_if : Bool → E → Call E S (Unit {0})
  panic_if true p s = panic p
  panic_if false p s = ok tt s

  -- `unwrap_or_else(|| panic_with_error!(e, p))`
  abbrev pub or_panic : {A : Type 0} → Option A → E → Call E S A
  or_panic none p s = panic p
  or_panic (some a) p s = ok a s

  -- `if b { m }`
  abbrev pub when : Bool → Call E S (Unit {0}) → Call E S (Unit {0})
  when true m s = m s
  when false m s = ok tt s

  -- `if b { m } else { n }`
  abbrev pub branch : {A : Type 0} → Bool → Call E S A → Call E S A → Call E S A
  branch true m n s = m s
  branch false m n s = n s

  -- A postcondition: what holds of the result and the new state, if the call does not panic.
  abbrev pub Ensures : {A : Type 0} → (A → S → Type 0) → Outcome E S A → Type 0
  Ensures Q (ok a s) = Q a s
  Ensures Q (panic p) = Unit

-- Total correctness: the call does not panic, and the result and the new state satisfy `Q`.
abbrev pub Returns : {E S A : Type 0} → (A → S → Type 0) → Outcome E S A → Type 0
Returns Q (ok a s) = Q a s
Returns Q (panic p) = ⊥

-- A weaker postcondition.
pub Ensures-mono :
    {E S A : Type 0} {P Q : A → S → Type 0} (o : Outcome E S A)
    → Ensures P o
    → ((a : A) (s : S) → P a s → Q a s)
    → Ensures Q o
Ensures-mono (ok a s) p f = f a s p
Ensures-mono (panic _) p f = tt

-- Two postconditions at once.
pub Ensures-both :
    {E S A : Type 0} (P Q : A → S → Type 0) (o : Outcome E S A)
    → Ensures P o
    → Ensures Q o
    → Ensures (λ a s. P a s × Q a s) o
Ensures-both P Q (ok a s) p q = (p, q)
Ensures-both P Q (panic _) p q = tt

-- A call that returns satisfies its postcondition.
pub Returns-ensured :
    {E S A : Type 0} (P Q : A → S → Type 0) (o : Outcome E S A)
    → Returns P o
    → Ensures Q o
    → Returns Q o
Returns-ensured P Q (ok a s) p q = q
Returns-ensured P Q (panic _) p q = p

-- A postcondition of a call that is known to return.
pub Ensures_ok :
    {E S A : Type 0} (Q : A → S → Type 0) {o : Outcome E S A} {a : A} {s : S}
    → o ≡ ok a s
    → Ensures Q o
    → Q a s
Ensures_ok Q e h = rw e at h

-- A call in sequence: the rest runs from what the first part ensures.
pub Ensures-bind :
    {E S A B : Type 0} (P : A → S → Type 0) (Q : B → S → Type 0) (m : Call E S A)
    (f : A → Call E S B) (s : S)
    → Ensures P (m s)
    → ((a : A) (s' : S) → P a s' → Ensures Q (f a s'))
    → Ensures Q ((m >>= f) s)
Ensures-bind {E} {S} {A} {B} P Q m f s h k = bind_outcome (m s) h
  where
    bind_outcome :
        (o : Outcome E S A)
        → Ensures P o
        → Ensures Q (elim o [ ok a s' ↦ f a s' | panic p ↦ panic p ])
    bind_outcome (ok a s') h = k a s' h
    bind_outcome (panic p) h = tt
