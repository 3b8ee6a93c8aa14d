-- ===== src/Machine.antt =====
-- Commands over a mutable state `S` that may stop the kernel.

-- What stops the kernel: a NULL dereference, an access to a buffer that was freed or never was one,
-- a spin lock taken twice, a spin lock given back that is not held, a socket buffer filled past
-- its end (`skb_over_panic`).
pub data Fault : Type 0 where
  null_deref bad_pointer deadlock not_held over_panic : Fault

pub data Run (S A : Type 0) : Type 0 where
  ok : A → S → Run S A
  fault : Fault → Run S A
  out_of_fuel : Run S A

abbrev pub Cmd : Type 0 → Type 0 → Type 0
Cmd S A = S → Run S A

module _ {S : Type 0} where
  abbrev pub pure : {A : Type 0} → A → Cmd S A
  pure a s = ok a s

  abbrev pub and_then : {A B : Type 0} → Run S A → (A → Cmd S B) → Run S B
  and_then (ok a s) k = k a s
  and_then (fault f) k = fault f
  and_then out_of_fuel k = out_of_fuel

  infixl 5 ◌>>=◌ ◌>>◌
  abbrev pub ◌>>=◌ : {A B : Type 0} → Cmd S A → (A → Cmd S B) → Cmd S B
  ◌>>=◌ m k s = and_then (m s) k

  abbrev pub ◌>>◌ : {A B : Type 0} → Cmd S A → Cmd S B → Cmd S B
  ◌>>◌ m k s = and_then (m s) (λ _. k)

  abbrev pub get : Cmd S S
  get s = ok s s

  abbrev pub modify : (S → S) → Cmd S (Unit {0})
  modify f s = ok tt (f s)

  abbrev pub stop : {A : Type 0} → Fault → Cmd S A
  stop f s = fault f

-- The run ends normally, with a result and a state of which `P` holds.
pub data Returns {S A : Type 0} (P : A → S → Type 0) : Run S A → Type 0 where
  returns : {a : A} {s : S} → P a s → Returns P (ok a s)

module _ {S A : Type 0} {P : A → S → Type 0} where
  -- What follows a run that ends normally runs from where it ended.
  pub bind :
      {B : Type 0} {Q : B → S → Type 0} {r : Run S A} {k : A → Cmd S B}
      → Returns P r
      → ((a : A) (s : S) → P a s → Returns Q (k a s))
      → Returns Q (and_then r k)
  bind (returns h) next = next _ _ h

  pub mono :
      {Q : A → S → Type 0} {r : Run S A}
      → Returns P r
      → ((a : A) (s : S) → P a s → Q a s)
      → Returns Q r
  mono (returns h) weaken = returns (weaken _ _ h)

-- Two things that hold after the same run.
pub both :
    {S A : Type 0} {P Q : A → S → Type 0} {r : Run S A}
    → Returns P r
    → Returns Q r
    → Returns (λ a s. P a s × Q a s) r
both (returns p) (returns q) = returns (p, q)
