-- ===== src/Kvnet/Owned.antt =====
-- Which descriptors the calls of libkvnet/src/linux/kvnet.c leave open.
use kerion_vpn_client_docker.Base.{
  Option, none, some, ℕ, ◌≡◌, Bool, false, List, [], ◌∷◌, ◌==◌, if◌then◌else◌,
}
use kerion_vpn_client_docker.Machine.{Run, ok, fault, out_of_fuel, Cmd, and_then, Returns, returns}
use kerion_vpn_client_docker.Kvnet.{Call, opened, closed, requested, polled, written, Globals}

-- The descriptors in a log that are open after it, the last one opened first; `none` where a call closed or used
-- another one than the last opened.
abbrev pub is_open : ℕ → List ℕ → Bool
is_open fd [] = false
is_open fd (a ∷ fds) = fd == a

abbrev pub open_after : List Call → Option (List ℕ)
open_after [] = some []
open_after (opened fd ∷ l) = elim (open_after l) [ none ↦ none | some fds ↦ some (fd ∷ fds) ]
open_after (written fd bytes ∷ l) = elim (open_after l) [
  | none ↦ none
  | some fds ↦ if is_open fd fds then some fds else none
]
open_after (polled fd ∷ l) = elim (open_after l) [
  | none ↦ none
  | some fds ↦ if is_open fd fds then some fds else none
]
open_after (requested fd ∷ l) = elim (open_after l) [
  | none ↦ none
  | some fds ↦ if is_open fd fds then some fds else none
]
open_after (closed fd ∷ l) = elim (open_after l) [
  | none ↦ none
  | some [] ↦ none
  | some (a ∷ fds) ↦ if fd == a then some fds else none
]

abbrev pub held_by : Option ℕ → List ℕ
held_by none = []
held_by (some fd) = fd ∷ []

-- What is open is what `fdesc` says.
abbrev pub Owned : ℕ → Globals → Type 0
Owned r s = open_after s.calls ≡ some (held_by s.fdesc)

-- A run that does not fault, and that ends in a state as said unless it waits for longer than its fuel.
abbrev pub Lasts : {S A : Type 0} → (A → S → Type 0) → Run S A → Type 0
Lasts P (ok a s) = P a s
Lasts P (fault f) = ⊥
Lasts P out_of_fuel = Unit {0}

pub Returns-Lasts : {S A : Type 0} {P : A → S → Type 0} {r : Run S A} → Returns P r → Lasts P r
Returns-Lasts (returns p) = p

pub and_then-Lasts :
    {S A B : Type 0} (P : A → S → Type 0) (Q : B → S → Type 0) (r : Run S A) (k : A → Cmd S B)
    → Lasts P r
    → ((a : A) (s : S) → P a s → Lasts Q (k a s))
    → Lasts Q (and_then r k)
and_then-Lasts P Q (ok a s) k p next = next a s p
and_then-Lasts P Q (fault f) k p next = absurd p
and_then-Lasts P Q out_of_fuel k p next = tt
