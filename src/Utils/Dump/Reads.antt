-- ===== src/Utils/Dump/Reads.antt =====
-- The reads of the dump functions of drivers/vpn/linux/utils.c, and the faults among them.
use kerion_vpn_client_docker.Base.{
  get_elem?-ne-none, ℕ, zero, suc, ◌+◌, ◌≡◌, ◌*◌, ◌≤◌, ◌<◌, refl, inl, inr, some, true, List, [],
  ◌∷◌, length, take, drop, get_elem?, Option-cases, leb, Bool-cases, if◌then◌else◌, arith,
}
use kerion_vpn_client_docker.Machine.{
  Run, Cmd, ok, fault, bad_pointer, Returns, returns, bind, and_then, ◌>>=◌,
}
use kerion_vpn_client_docker.Utils.Trace.{Console}
use kerion_vpn_client_docker.Utils.Dump.{bytes_at, byte_at, short_at}

-- The run ends without a fault.
abbrev pub Ends : {A : Type 0} → Run Console A → Type 0
Ends r = Returns (λ a c. Unit {0}) r

infixr 5 ◌then◌
pub ◌then◌ :
    {A B : Type 0} {m : Cmd Console A} {k : A → Cmd Console B}
    → ((c : Console) → Ends (m c))
    → ((a : A) (c : Console) → Ends (k a c))
    → (c : Console) → Ends ((m >>= k) c)
(p then q) c = bind (p c) λ a t u. q a t

-- A run that ends is followed by a fault.
past :
    {A B : Type 0} {r : Run Console A} {k : A → Cmd Console B}
    → Ends r
    → ((a : A) (c : Console) → k a c ≡ fault bad_pointer)
    → and_then r k ≡ fault bad_pointer
past (returns u) h = h _ _

infixr 5 ◌then_fault◌
pub ◌then_fault◌ :
    {A B : Type 0} {m : Cmd Console A} {k : A → Cmd Console B}
    → ((c : Console) → Ends (m c))
    → ((a : A) (c : Console) → k a c ≡ fault bad_pointer)
    → (c : Console) → (m >>= k) c ≡ fault bad_pointer
(p then_fault q) c = past (p c) q

-- A fault is the end.
pub fault_first :
    {A B : Type 0} {r : Run Console A} (k : A → Cmd Console B)
    → r ≡ fault bad_pointer
    → and_then r k ≡ fault bad_pointer
fault_first k e = rw e refl

-- The two bytes at an offset make this number in network order.
abbrev pub HasShort : List ℕ → ℕ → ℕ → Type 0
HasShort xs at v =
    (a : ℕ) × (b : ℕ) × (get_elem? xs at ≡ some a)
    × (get_elem? xs (at + 1) ≡ some b)
    × (a * 256 + b ≡ v)

get_elem?-some :
    {A : Type 0} (xs : List A) (i : ℕ) (a : A) → get_elem? xs i ≡ some a → i < length xs
get_elem?-some [] i a e = absurd (ground arith)
get_elem?-some (x ∷ xs) zero a e = omega arith
get_elem?-some (x ∷ xs) (suc i) a e = omega (arith, get_elem?-some xs i a e)

module _ (xs : List ℕ) where
  pub bytes_at-Ends : (at n : ℕ) → at + n ≤ length xs → (c : Console) → Ends (bytes_at xs at n c)
  bytes_at-Ends at n h c =
      let fits : leb (at + n) (length xs) ≡ true = ground arith in rw fits (returns tt)

  pub byte_at-Ends : (at : ℕ) → at < length xs → (c : Console) → Ends (byte_at xs at c)
  byte_at-Ends at h c = elim (Option-cases (get_elem? xs at)) [
    | inl e ↦ absurd (get_elem?-ne-none xs at h e)
    | inr (b, e) ↦ rw (e, byte_at) (returns tt)
  ]

  -- Bytes that are read, or else are past the end; a fault comes then or later.
  pub bytes_then_fault :
      {B : Type 0} {k : List ℕ → Cmd Console B} (at n : ℕ)
      → ((a : List ℕ) → at + n ≤ length xs → (c : Console) → k a c ≡ fault bad_pointer)
      → (c : Console) → (bytes_at xs at n >>= k) c ≡ fault bad_pointer
  bytes_then_fault at n h c = elim (Bool-cases (leb (at + n) (length xs))) [
    | inl e ↦ rw e (h (take n (drop at xs)) (ground (arith, e)) c)
    | inr e ↦ rw e refl
  ]

  pub byte_then_fault :
      {B : Type 0} {k : ℕ → Cmd Console B} (at : ℕ)
      → ((a : ℕ) → at < length xs → (c : Console) → k a c ≡ fault bad_pointer)
      → (c : Console) → (byte_at xs at >>= k) c ≡ fault bad_pointer
  byte_then_fault at h c = elim (Option-cases (get_elem? xs at)) [
    | inl e ↦ rw (e, byte_at) refl
    | inr (b, e) ↦ rw (e, byte_at) (h b (get_elem?-some xs at b e) c)
  ]

  pub short_then_fault :
      {B : Type 0} {k : ℕ → Cmd Console B} (at : ℕ)
      → ((a : ℕ) → at + 1 < length xs → (c : Console) → k a c ≡ fault bad_pointer)
      → (c : Console) → (short_at xs at >>= k) c ≡ fault bad_pointer
  short_then_fault at h c = elim (Option-cases (get_elem? xs at)) [
    | inl e ↦ rw (e, short_at, byte_at) refl
    | inr (a, e) ↦ elim (Option-cases (get_elem? xs (at + 1))) [
      | inl f ↦ rw (e, f, short_at, byte_at) refl
      | inr (b, f) ↦
          rw (e, f, short_at, byte_at) (h (a * 256 + b) (get_elem?-some xs (at + 1) b f) c)
    ]
  ]

  pub short_at-HasShort :
      (at : ℕ)
      → at + 1 < length xs
      → (c : Console) → Returns (λ v t. HasShort xs at v) (short_at xs at c)
  short_at-HasShort at h c = elim (Option-cases (get_elem? xs at)) [
    | inl e ↦ absurd (get_elem?-ne-none xs at (omega arith) e)
    | inr (a, e) ↦ elim (Option-cases (get_elem? xs (at + 1))) [
      | inl f ↦ absurd (get_elem?-ne-none xs (at + 1) h f)
      | inr (b, f) ↦ rw (e, f, short_at, byte_at) (returns (a, b, refl, refl, refl))
    ]
  ]

  pub short_at-value : (at v : ℕ) → HasShort xs at v → (c : Console) → short_at xs at c ≡ ok v c
  short_at-value at v q c = let (a, b, e, f, g) = q in rw (e, f, short_at, byte_at, g) refl

  pub short_at-Ends : (at : ℕ) → at + 1 < length xs → (c : Console) → Ends (short_at xs at c)
  short_at-Ends at h =
      (byte_at-Ends at (omega arith)) then λ x. (byte_at-Ends (at + 1) h) then λ y c. returns tt
