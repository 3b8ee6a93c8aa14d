-- ===== src/Traffic/Order.antt =====
-- What the moves of the interface do to the order of the packets.
use kerion_vpn_client_docker.Base.{
  ℕ, ◌≡◌, ◌∙◌, ◌⊎◌, inl, inr, refl, sym, ap, subst, List, [], ◌∷◌, ◌++◌, append-nil,
}
use kerion_vpn_client_docker.Traffic.{
  Action, send, read, write, ioctl, up, down, poll, get_stats, net_ioctl, Wire, Moves, Follows,
}

abbrev pub Texts : Type 0
Texts = List (List ℕ)

-- The packets of `xs` are some of those of `ys`, in the same order.
abbrev pub PartOf : Texts → Texts → Type 0
PartOf xs [] = xs ≡ []
PartOf [] (y ∷ ys) = Unit {0}
PartOf (x ∷ xs) (y ∷ ys) = ((x ≡ y) × PartOf xs ys) ⊎ PartOf (x ∷ xs) ys

-- The packets that the calls hand over.
abbrev pub payloads : List Action → Texts
payloads [] = []
payloads (send p bs ∷ rest) = bs ∷ payloads rest
payloads (read iv ∷ rest) = payloads rest
payloads (write iv ∷ rest) = payloads rest
payloads (ioctl cmd arg ∷ rest) = payloads rest
payloads (up ∷ rest) = payloads rest
payloads (down ∷ rest) = payloads rest
payloads (poll ∷ rest) = payloads rest
payloads (get_stats ∷ rest) = payloads rest
payloads (net_ioctl cmd ∷ rest) = payloads rest

PartOf-self : (xs : Texts) → PartOf xs xs
PartOf-self [] = refl
PartOf-self (x ∷ xs) = inl (refl, PartOf-self xs)

PartOf-behind : (front xs ys : Texts) → PartOf xs ys → PartOf xs (front ++ ys)
PartOf-behind [] xs ys part = part
PartOf-behind (b ∷ front) [] ys part = tt
PartOf-behind (b ∷ front) (x ∷ xs) ys part = inr (PartOf-behind front (x ∷ xs) ys part)

PartOf-inserted :
    (front : Texts) (b : List ℕ) (xs ys : Texts)
    → PartOf xs (front ++ ys)
    → PartOf xs (front ++ b ∷ ys)
PartOf-inserted [] b [] ys part = tt
PartOf-inserted [] b (x ∷ xs) ys part = inr part
PartOf-inserted (c ∷ front) b [] ys part = tt
PartOf-inserted (c ∷ front) b (x ∷ xs) ys (inl (e, part)) =
    inl (e, PartOf-inserted front b xs ys part)
PartOf-inserted (c ∷ front) b (x ∷ xs) ys (inr part) =
    inr (PartOf-inserted front b (x ∷ xs) ys part)

together : (xs ys zs : Texts) → (xs ++ ys) ++ zs ≡ xs ++ (ys ++ zs)
together [] ys zs = refl
together (x ∷ xs) ys zs = ap (◌∷◌ x) (together xs ys zs)

-- What follows a call that leaves the interface as it was.
module _ (cap : ℕ) (rest : List Action) (s m t : Wire) where
  unmoved :
      m ≡ s
      → PartOf t.waiting (m.waiting ++ payloads rest)
      → PartOf t.waiting (s.waiting ++ payloads rest)
  unmoved same part = subst (λ w. PartOf t.waiting (w.waiting ++ payloads rest)) same part

  same_packets :
      m.waiting ≡ s.waiting
      → PartOf t.waiting (m.waiting ++ payloads rest)
      → PartOf t.waiting (s.waiting ++ payloads rest)
  same_packets same part = subst (λ w. PartOf t.waiting (w ++ payloads rest)) same part

  one_move :
      (a : Action)
      → Moves cap a s m
      → PartOf t.waiting (m.waiting ++ payloads rest)
      → PartOf t.waiting (s.waiting ++ payloads (a ∷ rest))
  one_move (send p bs) (inl (on, room, still, added)) part =
      subst (PartOf t.waiting)
        (ap (λ w. w ++ payloads rest) added ∙ together s.waiting (bs ∷ []) (payloads rest)) part
  one_move (send p bs) (inr (why, same)) part =
      PartOf-inserted s.waiting bs t.waiting (payloads rest) (unmoved same part)
  one_move (read iv) (same, front, split) part =
      subst (PartOf t.waiting)
        (sym (ap (λ w. w ++ payloads rest) split ∙ together front m.waiting (payloads rest)))
        (PartOf-behind front t.waiting (m.waiting ++ payloads rest) part)
  one_move (write iv) same part = unmoved same part
  one_move (ioctl cmd arg) same part = unmoved same part
  one_move up (on, same) part = same_packets same part
  one_move down (off, none_left) part =
      PartOf-behind s.waiting t.waiting (payloads rest)
        (subst (λ w. PartOf t.waiting (w ++ payloads rest)) none_left part)
  one_move poll same part = unmoved same part
  one_move get_stats same part = unmoved same part
  one_move (net_ioctl cmd) same part = unmoved same part

-- No packet is made up, doubled or overtaken.
pub Follows-PartOf :
    (cap : ℕ) (acts : List Action) (s t : Wire)
    → Follows cap acts s t
    → PartOf t.waiting (s.waiting ++ payloads acts)
Follows-PartOf cap [] s t same =
    subst (λ w. PartOf t.waiting (w.waiting ++ [])) same
      (subst (PartOf t.waiting) (sym (append-nil t.waiting)) (PartOf-self t.waiting))
Follows-PartOf cap (a ∷ rest) s t (m, move, moves) =
    one_move cap rest s m t a move (Follows-PartOf cap rest m t moves)
