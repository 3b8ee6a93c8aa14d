-- ===== src/Traffic/Turns/Woven.antt =====
-- The calls of other processors that come between the rounds of a read, drivers/vpn/linux/io_read.c, and what the
-- interface does in the meantime.
use kerion_vpn_client_docker.Base.{
  ℕ, ◌+◌, ◌≡◌, ◌∙◌, refl, sym, ap, subst, List, [], ◌∷◌, ◌++◌, length, length-append,
}
use kerion_vpn_client_docker.Traffic.{
  Action, send, read, write, ioctl, up, down, poll, get_stats, net_ioctl, every, sends, Short,
  AllShort, Wire, Moves, Follows,
}
use kerion_vpn_client_docker.Traffic.Order.{payloads}
use kerion_vpn_client_docker.Traffic.Turns.{first_of, rest_of}

sends-append : (a b : List Action) → sends (a ++ b) ≡ sends a ++ sends b
sends-append [] b = refl
sends-append (send p bs ∷ a) b = ap (◌∷◌ (p, bs)) (sends-append a b)
sends-append (read iv ∷ a) b = sends-append a b
sends-append (write iv ∷ a) b = sends-append a b
sends-append (ioctl cmd arg ∷ a) b = sends-append a b
sends-append (up ∷ a) b = sends-append a b
sends-append (down ∷ a) b = sends-append a b
sends-append (poll ∷ a) b = sends-append a b
sends-append (get_stats ∷ a) b = sends-append a b
sends-append (net_ioctl cmd ∷ a) b = sends-append a b

payloads-append : (a b : List Action) → payloads (a ++ b) ≡ payloads a ++ payloads b
payloads-append [] b = refl
payloads-append (send p bs ∷ a) b = ap (◌∷◌ bs) (payloads-append a b)
payloads-append (read iv ∷ a) b = payloads-append a b
payloads-append (write iv ∷ a) b = payloads-append a b
payloads-append (ioctl cmd arg ∷ a) b = payloads-append a b
payloads-append (up ∷ a) b = payloads-append a b
payloads-append (down ∷ a) b = payloads-append a b
payloads-append (poll ∷ a) b = payloads-append a b
payloads-append (get_stats ∷ a) b = payloads-append a b
payloads-append (net_ioctl cmd ∷ a) b = payloads-append a b

Follows-append :
    (cap : ℕ) (a b : List Action) (s m t : Wire)
    → Follows cap a s m
    → Follows cap b m t
    → Follows cap (a ++ b) s t
Follows-append cap [] b s m t same moves = subst (λ w. Follows cap b w t) same moves
Follows-append cap (x ∷ a) b s m t (w, move, before) moves =
    (w, move, Follows-append cap a b w m t before moves)

-- How many packets are handed over in the turns.
abbrev pub handed_over : List (List Action) → ℕ
handed_over turns = length (sends (every turns))

pub every-cut : (turns : List (List Action)) → every turns ≡ first_of turns ++ every (rest_of turns)
every-cut [] = refl
every-cut (acts ∷ turns) = refl

pub handed_over-cut :
    (turns : List (List Action))
    → handed_over turns ≡ length (sends (first_of turns)) + handed_over (rest_of turns)
handed_over-cut turns =
    ap (λ a. length (sends a)) (every-cut turns)
    ∙ ap length (sends-append (first_of turns) (every (rest_of turns)))
    ∙ length-append (sends (first_of turns)) (sends (every (rest_of turns)))

Short-append : (a b : List Action) → Short a → Short b → Short (a ++ b)
Short-append [] b s t = t
Short-append (x ∷ a) b (one, s) t = (one, Short-append a b s t)

pub every-Short : (turns : List (List Action)) → AllShort turns → Short (every turns)
every-Short [] short = tt
every-Short (acts ∷ turns) (one, short) =
    Short-append acts (every turns) one (every-Short turns short)

pub first-Short : (turns : List (List Action)) → AllShort turns → Short (first_of turns)
first-Short [] short = tt
first-Short (acts ∷ turns) (one, short) = one

pub rest-AllShort : (turns : List (List Action)) → AllShort turns → AllShort (rest_of turns)
rest-AllShort [] short = tt
rest-AllShort (acts ∷ turns) (one, short) = short

-- The interface went from `s` to `t` by the moves of the calls in the turns and of reads between them.
abbrev pub Woven : ℕ → List (List Action) → Wire → Wire → Type 0
Woven cap turns s t =
    (acts : List Action) × (payloads acts ≡ payloads (every turns)) × Follows cap acts s t

pub woven :
    (cap : ℕ) (turns : List (List Action)) (s m w t : Wire)
    → Follows cap (first_of turns) s m
    → Moves cap (read []) m w
    → Woven cap (rest_of turns) w t
    → Woven cap turns s t
woven cap turns s m w t before move (acts, same, moves) = (
  first_of turns ++ read [] ∷ acts,
  payloads-append (first_of turns) (read [] ∷ acts)
      ∙ ap (λ b. payloads (first_of turns) ++ b) same
      ∙ sym (payloads-append (first_of turns) (every (rest_of turns)))
      ∙ ap payloads (sym (every-cut turns)),
  Follows-append cap (first_of turns) (read [] ∷ acts) s m t before (w, move, moves),
)
