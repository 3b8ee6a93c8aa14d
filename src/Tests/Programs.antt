-- ===== src/Tests/Programs.antt =====
-- The example program on concrete values.
use kerion_vpn_client_docker.Base.{
  ℕ, zero, suc, ap, subst, take, drop, some, Bool, Bool-cases, ◌+◌, ◌≡◌, ◌≤◌, refl, inl, inr, none,
  true, false, List, [], ◌∷◌, ◌++◌, length, ltb, ◌==◌, Option-cases, arith,
}
use kerion_vpn_client_docker.Machine.{Returns, returns, mono, fault, bad_pointer}
use kerion_vpn_client_docker.Kvnet.{
  Call, Packet, Memory, Globals, Sys, ready, invalid_parameter, succeeded, make_status,
}
use kerion_vpn_client_docker.Kvnet.Status.{make_status-parts}
use kerion_vpn_client_docker.Kvnet.Transfer.{
  filled, put_packet, kvnet_read, kvnet_get_driver_info, kvnet_get_mac,
}
use kerion_vpn_client_docker.Example.{
  usetap, Program, Host, pkt_loop, main, max_packets, max_data_size,
}
use kerion_vpn_client_docker.Kvnet.Rounds.{Retries}
use kerion_vpn_client_docker.Kvnet.Read.{
  room, Honest, Fetched, packet, request, read, fetched, refused, cancelled, not_selected, ReadDone,
  try_again-ReadDone,
}
use kerion_vpn_client_docker.Kvnet.Waiting.{waits}
use kerion_vpn_client_docker.Example.Blocks.{Numbered}
use kerion_vpn_client_docker.Example.Rounds.{Reads, Roomy, AllRoomy, Renewed, AllRenewed}
use kerion_vpn_client_docker.Example.Freed.{Unmade, NothingLeft, pkt_loop-NothingLeft}
use kerion_vpn_client_docker.Example.Main.{main-NothingLeft}
use kerion_vpn_client_docker.Example.Uninitialised.{pkt_loop-bad_pointer}
use kerion_vpn_client_docker.Tests.Library.{memory, system, at_start, take-short, tap_open}

-- A system that has a packet of two bytes for each read.
abbrev delivering : Sys
delivering = record system {
  poll = λ l. ready 1;
  read = λ l n. some (take n (7 ∷ 8 ∷ []));
  read_request = λ l n m. some (record m { count = 1 });
}

delivering-Honest : Honest delivering
delivering-Honest l n bs e = ground (arith, take-short n (7 ∷ 8 ∷ []))

filled_length :
    (bs xs : List ℕ) → length bs ≤ length xs → length (bs ++ drop (length bs) xs) ≡ length xs
filled_length [] xs h = refl
filled_length (b ∷ bs) [] h = absurd (omega arith)
filled_length (b ∷ bs) (x ∷ xs) h = omega (arith, filled_length bs xs (omega arith))

Renewed-Roomy : (q : ℕ) (m : Memory) → Renewed q m → Roomy q m
Renewed-Roomy q m (x, e, len, big) y f = ground (arith, e, f, big)

AllRenewed-AllRoomy : (ps : List ℕ) (m : Memory) → AllRenewed ps m → AllRoomy ps m
AllRenewed-AllRoomy [] m r = tt
AllRenewed-AllRoomy (p ∷ ps) m (r, more) = (Renewed-Roomy p m r, AllRenewed-AllRoomy ps m more)

put-AllRoomy :
    (a : ℕ) (x : Packet) (c : ℕ) (ps : List ℕ) (m : Memory)
    → max_data_size ≤ length x.bytes
    → AllRoomy ps m
    → AllRoomy ps (record (put_packet a x m) { count = c })
put-AllRoomy a x c [] m long r = tt
put-AllRoomy a x c (p ∷ ps) m long (r, more) = (at_packet, put-AllRoomy a x c ps m long more)
  where
    at_packet : Roomy p (record (put_packet a x m) { count = c })
    at_packet y e = elim (Bool-cases (a == p)) [
      | inl same ↦ ground (arith, same, e, long)
      | inr other ↦ r y (ground (arith, other, e))
    ]

counted-AllRoomy :
    (c : ℕ) (ps : List ℕ) (m : Memory) → AllRoomy ps m → AllRoomy ps (record m { count = c })
counted-AllRoomy c [] m r = tt
counted-AllRoomy c (p ∷ ps) m (r, more) = (r, counted-AllRoomy c ps m more)

module _ (ps : List ℕ) (a : ℕ) (x : Packet) (long : max_data_size ≤ length x.bytes)
    (claims : x.data_len ≤ length x.bytes) where
  after_fetch :
      (l : List Call) (m n : Memory) (tap : Bool)
      → Fetched delivering a x 516 l m tap n
      → AllRoomy ps m
      → (n.count ≤ max_packets) × AllRoomy ps n
  after_fetch l m n true (packet bs e) r = (
    omega arith,
    put-AllRoomy a (filled bs x) 1 ps m
        (omega (
          arith,
          long,
          filled_length bs x.bytes (omega (arith, delivering-Honest l x.data_len bs e, claims)),
        ))
        r,
  )
  after_fetch l m n false (request k e) r =
      subst (λ k. (k.count ≤ max_packets) × AllRoomy ps k)
        (ap (λ o. elim o [ none ↦ m | some k ↦ k ]) e) (omega arith, counted-AllRoomy 1 ps m r)

delivering-Reads : (ps : List ℕ) → length ps ≡ max_packets → Reads delivering 8 1 ps
unfolding kvnet_read succeeded make_status
delivering-Reads [] len g c p ready_for = absurd (omega (arith, len))
delivering-Reads (a ∷ ps) len g c p ((x, e, claimed, long), more) = elim (Option-cases g.fdesc) [
  | inl f ↦ simp (f) (
      mono (make_status-parts delivering invalid_parameter _ (omega arith))
        λ b t (s, z, bad, q) good. absurd (ground (arith, good, bad)))
  | inr (fd, f) ↦ rw (waits delivering fd g 8 516 f (omega arith) 1) (
      mono
        (try_again-ReadDone delivering a x 516 delivering-Honest fd 0 1 g (omega arith)
          (room (ground (arith, p)) e (omega (arith, claimed, long))) (λ i h. absurd (omega arith))
          (λ r. never r))
        λ status t d good. ending status t good d)
]
  where
    all : AllRoomy (a ∷ ps) g.memory
    all = AllRenewed-AllRoomy (a ∷ ps) g.memory ((x, e, claimed, long), more)

    never : {tap canceled interrupted : Bool} → Retries (ready 1) tap canceled interrupted → ⊥
    never r = elim r [ ]

    ending :
        {fd : ℕ} (status : ℕ) (t : Globals)
        → succeeded status ≡ true
        → ReadDone delivering a x 516 fd g status t
        → (t.memory.count ≤ max_packets) × AllRoomy (a ∷ ps) t.memory
    ending status t good (read q (fetched z h)) =
        after_fetch (a ∷ ps) a x long (omega (arith, claimed, long)) _ g.memory t.memory
          g.use_tap_dev h all
    ending status t good (read q (refused z h same)) = absurd (ground (arith, good, z))
    ending status t good (cancelled z h same) = absurd (ground (arith, good, z))
    ending status t good (not_selected z h same) = absurd (ground (arith, good, z))

-- No memory is used for packets yet.
abbrev no_packets : Memory
no_packets = record memory { packet = λ p. none }

-- One block is in use at first.
abbrev start : Program
start = record {
  lib = record at_start { memory = no_packets };
  can_run_loop = false;
  made = 1;
  live = λ p. p == 1;
}

start-Numbered : Numbered start
start-Numbered p h = ground arith

start-Unmade : Unmade start
start-Unmade p h q e = ground (arith, e)

abbrev zeros : ℕ → List ℕ
zeros zero = []
zeros (suc n) = 0 ∷ zeros n

length-zeros : (n : ℕ) → length (zeros n) ≡ n
length-zeros zero = refl
length-zeros (suc n) = omega (arith, length-zeros n)

abbrev generous : Host
generous = record { grants = λ n. true; contents = zeros max_data_size; pthread_create = true }

enough_bytes : max_data_size ≤ length generous.contents
enough_bytes = omega (arith, length-zeros max_data_size)

-- The stack holds 0xdeadbeef.
abbrev slots : ℕ → List ℕ
slots zero = []
slots (suc n) = 3735928559 ∷ slots n

pkt_loop_example :
    Returns (λ a r. NothingLeft start r) (pkt_loop delivering generous 8 1 (slots 64) 3 start)
pkt_loop_example =
    pkt_loop-NothingLeft delivering generous enough_bytes 8 1 3 delivering-Reads start (slots 64)
      refl start-Numbered start-Unmade (inl (λ n. refl))

abbrev with_tap : List (List ℕ)
with_tap = [] ∷ usetap ∷ []

main_example :
    Returns
      (λ a r. NothingLeft start r × (r.lib.fdesc ≡ none))
      (main delivering generous 8 1 with_tap (slots 64) 3 start)
main_example =
    main-NothingLeft delivering generous enough_bytes 8 1 3 delivering-Reads start with_tap
      (slots 64) refl start-Numbered start-Unmade (inl (λ n. refl)) refl

-- The third block, for the second packet, is refused.
abbrev scarce : Host
scarce = record generous { grants = λ n. ltb n 3 }

abbrev with_device : Program
with_device = record start { lib = tap_open }

info_told :
    Returns
      (λ status t. succeeded status ≡ true)
      (kvnet_get_driver_info system true with_device.lib)
unfolding kvnet_get_driver_info kvnet_get_mac make_status succeeded
info_told = returns refl

two_granted : (i : ℕ) → i ≤ 1 → scarce.grants (1 + i) ≡ true
two_granted i h = ground arith

pkt_loop_refused_example :
    pkt_loop system scarce 8 1 (slots 1 ++ 0 ∷ 3735928559 ∷ slots 61) 3 with_device
    ≡ fault bad_pointer
pkt_loop_refused_example =
    pkt_loop-bad_pointer system scarce 8 1 3 with_device (slots 1) 0 3735928559 (slots 61) info_told
      start-Numbered two_granted refl (λ e. ground arith) (λ e. ground arith) refl
