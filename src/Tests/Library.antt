-- ===== src/Tests/Library.antt =====
-- The user library on concrete values.
use kerion_vpn_client_docker.Base.{
  ℕ, zero, suc, ◌≡◌, ◌≤◌, ◌<◌, inl, length, take, ◌==◌, if◌then◌else◌, arith, refl, none, some,
  List, [], ◌∷◌, true, false,
}
use kerion_vpn_client_docker.Machine.{Returns, fault, bad_pointer}
use kerion_vpn_client_docker.Kvnet.{Sys, Globals, Memory, Packet, opened, failed, timeout, ready}
use kerion_vpn_client_docker.Kvnet.Transfer.{kvnet_read, kvnet_write}
use kerion_vpn_client_docker.Kvnet.Rounds.{Retried, timed_out, signalled, rounds}
use kerion_vpn_client_docker.Kvnet.Read.{Room, room, Honest, ReadDone}
use kerion_vpn_client_docker.Kvnet.Waiting.{
  kvnet_read-ReadDone, NothingArrives, EndsCancelled, cancelled_read-ends,
}
use kerion_vpn_client_docker.Kvnet.Write.{Outgoing, Sent, kvnet_write-Sent, kvnet_write-bad_pointer}
use kerion_vpn_client_docker.Kvnet.Owned.{Owned, Lasts}
use kerion_vpn_client_docker.Kvnet.Descriptors.{
  Request, open_as, close, cancel_read, get_driver_info, read, write, serve_all, serve_all-Owned,
}

-- A system that gives the descriptor 3 and then 4 for a socket.
abbrev pub system : Sys
system = record {
  open_device = λ l. some 3;
  socket = λ l. some 4;
  ioctl = λ l. true;
  errno = λ l. 0;
  poll = λ l. elim l [ [] ↦ failed | c ∷ m ↦ timeout ];
  read = λ l n. some (7 ∷ 8 ∷ []);
  read_request = λ l n m. none;
  write = λ l. true;
  get_info = λ l. none;
  get_hwaddr = λ l. some (2 ∷ 0 ∷ 0 ∷ 0 ∷ 0 ∷ 1 ∷ 0 ∷ []);
  cancels = λ l. false;
}

abbrev pub memory : Memory
memory = record {
  count = 2;
  pkt = 100 ∷ 200 ∷ [];
  packet = λ a. some (record { data_len = 2; bytes = a ∷ 1 ∷ 2 ∷ [] });
  info = record { major = 0; minor = 0; hw_addr = [] };
}

abbrev pub at_start : Globals
at_start = record {
  fdesc = none;
  canceled = false;
  use_tap_dev = false;
  calls = [];
  memory = memory;
}

-- The TAP device is open, and its first poll is logged.
abbrev pub tap_open : Globals
tap_open = record {
  fdesc = some 3;
  canceled = false;
  use_tap_dev = true;
  calls = opened 3 ∷ [];
  memory = memory;
}

-- The second poll is interrupted by a signal, the third finds a packet; of three bytes.
abbrev busy : Sys
busy = record system {
  poll = λ l. if length l == 1 then timeout else (if length l == 2 then failed else ready 1);
  errno = λ l. 4;
  read = λ l n. some (take n (7 ∷ 8 ∷ 9 ∷ []));
}

pub take-short : (n : ℕ) (xs : List ℕ) → length (take n xs) ≤ n
take-short zero xs = omega arith
take-short (suc n) [] = omega arith
take-short (suc n) (x ∷ xs) = omega (arith, take-short n xs)

busy-Honest : Honest busy
busy-Honest l n bs e = ground (arith, take-short n (7 ∷ 8 ∷ 9 ∷ []))

abbrev first : Packet
first = record { data_len = 2; bytes = 100 ∷ 1 ∷ 2 ∷ [] }

abbrev second : Packet
second = record { data_len = 2; bytes = 200 ∷ 1 ∷ 2 ∷ [] }

first_fits : Room 100 first memory
first_fits = room refl refl (omega arith)

again_twice : (i : ℕ) → i < 2 → Retried busy 3 (rounds busy 3 i tap_open)
again_twice zero h = timed_out
again_twice (suc zero) h = signalled
again_twice (suc (suc i)) h = absurd (omega arith)

then_fetch : ¬ Retried busy 3 (rounds busy 3 2 tap_open)
then_fetch r = elim r [ ]

kvnet_read_example :
    Returns
      (ReadDone busy 100 first 516 3 (rounds busy 3 2 tap_open))
      (kvnet_read busy 8 5 true 516 tap_open)
kvnet_read_example =
    kvnet_read-ReadDone busy 3 tap_open 8 516 refl (omega arith) 100 first 2 5 busy-Honest
      first_fits (omega arith) again_twice then_fetch

-- Nothing arrives, and another thread cancels in the second round.
abbrev quiet : Sys
quiet = record system { poll = λ l. timeout; cancels = λ l. length l == 2 }

all_quiet : (i : ℕ) → i < 1 → NothingArrives quiet 3 (rounds quiet 3 i tap_open)
all_quiet zero h = inl refl
all_quiet (suc i) h = absurd (omega arith)

cancelled_read_example : Returns (EndsCancelled tap_open) (kvnet_read quiet 8 5 true 516 tap_open)
cancelled_read_example =
    cancelled_read-ends quiet 3 tap_open 8 516 1 1 5 refl refl (omega arith) (omega arith)
      (omega arith) refl all_quiet refl

-- The second of two packets is refused.
abbrev refusing : Sys
refusing = record system { write = λ l. length l == 1 }

kvnet_write_example :
    Returns
      (λ status t.
        Sent refusing 3 (first ∷ second ∷ []) tap_open.calls status t.calls × (t.memory ≡ memory))
      (kvnet_write refusing 8 true 516 tap_open)
kvnet_write_example =
    kvnet_write-Sent refusing 3 tap_open 8 516 refl refl (omega arith) (first ∷ second ∷ [])
      ((100, refl, refl), omega arith, ((200, refl, refl), omega arith, tt)) refl

-- A request that claims three packets.
abbrev greedy : Globals
greedy = record tap_open { memory = record memory { count = 3 } }

kvnet_write_past_example : kvnet_write system 8 true 20 greedy ≡ fault bad_pointer
kvnet_write_past_example =
    kvnet_write-bad_pointer system 3 greedy 8 20 refl refl (omega arith) (first ∷ second ∷ [])
      ((100, refl, refl), omega arith, ((200, refl, refl), omega arith, tt)) refl (omega arith)
      (λ l. refl)

abbrev requests : List Request
requests =
    open_as true
    ∷ get_driver_info true
    ∷ read 5 true memory 516
    ∷ write true memory 516
    ∷ cancel_read
    ∷ close
    ∷ open_as false
    ∷ read 5 true memory 516
    ∷ cancel_read
    ∷ []

serve_all_example : Lasts Owned (serve_all busy 8 requests at_start)
serve_all_example = serve_all-Owned busy 8 busy-Honest requests at_start refl (
  tt,
  (
    tt,
    (
      (100, first, first_fits),
      (write_fits, (tt, (tt, (tt, ((100, first, first_fits), (tt, tt)))))),
    ),
  ),
)
  where
    write_fits : (ps : List Packet) × Outgoing memory 0 ps × (2 ≡ length ps)
    write_fits = (
      first ∷ second ∷ [],
      ((100, refl, refl), omega arith, ((200, refl, refl), omega arith, tt)),
      refl,
    )
