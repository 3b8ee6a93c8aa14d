-- ===== src/Io/Blocking/Stale.antt =====
-- The early returns of `io_read_to_iovec` of drivers/vpn/linux/io_read.c in the build with USE_BLOCKING_READ.
use kerion_vpn_client_docker.Base.{
  ℕ, ◌<◌, ◌≤◌, ◌≡◌, ◌%◌, ◌^◌, refl, Bool, true, false, none, some, List, ◌∷◌, length, take, ltb,
  ◌==◌, arith, ◌==◌,
}
use kerion_vpn_client_docker.Base.Int.{ℤ, pos, is_neg}
use kerion_vpn_client_docker.Machine.{Returns, returns}
use kerion_vpn_client_docker.Queue.{Heap}
use kerion_vpn_client_docker.Driver.{Vnet, Event, header_alloc, Env, driver}
use kerion_vpn_client_docker.Resources.{held}
use kerion_vpn_client_docker.Io.{le, needed}
use kerion_vpn_client_docker.Io.Header.{load_count-ok}
use kerion_vpn_client_docker.Io.Request.{released}
use kerion_vpn_client_docker.Io.Blocking.{Task, task, World, blocking_read}

-- Why a request of `n` bytes is refused before the loop.
pub data Rejected (env : Env) (l : List Event) (n : ℕ) : Type 0 where
  no_memory : env.kmalloc_bytes l n ≡ false → Rejected env l n
  not_copied :
      env.kmalloc_bytes l n ≡ true → env.from_iovec (header_alloc ∷ l) n ≡ none → Rejected env l n
  bad_count :
      (hdr : List ℕ)
      → env.kmalloc_bytes l n ≡ true
      → env.from_iovec (header_alloc ∷ l) n ≡ some hdr
      → length hdr ≡ n
      → le (take 4 hdr) ≡ 0
      → Rejected env l n
  too_many :
      (hdr : List ℕ)
      → env.kmalloc_bytes l n ≡ true
      → env.from_iovec (header_alloc ∷ l) n ≡ some hdr
      → length hdr ≡ n
      → (le (take 4 hdr) == 0) ≡ false
      → n < needed 8 (le (take 4 hdr))
      → Rejected env l n

-- An error, with the driver as it was but for its log, and nothing more held; but the task's entry is
-- in the wait queue, and its state is TASK_INTERRUPTIBLE.
abbrev pub Stale : Heap → Vnet → List Event → ℤ → Task → Type 0
Stale h v l r t =
    (is_neg r ≡ true)
    × (t.driver ≡ driver h v t.driver.log)
    × (held t.driver.log ≡ held l)
    × (t.waiting ≡ true)
    × (t.interruptible ≡ true)

-- A blocking read whose request is refused before the loop, since there is no memory for it, it cannot be copied
-- in, it asks for no packet, or it is too short for the packets that it asks for, returns an error and leaves the
-- task's entry, which lies on its stack, in the wait queue, and the task in the state TASK_INTERRUPTIBLE.
-- Nothing else of the driver has changed, and nothing more is held. The request has at least the
-- size of its header and less than 2 ^ 31 bytes, on a 64-bit machine.
pub blocking_read-Stale :
    (env : Env) (world : World) (fuel : ℕ) (h : Heap) (v : Vnet) (l : List Event) (n : ℕ)
    (w i : Bool)
    → 12 ≤ n
    → n < 2 ^ 31
    → Rejected env l n
    → Returns (Stale h v l) (blocking_read env 8 world fuel (pos n) (task (driver h v l) w i))
unfolding blocking_read
blocking_read-Stale env world fuel h v l n w i long small refused = go refused
  where
    not_short : ltb n 12 ≡ false
    not_short = ground arith

    same_bytes : n % 2 ^ 32 ≡ n
    same_bytes = omega arith

    positive : ltb n (2 ^ 31) ≡ true
    positive = ground arith

    whole : ltb (n % 2 ^ 32) n ≡ false
    whole = ground arith

    go :
        Rejected env l n
        → Returns (Stale h v l) (blocking_read env 8 world fuel (pos n) (task (driver h v l) w i))
    go (no_memory m) =
        rw (not_short, same_bytes, positive, m) (returns (refl, refl, refl, refl, refl))
    go (not_copied m c) =
        rw (not_short, same_bytes, positive, m, c) (returns (refl, refl, released l, refl, refl))
    go (bad_count hdr m c len z) =
        rw
          (
            not_short,
            same_bytes,
            positive,
            m,
            c,
            whole,
            load_count-ok hdr (driver h v (header_alloc ∷ l)) (omega (arith, len)),
            z,
          )
          (returns (refl, refl, released l, refl, refl))
    go (too_many hdr m c len z short) =
        rw
          (
            not_short,
            same_bytes,
            positive,
            m,
            c,
            whole,
            load_count-ok hdr (driver h v (header_alloc ∷ l)) (omega (arith, len)),
            z,
            over hdr short,
          )
          (returns (refl, refl, released l, refl, refl))
      where
        over :
            (hdr : List ℕ)
            → n < needed 8 (le (take 4 hdr))
            → ltb n (needed 8 (le (take 4 hdr))) ≡ true
        over hdr short = ground arith
