-- ===== src/Io/Granted.antt =====
-- Requests of io_read.c and io_write.c for which the kernel and user memory have what is asked for.
use kerion_vpn_client_docker.Base.{
  ℕ, ◌+◌, ◌*◌, ◌%◌, ◌^◌, ◌&&◌, ◌<◌, ◌≤◌, ◌≡◌, refl, true, false, some, List, ◌∷◌, arith, length,
  take, ltb, ◌==◌,
}
use kerion_vpn_client_docker.Base.Int.{ℤ, pos, is_zero}
use kerion_vpn_client_docker.Machine.{ok, Cmd, Returns, returns, and_then}
use kerion_vpn_client_docker.Queue.{Heap, Skb}
use kerion_vpn_client_docker.Driver.{
  Vnet, Event, header_alloc, header_free, to_iovec, Env, Driver, driver,
}
use kerion_vpn_client_docker.Io.{
  le, needed, reply_size, with_header, finish, io_read_fill_network_packet,
}
use kerion_vpn_client_docker.Io.Header.{load_count-ok}

-- User memory can be read and written, and buffers are made.
pub record Grants (env : Env) : Type 0 where
  pub get_user : (l : List Event) (a : ℕ) → (n : ℕ) × (env.get_user l a ≡ some n)
  pub put_user : (l : List Event) (a : ℕ) → env.put_user l a ≡ true
  pub copy_to_user : (l : List Event) (a : ℕ) → env.copy_to_user l a ≡ true
  pub copy_from_user :
      (l : List Event) (a n : ℕ) → (bytes : List ℕ) × (env.copy_from_user l a n ≡ some bytes)
  pub to_iovec : (l : List Event) → env.to_iovec l ≡ true
  pub dev_alloc_skb : (l : List Event) (n : ℕ) → (room : ℕ) × (env.dev_alloc_skb l n ≡ some room)

-- A request of `n` bytes that asks for `count` packets and is long enough for them.
pub record Asks (env : Env) (l : List Event) (n count : ℕ) (hdr : List ℕ) : Type 0 where
  pub small : n < 2 ^ 31
  pub header : 12 ≤ n
  pub memory : env.kmalloc_bytes l n ≡ true
  pub copied : env.from_iovec (header_alloc ∷ l) n ≡ some hdr
  pub whole : length hdr ≡ n
  pub counted : le (take 4 hdr) ≡ count
  pub some_packet : 0 < count
  pub enough : 4 + count * 8 ≤ n

module _ (env : Env) (h : Heap) (v : Vnet) (l : List Event) (n count : ℕ) (hdr : List ℕ)
    (asks : Asks env l n count hdr) where
  open asks use {small, header, memory, copied, whole, counted, some_packet, enough}

  pub same_bytes : n % 2 ^ 32 ≡ n
  same_bytes = omega arith

  pub not_short : ltb n 12 ≡ false
  not_short = ground arith

  pub has_memory : (ltb n (2 ^ 31) && env.kmalloc_bytes l n) ≡ true
  has_memory = rw memory (ground arith)

  pub all_copied : ltb (n % 2 ^ 32) n ≡ false
  all_copied = ground arith

  pub asked_some : (count == 0) ≡ false
  asked_some = ground arith

  pub fits : ltb n (needed 8 count) ≡ false
  unfolding needed
  fits = ground arith

  -- The request passes every check.
  pub with_header-run :
      (body : List ℕ → ℕ → Cmd Driver ℤ)
      → with_header env 8 (pos n) body (driver h v l)
        ≡ body hdr count (driver h v (header_alloc ∷ l))
  unfolding with_header
  with_header-run body =
      rw
        (
          not_short,
          same_bytes,
          has_memory,
          copied,
          all_copied,
          load_count-ok hdr (driver h v (header_alloc ∷ l)) (omega (arith, whole)),
          and_then,
          counted,
          asked_some,
          fits,
        )
        refl

module _ (env : Env) (grants : Grants env) (h : Heap) (v : Vnet) (l : List Event) where
  pub fill-granted :
      (pkt : ℕ) (s : Skb)
      → Returns (λ r d. is_zero r ≡ true) (io_read_fill_network_packet env pkt s (driver h v l))
  unfolding io_read_fill_network_packet
  fill-granted pkt s =
      let (room, e) = grants.get_user l pkt in
      rw (e, grants.copy_to_user l (pkt + 4)) (rw (grants.put_user _ pkt) (returns refl))

  pub finish-granted :
      (n : ℕ)
      → finish env 8 (pos n) (driver h v l)
        ≡ ok (pos (reply_size 8 n)) (driver h v (header_free ∷ to_iovec n ∷ l))
  unfolding finish
  finish-granted n = rw (grants.to_iovec l) refl
