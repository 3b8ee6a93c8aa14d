-- ===== src/Io/Request.antt =====
-- What `io_read_to_iovec` and `io_write_from_iovec` begin with: the request's length, its memory and its count.
use kerion_vpn_client_docker.Base.{
  ℕ, ◌+◌, ◌-◌, ◌*◌, ◌%◌, ◌^◌, ◌&&◌, ◌<◌, ◌≤◌, ◌≡◌, ◌≢◌, inl, inr, refl, true, false, Bool-cases,
  Option-cases, none, some, List, [], ◌∷◌, arith, length, take, drop, ◌==◌, if◌then◌else◌, Bytes,
  ltb,
}
use kerion_vpn_client_docker.Base.Int.{ℤ, pos, incr, decr, is_neg, minus_einval, minus_eagain}
use kerion_vpn_client_docker.Machine.{Cmd, pure, ◌>>◌, and_then, Returns, returns}
use kerion_vpn_client_docker.Queue.{Heap}
use kerion_vpn_client_docker.Driver.{
  Vnet, Event, netif_rx, header_alloc, header_free, Env, Driver, driver, frees, emit,
}
use kerion_vpn_client_docker.Resources.{held, switched_on}
use kerion_vpn_client_docker.Io.{le, needed, with_header}
use kerion_vpn_client_docker.Io.Fill.{outgoing}
use kerion_vpn_client_docker.Io.Header.{needed-covers, count_bound, load_count-ok}

-- The bytes of the packets handed to the network stack, the last one first.
abbrev pub received : List Event → List (List ℕ)
received [] = []
received (netif_rx bs ∷ l) = bs ∷ received l
received (_ ∷ l) = received l

-- Where the request says that packet `i` is.
abbrev pub place_in : List ℕ → ℕ → ℕ
place_in hdr i = le (take 8 (drop (4 + i * 8) hdr))

-- The request that is copied in, `n` bytes.
abbrev pub request : Env → List Event → ℕ → List ℕ
request env l n = elim (env.from_iovec (header_alloc ∷ l) n) [ none ↦ [] | some hdr ↦ hdr ]

-- What `memcpy_fromiovecend` promises: as many bytes as asked for.
abbrev pub CopiesAll : Env → Type 0
CopiesAll env =
    (l : List Event) (n : ℕ) (hdr : List ℕ)
    → env.from_iovec l n ≡ some hdr
    → (length hdr ≡ n) × Bytes hdr

pub decr-incr : (x : ℤ) → decr (incr x) ≡ x
decr-incr x = ground arith

pub released : (l : List Event) → held (header_free ∷ header_alloc ∷ l) ≡ held l
released l = ground (arith, decr-incr (held l).headers)

module _ (env : Env) (copies : CopiesAll env) (h : Heap) (v : Vnet) (l : List Event) (n : ℕ)
    (small : n < 2 ^ 32) (body : List ℕ → ℕ → Cmd Driver ℤ) (P : ℤ → Driver → Type 0)
    (failed : (r : ℤ) (k : List Event)
      → is_neg r ≡ true
      → r ≢ minus_eagain
      → held k ≡ held l
      → frees k ≡ frees l
      → received k ≡ received l
      → switched_on k ≡ switched_on l
      → outgoing k ≡ outgoing l
      → P r (driver h v k))
    (call : (hdr : List ℕ) (count : ℕ)
      → env.from_iovec (header_alloc ∷ l) n ≡ some hdr
      → 0 < count
      → 4 + count * 8 ≤ length hdr
      → Returns P (body hdr count (driver h v (header_alloc ∷ l)))) where
  pub with_header-Returns : Returns P (with_header env 8 (pos n) body (driver h v l))
  unfolding with_header
  with_header-Returns = elim (Bool-cases (ltb n 12)) [
    | inl e ↦ rw e (returns (failed _ l refl (λ e. ground arith) refl refl refl refl refl))
    | inr e ↦
        rw e (elim (Bool-cases (ltb (n % 2 ^ 32) (2 ^ 31) && env.kmalloc_bytes l (n % 2 ^ 32))) [
          | inr f ↦ rw f (returns (failed _ l refl (λ e. ground arith) refl refl refl refl refl))
          | inl f ↦ rw f (elim (Option-cases (env.from_iovec (header_alloc ∷ l) n)) [
            | inl g ↦
                rw g
                  (returns (failed _ _ refl (λ e. ground arith) (released l) refl refl refl refl))
            | inr (hdr, g) ↦
                rw
                  (
                    g,
                    whole,
                    load_count-ok hdr (driver h v (header_alloc ∷ l)) (four hdr g e),
                    and_then,
                  )
                  (chosen hdr g e)
          ])
        ])
  ]
    where
      whole : ltb (n % 2 ^ 32) n ≡ false
      whole = ground arith

      four :
          (hdr : List ℕ)
          → env.from_iovec (header_alloc ∷ l) n ≡ some hdr
          → ltb n 12 ≡ false
          → 4 ≤ length hdr
      four hdr g e = ground (arith, (copies (header_alloc ∷ l) n hdr g).0)

      enough :
          (hdr : List ℕ) (c : ℕ)
          → env.from_iovec (header_alloc ∷ l) n ≡ some hdr
          → 0 < c
          → c < 2 ^ 32
          → needed 8 c ≤ n
          → 4 + c * 8 ≤ length hdr
      enough hdr c g some_packet bounded fits = omega (
        arith,
        needed-covers n c (c - 1) some_packet bounded fits (omega arith),
        (copies _ n hdr g).0,
      )

      chosen :
          (hdr : List ℕ)
          → env.from_iovec (header_alloc ∷ l) n ≡ some hdr
          → ltb n 12 ≡ false
          → Returns P (
              (if le (take 4 (drop 0 hdr)) == 0
                  then (do emit header_free; pure minus_einval)
                  else (if ltb n (needed 8 (le (take 4 (drop 0 hdr))))
                      then (do emit header_free; pure minus_einval)
                      else body hdr (le (take 4 (drop 0 hdr)))))
                (driver h v (header_alloc ∷ l)))
      chosen hdr g e = elim (Bool-cases (le (take 4 (drop 0 hdr)) == 0)) [
        | inl z ↦
            rw z (returns (failed _ _ refl (λ e. ground arith) (released l) refl refl refl refl))
        | inr z ↦ rw z (elim (Bool-cases (ltb n (needed 8 (le (take 4 (drop 0 hdr)))))) [
          | inl w ↦
              rw w (returns (failed _ _ refl (λ e. ground arith) (released l) refl refl refl refl))
          | inr w ↦ rw w (
              call hdr _ g (ground arith) (
                enough hdr _ g (ground arith) (count_bound hdr (copies _ n hdr g).1 (four hdr g e))
                  (ground arith)))
        ])
      ]
