-- ===== src/Kvnet/Carried.antt =====
-- The descriptors of the reads and writes of libkvnet/src/linux/kvnet.c.
use kerion_vpn_client_docker.Base.{
  ℕ, zero, suc, ◌+◌, ◌≡◌, refl, sym, ap, subst, ◌∙◌, inl, inr, some, Bool, true, false, Bool-cases,
  Option-cases, List, [], ◌∷◌, length, ltb, if◌then◌else◌, arith,
}
use kerion_vpn_client_docker.Machine.{Returns, returns}
use kerion_vpn_client_docker.Io.{header_size}
use kerion_vpn_client_docker.Kvnet.{Packet, Sys, Globals, make_status, no_error, write_error}
use kerion_vpn_client_docker.Kvnet.Transfer.{
  read_packet, read_request, try_again, kvnet_read, write_packets, kvnet_write, Next, done, fetch,
  again,
}
use kerion_vpn_client_docker.Kvnet.Rounds.{waited, step, round, waited-Kept}
use kerion_vpn_client_docker.Kvnet.Read.{Room, Honest, packet_refused, packet_filled}
use kerion_vpn_client_docker.Kvnet.Write.{Outgoing, after_packet, written_next, write_refused}
use kerion_vpn_client_docker.Kvnet.Owned.{Owned, held_by, Lasts, Returns-Lasts}

module _ (sys : Sys) (fd : ℕ) where
  -- The state of a call that uses the descriptor of the device.
  abbrev pub Uses : Globals → Type 0
  Uses s = Owned 0 s × (s.fdesc ≡ some fd)

  status_kept : (status : ℕ) (s : Globals) → Owned 0 s → Returns Owned (make_status sys status s)
  unfolding make_status
  status_kept status s o = returns o

  waited-Uses : (s : Globals) → Uses s → Uses (waited sys fd s)
  waited-Uses s (o, e) = elim (Bool-cases (sys.cancels s.calls)) [
    | inr c ↦ rw c (ground (arith, o, e), e)
    | inl c ↦ elim (Bool-cases s.use_tap_dev) [
      | inl t ↦ rw (c, t) (ground (arith, o, e), e)
      | inr t ↦ rw (c, t) (ground (arith, o, e), ground (arith, e))
    ]
  ]

  module _ (honest : Honest sys) (a : ℕ) (p : Packet) (len : ℕ) where
    read_packet-Owned :
        (s : Globals) → Uses s → Room a p s.memory → Returns Owned (read_packet sys fd s)
    read_packet-Owned s (o, e) r = elim (Option-cases (sys.read s.calls p.data_len)) [
      | inl h ↦
          rw (packet_refused sys a p len honest fd s r h) (status_kept _ _ (ground (arith, o, e)))
      | inr (bs, h) ↦
          rw (packet_filled sys a p len honest fd s bs r h) (status_kept _ _ (ground (arith, o, e)))
    ]

    read_request-Owned : (s : Globals) → Uses s → Returns Owned (read_request sys fd len s)
    unfolding read_request
    read_request-Owned s (o, e) = elim (Option-cases (sys.read_request s.calls len s.memory)) [
      | inl h ↦ simp (h) (status_kept _ _ (ground (arith, o, e)))
      | inr (m, h) ↦ simp (h) (status_kept _ _ (ground (arith, o, e)))
    ]

    fetched-Owned :
        (tap : Bool) (s : Globals)
        → Uses s
        → Room a p s.memory
        → Returns Owned ((if tap then read_packet sys fd else read_request sys fd len) s)
    fetched-Owned true s u r = read_packet-Owned s u r
    fetched-Owned false s u r = read_request-Owned s u

    try_again-Owned :
        (fuel : ℕ) (s : Globals)
        → Uses s
        → Room a p s.memory
        → Lasts Owned (try_again sys fuel fd len s)
    unfolding try_again
    try_again-Owned zero s u r = tt
    try_again-Owned (suc fuel) s u r =
        let w = waited sys fd s in
        let kept : Room a p w.memory = subst (Room a p) (sym (waited-Kept sys fd s).0) r in
        let later = try_again-Owned fuel w (waited-Uses s u) kept in
        go (step sys fd s) refl later
          (Returns-Lasts (fetched-Owned w.use_tap_dev w (waited-Uses s u) kept))
      where
        go :
            (x : Next)
            → step sys fd s ≡ x
            → Lasts Owned (try_again sys fuel fd len (waited sys fd s))
            → Lasts Owned (
                (if (waited sys fd s).use_tap_dev
                    then read_packet sys fd
                    else read_request sys fd len)
                  (waited sys fd s))
            → Lasts Owned (try_again sys (suc fuel) fd len s)
        go (done status) e later now =
            rw (round sys fd len fuel s (done status) e)
              (Returns-Lasts (status_kept status (waited sys fd s) (waited-Uses s u).0))
        go fetch e later now = rw (round sys fd len fuel s fetch e) now
        go again e later now = rw (round sys fd len fuel s again e) later

  write_packets-Owned :
      (ps : List Packet) (i : ℕ) (s : Globals)
      → Uses s
      → Outgoing s.memory i ps
      → Returns Owned (write_packets sys fd (length ps) i s)
  unfolding write_packets
  write_packets-Owned [] i s u o = status_kept no_error s u.0
  write_packets-Owned (p ∷ ps) i s (u, e) o = elim (Bool-cases (sys.write s.calls)) [
    | inl w ↦
        rw (written_next sys fd s (length ps) i p ps o w)
          (write_packets-Owned ps (i + 1) (after_packet sys fd p s) (ground (arith, u, e), e) o.2)
    | inr w ↦
        rw (write_refused sys fd s (length ps) i p ps o w)
          (status_kept write_error _ (ground (arith, u, e)))
  ]

module _ (sys : Sys) (ptr len : ℕ) (s : Globals) (o : Owned 0 s) where
  -- A read with a request that a TAP device can serve, and a write of the packets of a request.
  pub read-Owned :
      (fuel a : ℕ) (p : Packet) (hdr : Bool)
      → Honest sys
      → Room a p s.memory
      → Lasts Owned (kvnet_read sys ptr fuel hdr len s)
  unfolding kvnet_read make_status
  read-Owned fuel a p hdr honest r = elim (Option-cases s.fdesc) [
    | inl e ↦ simp (e) (o ∙ ap (λ x. some (held_by x)) e)
    | inr (fd, e) ↦ elim (Bool-cases hdr) [
      | inr h ↦ simp (e, h) (o ∙ ap (λ x. some (held_by x)) e)
      | inl h ↦ elim (Bool-cases (ltb len (header_size ptr))) [
        | inl f ↦ simp (e, h, f) (o ∙ ap (λ x. some (held_by x)) e)
        | inr f ↦ simp (e, h, f) (try_again-Owned sys fd honest a p len fuel s (o, e) r)
      ]
    ]
  ]

  pub write-Owned :
      (ps : List Packet) (hdr : Bool)
      → Outgoing s.memory 0 ps
      → s.memory.count ≡ length ps
      → Returns Owned (kvnet_write sys ptr hdr len s)
  unfolding kvnet_write make_status
  write-Owned ps hdr out c = elim (Option-cases s.fdesc) [
    | inl e ↦ simp (e) (returns o)
    | inr (fd, e) ↦ elim (Bool-cases hdr) [
      | inr h ↦ simp (e, h) (returns o)
      | inl h ↦ elim (Bool-cases (ltb len (header_size ptr))) [
        | inl f ↦ simp (e, h, f) (returns o)
        | inr f ↦ elim (Bool-cases s.use_tap_dev) [
          | inl t ↦ simp (e, h, f, t, c) (write_packets-Owned sys fd ps 0 s (o, e) out)
          | inr t ↦ elim (Bool-cases (sys.write s.calls)) [
            | inl w ↦ simp (e, h, f, t, w) (returns (ground (arith, o, e)))
            | inr w ↦ simp (e, h, f, t, w) (returns (ground (arith, o, e)))
          ]
        ]
      ]
    ]
  ]
