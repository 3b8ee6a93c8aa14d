-- ===== src/Kvnet/Descriptors.antt =====
-- The descriptors of the library's calls in libkvnet/src/linux/kvnet.c.
use kerion_vpn_client_docker.Base.{
  ℕ, ◌≡◌, inl, inr, Bool, true, false, Bool-cases, Option-cases, List, [], ◌∷◌, length, arith,
}
use kerion_vpn_client_docker.Machine.{Cmd, pure, ◌>>◌, Returns, returns, bind}
use kerion_vpn_client_docker.Kvnet.{
  opened, requested, Packet, Memory, Sys, Globals, make_status, finish_open, set_mtu, kvnet_open,
  kvnet_close, kvnet_cancel_read,
}
use kerion_vpn_client_docker.Kvnet.Transfer.{
  set_memory, kvnet_read, kvnet_write, kvnet_get_mac, kvnet_get_driver_info,
}
use kerion_vpn_client_docker.Kvnet.Owned.{Owned, Lasts, Returns-Lasts, and_then-Lasts}
use kerion_vpn_client_docker.Kvnet.Carried.{read-Owned, write-Owned}
use kerion_vpn_client_docker.Kvnet.Read.{Room, Honest}
use kerion_vpn_client_docker.Kvnet.Write.{Outgoing}

-- A call of the library. The caller of a read or a write has prepared its memory; a read has some fuel.
pub data Request : Type 0 where
  open_as : Bool → Request
  close cancel_read : Request
  get_driver_info : Bool → Request
  read : ℕ → Bool → Memory → ℕ → Request
  write : Bool → Memory → ℕ → Request

module _ (sys : Sys) (ptr : ℕ) where
  unfoldable pub serve : Request → Cmd Globals ℕ
  serve (open_as use_tap) = kvnet_open sys use_tap
  serve close = kvnet_close sys
  serve cancel_read = kvnet_cancel_read sys
  serve (get_driver_info info) = kvnet_get_driver_info sys info
  serve (read fuel hdr m len) = set_memory (λ _. m) >> kvnet_read sys ptr fuel hdr len
  serve (write hdr m len) = set_memory (λ _. m) >> kvnet_write sys ptr hdr len

  unfoldable pub serve_all : List Request → Cmd Globals ℕ
  serve_all [] = pure 0
  serve_all (r ∷ rs) = serve r >> serve_all rs

-- The memory of a read has the room that its first packet says; that of a write holds the packets of its count.
abbrev pub Prepared : Request → Type 0
Prepared (read fuel hdr m len) = (a : ℕ) × (p : Packet) × Room a p m
Prepared (write hdr m len) = (ps : List Packet) × Outgoing m 0 ps × (m.count ≡ length ps)
Prepared _ = Unit {0}

abbrev pub AllPrepared : List Request → Type 0
AllPrepared [] = Unit {0}
AllPrepared (r ∷ rs) = Prepared r × AllPrepared rs

module _ (sys : Sys) (s : Globals) (o : Owned 0 s) where
  close-Owned : Returns Owned (kvnet_close sys s)
  unfolding kvnet_close make_status
  close-Owned = elim (Option-cases s.fdesc) [
    | inl e ↦ simp (e) (returns o)
    | inr (fd, e) ↦ simp (e) (returns (ground (arith, o, e)))
  ]

  cancel-Owned : Returns Owned (kvnet_cancel_read sys s)
  unfolding kvnet_cancel_read make_status
  cancel-Owned = elim (Bool-cases s.use_tap_dev) [
    | inl e ↦ simp (e) (returns o)
    | inr e ↦ simp (e) (elim (Option-cases s.fdesc) [
      | inl f ↦ simp (f) (returns o)
      | inr (fd, f) ↦ simp (f) (elim (Bool-cases (sys.ioctl s.calls)) [
        | inl g ↦ simp (g) (returns (ground (arith, o, f)))
        | inr g ↦ simp (g) (returns (ground (arith, o, f)))
      ])
    ])
  ]

  get_mac-Owned : Returns (λ a t. Owned 0 t) (kvnet_get_mac sys s)
  unfolding kvnet_get_mac
  get_mac-Owned = elim (Option-cases (sys.socket s.calls)) [
    | inl e ↦ simp (e) (returns o)
    | inr (sock, e) ↦ simp (e) (elim (Option-cases (sys.get_hwaddr (opened sock ∷ s.calls))) [
      | inl f ↦ simp (f) (returns (ground (arith, o)))
      | inr (addr, f) ↦ simp (f) (returns (ground (arith, o)))
    ])
  ]

  pub open-Owned : (use_tap : Bool) → Returns Owned (kvnet_open sys use_tap s)
  unfolding kvnet_open make_status finish_open set_mtu
  open-Owned use_tap = elim (Option-cases s.fdesc) [
    | inr (fd, e) ↦ simp (e) (returns o)
    | inl e ↦ simp (e) (elim (Option-cases (sys.open_device s.calls)) [
      | inl f ↦ simp (f) (returns o)
      | inr (fd, f) ↦ simp (f) (elim (Bool-cases use_tap) [
        | inr g ↦ simp (g) (returns (ground (arith, o, e)))
        | inl g ↦ simp (g) (elim (Bool-cases (sys.ioctl (opened fd ∷ s.calls))) [
          | inr a ↦ simp (a) (returns (ground (arith, o, e)))
          | inl a ↦
              simp (a) (elim (Option-cases (sys.socket (requested fd ∷ opened fd ∷ s.calls))) [
                | inl b ↦ simp (b) (returns (ground (arith, o, e)))
                | inr (skfd, b) ↦ simp (b) (returns (ground (arith, o, e)))
              ])
        ])
      ])
    ])
  ]

pub driver_info-Owned :
    (sys : Sys) (s : Globals)
    → Owned 0 s
    → (info : Bool) → Returns Owned (kvnet_get_driver_info sys info s)
unfolding kvnet_get_driver_info make_status
driver_info-Owned sys s o false = elim (Bool-cases s.use_tap_dev) [
  | inl e ↦ simp (e) (returns o)
  | inr e ↦ simp (e) (elim (Option-cases s.fdesc) [
    | inl g ↦ simp (g) (returns o)
    | inr (fd, g) ↦ simp (g) (returns o)
  ])
]
driver_info-Owned sys s o true = elim (Bool-cases s.use_tap_dev) [
  | inl e ↦ simp (e) (bind (get_mac-Owned sys _ o) λ a t p. returns p)
  | inr e ↦ simp (e) (elim (Option-cases s.fdesc) [
    | inl g ↦ simp (g) (returns o)
    | inr (fd, g) ↦ simp (g) (elim (Option-cases (sys.get_info s.calls)) [
      | inl h ↦ simp (h) (returns (ground (arith, o, g)))
      | inr (i, h) ↦ simp (h) (returns (ground (arith, o, g)))
    ])
  ])
]

module _ (sys : Sys) (ptr : ℕ) (honest : Honest sys) where
  serve-Owned :
      (r : Request) (s : Globals) → Owned 0 s → Prepared r → Lasts Owned (serve sys ptr r s)
  unfolding serve
  serve-Owned (open_as use_tap) s o fit = Returns-Lasts (open-Owned sys s o use_tap)
  serve-Owned close s o fit = Returns-Lasts (close-Owned sys s o)
  serve-Owned cancel_read s o fit = Returns-Lasts (cancel-Owned sys s o)
  serve-Owned (get_driver_info info) s o fit = Returns-Lasts (driver_info-Owned sys s o info)
  serve-Owned (read fuel hdr m len) s o (a, p, fits) =
      read-Owned sys ptr len (record s { memory = m }) o fuel a p hdr honest fits
  serve-Owned (write hdr m len) s o (ps, out, all) =
      Returns-Lasts (write-Owned sys ptr len (record s { memory = m }) o ps hdr out all)

  -- Whatever the order of opening, closing, cancelling, reading, writing and asking for the driver's version,
  -- whatever the system answers, and whatever another thread cancels while a read waits, the library closes
  -- and uses only a descriptor that is open, and at the end just the device's descriptor is open, if there
  -- is one: in particular each socket that a call opens is closed, and so is a TAP device that could not be set
  -- up. There is no fault; only a read may go on waiting for longer than its fuel. The system reads at most what
  -- it is asked for; the caller's memory has the room that its first packet says, for a read, or holds as
  -- many packets as its count says, for a write. A start from a state with this property is meant, as with
  -- nothing opened yet.
  pub serve_all-Owned :
      (rs : List Request) (s : Globals)
      → Owned 0 s
      → AllPrepared rs
      → Lasts Owned (serve_all sys ptr rs s)
  unfolding serve_all
  serve_all-Owned [] s o fit = o
  serve_all-Owned (r ∷ rs) s o (fit, more) =
      and_then-Lasts Owned Owned (serve sys ptr r s) _ (serve-Owned r s o fit)
        λ a t p. serve_all-Owned rs t p more
