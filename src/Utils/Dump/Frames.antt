-- ===== src/Utils/Dump/Frames.antt =====
-- What the dump functions of drivers/vpn/linux/utils.c read of an Ethernet frame.
use kerion_vpn_client_docker.Base.{
  ℕ, ◌≡◌, subst, ◌≤◌, ◌<◌, inl, inr, ◌⊎◌, some, Bool, true, false, List, length, ltb, ◌==◌,
  Bool-cases, if◌then◌else◌, arith,
}
use kerion_vpn_client_docker.Base.Int.{pos}
use kerion_vpn_client_docker.Machine.{fault, bad_pointer, returns, bind}
use kerion_vpn_client_docker.Utils.Trace.{Console}
use kerion_vpn_client_docker.Utils.Dump.{
  Message, dump_arp, dump_addresses, dump_behind, dump_frame, dump_eth_frame,
}
use kerion_vpn_client_docker.Utils.Dump.Reads.{
  fault_first, short_at-value, Ends, ◌then◌, ◌then_fault◌, fault_first, short_at-value, HasShort,
  short_at-HasShort, short_at-Ends, bytes_at-Ends, byte_at-Ends, bytes_then_fault,
}
use kerion_vpn_client_docker.Utils.Dump.Packets.{info-Ends, warn-Ends, raw-Ends, dump_ip-Ends}

module _ (format : Message → List ℕ) (debug_enabled : Bool)
    (short : (m : Message) → length (format m) ≤ 248) where
  addresses-Ends :
      (xs : List ℕ)
      → 42 ≤ length xs
      → (c : Console) → Ends (dump_addresses format debug_enabled xs c)
  unfolding dump_addresses
  addresses-Ends xs h = bytes_at-Ends xs 22 6 (omega arith) then λ a.
      bytes_at-Ends xs 28 4 (omega arith) then λ a. raw-Ends format debug_enabled short _ then λ a.
      bytes_at-Ends xs 32 6 (omega arith) then λ a.
      bytes_at-Ends xs 38 4 (omega arith) then λ a. raw-Ends format debug_enabled short _

  dump_arp-Ends :
      (xs : List ℕ)
      → (length xs < 22) ⊎ (42 ≤ length xs)
      → (c : Console) → Ends (dump_arp format debug_enabled xs (pos (length xs)) c)
  unfolding dump_arp
  dump_arp-Ends xs (inl h) =
      let low : ltb (length xs) 22 ≡ true = ground arith in
      rw low (warn-Ends format debug_enabled short _)
  dump_arp-Ends xs (inr h) =
      let high : ltb (length xs) 22 ≡ false = ground arith in
      rw high (
        short_at-Ends xs 14 (omega arith) then λ a. short_at-Ends xs 16 (omega arith) then λ a.
        byte_at-Ends xs 18 (omega arith) then λ a. byte_at-Ends xs 19 (omega arith) then λ a.
        short_at-Ends xs 20 (omega arith) then λ a.
        raw-Ends format debug_enabled short _ then λ a. addresses-Ends xs h)

  -- An ARP frame that is long enough for the fixed part of its header and too short for the rest.
  addresses-bad_pointer :
      (xs : List ℕ)
      → 22 ≤ length xs
      → length xs < 42
      → (c : Console) → dump_addresses format debug_enabled xs c ≡ fault bad_pointer
  unfolding dump_addresses
  addresses-bad_pointer xs low high = bytes_then_fault xs 22 6 λ a h.
      bytes_then_fault xs 28 4 λ a h. raw-Ends format debug_enabled short _ then_fault λ a.
      bytes_then_fault xs 32 6 λ a h. bytes_then_fault xs 38 4 λ a h. absurd (omega arith)

  dump_arp-bad_pointer :
      (xs : List ℕ)
      → 22 ≤ length xs
      → length xs < 42
      → (c : Console) → dump_arp format debug_enabled xs (pos (length xs)) c ≡ fault bad_pointer
  unfolding dump_arp
  dump_arp-bad_pointer xs low high =
      let checked : ltb (length xs) 22 ≡ false = ground arith in
      rw checked (
        short_at-Ends xs 14 (omega arith) then_fault λ a.
        short_at-Ends xs 16 (omega arith) then_fault λ a.
        byte_at-Ends xs 18 (omega arith) then_fault λ a.
        byte_at-Ends xs 19 (omega arith) then_fault λ a.
        short_at-Ends xs 20 (omega arith) then_fault λ a.
        raw-Ends format debug_enabled short _ then_fault λ a. addresses-bad_pointer xs low high)

  behind-Ends :
      (xs : List ℕ) (v : ℕ)
      → HasShort xs 12 v
      → (¬ HasShort xs 12 2054) ⊎ ((length xs < 22) ⊎ (42 ≤ length xs))
      → (c : Console) → Ends (dump_behind format debug_enabled xs (pos (length xs)) v c)
  unfolding dump_behind
  behind-Ends xs v q k = elim (Bool-cases (v == 2054)) [
    | inl e ↦ rw e (
        dump_arp-Ends xs (elim k [
          | inl other ↦ absurd (other (subst (HasShort xs 12) (ground (arith, e)) q))
          | inr fits ↦ fits
        ]))
    | inr e ↦ rw e (elim (Bool-cases (v == 2048)) [
      | inr f ↦ rw f (λ c. returns tt)
      | inl f ↦ rw f (elim (Bool-cases (ltb (length xs) 34)) [
        | inl g ↦ rw g (warn-Ends format debug_enabled short _)
        | inr g ↦ rw g (dump_ip-Ends format debug_enabled short xs 14 (ground (arith, g)))
      ])
    ])
  ]

  dump_frame-Ends :
      (xs : List ℕ)
      → (¬ HasShort xs 12 2054) ⊎ ((length xs < 22) ⊎ (42 ≤ length xs))
      → (c : Console) → Ends (dump_frame format debug_enabled xs (pos (length xs)) c)
  unfolding dump_frame
  dump_frame-Ends xs k = elim (Bool-cases (ltb (length xs) 14)) [
    | inl e ↦ rw e (warn-Ends format debug_enabled short _)
    | inr e ↦
        let long : 14 ≤ length xs = ground (arith, e) in
        rw e (
          bytes_at-Ends xs 6 6 (omega arith) then λ a. bytes_at-Ends xs 0 6 (omega arith) then λ a.
          λ c.
            bind (short_at-HasShort xs 12 (omega arith) c)
              λ v t q. (raw-Ends format debug_enabled short _ then λ a. behind-Ends xs v q k) t)
  ]

  dump_frame-bad_pointer :
      (xs : List ℕ)
      → HasShort xs 12 2054
      → 22 ≤ length xs
      → length xs < 42
      → (c : Console) → dump_frame format debug_enabled xs (pos (length xs)) c ≡ fault bad_pointer
  unfolding dump_frame dump_behind
  dump_frame-bad_pointer xs q low high =
      let checked : ltb (length xs) 14 ≡ false = ground arith in
      rw checked (
        bytes_at-Ends xs 6 6 (omega arith) then_fault λ a.
        bytes_at-Ends xs 0 6 (omega arith) then_fault λ a c. rw (short_at-value xs 12 2054 q c) (
          (raw-Ends format debug_enabled short _ then_fault λ a. dump_arp-bad_pointer xs low high)
            c))

  -- Where its length is told truly, a frame is dumped without a fault, unless it is an ARP frame of 22 to 41 bytes: the
  -- function reads no byte past the end then, and its messages, of at most 248 bytes, fit the buffer of
  -- `trace`.
  pub dump_eth_frame-Ends :
      (xs : List ℕ)
      → (¬ HasShort xs 12 2054) ⊎ ((length xs < 22) ⊎ (42 ≤ length xs))
      → (c : Console) → Ends (dump_eth_frame format debug_enabled (some xs) (pos (length xs)) c)
  unfolding dump_eth_frame
  dump_eth_frame-Ends xs k = info-Ends format debug_enabled short _ then λ a.
      dump_frame-Ends xs k then λ a. info-Ends format debug_enabled short _

  -- An ARP frame of 22 to 41 bytes is read past its end: the length is checked for the fixed part of the ARP header
  -- only, and not for the addresses behind it.
  pub dump_eth_frame-bad_pointer :
      (xs : List ℕ)
      → HasShort xs 12 2054
      → 22 ≤ length xs
      → length xs < 42
      → (c : Console)
      → dump_eth_frame format debug_enabled (some xs) (pos (length xs)) c ≡ fault bad_pointer
  unfolding dump_eth_frame
  dump_eth_frame-bad_pointer xs q low high =
      info-Ends format debug_enabled short _ then_fault λ a c.
      fault_first _ (dump_frame-bad_pointer xs q low high c)
