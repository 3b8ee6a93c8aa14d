-- ===== src/Utils/Dump/Packets.antt =====
-- What the dump functions of drivers/vpn/linux/utils.c read of an IP packet.
use kerion_vpn_client_docker.Base.{
  ℕ, zero, suc, ◌+◌, ◌-◌, ◌≡◌, ◌≤◌, ◌<◌, inl, inr, some, Bool, false, List, [], ◌∷◌, length, drop,
  ltb, Bool-cases, if◌then◌else◌, arith,
}
use kerion_vpn_client_docker.Base.Int.{ℤ, pos, to_ulong}
use kerion_vpn_client_docker.Machine.{fault, bad_pointer, returns}
use kerion_vpn_client_docker.Utils.Trace.{Console}
use kerion_vpn_client_docker.Utils.Trace.Lines.{info-print, warn-print, raw-print}
use kerion_vpn_client_docker.Utils.Dump.{Message, info, raw, warn, dump_ip, dump_ip_packet}
use kerion_vpn_client_docker.Utils.Dump.Reads.{
  fault_first, short_then_fault, Ends, ◌then◌, ◌then_fault◌, fault_first, short_at-Ends,
  bytes_at-Ends, byte_at-Ends, bytes_then_fault,
}

length-drop : {A : Type 0} (n : ℕ) (xs : List A) → length (drop n xs) ≡ length xs - n
length-drop zero xs = omega arith
length-drop (suc n) [] = omega arith
length-drop (suc n) (x ∷ xs) = omega (arith, length-drop n xs)

module _ (format : Message → List ℕ) (debug_enabled : Bool)
    (short : (m : Message) → length (format m) ≤ 248) where
  pub info-Ends : (m : Message) (c : Console) → Ends (info format debug_enabled m c)
  info-Ends m c = rw (info-print debug_enabled (format m) c (short m)) (returns tt)

  pub warn-Ends : (m : Message) (c : Console) → Ends (warn format debug_enabled m c)
  warn-Ends m c = rw (warn-print debug_enabled (format m) c (short m)) (returns tt)

  pub raw-Ends : (m : Message) (c : Console) → Ends (raw format debug_enabled m c)
  raw-Ends m c = rw (raw-print debug_enabled (format m) c (short m)) (returns tt)

  pub dump_ip-Ends :
      (xs : List ℕ) (at : ℕ)
      → at + 20 ≤ length xs
      → (c : Console) → Ends (dump_ip format debug_enabled xs at c)
  unfolding dump_ip
  dump_ip-Ends xs at h = short_at-Ends xs (at + 6) (omega arith) then λ a.
      bytes_at-Ends xs (at + 12) 4 (omega arith) then λ s.
      bytes_at-Ends xs (at + 16) 4 (omega arith) then λ d.
      byte_at-Ends xs (at + 9) (omega arith) then λ p.
      short_at-Ends xs (at + 2) (omega arith) then λ l. raw-Ends _

  -- A packet of which the length is told truly is dumped without a fault, whatever its length and its bytes are.
  pub dump_ip_packet-Ends :
      (xs : List ℕ) (c : Console)
      → Ends (dump_ip_packet format debug_enabled (some xs) (pos (length xs)) c)
  unfolding dump_ip_packet
  dump_ip_packet-Ends xs = info-Ends _ then λ a.
      (elim (Bool-cases (ltb (length xs) 20)) [
        | inl e ↦ rw e (warn-Ends _)
        | inr e ↦ rw e (dump_ip-Ends xs 0 (ground (arith, e)))
      ])
      then λ a. info-Ends _

  dump_ip-bad_pointer :
      (xs : List ℕ)
      → length xs < 20
      → (c : Console) → dump_ip format debug_enabled xs 0 c ≡ fault bad_pointer
  unfolding dump_ip
  dump_ip-bad_pointer xs h =
      short_then_fault xs 6
        λ a p. bytes_then_fault xs 12 4 λ s p. bytes_then_fault xs 16 4 λ d p. absurd (omega arith)

  -- A header of which the length, taken as an unsigned number, is told as 20 or more, and which has fewer bytes, is
  -- read past its end. So a negative length is not refused.
  pub dump_ip_packet-bad_pointer :
      (xs : List ℕ) (len : ℤ)
      → length xs < 20
      → 20 ≤ to_ulong len
      → (c : Console) → dump_ip_packet format debug_enabled (some xs) len c ≡ fault bad_pointer
  unfolding dump_ip_packet
  dump_ip_packet-bad_pointer xs len h told =
      let passed : ltb (to_ulong len) 20 ≡ false = ground arith in
      info-Ends _ then_fault λ a c. rw passed (fault_first _ (dump_ip-bad_pointer xs h c))

  -- The debugging output of net_dev_send gives the length of the whole frame with the address of the IP header, 14 bytes
  -- on: a frame of 20 to 33 bytes is read past its end.
  send_dump-bad_pointer :
      (frame : List ℕ)
      → 20 ≤ length frame
      → length frame < 34
      → (c : Console)
      → dump_ip_packet format debug_enabled (some (drop 14 frame)) (pos (length frame)) c
        ≡ fault bad_pointer
  send_dump-bad_pointer frame low high =
      dump_ip_packet-bad_pointer (drop 14 frame) (pos (length frame))
        (omega (arith, length-drop 14 frame)) low
