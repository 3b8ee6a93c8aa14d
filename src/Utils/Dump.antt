-- ===== src/Utils/Dump.antt =====
-- The dump functions of drivers/vpn/linux/utils.c. A buffer is the list of its bytes, or `none` for a NULL pointer,
-- next to the length that the caller gives; what vsnprintf makes of a message is the parameter `format`.
pub mod Data
pub mod Frames
pub mod Packets
pub mod Reads
use Prim.Native.Nat.{bit_and}
use kerion_vpn_client_docker.Base.{
  ℕ, zero, suc, ◌+◌, ◌-◌, ◌*◌, ◌%◌, ◌^◌, Option, none, some, Bool, true, false, List, length, take,
  drop, leb, ltb, ◌==◌, get_elem?, if◌then◌else◌,
}
use kerion_vpn_client_docker.Base.Int.{ℤ, pos, negsuc, to_ulong}
use kerion_vpn_client_docker.Machine.{Cmd, bad_pointer, pure, stop, ◌>>=◌, ◌>>◌}
use kerion_vpn_client_docker.Utils.Trace.{log_info, log_warn, log_raw, Console, trace_if}

pub data Routine : Type 0 where
  in_skb in_data in_eth_frame in_ip_packet : Routine

-- The messages, with the arguments that they show.
pub data Message : Type 0 where
  entered left : Routine → Message
  buffer : Bool → ℤ → Message
  data_is newline : Message
  byte : ℕ → Message
  invalid_pointer : Routine → Message
  no_ethernet no_arp : Message
  no_ip : Routine → Message
  ethernet : List ℕ → List ℕ → ℕ → Message
  arp : ℕ → ℕ → ℕ → ℕ → ℕ → Message
  arp_sender arp_target : List ℕ → List ℕ → Message
  ip : List ℕ → List ℕ → ℕ → ℕ → ℕ → ℕ → Message

abbrev pub ip_offset : ℕ
ip_offset = 8191

-- sizeof of `struct ethhdr`, `struct arphdr` and `struct iphdr`.
abbrev pub ethhdr_size : ℕ
ethhdr_size = 14

abbrev pub arphdr_size : ℕ
arphdr_size = 8

abbrev pub iphdr_size : ℕ
iphdr_size = 20

-- The fields of `struct arphdr_eth`, and where they are behind the fixed ARP header.
pub data ArphdrEth : Type 0 where
  ar_sha ar_sip ar_tha ar_tip : ArphdrEth

abbrev pub offset_of : ArphdrEth → ℕ
offset_of ar_sha = 0
offset_of ar_sip = 6
offset_of ar_tha = 10
offset_of ar_tip = 16

abbrev pub size_of : ArphdrEth → ℕ
size_of ar_sha = 6
size_of ar_sip = 4
size_of ar_tha = 6
size_of ar_tip = 4

-- The reading of bytes at an offset, of one byte, and of a number in network order (`ntohs`).
abbrev pub bytes_at : List ℕ → ℕ → ℕ → Cmd Console (List ℕ)
bytes_at xs at n = if leb (at + n) (length xs) then pure (take n (drop at xs)) else stop bad_pointer

abbrev pub arp_field : List ℕ → ArphdrEth → Cmd Console (List ℕ)
arp_field xs f = bytes_at xs (ethhdr_size + arphdr_size + offset_of f) (size_of f)

abbrev pub byte_at : List ℕ → ℕ → Cmd Console ℕ
byte_at xs at = elim (get_elem? xs at) [ none ↦ stop bad_pointer | some b ↦ pure b ]

abbrev pub short_at : List ℕ → ℕ → Cmd Console ℕ
short_at xs at = do high ← byte_at xs at; low ← byte_at xs (at + 1); pure (high * 256 + low)

-- The rounds of a loop `while (len--)`: a negative number wraps round before it ends.
abbrev pub rounds_of : ℤ → ℕ
rounds_of (pos n) = n
rounds_of (negsuc n) = 2 ^ 32 - 1 - n

module _ (format : Message → List ℕ) (debug_enabled : Bool) where
  abbrev pub info : Message → Cmd Console (Unit {0})
  info m = trace_if debug_enabled log_info (format m)

  abbrev pub raw : Message → Cmd Console (Unit {0})
  raw m = trace_if debug_enabled (log_info + log_raw) (format m)

  abbrev pub warn : Message → Cmd Console (Unit {0})
  warn m = trace_if debug_enabled log_warn (format m)

  unfoldable pub dump_skb : Cmd Console (Unit {0})
  dump_skb = do info (entered in_skb); info (left in_skb)

  -- The rounds that are left, and the index of the next byte.
  unfoldable pub dump_bytes : List ℕ → ℕ → ℕ → Cmd Console (Unit {0})
  dump_bytes xs zero i = pure tt
  dump_bytes xs (suc n) i = do b ← byte_at xs i; raw (byte b); dump_bytes xs n (i + 1)

  unfoldable pub dump_data : Option (List ℕ) → ℤ → Cmd Console (Unit {0})
  unfolding dump_bytes
  dump_data none len = do info (entered in_data); raw (buffer false len); info (left in_data)
  dump_data (some xs) len = do
    info (entered in_data)
    raw (buffer true len)
    raw data_is
    dump_bytes xs (rounds_of len) 0
    raw newline
    info (left in_data)

  -- The line of an IP header at an offset: the fragment's offset is counted in units of 8 bytes.
  unfoldable pub dump_ip : List ℕ → ℕ → Cmd Console (Unit {0})
  dump_ip xs at = do
    frag_off ← short_at xs (at + 6)
    saddr ← bytes_at xs (at + 12) 4
    daddr ← bytes_at xs (at + 16) 4
    protocol ← byte_at xs (at + 9)
    tot_len ← short_at xs (at + 2)
    raw (
        ip saddr daddr protocol tot_len (bit_and frag_off (2 ^ 16 - 1 - ip_offset))
          (bit_and frag_off ip_offset * 8 % 2 ^ 16))

  unfoldable pub dump_ip_packet : Option (List ℕ) → ℤ → Cmd Console (Unit {0})
  unfolding dump_ip
  dump_ip_packet frame len = do
    info (entered in_ip_packet)
    elim frame [
      | none ↦ warn (invalid_pointer in_ip_packet)
      | some xs ↦ if ltb (to_ulong len) iphdr_size then warn (no_ip in_ip_packet) else dump_ip xs 0
    ]
    info (left in_ip_packet)

  -- The addresses of an ARP packet for Ethernet and IP.
  unfoldable pub dump_addresses : List ℕ → Cmd Console (Unit {0})
  dump_addresses xs = do
    sha ← arp_field xs ar_sha
    sip ← arp_field xs ar_sip
    raw (arp_sender sha sip)
    tha ← arp_field xs ar_tha
    tip ← arp_field xs ar_tip
    raw (arp_target tha tip)

  -- The lines of an ARP packet behind the Ethernet header.
  unfoldable pub dump_arp : List ℕ → ℤ → Cmd Console (Unit {0})
  unfolding dump_addresses
  dump_arp xs len = if ltb (to_ulong len) (ethhdr_size + arphdr_size) then warn no_arp else (do
    hrd ← short_at xs 14
    pro ← short_at xs 16
    hln ← byte_at xs 18
    pln ← byte_at xs 19
    op ← short_at xs 20
    raw (arp hrd pro hln pln op)
    dump_addresses xs)

  -- What follows the Ethernet header, by its protocol.
  unfoldable pub dump_behind : List ℕ → ℤ → ℕ → Cmd Console (Unit {0})
  unfolding dump_arp dump_ip
  dump_behind xs len proto =
      if proto == 2054
      then dump_arp xs len
      else (if proto == 2048
          then (if ltb (to_ulong len) (ethhdr_size + iphdr_size)
              then warn (no_ip in_eth_frame)
              else dump_ip xs 14)
          else pure tt)

  unfoldable pub dump_frame : List ℕ → ℤ → Cmd Console (Unit {0})
  unfolding dump_behind
  dump_frame xs len = if ltb (to_ulong len) ethhdr_size then warn no_ethernet else (do
    source ← bytes_at xs 6 6
    dest ← bytes_at xs 0 6
    proto ← short_at xs 12
    raw (ethernet source dest proto)
    dump_behind xs len proto)

  unfoldable pub dump_eth_frame : Option (List ℕ) → ℤ → Cmd Console (Unit {0})
  unfolding dump_frame
  dump_eth_frame frame len = do
    info (entered in_eth_frame)
    elim frame [ none ↦ warn (invalid_pointer in_eth_frame) | some xs ↦ dump_frame xs len ]
    info (left in_eth_frame)
