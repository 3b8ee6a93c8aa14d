-- ===== src/Kvnet/Write.antt =====
-- How `kvnet_write` in libkvnet/src/linux/kvnet.c hands packets to a TAP device.
use kerion_vpn_client_docker.Base.{
  ℕ, zero, suc, ◌+◌, ◌≡◌, refl, ◌∙◌, ap, inl, inr, none, some, true, false, List, [], ◌∷◌, ◌++◌,
  length, take, get_elem?, ◌≤◌, ◌<◌, Bool-cases, arith,
}
use kerion_vpn_client_docker.Machine.{Returns, fault, bad_pointer, mono}
use kerion_vpn_client_docker.Io.{header_size}
use kerion_vpn_client_docker.Kvnet.{
  Call, written, Packet, Memory, Sys, Globals, no_error, write_error, make_status, status_of,
}
use kerion_vpn_client_docker.Kvnet.Status.{make_status-ends}
use kerion_vpn_client_docker.Kvnet.Transfer.{packet_at, write_packets, kvnet_write}

-- The packets that a request points at from an index on, each with the room that it says.
abbrev pub Outgoing : Memory → ℕ → List Packet → Type 0
Outgoing m i [] = Unit {0}
Outgoing m i (p ∷ ps) =
    ((a : ℕ) × (get_elem? m.pkt i ≡ some a) × (m.packet a ≡ some p))
    × (p.data_len ≤ length p.bytes)
    × Outgoing m (i + 1) ps

past_end : {A : Type 0} (xs : List A) (i : ℕ) → length xs ≤ i → get_elem? xs i ≡ none
past_end [] i h = refl
past_end (x ∷ xs) zero h = absurd (omega arith)
past_end (x ∷ xs) (suc i) h = past_end xs i (omega arith)

-- The log after these packets were written.
abbrev pub sent : ℕ → List Packet → List Call → List Call
sent fd [] l = l
sent fd (p ∷ ps) l = sent fd ps (written fd (take p.data_len p.bytes) ∷ l)

module _ (sys : Sys) (fd : ℕ) where
  -- The system accepts each of these packets, one after the other.
  abbrev pub Accepted : List Packet → List Call → Type 0
  Accepted [] l = Unit {0}
  Accepted (p ∷ ps) l =
      (sys.write l ≡ true) × Accepted ps (written fd (take p.data_len p.bytes) ∷ l)

  -- All packets were written, or those up to the first one that the system refuses.
  pub data Sent (ps : List Packet) (l : List Call) (status : ℕ) (after : List Call) : Type 0 where
    all :
        status_of status ≡ no_error → Accepted ps l → after ≡ sent fd ps l → Sent ps l status after
    some_of :
        (qs : List Packet) (p : Packet) (rest : List Packet)
        → ps ≡ qs ++ p ∷ rest
        → Accepted qs l
        → sys.write (sent fd qs l) ≡ false
        → status_of status ≡ write_error
        → after ≡ sent fd (p ∷ []) (sent fd qs l)
        → Sent ps l status after

  later :
      (p : Packet) (ps : List Packet) (l : List Call) (status : ℕ) (after : List Call)
      → Sent ps (written fd (take p.data_len p.bytes) ∷ l) status after
      → sys.write l ≡ true
      → Sent (p ∷ ps) l status after
  later p ps l status after (all e acc f) w = all e (w, acc) f
  later p ps l status after (some_of qs q rest e acc f g h) w =
      some_of (p ∷ qs) q rest (rw e) (w, acc) f g h

  abbrev pub after_packet : Packet → Globals → Globals
  after_packet p s = record s { calls = written fd (take p.data_len p.bytes) ∷ s.calls }

  module _ (s : Globals) (n i : ℕ) (p : Packet) (ps : List Packet)
      (o : Outgoing s.memory i (p ∷ ps)) where
    pub written_next :
        sys.write s.calls ≡ true
        → write_packets sys fd (suc n) i s ≡ write_packets sys fd n (i + 1) (after_packet p s)
    unfolding write_packets packet_at
    written_next e = let ((a, f, g), h, rest) = o in ground arith

    pub write_refused :
        sys.write s.calls ≡ false
        → write_packets sys fd (suc n) i s ≡ make_status sys write_error (after_packet p s)
    unfolding write_packets packet_at
    write_refused e = let ((a, f, g), h, rest) = o in ground arith

  write_packets-Sent :
      (ps : List Packet) (i : ℕ) (s : Globals)
      → Outgoing s.memory i ps
      → Returns
          (λ status t. Sent ps s.calls status t.calls × (t.memory ≡ s.memory))
          (write_packets sys fd (length ps) i s)
  unfolding write_packets
  write_packets-Sent [] i s o =
      make_status-ends sys no_error s (omega arith) λ c e. (all e tt refl, refl)
  write_packets-Sent (p ∷ ps) i s o = elim (Bool-cases (sys.write s.calls)) [
    | inl e ↦ rw (written_next s (length ps) i p ps o e) (
        mono (write_packets-Sent ps (i + 1) (after_packet p s) o.2)
          λ c t q. (later p ps s.calls c t.calls q.0 e, q.1))
    | inr e ↦ rw (write_refused s (length ps) i p ps o e) (
        make_status-ends sys write_error _ (omega arith)
          λ c q. (some_of [] p ps refl tt e q refl, refl))
  ]

  -- Past the last pointer of the buffer.
  no_packet :
      (i n : ℕ) (s : Globals)
      → length s.memory.pkt ≤ i
      → write_packets sys fd (suc n) i s ≡ fault bad_pointer
  unfolding write_packets packet_at
  no_packet i n s h = let e = past_end s.memory.pkt i h in ground arith

  past_the_end :
      (ps : List Packet) (i n : ℕ) (s : Globals)
      → Outgoing s.memory i ps
      → length ps < n
      → length s.memory.pkt ≤ i + length ps
      → ((l : List Call) → sys.write l ≡ true)
      → write_packets sys fd n i s ≡ fault bad_pointer
  past_the_end ps i zero s o h e w = absurd (omega arith)
  past_the_end [] i (suc n) s o h e w = no_packet i n s (omega arith)
  past_the_end (p ∷ ps) i (suc n) s o h e w =
      written_next s n i p ps o (w s.calls)
      ∙ past_the_end ps (i + 1) n (after_packet p s) o.2 (omega arith) (omega arith) w

module _ (sys : Sys) (fd : ℕ) (s : Globals) (ptr len : ℕ) (opened : s.fdesc ≡ some fd)
    (tap : s.use_tap_dev ≡ true) (long : header_size ptr ≤ len) where
  tap_write : kvnet_write sys ptr true len s ≡ write_packets sys fd s.memory.count 0 s
  unfolding kvnet_write
  tap_write = ground arith

  -- On an open TAP device and for a request whose `count` is that of the packets `ps` at its first pointers,
  -- kvnet_write ends with success after writing just the bytes of each packet, in order, where the system accepts
  -- each of these writes; or with KVNET_WRITE_ERROR at the first packet that the system refuses, with
  -- the ones before it written and accepted, and none written after it. The caller's memory stays as it is.
  pub kvnet_write-Sent :
      (ps : List Packet)
      → Outgoing s.memory 0 ps
      → s.memory.count ≡ length ps
      → Returns
          (λ status t. Sent sys fd ps s.calls status t.calls × (t.memory ≡ s.memory))
          (kvnet_write sys ptr true len s)
  kvnet_write-Sent ps o c =
      rw (tap_write ∙ ap (λ n. write_packets sys fd n 0 s) c) (write_packets-Sent sys fd ps 0 s o)

  -- On an open TAP device, a request whose `count` is greater than the number of pointers in its buffer makes
  -- kvnet_write read a pointer past the end of the buffer, when the packets at the pointers before are
  -- written: the length `len` of the buffer, which the caller gives, is not compared with the count.
  pub kvnet_write-bad_pointer :
      (ps : List Packet)
      → Outgoing s.memory 0 ps
      → length s.memory.pkt ≡ length ps
      → length ps < s.memory.count
      → ((l : List Call) → sys.write l ≡ true)
      → kvnet_write sys ptr true len s ≡ fault bad_pointer
  kvnet_write-bad_pointer ps o e h w =
      tap_write ∙ past_the_end sys fd ps 0 s.memory.count s o h (omega arith) w
