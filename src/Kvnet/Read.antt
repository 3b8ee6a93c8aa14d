-- ===== src/Kvnet/Read.antt =====
-- How `kvnet_read` in libkvnet/src/linux/kvnet.c ends.
use kerion_vpn_client_docker.Base.{
  ℕ, zero, suc, ◌==◌, ◌≡◌, refl, sym, subst, inl, inr, none, some, Bool, true, false, List, ◌∷◌,
  length, get_elem?, ◌≤◌, ◌<◌, Option-cases, if◌then◌else◌, arith,
}
use kerion_vpn_client_docker.Machine.{Returns, mono}
use kerion_vpn_client_docker.Kvnet.{
  Call, requested, Packet, Memory, Sys, Globals, no_error, read_error, read_cancelled, select_error,
  make_status, status_of,
}
use kerion_vpn_client_docker.Kvnet.Status.{make_status-ends}
use kerion_vpn_client_docker.Kvnet.Transfer.{
  filled, put_packet, packet_at, read_packet, read_request, try_again, eintr, Next, done, fetch,
  again,
}
use kerion_vpn_client_docker.Kvnet.Rounds.{
  Retried, Reads, Cancels, Fails, Goes, retries, reads, cancels, fails, step-Goes, step-Retried,
  waited, answer, step, rounds, round, waited-Kept,
}

-- A request of the caller that a TAP device can serve: its first pointer is that of a packet which has the
-- room that it says.
pub data Room (a : ℕ) (p : Packet) (m : Memory) : Type 0 where
  room : get_elem? m.pkt 0 ≡ some a → m.packet a ≡ some p → p.data_len ≤ length p.bytes → Room a p m

-- `read` gives at most what it is asked for.
abbrev pub Honest : Sys → Type 0
Honest sys = (l : List Call) (n : ℕ) (bs : List ℕ) → sys.read l n ≡ some bs → length bs ≤ n

module _ (sys : Sys) (a : ℕ) (p : Packet) (len : ℕ) where
  -- The memory after a packet, or the driver's answer, was read, behind these calls of the system.
  pub data Fetched (l : List Call) (m : Memory) : Bool → Memory → Type 0 where
    packet :
        (bs : List ℕ)
        → sys.read l p.data_len ≡ some bs
        → Fetched l m true (record (put_packet a (filled bs p) m) { count = 1 })
    request : (n : Memory) → sys.read_request l len m ≡ some n → Fetched l m false n

  -- The system refuses the read.
  abbrev pub Refused : List Call → Memory → Bool → Type 0
  Refused l m true = sys.read l p.data_len ≡ none
  Refused l m false = sys.read_request l len m ≡ none

  -- The end of a read behind the calls `l`, with the memory `m` before it.
  pub data FetchDone (l : List Call) (m : Memory) (tap : Bool) (status : ℕ) (t : Globals)
      : Type 0 where
    fetched : status_of status ≡ no_error → Fetched l m tap t.memory → FetchDone l m tap status t
    refused :
        status_of status ≡ read_error → Refused l m tap → t.memory ≡ m → FetchDone l m tap status t

  -- The end of the call whose last round starts in the state `u`.
  pub data ReadDone (fd : ℕ) (u : Globals) (status : ℕ) (t : Globals) : Type 0 where
    read :
        Reads (answer sys u)
        → FetchDone (waited sys fd u).calls u.memory u.use_tap_dev status t
        → ReadDone fd u status t
    cancelled :
        status_of status ≡ read_cancelled
        → Cancels (answer sys u) u.use_tap_dev (waited sys fd u).canceled
        → t.memory ≡ u.memory
        → ReadDone fd u status t
    not_selected :
        status_of status ≡ select_error
        → Fails (answer sys u) u.use_tap_dev (sys.errno (waited sys fd u).calls == eintr)
        → t.memory ≡ u.memory
        → ReadDone fd u status t

  module _ (honest : Honest sys) (fd : ℕ) (s : Globals) where
    pub packet_refused :
        Room a p s.memory
        → sys.read s.calls p.data_len ≡ none
        → read_packet sys fd s
          ≡ make_status sys read_error (record s { calls = requested fd ∷ s.calls })
    unfolding read_packet packet_at
    packet_refused (room e f g) h = ground arith

    pub packet_filled :
        (bs : List ℕ)
        → Room a p s.memory
        → sys.read s.calls p.data_len ≡ some bs
        → read_packet sys fd s
          ≡ make_status sys no_error (record s {
            calls = requested fd ∷ s.calls;
            memory = record (put_packet a (filled bs p) s.memory) { count = 1 };
          })
    unfolding read_packet packet_at
    packet_filled bs (room e f g) h = ground (arith, honest s.calls p.data_len bs h)

    read_packet-FetchDone :
        Room a p s.memory → Returns (FetchDone s.calls s.memory true) (read_packet sys fd s)
    read_packet-FetchDone r = elim (Option-cases (sys.read s.calls p.data_len)) [
      | inl h ↦
          rw (packet_refused r h)
            (make_status-ends sys read_error _ (omega arith) λ c e. refused e h refl)
      | inr (bs, h) ↦
          rw (packet_filled bs r h)
            (make_status-ends sys no_error _ (omega arith) λ c e. fetched e (packet bs h))
    ]

    read_request-FetchDone : Returns (FetchDone s.calls s.memory false) (read_request sys fd len s)
    unfolding read_request
    read_request-FetchDone = elim (Option-cases (sys.read_request s.calls len s.memory)) [
      | inl h ↦ simp (h) (make_status-ends sys read_error _ (omega arith) λ c e. refused e h refl)
      | inr (m, h) ↦
          simp (h) (make_status-ends sys no_error _ (omega arith) λ c e. fetched e (request m h))
    ]

  module _ (fd : ℕ) (fuel : ℕ) (s : Globals) where
    module _ (honest : Honest sys) (r : Room a p s.memory) where
      fetches :
          (w : Globals) (tap : Bool)
          → w.memory ≡ s.memory
          → Returns
              (FetchDone w.calls s.memory tap)
              ((if tap then read_packet sys fd else read_request sys fd len) w)
      fetches w true m =
          subst (λ x. Returns (FetchDone w.calls x true) (read_packet sys fd w)) m
            (read_packet-FetchDone honest fd w (subst (Room a p) (sym m) r))
      fetches w false m =
          subst (λ x. Returns (FetchDone w.calls x false) (read_request sys fd len w)) m
            (read_request-FetchDone honest fd w)

      -- A round that is the last one.
      round-ReadDone :
          {x : Next}
          → step sys fd s ≡ x
          → Goes
              (answer sys s)
              (waited sys fd s).use_tap_dev
              (waited sys fd s).canceled
              (sys.errno (waited sys fd s).calls == eintr)
              x
          → ¬ Retried sys fd s
          → Returns (ReadDone fd s) (try_again sys (suc fuel) fd len s)
      round-ReadDone e (retries q) last = absurd (last q)
      round-ReadDone e (reads q) last =
          let tap = (waited-Kept sys fd s).2 in
          rw (round sys fd len fuel s fetch e) (
            mono (fetches (waited sys fd s) (waited sys fd s).use_tap_dev (waited-Kept sys fd s).0)
              λ c t d. read q (subst (λ b. FetchDone (waited sys fd s).calls s.memory b c t) tap d))
      round-ReadDone e (cancels q) last = rw (round sys fd len fuel s (done read_cancelled) e) (
          make_status-ends sys read_cancelled _ (omega arith) λ c z.
            cancelled z
              (subst (λ b. Cancels (answer sys s) b (waited sys fd s).canceled)
                (waited-Kept sys fd s).2 q)
              (waited-Kept sys fd s).0)
      round-ReadDone e (fails q) last = rw (round sys fd len fuel s (done select_error) e) (
          make_status-ends sys select_error _ (omega arith) λ c z.
            not_selected z
              (subst (λ b. Fails (answer sys s) b (sys.errno (waited sys fd s).calls == eintr))
                (waited-Kept sys fd s).2 q)
              (waited-Kept sys fd s).0)

  module _ (honest : Honest sys) (fd : ℕ) where
    -- The rounds up to the last one.
    pub try_again-ReadDone :
        (k fuel : ℕ) (s : Globals)
        → k < fuel
        → Room a p s.memory
        → ((i : ℕ) → i < k → Retried sys fd (rounds sys fd i s))
        → ¬ Retried sys fd (rounds sys fd k s)
        → Returns (ReadDone fd (rounds sys fd k s)) (try_again sys fuel fd len s)
    try_again-ReadDone k zero s h r before last = absurd (omega arith)
    try_again-ReadDone zero (suc fuel) s h r before last =
        round-ReadDone fd fuel s honest r refl (step-Goes sys fd s) last
    try_again-ReadDone (suc k) (suc fuel) s h r before last =
        rw (round sys fd len fuel s again (step-Retried sys fd s (before 0 (omega arith)))) (
          try_again-ReadDone k fuel (waited sys fd s) (omega arith)
            (subst (Room a p) (sym (waited-Kept sys fd s).0) r)
            (λ i h. before (suc i) (omega arith)) last)
