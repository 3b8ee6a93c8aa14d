-- ===== src/Utils/Dump/Data.antt =====
-- What `dump_data` of drivers/vpn/linux/utils.c prints and reads.
use kerion_vpn_client_docker.Base.{
  ℕ, zero, suc, ◌+◌, ◌≡◌, ap, ◌≤◌, refl, ◌∙◌, inl, inr, none, some, Bool, true, List, [], ◌∷◌,
  length, take, drop, get_elem?, leb, Bool-cases, Option-cases, if◌then◌else◌, arith,
}
use kerion_vpn_client_docker.Base.Int.{ℤ}
use kerion_vpn_client_docker.Machine.{ok, fault, bad_pointer}
use kerion_vpn_client_docker.Utils.Trace.{Console}
use kerion_vpn_client_docker.Utils.Trace.Lines.{named, info-print, raw-print}
use kerion_vpn_client_docker.Utils.Dump.{
  Message, entered, left, in_data, buffer, data_is, newline, byte, byte_at, rounds_of, dump_bytes,
  dump_data,
}

-- What is printed for bytes in turn.
abbrev pub bytes_shown : (Message → List ℕ) → List ℕ → List (List ℕ) → List (List ℕ)
bytes_shown format [] l = l
bytes_shown format (b ∷ bs) l = bytes_shown format bs (format (byte b) ∷ l)

leb-suc : (n m : ℕ) → leb n m ≡ leb (suc n) (suc m)
leb-suc n m = ground arith

drop-none : {A : Type 0} (xs : List A) (i : ℕ) → get_elem? xs i ≡ none → drop i xs ≡ []
drop-none [] zero e = refl
drop-none [] (suc i) e = refl
drop-none (x ∷ xs) zero e = absurd (ground arith)
drop-none (x ∷ xs) (suc i) e = drop-none xs i e

drop-some :
    {A : Type 0} (xs : List A) (i : ℕ) (a : A)
    → get_elem? xs i ≡ some a
    → drop i xs ≡ a ∷ drop (suc i) xs
drop-some [] i a e = absurd (ground arith)
drop-some (x ∷ xs) zero a e = ground arith
drop-some (x ∷ xs) (suc i) a e = drop-some xs i a e

module _ (format : Message → List ℕ) (debug_enabled : Bool)
    (short : (m : Message) → length (format m) ≤ 248) where
  dump_bytes-shown :
      (xs : List ℕ) (n i : ℕ) (c : Console)
      → dump_bytes format debug_enabled xs n i c ≡ (
          if leb n (length (drop i xs))
          then ok tt (record c { printed = bytes_shown format (take n (drop i xs)) c.printed })
          else fault bad_pointer)
  unfolding dump_bytes
  dump_bytes-shown xs zero i c = ground arith
  dump_bytes-shown xs (suc n) i c = elim (Option-cases (get_elem? xs i)) [
    | inl e ↦ rw (e, byte_at, drop-none xs i e) (ground arith)
    | inr (b, e) ↦
        let next : i + 1 ≡ suc i = omega arith in
        rw
          (
            e,
            byte_at,
            drop-some xs i b e,
            next,
            raw-print debug_enabled (format (byte b)) c (short (byte b)),
          )
          (dump_bytes-shown xs n (suc i) (record c { printed = format (byte b) ∷ c.printed })
            ∙ ap
                (λ t.
                  if t
                  then ok tt (record c {
                    printed =
                        bytes_shown format (take n (drop (suc i) xs)) (format (byte b) ∷ c.printed);
                  })
                  else fault bad_pointer)
                (leb-suc n (length (drop (suc i) xs))))
  ]

  -- A buffer at an address that is not NULL is dumped byte by byte between the two lines that frame it, where the loop
  -- `while (len--)` goes no further than the buffer; with a greater length, or a negative one on which
  -- the loop does not end before the number has wrapped round, it is read past its end.
  pub dump_data-shown :
      (xs : List ℕ) (len : ℤ) (c : Console)
      → dump_data format debug_enabled (some xs) len c ≡ (
          if leb (rounds_of len) (length xs)
          then ok tt (record c {
            printed =
                named (format (left in_data))
                ∷ format newline
                ∷ bytes_shown format (take (rounds_of len) xs) (
                    format data_is
                    ∷ format (buffer true len)
                    ∷ named (format (entered in_data))
                    ∷ c.printed);
          })
          else fault bad_pointer)
  unfolding dump_data
  dump_data-shown xs len c =
      let start = info-print debug_enabled (format (entered in_data)) c (short (entered in_data)) in
      rw
        (
          start,
          raw-print debug_enabled (format (buffer true len)) _ (short (buffer true len)),
          raw-print debug_enabled (format data_is) _ (short data_is),
          dump_bytes-shown xs (rounds_of len) 0 _,
        )
        (elim (Bool-cases (leb (rounds_of len) (length xs))) [
          | inr e ↦ simp (e)
          | inl e ↦ simp (e) (
              rw
                (
                  raw-print debug_enabled (format newline) _ (short newline),
                  info-print debug_enabled (format (left in_data)) _ (short (left in_data)),
                )
                refl)
        ])
