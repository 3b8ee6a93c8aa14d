-- ===== src/Utils/Trace/Lines.antt =====
-- What the trace output of drivers/vpn/linux/utils.c and utils.h prints, and when its stack buffer is too small.
use Prim.Native.Nat.{bit_and}
use kerion_vpn_client_docker.Base.{
  ℕ, zero, suc, ◌+◌, ◌≡◌, ◌∙◌, ap, ◌≤◌, refl, inl, inr, Bool, true, false, List, [], ◌∷◌, ◌++◌,
  length, take, length-append, ltb, leb, ◌==◌, not, ◌&&◌, Bool-cases, if◌then◌else◌, arith,
}
use kerion_vpn_client_docker.Machine.{Run, ok, fault, bad_pointer}
use kerion_vpn_client_docker.Utils.Trace.{
  log_dbg, log_info, log_warn, log_err, log_raw, Console, trace, trace_if, line, module_name,
}

length-take : {A : Type 0} (n : ℕ) (xs : List A) → length xs ≤ n → take n xs ≡ xs
length-take zero [] h = refl
length-take zero (x ∷ xs) h = absurd (omega arith)
length-take (suc n) [] h = refl
length-take (suc n) (x ∷ xs) h = rw (length-take n xs (omega arith))

take-long : {A : Type 0} (n : ℕ) (xs : List A) → n ≤ length xs → length (take n xs) ≡ n
take-long zero xs h = refl
take-long (suc n) [] h = absurd (omega arith)
take-long (suc n) (x ∷ xs) h = omega (arith, take-long n xs (omega arith))

abbrev pub print : List ℕ → Console → Run Console (Unit {0})
print text c = ok tt (record c { printed = text ∷ c.printed })

room_for_line : (text : List ℕ) → ltb 256 (suc (length (line text))) ≡ ltb 248 (length text)
room_for_line text = elim (Bool-cases (leb (length text) 254)) [
  | inl h ↦ rw (length-take 254 text (ground arith), length-append text (10 ∷ [])) (ground arith)
  | inr h ↦
      rw (length-append (take 254 text) (10 ∷ []), take-long 254 text (ground arith)) (ground arith)
]

shown_line : (text : List ℕ) → length text ≤ 248 → line text ≡ module_name ++ 33 ∷ text ++ 10 ∷ []
shown_line text h = rw (length-take 254 text (omega arith))

trace-outcome :
    (flag : ℕ) (text : List ℕ) (c : Console)
    → trace flag text c ≡ (
        if not (bit_and flag log_raw == 0)
        then print (take 254 text) c
        else (if leb (length text) 248
            then print (module_name ++ 33 ∷ text ++ 10 ∷ []) c
            else fault bad_pointer))
unfolding trace
trace-outcome flag text c = elim (Bool-cases (bit_and flag log_raw == 0)) [
  | inr e ↦ simp (e)
  | inl e ↦ elim (Bool-cases (leb (length text) 248)) [
    | inl h ↦
        let fits : ltb 248 (length text) ≡ false = ground (arith, h) in
        simp (e, h, room_for_line text, fits, shown_line text (ground (arith, h)))
    | inr h ↦
        let long : ltb 248 (length text) ≡ true = ground (arith, h) in
        simp (e, h, room_for_line text, long)
  ]
]

-- TRACE prints nothing for a level with the bit LOG_DBG where debugging is off. Otherwise it prints the first 254
-- bytes of a LOG_RAW text, and of another text the module's name, `!`, the text and a newline if the
-- text has at most 248 bytes; a longer one is written past the end of the second stack buffer.
pub trace_if-outcome :
    (debug_enabled : Bool) (flag : ℕ) (text : List ℕ) (c : Console)
    → trace_if debug_enabled flag text c ≡ (
        if not (bit_and flag log_dbg == 0) && not debug_enabled
        then ok tt c
        else (if not (bit_and flag log_raw == 0)
            then print (take 254 text) c
            else (if leb (length text) 248
                then print (module_name ++ 33 ∷ text ++ 10 ∷ []) c
                else fault bad_pointer)))
unfolding trace_if
trace_if-outcome true flag text c = elim (Bool-cases (bit_and flag log_dbg == 0)) [
  | inl e ↦ simp (e) (trace-outcome flag text c)
  | inr e ↦ simp (e) (trace-outcome flag text c)
]
trace_if-outcome false flag text c = elim (Bool-cases (bit_and flag log_dbg == 0)) [
  | inl e ↦ simp (e) (trace-outcome flag text c)
  | inr e ↦ simp (e)
]

-- With debugging off, as it is set in init.c and nowhere else, the flags LOG_INFO and LOG_WARN print, and LOG_ERR does
-- not, just like LOG_DBG, as its value 0x16 has the bit of LOG_DBG.
errors_hidden :
    (text : List ℕ) (c : Console)
    → (trace_if false log_err text c ≡ trace_if false log_dbg text c)
      × (trace_if false log_err text c ≡ ok tt c)
      × (trace_if false log_warn text c ≡ trace log_warn text c)
      × (trace_if false log_info text c ≡ trace log_info text c)
unfolding trace_if
errors_hidden text c = (refl, refl, refl, refl)

-- A text with the module's name.
abbrev pub named : List ℕ → List ℕ
named text = module_name ++ 33 ∷ text ++ 10 ∷ []

module _ (debug_enabled : Bool) (text : List ℕ) (c : Console) (short : length text ≤ 248) where
  pub info-print : trace_if debug_enabled log_info text c ≡ print (named text) c
  info-print =
      trace_if-outcome debug_enabled log_info text c
      ∙ (let fits : leb (length text) 248 ≡ true = ground arith in simp fits)

  pub warn-print : trace_if debug_enabled log_warn text c ≡ print (named text) c
  warn-print =
      trace_if-outcome debug_enabled log_warn text c
      ∙ (let fits : leb (length text) 248 ≡ true = ground arith in simp fits)

  pub raw-print : trace_if debug_enabled (log_info + log_raw) text c ≡ print text c
  raw-print =
      trace_if-outcome debug_enabled (log_info + log_raw) text c
      ∙ ap (λ x. print x c) (length-take 254 text (omega arith))
