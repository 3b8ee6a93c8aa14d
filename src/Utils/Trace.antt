-- ===== src/Utils/Trace.antt =====
-- Trace output: TRACE and the log flags of drivers/vpn/linux/utils.h, and `trace` of drivers/vpn/linux/utils.c. What
-- vsnprintf makes of a format and its arguments is given to `trace` as a text.
pub mod Lines
use Prim.Native.Nat.{bit_and}
use kerion_vpn_client_docker.Base.{
  ℕ, ◌-◌, suc, Bool, ◌||◌, List, [], ◌∷◌, ◌++◌, length, take, ltb, ◌==◌, if◌then◌else◌,
}
use kerion_vpn_client_docker.Machine.{Cmd, bad_pointer, pure, modify, stop}

abbrev pub log_dbg : ℕ
log_dbg = 2

abbrev pub log_info : ℕ
log_info = 4

abbrev pub log_warn : ℕ
log_warn = 8

abbrev pub log_err : ℕ
log_err = 22

abbrev pub log_raw : ℕ
log_raw = 268435456

-- MODULE_NAME, "kvnet".
abbrev pub module_name : List ℕ
module_name = 107 ∷ 118 ∷ 110 ∷ 101 ∷ 116 ∷ []

-- The size of each of the two buffers on the stack.
abbrev pub buffer_size : ℕ
buffer_size = 256

-- What was given to `printk`, the last first.
pub record Console : Type 0 where
  pub printed : List (List ℕ)

unfoldable pub printk : List ℕ → Cmd Console (Unit {0})
printk text = modify λ c. record c { printed = text ∷ c.printed }

-- vsnprintf into the first buffer keeps a byte for the end, and is told one byte less than there is.
abbrev pub shown : List ℕ → List ℕ
shown text = take (buffer_size - 2) text

-- sprintf "%s!%s\n" into the second buffer.
abbrev pub line : List ℕ → List ℕ
line text = module_name ++ 33 ∷ shown text ++ 10 ∷ []

-- A text in the second buffer ends with a zero byte; one that does not fit is written past the buffer.
unfoldable pub trace : ℕ → List ℕ → Cmd Console (Unit {0})
unfolding printk
trace flag text =
    if bit_and flag log_raw == 0
    then (if ltb buffer_size (suc (length (line text)))
        then stop bad_pointer
        else printk (line text))
    else printk (shown text)

-- TRACE, with `g_utils_debug_enabled`.
unfoldable pub trace_if : Bool → ℕ → List ℕ → Cmd Console (Unit {0})
unfolding trace
trace_if debug_enabled flag text =
    if (bit_and flag log_dbg == 0) || debug_enabled then trace flag text else pure tt
