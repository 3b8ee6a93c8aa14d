-- ===== src/Tests/Dumps.antt =====
-- Trace output and the dump functions on concrete values.
use kerion_vpn_client_docker.Base.{
  ℕ, zero, suc, ◌≡◌, ◌≤◌, inr, some, true, false, not, ◌&&◌, List, [], ◌∷◌, ◌++◌, length, take, leb,
  ◌==◌, if◌then◌else◌, arith,
}
use Prim.Native.Nat.{bit_and}
use kerion_vpn_client_docker.Base.Int.{pos}
use kerion_vpn_client_docker.Machine.{ok, fault, bad_pointer}
use kerion_vpn_client_docker.Utils.Trace.{Console, log_dbg, log_raw, module_name, trace_if}
use kerion_vpn_client_docker.Utils.Trace.Lines.{print, trace_if-outcome}
use kerion_vpn_client_docker.Utils.Dump.{Message, byte, dump_eth_frame}
use kerion_vpn_client_docker.Utils.Dump.Reads.{Ends}
use kerion_vpn_client_docker.Utils.Dump.Frames.{dump_eth_frame-Ends}

abbrev console : Console
console = record { printed = [] }

abbrev zeros : ℕ → List ℕ
zeros zero = []
zeros (suc n) = 0 ∷ zeros n

-- Debugging is on, and the message too long.
trace_if_example : trace_if true log_dbg (zeros 249) console ≡ (
    if not (bit_and log_dbg log_dbg == 0) && not true
    then ok tt console
    else (if not (bit_and log_dbg log_raw == 0)
        then print (take 254 (zeros 249)) console
        else (if leb (length (zeros 249)) 248
            then print (module_name ++ 33 ∷ zeros 249 ++ 10 ∷ []) console
            else fault bad_pointer)))
trace_if_example = trace_if-outcome true log_dbg (zeros 249) console

-- A byte is shown as itself, and every other message as a star.
abbrev format : Message → List ℕ
format (byte b) = b ∷ []
format _ = 42 ∷ []

short : (m : Message) → length (format m) ≤ 248
short m = grind arith

-- Frames with the type of ARP.
abbrev arp_frame : ℕ → List ℕ
arp_frame n = zeros 12 ++ 8 ∷ 6 ∷ zeros n

dump_eth_frame_example : Ends (dump_eth_frame format false (some (arp_frame 28)) (pos 42) console)
dump_eth_frame_example =
    dump_eth_frame-Ends format false short (arp_frame 28) (inr (inr (omega arith))) console
