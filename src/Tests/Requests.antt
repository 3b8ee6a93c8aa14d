-- ===== src/Tests/Requests.antt =====
-- Reading and writing packets on concrete values.
use kerion_vpn_client_docker.Base.{refl, [], ◌∷◌, ◌≡◌, ◌-◌, ◌^◌, some, arith}
use kerion_vpn_client_docker.Base.Int.{pos}
use kerion_vpn_client_docker.Machine.{Returns, fault, bad_pointer, over_panic}
use kerion_vpn_client_docker.Driver.{Env, driver}
use kerion_vpn_client_docker.Io.{io_read_to_iovec, io_write_from_iovec}
use kerion_vpn_client_docker.Io.Delivery.{ReadDone, io_read_to_iovec-ReadDone}
use kerion_vpn_client_docker.Io.Overrun.{Tight, write_past_end, write_over_panic}
use kerion_vpn_client_docker.Io.Granted.{Grants, Asks}
use kerion_vpn_client_docker.Io.ReadAll.{ReadAll, io_read_to_iovec-ReadAll}
use kerion_vpn_client_docker.Io.WriteAll.{WroteAll, io_write_from_iovec-WroteAll}
use kerion_vpn_client_docker.Io.Write.{WriteDone, io_write_from_iovec-WriteDone}
use kerion_vpn_client_docker.Tests.{
  request, kernel-CopiesAll, kernel-Roomy, kernel-NoWrap, device, kernel, queued, heap,
  queue-IsQueue, running,
}

io_read_to_iovec_example :
    Returns
      (ReadDone kernel heap running [] queued 12)
      (io_read_to_iovec kernel 8 (pos 12) (driver heap running []))
io_read_to_iovec_example =
    io_read_to_iovec-ReadDone kernel kernel-CopiesAll heap running [] device queued 12 refl
      queue-IsQueue refl (omega arith)

io_write_from_iovec_example :
    Returns
      (WriteDone kernel heap running [] 12)
      (io_write_from_iovec kernel 8 (pos 12) (driver heap running []))
io_write_from_iovec_example =
    io_write_from_iovec-WriteDone kernel kernel-CopiesAll kernel-Roomy kernel-NoWrap heap running []
      device 12 refl (omega arith)

pub kernel-Grants : Grants kernel
kernel-Grants = record {
  get_user = λ l a. (2, refl);
  put_user = λ l a. refl;
  copy_to_user = λ l a. refl;
  copy_from_user = λ l a n. (8 ∷ 9 ∷ [], refl);
  to_iovec = λ l. refl;
  dev_alloc_skb = λ l n. (n, refl);
}

pub kernel-Asks : Asks kernel [] 12 1 request
kernel-Asks = record {
  small = omega arith;
  header = omega arith;
  memory = refl;
  copied = refl;
  whole = refl;
  counted = refl;
  some_packet = omega arith;
  enough = omega arith;
}

granted_read_example :
    Returns
      (ReadAll kernel request running [] queued 1)
      (io_read_to_iovec kernel 8 (pos 12) (driver heap running []))
granted_read_example =
    io_read_to_iovec-ReadAll kernel kernel-Grants heap running [] device queued 12 1 request refl
      queue-IsQueue refl (omega arith) kernel-Asks

granted_write_example :
    Returns
      (WroteAll kernel heap running [] 12 1)
      (io_write_from_iovec kernel 8 (pos 12) (driver heap running []))
granted_write_example =
    io_write_from_iovec-WroteAll kernel kernel-Grants kernel-CopiesAll kernel-Roomy kernel-NoWrap
      heap running [] device 12 1 request refl kernel-Asks

-- A request of 12 bytes on a 32-bit machine: it claims 2 ^ 30 + 2 packets and has two pointers.
abbrev claiming : Env
claiming = record kernel {
  from_iovec = λ l n. some (2 ∷ 0 ∷ 0 ∷ 64 ∷ 16 ∷ 0 ∷ 0 ∷ 0 ∷ 32 ∷ 0 ∷ 0 ∷ 0 ∷ []);
}

claiming-Grants : Grants claiming
claiming-Grants = record {
  get_user = λ l a. (2, refl);
  put_user = λ l a. refl;
  copy_to_user = λ l a. refl;
  copy_from_user = λ l a n. (8 ∷ 9 ∷ [], refl);
  to_iovec = λ l. refl;
  dev_alloc_skb = λ l n. (n, refl);
}

write_past_end_example :
    io_write_from_iovec claiming 4 (pos 12) (driver heap running []) ≡ fault bad_pointer
write_past_end_example =
    write_past_end claiming claiming-Grants kernel-Roomy kernel-NoWrap
      (2 ∷ 0 ∷ 0 ∷ 64 ∷ 16 ∷ 0 ∷ 0 ∷ 0 ∷ 32 ∷ 0 ∷ 0 ∷ 0 ∷ []) 1 heap running [] device (omega arith)
      refl refl refl refl refl

-- A packet that claims 2 ^ 32 - 1 bytes.
abbrev huge : Env
huge = record kernel { get_user = λ l a. some (2 ^ 32 - 1) }

huge-Tight : Tight huge
huge-Tight l n room e = ground (arith, e)

huge-Asks : Asks huge [] 12 1 request
huge-Asks = record {
  small = omega arith;
  header = omega arith;
  memory = refl;
  copied = refl;
  whole = refl;
  counted = refl;
  some_packet = omega arith;
  enough = omega arith;
}

write_over_panic_example :
    io_write_from_iovec huge 8 (pos 12) (driver heap running []) ≡ fault over_panic
write_over_panic_example =
    write_over_panic huge huge-Tight heap running [] 12 1 request huge-Asks (2 ^ 32 - 1) 1 refl
      (omega arith) (omega arith) (omega arith) refl
