-- ===== src/Tests/Reader.antt =====
-- The user library on the driver, with concrete values.
use kerion_vpn_client_docker.Base.{ℕ, ◌≡◌, refl, sym, ap, ◌∙◌, some, true, false, [], ◌∷◌, arith}
use kerion_vpn_client_docker.Machine.{ok, Returns}
use kerion_vpn_client_docker.IoDev.Poll.{io_dev_poll-mask, cancel_poll}
use kerion_vpn_client_docker.Kvnet.{Sys, Globals, opened, ready}
use kerion_vpn_client_docker.Kvnet.Transfer.{kvnet_read}
use kerion_vpn_client_docker.Kvnet.Waiting.{EndsCancelled}
use kerion_vpn_client_docker.Kvnet.Device.{told, Answered, device-EndsCancelled, device-fetches}
use kerion_vpn_client_docker.Kvnet.Rounds.{waited}
use kerion_vpn_client_docker.Tests.{heap, queued, queue-IsQueue, kernel, running}
use kerion_vpn_client_docker.Tests.Library.{system, memory}

abbrev device_open : Globals
device_open = record {
  fdesc = some 3;
  canceled = false;
  use_tap_dev = false;
  calls = opened 3 ∷ [];
  memory = memory;
}

mask_of : {A : Type 0} (a b : ℕ) (d e : A) → ok a d ≡ ok b e → a ≡ b
mask_of a b d e q = ground (arith, q)

abbrev cancelled : Sys
cancelled = record system { poll = λ l. ready 8 }

device_cancelled_example :
    Returns (EndsCancelled device_open) (kvnet_read cancelled 8 1 true 20 device_open)
device_cancelled_example =
    device-EndsCancelled cancelled 3 device_open 8 20 0 refl (omega arith) kernel heap running [] 0
      λ mask e q.
        ap (λ m. ready (told m))
          (mask_of 10 mask _ e (sym (cancel_poll kernel heap running [] 0) ∙ q))

-- The driver has filled one packet.
abbrev readable : Sys
readable = record system {
  poll = λ l. ready 1;
  read_request = λ l n m. some (record m { count = 1 });
}

fetches_example :
    Returns
      (Answered readable 12 device_open (waited readable 3 device_open))
      (kvnet_read readable 8 1 true 12 device_open)
fetches_example =
    device-fetches readable 3 device_open 8 12 0 refl (omega arith) heap running [] queued
      queue-IsQueue refl refl (λ e. ground (arith, e)) refl
      λ mask e q.
        ap (λ m. ready (told m))
          (mask_of 325 mask _ e
            (sym (io_dev_poll-mask heap running [] queued queue-IsQueue refl) ∙ q))
