-- ===== src/IoDev.antt =====
-- The character device of drivers/vpn/linux/io_dev.c: its registration, opening and closing, `poll` and
-- `ioctl`.
pub mod Poll
use Prim.Native.Nat.{bit_or}
use kerion_vpn_client_docker.Base.{ℕ, ◌+◌, Bool, true, false, not, ◌==◌, if◌then◌else◌}
use kerion_vpn_client_docker.Base.Int.{
  ℤ, pos, negsuc, is_zero, minus_eacces, minus_efault, minus_einval,
}
use kerion_vpn_client_docker.Machine.{Cmd, pure, ◌>>=◌, ◌>>◌}
use kerion_vpn_client_docker.Queue.{queue_is_empty}
use kerion_vpn_client_docker.Driver.{
  err_ptr, is_err, ptr_err, chrdev_alloc, chrdev_unregister, cdev_add, cdev_del, class_create,
  class_destroy, device_create, device_destroy, put_user, copy_to_user, Env, Driver, emit, ask,
  vnet_dev, set_vnet, set_io, on_queue,
}
use kerion_vpn_client_docker.NetDev.{io_dev_wakeup, net_dev_add, net_dev_remove}

-- The bits of the `poll` mask.
abbrev pub pollin : ℕ
pollin = 0x0001

abbrev pub pollpri : ℕ
pollpri = 0x0002

abbrev pub pollout : ℕ
pollout = 0x0004

abbrev pub pollerr : ℕ
pollerr = 0x0008

abbrev pub pollrdnorm : ℕ
pollrdnorm = 0x0040

abbrev pub pollwrnorm : ℕ
pollwrnorm = 0x0100

-- `poll_wait` puts the caller on the wait queue and does not block.
unfoldable pub io_dev_poll : Cmd Driver ℕ
unfolding vnet_dev
io_dev_poll = do
  v ← vnet_dev
  if v.io_dev.canceled then pure (bit_or pollpri pollerr) else (do
    let mask = bit_or pollout pollwrnorm
    empty ← on_queue queue_is_empty
    pure (if empty then mask else bit_or mask (bit_or pollin pollrdnorm)))

-- `_IO('O', 1)` and `_IOR('O', 2, struct kvnet_info)`, a packed structure of 14 bytes.
abbrev pub ioctl_cancel_pending_read : ℕ
ioctl_cancel_pending_read = 0x4f01

abbrev pub ioctl_get_info : ℕ
ioctl_get_info = 0x800e4f02

abbrev pub major_version : ℕ
major_version = 2

abbrev pub minor_version : ℕ
minor_version = 1

-- The end of `io_dev_open`, after `net_dev_add`.
unfoldable pub mark_opened : ℤ → Cmd Driver ℤ
unfolding set_vnet
mark_opened ret =
    if is_zero ret
    then (do set_vnet (set_io λ io. record io { opened = true; canceled = false }); pure ret)
    else pure ret

module _ (env : Env) where
  -- A write to user memory, and what follows if it succeeds.
  unfoldable pub put_user_or_fault : ℕ → ℕ → Cmd Driver ℤ → Cmd Driver ℤ
  put_user_or_fault addr value next = do
    ok ← ask (λ l. env.put_user l addr)
    if ok then (do emit (put_user addr value); next) else pure minus_efault

  -- `arg` is the address of a `struct kvnet_info`.
  unfoldable pub io_dev_ioctl : ℕ → ℕ → Cmd Driver ℤ
  unfolding vnet_dev set_vnet io_dev_wakeup put_user_or_fault
  io_dev_ioctl cmd arg =
      if cmd == ioctl_cancel_pending_read
      then (do set_vnet (set_io λ io. record io { canceled = true }); io_dev_wakeup; pure (pos 0))
      else (if cmd == ioctl_get_info
          then put_user_or_fault arg major_version (
              put_user_or_fault (arg + 4) minor_version (do
                v ← vnet_dev
                ok ← ask (λ l. env.copy_to_user l (arg + 8))
                if ok
                    then (do emit (copy_to_user (arg + 8) v.cfg.mac); pure (pos 0))
                    else pure minus_efault))
          else pure minus_einval)

  unfoldable pub io_dev_open : Cmd Driver ℤ
  unfolding vnet_dev mark_opened
  io_dev_open = do
    v ← vnet_dev
    if v.io_dev.opened then pure minus_eacces else (do ret ← net_dev_add env; mark_opened ret)

  unfoldable pub io_dev_close : Cmd Driver ℤ
  unfolding set_vnet
  io_dev_close = do
    net_dev_remove env
    set_vnet (set_io λ io. record io { opened = false })
    pure (pos 0)

  -- The last two steps of `io_dev_add`: the class and the device node.
  unfoldable pub io_dev_add_node : Cmd Driver ℤ
  unfolding set_vnet
  io_dev_add_node = do
    class ← ask env.class_create
    if is_err class
        then (do set_vnet (set_io λ io. record io { class = class }); pure (ptr_err class))
        else (do
          emit class_create
          set_vnet (set_io λ io. record io { class = class })
          device ← ask env.device_create
          if is_err device
              then (do set_vnet (set_io λ io. record io { device = device }); pure (ptr_err device))
              else (do
                emit device_create
                set_vnet (set_io λ io. record io { device = device })
                pure (pos 0)))

  unfoldable pub io_dev_add : Cmd Driver ℤ
  unfolding set_vnet io_dev_add_node
  io_dev_add = do
    set_vnet (
        set_io λ io. record io {
          major_number = negsuc 0;
          minor_number = negsuc 0;
          class = err_ptr 11;
          device = err_ptr 11;
        })
    ret ← ask env.alloc_chrdev_region
    if not (is_zero ret) then pure ret else (do
      numbers ← ask env.chrdev_numbers
      emit (chrdev_alloc (pos numbers.0) (pos numbers.1))
      set_vnet
          (set_io λ io. record io { major_number = pos numbers.0; minor_number = pos numbers.1 })
      ret ← ask env.cdev_add
      if not (is_zero ret) then pure ret else (do
        emit cdev_add
        set_vnet (set_io λ io. record io { added = true })
        io_dev_add_node))

-- `major_number != -1`.
abbrev pub has_number : ℤ → Bool
has_number (pos n) = true
has_number (negsuc n) = not (n == 0)

-- The four guarded steps of `io_dev_remove`, in order.
unfoldable pub remove_device : Cmd Driver (Unit {0})
unfolding vnet_dev set_vnet
remove_device = do
  v ← vnet_dev
  if is_err v.io_dev.device
      then pure tt
      else (do emit device_destroy; set_vnet (set_io λ io. record io { device = err_ptr 11 }))

unfoldable pub remove_class : Cmd Driver (Unit {0})
unfolding vnet_dev set_vnet
remove_class = do
  v ← vnet_dev
  if is_err v.io_dev.class
      then pure tt
      else (do emit class_destroy; set_vnet (set_io λ io. record io { class = err_ptr 11 }))

unfoldable pub remove_cdev : Cmd Driver (Unit {0})
unfolding vnet_dev set_vnet
remove_cdev = do
  v ← vnet_dev
  if v.io_dev.added
      then (do emit cdev_del; set_vnet (set_io λ io. record io { added = false }))
      else pure tt

unfoldable pub remove_region : Cmd Driver (Unit {0})
unfolding vnet_dev set_vnet
remove_region = do
  v ← vnet_dev
  if has_number v.io_dev.major_number
      then (do
        emit (chrdev_unregister v.io_dev.major_number v.io_dev.minor_number)
        set_vnet (set_io λ io. record io { major_number = negsuc 0; minor_number = negsuc 0 }))
      else pure tt

unfoldable pub io_dev_remove : Cmd Driver ℤ
unfolding remove_device remove_class remove_cdev remove_region
io_dev_remove = do remove_device; remove_class; remove_cdev; remove_region; pure (pos 0)
