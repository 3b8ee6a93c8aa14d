-- ===== src/Tests/Devices.antt =====
-- The module, the character device and the kernel's resources on concrete values.
use kerion_vpn_client_docker.Base.{
  Bool, if◌then◌else◌, arith, refl, [], ◌∷◌, true, false, List, ◌≡◌, none,
}
use kerion_vpn_client_docker.Base.Int.{pos, negsuc}
use kerion_vpn_client_docker.Machine.{ok, Returns}
use kerion_vpn_client_docker.Driver.{
  Vnet, Event, Env, driver, object, err_ptr, set_io, set_net, vnet_alloc, chrdev_alloc, cdev_add,
  class_create, device_create, netdev_alloc, netdev_register,
}
use kerion_vpn_client_docker.IoDev.Poll.{io_dev_poll-mask}
use kerion_vpn_client_docker.IoDev.{io_dev_poll, io_dev_open, io_dev_close}
use kerion_vpn_client_docker.Init.{module_start, fresh_vnet}
use kerion_vpn_client_docker.Queue.{queue_init}
use kerion_vpn_client_docker.Life.Whole.{init-IsQueue}
use kerion_vpn_client_docker.Resources.Race.{entering, by_turns, Lost, by_turns-Lost}
use kerion_vpn_client_docker.Resources.Start.{Started, module_start-Started}
use kerion_vpn_client_docker.Resources.Device.{OpenOutcome, io_dev_open-OpenOutcome}
use kerion_vpn_client_docker.Resources.Close.{Closed, io_dev_close-Closed}
use kerion_vpn_client_docker.Tests.{request, device, kernel, queued, heap, queue-IsQueue, running}

-- A kernel that refuses the class, so that loading the module is rolled back.
abbrev no_class : Env
no_class = record kernel { class_create = λ l. err_ptr 11 }

module_start_example :
    Returns
      (Started heap [])
      (module_start no_class (record { heap = heap; vnet = none; log = [] }))
module_start_example = module_start-Started no_class heap [] refl refl

-- The object as loading the module leaves it, and its log.
abbrev pub loaded : Vnet
loaded =
    set_io
      (λ io. record io {
        added = true;
        major_number = pos 250;
        minor_number = pos 0;
        class = object 1;
        device = object 2;
      })
      fresh_vnet

abbrev pub loaded_log : List Event
loaded_log =
    device_create ∷ class_create ∷ cdev_add ∷ chrdev_alloc (pos 250) (pos 0) ∷ vnet_alloc ∷ []

io_dev_open_example :
    Returns
      (OpenOutcome heap loaded loaded_log)
      (io_dev_open kernel (driver heap loaded loaded_log))
io_dev_open_example =
    io_dev_open-OpenOutcome kernel heap loaded loaded_log
      (λ closed. record { device = refl; added = refl }) refl

abbrev pub opened : Vnet
opened = set_io (λ io. record io { opened = true }) (set_net (λ n. running.net_dev) loaded)

io_dev_close_example :
    Returns
      (Closed true queued opened (netdev_register ∷ netdev_alloc ∷ loaded_log))
      (io_dev_close kernel (driver heap opened (netdev_register ∷ netdev_alloc ∷ loaded_log)))
io_dev_close_example =
    io_dev_close-Closed kernel heap opened (netdev_register ∷ netdev_alloc ∷ loaded_log) device
      queued refl refl queue-IsQueue refl refl

io_dev_poll_example : io_dev_poll (driver heap opened []) ≡ ok 325 (driver heap opened [])
io_dev_poll_example = io_dev_poll-mask heap opened [] queued queue-IsQueue refl

-- A kernel that registers one interface of the name.
abbrev was_registered : List Event → Bool
was_registered [] = false
was_registered (netdev_register ∷ l) = true
was_registered (_ ∷ l) = was_registered l

abbrev one_name : Env
one_name = record kernel {
  register_netdev = λ l. if was_registered l then negsuc 16 else pos 0;
  is_up = λ l. false;
}

race_example : Returns (Lost one_name 12) (
    by_turns one_name
      (true ∷ false ∷ true ∷ false ∷ [])
      entering
      entering
      (driver heap loaded loaded_log))
unfolding queue_init
race_example =
    by_turns-Lost one_name heap loaded loaded_log device device 16 12 1 request refl
      (record { device = refl; added = refl }) refl (init-IsQueue heap) refl refl refl refl refl
      refl
      (record {
        small = omega arith;
        header = omega arith;
        memory = refl;
        copied = refl;
        whole = refl;
        counted = refl;
        some_packet = omega arith;
        enough = omega arith;
      })
