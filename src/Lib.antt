-- ===== src/Lib.antt =====
-- The Kerio virtual network interface: a Linux kernel module that hands the packets of a network
-- interface `kvnet` to a user program through the character device /dev/kvnet, and back.
--
-- The parts and the files that model them (paths below drivers/vpn/linux/):
--
--   Queue      queue.c, queue.h, lin_specific.h: the transmit queue, a list of socket buffers linked by
--              their own `next` fields in a heap. `queue_insert` and its kin are commands over the heap
--              and `struct queue`; a name with `_nolock` is the one with two underscores in C. Taking
--              the lock twice, giving back a free lock, and a NULL or stale pointer are faults.
--   Driver     vnet.h, the state `struct vnet`, and the calls of the kernel. Each call that has an effect
--              is logged as an `Event`; its answer comes from the parameter `Env`, which is given the
--              log so far, so that a theorem for all `Env` holds for every behaviour of the kernel.
--              `kfree_skb` takes the buffer out of the heap, so that a second use of it is a fault.
--   NetDev     net_dev.c: sending, opening, closing, flushing, adding and removing the interface.
--   IoDev      io_dev.c: the character device.
--   Init       vnet.c and init.c: the driver's object, the start and the stop of the module.
--   Resources  The kernel resources that are held according to the log, against what the fields of
--              `struct vnet` say; this relates IoDev, NetDev and Init. Race cuts io_dev_open in two and runs
--              two processes by turns.
--   Io         io_read.c, io_write.c and the calls of io_dev.c that lead there: requests of user space. The
--              width of a pointer is a parameter, 8 or 4 bytes. Blocking is the build with USE_BLOCKING_READ, where a
--              read sleeps until there is a packet: the state is the driver's with that of the reading task, and
--              what other tasks do in each step is a parameter, and
--              `schedule` returns to a sleeping task when the wait queue was woken up or a signal came.
--   Traffic    Any sequence of calls of the kernel and of the user program on the running driver. Turns cuts the
--              loop of a read into its rounds, between which other processors may run any such calls.
--   Life       The module from loading to unloading, with sessions of the user program in between: init.c,
--              io_dev.c and net_dev.c together; Bounded looks at it while it is loaded. Whether the interface is up is what the log tells.
--   Utils      utils.c and utils.h: `checksum` and `adjust_checksum`, trace output (Trace) and the dump functions
--              (Dump). What vsnprintf makes of a message is a parameter, and the lines that are printed are
--              the state; a buffer is the list of its bytes, and a read or a write past it is a fault.
--   Kvnet      libkvnet/src/linux/kvnet.c (from the repository's root) and its status codes: the user library,
--              for the driver's device and for a TAP device of the system. System calls are logged and
--              answered by the parameter `Sys`, which also says when another thread cancels. Device joins it to the
--              driver.
--   Example    libkvnet/example/src/linux/main.cpp: the thread that reads packets, with its memory, and `main`. The
--              address of a block is the number of the call of `malloc` that made it, and freeing another
--              address is a fault; `Host` says which blocks are granted.
--   Base, Machine   Shared helpers, C numbers, and commands that may stop the kernel.
--   Tests      Concrete values, on which each theorem is applied.
--
-- NetDev and Io share the queue: `net_dev_send` appends, `io_read_to_iovec` takes out, `net_dev_close`
-- empties. `io_dev_open` adds the network device and `io_dev_close` removes it. Kvnet.Device relates
-- the library's waiting to what the driver's poll says, and Example uses the library.
--
-- Loops are structural recursion on the rounds left, but for three that run on fuel. The flush of the queue has one
-- round for each packet that the queue's `size` counts and one for the end, which is enough as
-- each round takes a packet out and the queue's invariant makes `size` their number. The waiting loop of
-- `kvnet_read` may go on for ever when nothing arrives; it has enough fuel when that is more than
-- the number of rounds that are followed by another one. The blocking read has enough fuel when that is more
-- than the number of the steps that other tasks take while it is away. The loop of the example program has as many
-- rounds as the main thread lets it run before it cancels.
-- Counters of 32 bits wrap round in the model as they do in the code; the queue's
-- `size` is a C `int` taken as an integer without bounds, as the device's limit keeps it small.
--
-- Not modelled: the trace output of the other parts, and with it the debugging output of net_dev_send and the
-- report of queue_close; the preemption of a call within the time that it holds the queue's lock, which nothing
-- else can then take, and of a call other than io_dev_open and a read, of which the model runs one at a time; the
-- output of the example program, and a
-- signal while it runs, whose handler calls the same `cancel_loop`; the compiler's and the kernel's
-- headers, the prototypes and the build files.
pub mod Base
pub mod Kvnet
pub mod Example
pub mod Machine
pub mod Queue
pub mod Driver
pub mod NetDev
pub mod IoDev
pub mod Init
pub mod Resources
pub mod Utils
pub mod Io
pub mod Traffic
pub mod Life
pub mod Tests
