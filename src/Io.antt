-- ===== src/Io.antt =====
-- Requests of user space: `io_dev_aio_read` and `io_dev_aio_write` of drivers/vpn/linux/io_dev.c, with
-- io_read.c and io_write.c. A request is a `struct kvnet_header` (defs.h): a 32-bit count, and as many
-- pointers of `word` bytes to packets in user memory. `word` is 8 on a 64-bit machine and 4 on a 32-bit one.
pub mod Blocking
pub mod Delivery
pub mod Fill
pub mod Granted
pub mod Header
pub mod Overrun
pub mod Packet
pub mod Progress
pub mod Read
pub mod ReadAll
pub mod Request
pub mod Taken
pub mod Write
pub mod WriteAll
use kerion_vpn_client_docker.Base.{
  ℕ, zero, suc, ◌+◌, ◌-◌, ◌*◌, ◌%◌, ◌^◌, ◌&&◌, Bool, true, false, Option, none, some, List, [], ◌∷◌,
  length, take, drop, ltb, leb, ◌==◌, if◌then◌else◌,
}
use kerion_vpn_client_docker.Base.Int.{
  ℤ, pos, negsuc, incr, is_zero, is_neg, to_ulong, to_ℕ, minus_eagain, minus_enomem, minus_efault,
  minus_einval,
}
use kerion_vpn_client_docker.Machine.{
  ok, fault, Cmd, null_deref, bad_pointer, over_panic, pure, ◌>>=◌, ◌>>◌, stop,
}
use kerion_vpn_client_docker.Queue.{Ptr, null, Skb, queue_remove}
use kerion_vpn_client_docker.Driver.{
  alloc_paged_mem, free_paged_mem, Event, netif_wake, header_alloc, header_free, put_user,
  copy_to_user, to_iovec, skb_alloc, skb_discard, netif_rx, Env, Driver, emit, ask, set_vnet,
  set_net, set_stats, on_queue, kfree_skb, add32,
}
use kerion_vpn_client_docker.NetDev.{net_device}

-- The little-endian number in so many bytes.
abbrev pub le : List ℕ → ℕ
le [] = 0
le (b ∷ bs) = b + 256 * le bs

-- The bytes at an offset of the request; reading past its end is an access to memory that is not its own.
unfoldable pub load_at : List ℕ → ℕ → ℕ → Cmd Driver ℕ
load_at hdr offset n =
    if leb (offset + n) (length hdr) then pure (le (take n (drop offset hdr))) else stop bad_pointer

-- `hdr->count` and `hdr->pkt[i]`.
unfoldable pub load_count : List ℕ → Cmd Driver ℕ
unfolding load_at
load_count hdr = load_at hdr 0 4

unfoldable pub load_pkt : ℕ → List ℕ → ℕ → Cmd Driver ℕ
unfolding load_at
load_pkt word hdr i = load_at hdr (4 + i * word) word

-- `sizeof (struct kvnet_header)`.
abbrev pub header_size : ℕ → ℕ
header_size word = 4 + word

-- What a request of `count` packets takes: the subtraction is one of 32 bits, the rest one of `size_t`.
unfoldable pub needed : ℕ → ℕ → ℕ
needed word count = (header_size word + ((count + 2 ^ 32 - 1) % 2 ^ 32) * word) % 2 ^ (8 * word)

-- The sum of the lengths, as `ssize_t`.
abbrev pub sum : List ℕ → ℕ
sum [] = 0
sum (n ∷ ns) = n + sum ns

unfoldable pub io_dev_iov_total : List ℕ → ℤ
io_dev_iov_total iv =
    let total = sum iv % 2 ^ 64 in
    if ltb total (2 ^ 63) then pos total else negsuc (2 ^ 64 - total - 1)

-- The size of a reply of `count` packets.
unfoldable pub reply_size : ℕ → ℕ → ℕ
reply_size word count = header_size word + (if count == 0 then 0 else (count - 1) * word)

-- The bytes of a buffer that is out of the queue.
unfoldable pub skb_of : Ptr → Cmd Driver Skb
skb_of p d = elim (d.heap p) [ none ↦ fault bad_pointer | some s ↦ ok s d ]

module _ (env : Env) where
  -- `pkt` is the address of a `struct kvnet_packet` in user memory: `data_len`, and `data` 4 bytes on.
  unfoldable pub io_read_fill_network_packet : ℕ → Skb → Cmd Driver ℤ
  unfolding set_vnet
  io_read_fill_network_packet pkt skb = do
    data_len ← ask (λ l. env.get_user l pkt)
    elim data_len [
      | none ↦ pure minus_efault
      | some room ↦ (do
        let len = if ltb (length skb.bytes) room then length skb.bytes else room
        copied ← ask (λ l. env.copy_to_user l (pkt + 4))
        if copied
            then (do
              emit (copy_to_user (pkt + 4) (take len skb.bytes))
              set_vnet (
                  set_stats λ s. record s {
                    tx_packets = add32 s.tx_packets 1;
                    tx_bytes = add32 s.tx_bytes len;
                  })
              put ← ask (λ l. env.put_user l pkt)
              if put then (do emit (put_user pkt len); pure (pos 0)) else pure minus_efault)
            else pure minus_efault)
    ]

  -- One packet of a write: fill a new buffer from user memory and hand it to the network stack. The sum of
  -- the length and NET_IP_ALIGN is one of 32 bits; `skb_put` stops the kernel past the buffer's room.
  unfoldable pub write_packet : ℕ → Cmd Driver ℤ
  unfolding set_vnet
  write_packet pkt = do
    data_len ← ask (λ l. env.get_user l pkt)
    elim data_len [
      | none ↦ pure minus_efault
      | some n ↦ (do
        buffer ← ask (λ l. env.dev_alloc_skb l ((n + env.net_ip_align) % 2 ^ 32))
        elim buffer [
          | none ↦ pure minus_enomem
          | some room ↦ (do
            emit skb_alloc
            if ltb room (n + env.net_ip_align) then stop over_panic else (do
              copied ← ask (λ l. env.copy_from_user l (pkt + 4) n)
              elim copied [
                | none ↦ (do emit skb_discard; pure minus_efault)
                | some bytes ↦ (do
                  dev ← net_device
                  emit (netif_rx bytes)
                  now ← ask env.jiffies
                  set_vnet (set_net λ m. record m { device = some (record dev { last_rx = now }) })
                  set_vnet (
                      set_stats λ s. record s {
                        rx_packets = add32 s.rx_packets 1;
                        rx_bytes = add32 s.rx_bytes n;
                      })
                  pure (pos 0))
              ]))
        ])
    ]

module _ (env : Env) (word : ℕ) where
  -- The loop, with the rounds that are left, the index and the result so far.
  unfoldable pub read_loop : List ℕ → ℕ → ℕ → ℤ → Cmd Driver ℤ
  unfolding io_read_fill_network_packet skb_of load_pkt
  read_loop hdr zero i ret = pure ret
  read_loop hdr (suc left) i ret = do
    skb ← on_queue queue_remove
    if skb == null then pure (if is_zero ret then minus_eagain else ret) else (do
      pkt ← load_pkt word hdr i
      s ← skb_of skb
      filled ← io_read_fill_network_packet env pkt s
      kfree_skb skb
      if is_zero filled then read_loop hdr left (i + 1) (incr ret) else pure minus_efault)

  -- The end of both calls: write the count back, and give the header back.
  unfoldable pub finish : ℤ → Cmd Driver ℤ
  unfolding reply_size
  finish ret = if is_neg ret then (do free_paged_mem true header_free; pure ret) else (do
    let count = to_ℕ ret
    written ← ask env.to_iovec
    if written
        then (do
          emit (to_iovec count)
          free_paged_mem true header_free
          pure (pos (reply_size word count)))
        else (do free_paged_mem true header_free; pure minus_efault))

  -- What both calls do with the request: check its length, copy it in, check its count. `alloc_paged_mem`
  -- takes an `int`: of a longer length the low 32 bits are allocated, and none if they are negative.
  unfoldable pub with_header : ℤ → (List ℕ → ℕ → Cmd Driver ℤ) → Cmd Driver ℤ
  unfolding load_count needed
  with_header len body =
      let n = to_ulong len in
      if ltb n (header_size word) then pure minus_einval else (do
        there ← alloc_paged_mem env n
        if there
            then (do
              emit header_alloc
              copied ← ask (λ l. env.from_iovec l n)
              elim copied [
                | none ↦ (do free_paged_mem true header_free; pure minus_efault)
                | some hdr ↦ if ltb (n % 2 ^ 32) n then stop bad_pointer else (do
                  count ← load_count hdr
                  if count == 0
                      then (do free_paged_mem true header_free; pure minus_einval)
                      else (if ltb n (needed word count)
                          then (do free_paged_mem true header_free; pure minus_einval)
                          else body hdr count))
              ])
            else pure minus_enomem)

  unfoldable pub io_read_to_iovec : ℤ → Cmd Driver ℤ
  unfolding with_header read_loop finish
  io_read_to_iovec len =
      with_header len
        λ hdr count. do ret ← read_loop hdr count 0 (pos 0); net_device; emit netif_wake; finish ret

  unfoldable pub write_loop : List ℕ → ℕ → ℕ → ℤ → Cmd Driver ℤ
  unfolding write_packet load_pkt
  write_loop hdr zero i ret = pure ret
  write_loop hdr (suc left) i ret = do
    pkt ← load_pkt word hdr i
    r ← write_packet env pkt
    if is_zero r then write_loop hdr left (i + 1) (incr ret) else pure r

  unfoldable pub io_write_from_iovec : ℤ → Cmd Driver ℤ
  unfolding with_header write_loop finish
  io_write_from_iovec len =
      with_header len λ hdr count. do ret ← write_loop hdr count 0 (pos 0); finish ret

  -- The file has to be open for non-blocking calls.
  unfoldable pub io_dev_aio_read : Bool → List ℕ → Cmd Driver ℤ
  unfolding io_dev_iov_total
  io_dev_aio_read nonblock iv =
      let len = io_dev_iov_total iv in
      if nonblock
      then (if is_neg len then pure minus_einval else io_read_to_iovec len)
      else pure minus_einval

  unfoldable pub io_dev_aio_write : Bool → List ℕ → Cmd Driver ℤ
  unfolding io_dev_iov_total
  io_dev_aio_write nonblock iv =
      let len = io_dev_iov_total iv in
      if nonblock
      then (if is_neg len then pure minus_einval else io_write_from_iovec len)
      else pure minus_einval
