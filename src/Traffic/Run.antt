-- ===== src/Traffic/Run.antt =====
-- Any sequence of calls of the handlers in net_dev.c and io_dev.c.
use native.Mathlib.Nat.{add-zero}
use kerion_vpn_client_docker.Base.{
  ℕ, ◌+◌, ◌≡◌, refl, sym, subst, inl, inr, some, List, [], ◌∷◌, arith, ◌++◌, append-nil, length,
  ltb, ◌&&◌, Bool-cases,
}
use kerion_vpn_client_docker.Base.Int.{ℤ}
use kerion_vpn_client_docker.Machine.{Returns, returns, bind, mono}
use kerion_vpn_client_docker.Queue.{Heap}
use kerion_vpn_client_docker.Queue.Chain.{Cells}
use kerion_vpn_client_docker.Driver.{Vnet, Event, Env, Driver, driver}
use kerion_vpn_client_docker.NetDev.{net_dev_get_stats, net_dev_ioctl}
use kerion_vpn_client_docker.Resources.{Held}
use kerion_vpn_client_docker.NetDev.Packets.{Serves}
use kerion_vpn_client_docker.Queue.Chain.{packets}
use kerion_vpn_client_docker.Traffic.{
  Wire, wire_of, Follows, Action, send, read, write, ioctl, up, down, poll, get_stats, net_ioctl,
  act, run, sends, Fresh, IsShort, Short, Sound, Inv, Keeps,
}
use kerion_vpn_client_docker.Traffic.Order.{PartOf, payloads, Follows-PartOf}
use kerion_vpn_client_docker.Traffic.Steps.{send_room, send_full, up-Keeps, down-Keeps}
use kerion_vpn_client_docker.Traffic.Requests.{poll-Keeps, read-Keeps, write-Keeps, ioctl-Keeps}

abbrev sent : Action → ℕ
sent (send p bs) = 1
sent (read iv) = 0
sent (write iv) = 0
sent (ioctl cmd arg) = 0
sent up = 0
sent down = 0
sent poll = 0
sent get_stats = 0
sent (net_ioctl cmd) = 0

act-Keeps :
    (env : Env) (sound : Sound env) (k : Held) (cap n : ℕ) (h : Heap) (v : Vnet) (l : List Event)
    (xs : Cells) (a : Action) (rest : List Action)
    → IsShort a
    → Inv k cap n (driver h v l) v xs
    → Fresh h xs (sends (a ∷ rest))
    → Returns (Keeps k cap (n + sent a) (sends rest) a (wire_of v xs)) (act env a (driver h v l))
unfolding act net_dev_get_stats net_dev_ioctl
act-Keeps env sound k cap n h v l xs (send p bs) rest short inv fresh =
    elim (Bool-cases (v.net_dev.queue.enabled && ltb (length xs) cap)) [
      | inl go ↦
          send_room env k cap n h v l xs (sends rest) inv p bs fresh (ground arith) (ground arith)
      | inr stop ↦ send_full env k cap n h v l xs (sends rest) inv p bs fresh (ground arith)
    ]
act-Keeps env sound k cap n h v l xs (read iv) rest short inv fresh =
    rw add-zero (read-Keeps env sound k cap n h v l xs (sends rest) inv iv short fresh)
act-Keeps env sound k cap n h v l xs (write iv) rest short inv fresh =
    rw add-zero (write-Keeps env sound k cap n h v l xs (sends rest) inv iv short fresh)
act-Keeps env sound k cap n h v l xs (ioctl cmd arg) rest short inv fresh =
    rw add-zero (ioctl-Keeps env sound k cap n h v l xs (sends rest) inv cmd arg fresh)
act-Keeps env sound k cap n h v l xs up rest short inv fresh =
    rw add-zero (up-Keeps env k cap n h v l xs (sends rest) inv fresh)
act-Keeps env sound k cap n h v l xs down rest short inv fresh =
    rw add-zero (down-Keeps env k cap n h v l xs (sends rest) inv fresh)
act-Keeps env sound k cap n h v l xs poll rest short inv fresh =
    rw add-zero (poll-Keeps env sound k cap n h v l xs (sends rest) inv fresh)
act-Keeps env sound k cap n h v l xs get_stats rest short inv fresh =
    rw add-zero (returns (v, xs, inv, fresh, refl))
act-Keeps env sound k cap n h v l xs (net_ioctl cmd) rest short inv fresh =
    rw add-zero (returns (v, xs, inv, fresh, refl))

length-sends :
    (a : Action) (rest : List Action) → length (sends (a ∷ rest)) ≡ sent a + length (sends rest)
length-sends (send p bs) rest = omega arith
length-sends (read iv) rest = omega arith
length-sends (write iv) rest = omega arith
length-sends (ioctl cmd arg) rest = omega arith
length-sends up rest = omega arith
length-sends down rest = omega arith
length-sends poll rest = omega arith
length-sends get_stats rest = omega arith
length-sends (net_ioctl cmd) rest = omega arith

-- The driver with its object written out.
pub shown : (d : Driver) (v : Vnet) → d.vnet ≡ some v → driver d.heap v d.log ≡ d
shown d v e = λ i. record d { vnet = sym e i }

pub at_object :
    {k : Held} {cap n : ℕ} (d : Driver) (v : Vnet) {xs : Cells}
    → Inv k cap n d v xs
    → Inv k cap n (driver d.heap v d.log) v xs
at_object d v inv = record {
  serves = record { vnet = refl; queue = inv.serves.queue; free = inv.serves.free };
  device = inv.device;
  limit = inv.limit;
  bounded = inv.bounded;
  counted = inv.counted;
  held_same = inv.held_same;
  claims = inv.claims;
  on = inv.on;
  off_empty = inv.off_empty;
}

act_any :
    (env : Env) (sound : Sound env) (k : Held) (cap n : ℕ) (d : Driver) (v : Vnet) (xs : Cells)
    (a : Action) (rest : List Action)
    → IsShort a
    → Inv k cap n d v xs
    → Fresh d.heap xs (sends (a ∷ rest))
    → Returns (Keeps k cap (n + sent a) (sends rest) a (wire_of v xs)) (act env a d)
act_any env sound k cap n d v xs a rest short inv fresh =
    subst (λ e. Returns (Keeps k cap (n + sent a) (sends rest) a (wire_of v xs)) (act env a e))
      (shown d v inv.serves.vnet)
      (act-Keeps env sound k cap n d.heap v d.log xs a rest short (at_object d v inv) fresh)

-- After the calls `acts`: the invariant holds, what is to be sent later is still fresh, and the interface went from
-- `s` by moves that the calls allow.
abbrev pub Ran : Held → ℕ → ℕ → Cells → List Action → Wire → ℤ → Driver → Type 0
Ran k cap n ys acts s r d =
    (v : Vnet) × (xs : Cells) × Inv k cap n d v xs
    × Fresh d.heap xs ys
    × Follows cap acts s (wire_of v xs)

pub run-Ran :
    (env : Env) (sound : Sound env) (k : Held) (cap : ℕ) (acts later : List Action) (n : ℕ)
    (d : Driver) (v : Vnet) (xs : Cells)
    → Short acts
    → Inv k cap n d v xs
    → Fresh d.heap xs (sends (acts ++ later))
    → Returns
        (Ran k cap (n + length (sends acts)) (sends later) acts (wire_of v xs))
        (run env acts d)
unfolding run
run-Ran env sound k cap [] later n d v xs short inv fresh =
    returns (v, xs, rw add-zero inv, fresh, refl)
run-Ran env sound k cap (a ∷ rest) later n d v xs (one, short) inv fresh =
    let e : n + sent a + length (sends rest) ≡ n + length (sends (a ∷ rest)) =
      omega (arith, length-sends a rest) in
    rw (← e) (
      bind (act_any env sound k cap n d v xs a (rest ++ later) one inv fresh)
        λ r d' (v', xs', inv', fresh', move).
          mono (run-Ran env sound k cap rest later (n + sent a) d' v' xs' short inv' fresh')
            λ q e (w, zs, inv2, fresh2, moves).
              (w, zs, inv2, fresh2, (wire_of v' xs', move, moves)))

abbrev pub Kept : Held → ℕ → ℕ → ℤ → Driver → Type 0
Kept k cap n r d = (v : Vnet) × (xs : Cells) × Inv k cap n d v xs

-- Whatever the order of packets sent, reads, writes, polls, ioctl calls, looks at the statistics and
-- switchings of the interface, and whatever
-- the kernel and user memory answer, the driver does not fault: no buffer is used after it was given back
-- or given back twice, no lock is taken twice or left taken. At the end the queue is well formed and no
-- longer than the device's limit, each packet that was handed over is in the queue or was given back, the
-- driver holds the kernel resources that it held before, as its fields say, and while the interface is off
-- queueing is disabled and no packet is left in the queue. It is shown for a 64-bit machine, from any
-- state that has these properties, where the sent buffers are different ones, allocated and not queued at
-- the start, the requests are shorter than 2 ^ 32 bytes, the kernel copies and allocates as much as it is
-- asked for, and no packet claims a length whose sum with NET_IP_ALIGN needs more than 32 bits.
pub run-Inv :
    (env : Env) (sound : Sound env) (k : Held) (cap : ℕ) (acts : List Action) (n : ℕ) (d : Driver)
    (v : Vnet) (xs : Cells)
    → Short acts
    → Inv k cap n d v xs
    → Fresh d.heap xs (sends acts)
    → Returns (Kept k cap (n + length (sends acts))) (run env acts d)
run-Inv env sound k cap acts n d v xs short inv fresh =
    mono (run-Ran env sound k cap acts [] n d v xs short inv (rw append-nil fresh))
      λ r e (w, ys, kept, _, _). (w, ys, kept)

-- The queue is well formed with its lock free, the interface went from `s` by moves that the calls allow, and what
-- waits is a part of what waited and what was sent since.
abbrev pub Followed : ℕ → List Action → Wire → ℤ → Driver → Type 0
Followed cap acts s r d =
    (v : Vnet) × (xs : Cells) × Serves d v xs
    × Follows cap acts s (wire_of v xs)
    × PartOf (packets xs) (s.waiting ++ payloads acts)

-- Any sequence of calls behaves as the interface that `Moves` specifies, which is on or off and has packets
-- waiting to be read: a packet is put behind the others if the interface is on and fewer than the
-- device's limit are waiting, and is dropped else; a read takes packets from the front only; switching off drops
-- all that wait, switching on none; and a write, a poll, an ioctl call and a look at the statistics leave them. So
-- no packet is made up, doubled or overtaken: what waits at the end are some of the packets that waited at
-- the start and of those sent since, in their order. The conditions are those for `run-Inv`.
pub run-Followed :
    (env : Env) (sound : Sound env) (k : Held) (cap : ℕ) (acts : List Action) (n : ℕ) (d : Driver)
    (v : Vnet) (xs : Cells)
    → Short acts
    → Inv k cap n d v xs
    → Fresh d.heap xs (sends acts)
    → Returns (Followed cap acts (wire_of v xs)) (run env acts d)
run-Followed env sound k cap acts n d v xs short inv fresh =
    mono (run-Ran env sound k cap acts [] n d v xs short inv (rw append-nil fresh))
      λ r e (w, ys, kept, _, moves).
        (w, ys, kept.serves, moves, Follows-PartOf cap acts (wire_of v xs) (wire_of w ys) moves)
