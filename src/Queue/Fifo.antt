-- ===== src/Queue/Fifo.antt =====
-- The queue as an abstract FIFO: what a client sees of `queue_insert` and `queue_remove`.
use kerion_vpn_client_docker.Base.{
  ℕ, ◌≡◌, ◌≢◌, refl, ap, ◌∙◌, false, Option, none, some, List, [], ◌∷◌, ◌++◌, arith,
}
use kerion_vpn_client_docker.Machine.{Cmd, pure, ◌>>=◌, ◌>>◌, Returns, returns, bind}
use kerion_vpn_client_docker.Queue.{
  Ptr, null, Skb, skb, Heap, write, Queue, Store, store, queue_insert, queue_remove,
}
use kerion_vpn_client_docker.Queue.Chain.{Cells, has, first, IsQueue}
use kerion_vpn_client_docker.Queue.Insert.{
  linked, appended, appended-IsQueue, queue_insert-ok, bytes_at, write-bytes, linked-bytes,
  appended_keeps,
}
use kerion_vpn_client_docker.Queue.Remove.{
  popped, popped-IsQueue, queue_remove-ok, queue_remove-nil,
}

pub data Op : Type 0 where
  insert : Ptr → List ℕ → Op
  remove : Op

-- The calls in turn, with what the removals return.
unfoldable pub run_ops : List Op → Cmd Store (List Ptr)
run_ops [] = pure []
run_ops (insert p bs ∷ ops) = queue_insert p >> run_ops ops
run_ops (remove ∷ ops) = do p ← queue_remove; ps ← run_ops ops; pure (p ∷ ps)

-- The same on a list: what the removals return, and what is left.
unfoldable pub spec_out : List Op → Cells → List Ptr
spec_out [] xs = []
spec_out (insert p bs ∷ ops) xs = spec_out ops (xs ++ (p, bs) ∷ [])
spec_out (remove ∷ ops) [] = null ∷ spec_out ops []
spec_out (remove ∷ ops) (x ∷ xs) = x.0 ∷ spec_out ops xs

unfoldable pub spec_left : List Op → Cells → Cells
spec_left [] xs = xs
spec_left (insert p bs ∷ ops) xs = spec_left ops (xs ++ (p, bs) ∷ [])
spec_left (remove ∷ ops) [] = spec_left ops []
spec_left (remove ∷ ops) (x ∷ xs) = spec_left ops xs

-- Each inserted buffer is allocated with its bytes, and is not in the queue at the time.
abbrev pub Legal : Heap → List Op → Cells → Type 0
Legal h [] xs = Unit {0}
Legal h (insert p bs ∷ ops) xs =
    (p ≢ null) × (bytes_at h p ≡ some bs) × (has p xs ≡ false) × Legal h ops (xs ++ (p, bs) ∷ [])
Legal h (remove ∷ ops) [] = Legal h ops []
Legal h (remove ∷ ops) (x ∷ xs) = Legal h ops xs

-- Every buffer has the bytes that it had.
abbrev pub SameBytes : Heap → Heap → Type 0
SameBytes g h = (a : Ptr) → bytes_at h a ≡ bytes_at g a

abbrev pub Refined : Heap → List Op → Cells → List Ptr → Store → Type 0
Refined g ops xs out s =
    (out ≡ spec_out ops xs)
    × IsQueue s.heap s.queue (spec_left ops xs)
    × (s.queue.locked ≡ false)
    × SameBytes g s.heap

pub holds_of :
    (h : Heap) (p : Ptr) (bs : List ℕ)
    → bytes_at h p ≡ some bs
    → (n : Ptr) × (h p ≡ some (skb n bs))
holds_of h p bs e = go (h p) refl
  where
    go : (o : Option Skb) → h p ≡ o → (n : Ptr) × (h p ≡ some (skb n bs))
    go none f = absurd (cc)
    go (some s) f = (s.next, ground arith)

-- Any sequence of insertions and removals on a well-formed queue whose lock is free ends without a
-- fault, returns what the abstract FIFO returns, leaves a well-formed queue of what is left with its lock
-- free, and changes no byte of any buffer. Each inserted buffer has to be allocated and not queued.
pub run_ops-Refined :
    (g h : Heap) (q : Queue) (ops : List Op) (xs : Cells)
    → IsQueue h q xs
    → q.locked ≡ false
    → SameBytes g h
    → Legal g ops xs
    → Returns (Refined g ops xs) (run_ops ops (store h q))
unfolding run_ops spec_out spec_left
run_ops-Refined g h q [] xs is free same legal = returns (refl, is, free, same)
run_ops-Refined g h q (insert p bs ∷ ops) xs is free same (ne, bytes, out, legal) =
    let (n, holds) = holds_of h p bs (same p ∙ bytes) in
    rw (queue_insert-ok h q p n bs ne holds xs is out free) (
      run_ops-Refined g (linked h xs p bs) (appended q xs p) ops (xs ++ (p, bs) ∷ [])
        (appended-IsQueue h q p n bs ne holds xs is out) ((appended_keeps q xs p).0 ∙ free)
        (λ a. linked-bytes h xs p n bs is.chain holds out a ∙ same a) legal)
run_ops-Refined g h q (remove ∷ ops) [] is free same legal = rw (queue_remove-nil h q is free) (
    bind (run_ops-Refined g h q ops [] is free same legal)
      λ ps s (out, rest, unlocked, kept). returns (ap (◌∷◌ null) out, rest, unlocked, kept))
run_ops-Refined g h q (remove ∷ ops) ((p, bs) ∷ xs) is free same legal =
    rw (queue_remove-ok h q p bs xs is free) (
      bind
        (run_ops-Refined g (write h p (some (skb null bs))) (popped q xs) ops xs
          (popped-IsQueue h q p bs xs is) free
          (λ a. write-bytes h p (first xs) null bs is.chain.2 a ∙ same a) legal)
        λ ps s (out, rest, unlocked, kept). returns (ap (◌∷◌ p) out, rest, unlocked, kept))
