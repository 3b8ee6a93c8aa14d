-- ===== src/Queue/Remove.antt =====
-- `queue_remove` and `__queue_remove` of drivers/vpn/linux/queue.c.
use kerion_vpn_client_docker.Base.{ℕ, ◌≡◌, ◌≢◌, refl, false, some, List, [], ◌∷◌, arith}
use kerion_vpn_client_docker.Base.Int.{decr}
use kerion_vpn_client_docker.Machine.{ok}
use kerion_vpn_client_docker.Queue.{
  Ptr, null, skb, Heap, write, Queue, store, queue_remove_nolock, queue_remove,
}
use kerion_vpn_client_docker.Queue.Chain.{Cells, first, last, IsQueue, frame}

abbrev pub popped : Queue → Cells → Queue
popped q xs = record q { head = first xs; size = decr q.size }

last_left :
    {p t : Ptr} {bs : List ℕ} (xs : Cells)
    → (((p, bs) ∷ xs) ≢ [] → t ≡ last ((p, bs) ∷ xs))
    → xs ≢ []
    → t ≡ last xs
last_left [] e ne = absurd (ne refl)
last_left (x ∷ xs) e ne = e (λ nil. cc)

module _ (h : Heap) (q : Queue) (p : Ptr) (bs : List ℕ) (xs : Cells)
    (is : IsQueue h q ((p, bs) ∷ xs)) where
  -- The oldest buffer comes out, unlinked, and the rest is the queue.
  pub popped-IsQueue : IsQueue (write h p (some (skb null bs))) (popped q xs) xs
  popped-IsQueue = record {
    head = refl;
    tail = last_left xs is.tail;
    chain = frame h _ xs is.chain.3 (ground arith);
    size = ground arith;
  }

  pub queue_remove_nolock-ok :
      queue_remove_nolock (store h q) ≡ ok p (store (write h p (some (skb null bs))) (popped q xs))
  unfolding queue_remove_nolock
  queue_remove_nolock-ok = ground arith

  pub queue_remove-ok :
      q.locked ≡ false
      → queue_remove (store h q) ≡ ok p (store (write h p (some (skb null bs))) (popped q xs))
  unfolding queue_remove
  queue_remove-ok free = ground arith

module _ (h : Heap) (q : Queue) (is : IsQueue h q []) where
  -- Nothing comes out of an empty queue, and nothing changes.
  pub queue_remove_nolock-nil : queue_remove_nolock (store h q) ≡ ok null (store h q)
  unfolding queue_remove_nolock
  queue_remove_nolock-nil = ground arith

  pub queue_remove-nil : q.locked ≡ false → queue_remove (store h q) ≡ ok null (store h q)
  unfolding queue_remove
  queue_remove-nil free = ground arith
