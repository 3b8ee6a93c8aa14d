-- ===== src/Queue/Insert.antt =====
-- `queue_insert` and `__queue_insert` of drivers/vpn/linux/queue.c.
use mathlib.Core.Bool.{false≢true}
use kerion_vpn_client_docker.Base.{
  ℕ, ◌≡◌, ◌≢◌, refl, sym, ap, ◌∙◌, Option, true, inl, inr, ◌==◌, Bool-cases, false, some, none,
  List, [], ◌∷◌, ◌++◌, arith, length-append,
}
use kerion_vpn_client_docker.Base.Int.{incr}
use kerion_vpn_client_docker.Machine.{ok}
use kerion_vpn_client_docker.Queue.{
  Ptr, null, Skb, skb, Heap, write, Queue, store, queue_insert_nolock, queue_insert,
}
use kerion_vpn_client_docker.Queue.Chain.{
  Cells, has, Chain, last, last_bytes, IsQueue, Chain-snoc, ne-last, last-ne-null, last_holds,
  last-snoc,
}

-- The heap and the queue after buffer `p` went in behind `xs`.
abbrev pub linked : Heap → Cells → Ptr → List ℕ → Heap
linked h [] p bs = write h p (some (skb null bs))
linked h (x ∷ xs) p bs =
    write (write h p (some (skb null bs))) (last (x ∷ xs)) (some (skb p (last_bytes (x ∷ xs))))

abbrev pub appended : Queue → Cells → Ptr → Queue
appended q [] p = record q { head = p; tail = p; size = incr q.size }
appended q (x ∷ xs) p = record q { tail = p; size = incr q.size }

write_self : (h : Heap) (a : Ptr) (c : Option Skb) → write h a c a ≡ c
write_self h a c = ground arith

write_other : (h : Heap) (a b : Ptr) (c : Option Skb) → b ≢ a → write h a c b ≡ h b
write_other h a b c n = ground arith

ne_of_has : (a p : Ptr) (xs : Cells) → has a xs ≡ true → has p xs ≡ false → a ≢ p
ne_of_has a p xs i out e = false≢true (sym out ∙ ap (λ b. has b xs) (sym e) ∙ i)

-- The tail field points at the last buffer of a queue that is not empty.
tail_of :
    {h : Heap} {q : Queue} (x : Ptr × List ℕ) (xs : Cells)
    → IsQueue h q (x ∷ xs)
    → q.tail ≡ last (x ∷ xs)
tail_of x xs is = is.tail λ nil. cc

module _ (h : Heap) (q : Queue) (p n : Ptr) (bs : List ℕ) (ne : p ≢ null)
    (holds : h p ≡ some (skb n bs)) where
  pub appended-IsQueue :
      (xs : Cells)
      → IsQueue h q xs
      → has p xs ≡ false
      → IsQueue (linked h xs p bs) (appended q xs p) (xs ++ (p, bs) ∷ [])
  appended-IsQueue [] is out = record {
    head = refl;
    tail = λ _. refl;
    chain = (ne, refl, ground arith, tt);
    size = ground arith;
  }
  appended-IsQueue (x ∷ xs) is out = record {
    head = is.head;
    tail = λ _. sym (last-snoc (x ∷ xs) (p, bs));
    chain =
        Chain-snoc h (write h' t c) x xs p bs is.chain ne out
          (write_other h' t p c (ne-last p x xs out) ∙ write_self h p b) (write_self h' t c)
          λ a i m. write_other h' t a c m ∙ write_other h p a b (ne_of_has a p (x ∷ xs) i out);
    size = rw (is.size, length-append (x ∷ xs) ((p, bs) ∷ [])) refl;
  }
    where
      t : Ptr
      t = last (x ∷ xs)

      b : Option Skb
      b = some (skb null bs)

      c : Option Skb
      c = some (skb p (last_bytes (x ∷ xs)))

      h' : Heap
      h' = write h p b

  -- The run of the code on an empty and on a longer queue.
  module _ (head_null : q.head ≡ null) where
    empty_run :
        queue_insert_nolock p (store h q)
        ≡ ok tt (
            store
              (write h p (some (skb null bs)))
              (record q { head = p; tail = p; size = incr q.size }))
    unfolding queue_insert_nolock
    empty_run = ground arith

    empty_run_locked :
        q.locked ≡ false
        → queue_insert p (store h q)
          ≡ ok tt (
              store
                (write h p (some (skb null bs)))
                (record q { head = p; tail = p; size = incr q.size }))
    unfolding queue_insert
    empty_run_locked free = ground arith

  module _ (t : Ptr) (cs : List ℕ) (head : q.head ≢ null) (tail : q.tail ≡ t) (t_ne : t ≢ null)
      (apart : t ≢ p) (t_holds : h t ≡ some (skb null cs)) where
    long_run :
        queue_insert_nolock p (store h q)
        ≡ ok tt (
            store
              (write (write h p (some (skb null bs))) t (some (skb p cs)))
              (record q { tail = p; size = incr q.size }))
    unfolding queue_insert_nolock
    long_run = ground arith

    long_run_locked :
        q.locked ≡ false
        → queue_insert p (store h q)
          ≡ ok tt (
              store
                (write (write h p (some (skb null bs))) t (some (skb p cs)))
                (record q { tail = p; size = incr q.size }))
    unfolding queue_insert
    long_run_locked free = ground arith

  pub queue_insert_nolock-ok :
      (xs : Cells)
      → IsQueue h q xs
      → has p xs ≡ false
      → queue_insert_nolock p (store h q) ≡ ok tt (store (linked h xs p bs) (appended q xs p))
  queue_insert_nolock-ok [] is out = empty_run is.head
  queue_insert_nolock-ok (x ∷ xs) is out =
      long_run (last (x ∷ xs)) (last_bytes (x ∷ xs)) (λ e. is.chain.0 (sym is.head ∙ e))
        (tail_of x xs is) (last-ne-null h x xs is.chain) (λ e. ne-last p x xs out (sym e))
        (last_holds h x xs is.chain)

  pub queue_insert-ok :
      (xs : Cells)
      → IsQueue h q xs
      → has p xs ≡ false
      → q.locked ≡ false
      → queue_insert p (store h q) ≡ ok tt (store (linked h xs p bs) (appended q xs p))
  queue_insert-ok [] is out = empty_run_locked is.head
  queue_insert-ok (x ∷ xs) is out =
      long_run_locked (last (x ∷ xs)) (last_bytes (x ∷ xs)) (λ e. is.chain.0 (sym is.head ∙ e))
        (tail_of x xs is) (last-ne-null h x xs is.chain) (λ e. ne-last p x xs out (sym e))
        (last_holds h x xs is.chain)

-- What insertion leaves alone: every byte of every buffer, the lock and the switch.
abbrev pub bytes_of : Option Skb → Option (List ℕ)
bytes_of none = none
bytes_of (some s) = some s.bytes

abbrev pub bytes_at : Heap → Ptr → Option (List ℕ)
bytes_at h a = bytes_of (h a)

pub write-bytes :
    (h : Heap) (p n m : Ptr) (bs : List ℕ)
    → h p ≡ some (skb n bs)
    → (a : Ptr) → bytes_at (write h p (some (skb m bs))) a ≡ bytes_at h a
write-bytes h p n m bs holds a = elim (Bool-cases (a == p)) [
  | inl e ↦ rw e (sym (ap bytes_of (ap h (same e) ∙ holds)))
  | inr e ↦ rw e
]
  where
    same : (a == p) ≡ true → a ≡ p
    same e = ground arith

pub linked-bytes :
    (h : Heap) (xs : Cells) (p n : Ptr) (bs : List ℕ)
    → Chain h xs
    → h p ≡ some (skb n bs)
    → has p xs ≡ false
    → (a : Ptr) → bytes_at (linked h xs p bs) a ≡ bytes_at h a
linked-bytes h [] p n bs c holds out a = write-bytes h p n null bs holds a
linked-bytes h (x ∷ xs) p n bs c holds out a =
    write-bytes (write h p (some (skb null bs))) (last (x ∷ xs)) null p (last_bytes (x ∷ xs))
      (write_other h p _ (some (skb null bs)) (λ e. ne-last p x xs out (sym e))
        ∙ last_holds h x xs c)
      a
    ∙ write-bytes h p n null bs holds a

pub appended_keeps :
    (q : Queue) (xs : Cells) (p : Ptr)
    → ((appended q xs p).locked ≡ q.locked) × ((appended q xs p).enabled ≡ q.enabled)
appended_keeps q [] p = (refl, refl)
appended_keeps q (x ∷ xs) p = (refl, refl)
