-- ===== src/Queue/Chain.antt =====
-- Lists of linked socket buffers on the heap.
use mathlib.Core.Bool.{false≢true}
use kerion_vpn_client_docker.Base.{
  ℕ, ◌≡◌, ◌≢◌, refl, sym, ap, ◌∙◌, Bool, true, false, ◌||◌, some, List, [], ◌∷◌, ◌++◌, arith,
  length, ◌==◌,
}
use kerion_vpn_client_docker.Base.Int.{pos}
use kerion_vpn_client_docker.Queue.{Ptr, null, skb, Heap, Queue}

-- The buffers of a queue, the oldest first, each with its bytes.
abbrev pub Cells : Type 0
Cells = List (Ptr × List ℕ)

-- Their bytes.
abbrev pub packets : Cells → List (List ℕ)
packets [] = []
packets ((p, bs) ∷ xs) = bs ∷ packets xs

abbrev pub has : Ptr → Cells → Bool
has a [] = false
has a ((p, _) ∷ xs) = (a == p) || has a xs

abbrev pub first : Cells → Ptr
first [] = null
first ((p, _) ∷ _) = p

abbrev pub last : Cells → Ptr
last [] = null
last ((p, _) ∷ []) = p
last (_ ∷ x ∷ xs) = last (x ∷ xs)

-- Each buffer is allocated, holds its bytes, and points at the next one; none occurs twice.
abbrev pub Chain : Heap → Cells → Type 0
Chain h [] = Unit {0}
Chain h ((p, bs) ∷ xs) =
    (p ≢ null) × (has p xs ≡ false) × (h p ≡ some (skb (first xs) bs)) × Chain h xs

-- A chain survives any change that spares its buffers.
pub frame :
    (h g : Heap) (xs : Cells) → Chain h xs → ((a : Ptr) → has a xs ≡ true → g a ≡ h a) → Chain g xs
frame h g [] c same = tt
frame h g ((p, bs) ∷ xs) c same =
    (c.0, c.1, ground (arith, same p), frame h g xs c.3 λ a i. same a (ground arith))

-- What the queue's fields say of the buffers `xs`. The tail of an empty queue is left open:
-- the code does not reset it.
pub record IsQueue (h : Heap) (q : Queue) (xs : Cells) : Type 0 where
  pub head : q.head ≡ first xs
  pub tail : xs ≢ [] → q.tail ≡ last xs
  pub chain : Chain h xs
  pub size : q.size ≡ pos (length xs)

-- The bytes of the last buffer.
abbrev pub last_bytes : Cells → List ℕ
last_bytes [] = []
last_bytes ((_, bs) ∷ []) = bs
last_bytes (_ ∷ x ∷ xs) = last_bytes (x ∷ xs)

pub has-last : (x : Ptr × List ℕ) (xs : Cells) → has (last (x ∷ xs)) (x ∷ xs) ≡ true
has-last (p, bs) [] = ground arith
has-last x (y ∷ ys) = ground (arith, has-last y ys)

pub last-ne-null :
    (h : Heap) (x : Ptr × List ℕ) (xs : Cells) → Chain h (x ∷ xs) → last (x ∷ xs) ≢ null
last-ne-null h x [] c = c.0
last-ne-null h x (y ∷ ys) c = last-ne-null h y ys c.3

pub last_holds :
    (h : Heap) (x : Ptr × List ℕ) (xs : Cells)
    → Chain h (x ∷ xs)
    → h (last (x ∷ xs)) ≡ some (skb null (last_bytes (x ∷ xs)))
last_holds h x [] c = c.2
last_holds h x (y ∷ ys) c = last_holds h y ys c.3

pub last-snoc : (xs : Cells) (y : Ptr × List ℕ) → last (xs ++ y ∷ []) ≡ y.0
last-snoc [] y = refl
last-snoc (x ∷ []) y = refl
last-snoc (_ ∷ x ∷ xs) y = last-snoc (x ∷ xs) y

pub has-append : (a : Ptr) (xs ys : Cells) → has a (xs ++ ys) ≡ (has a xs || has a ys)
has-append a [] ys = refl
has-append a (x ∷ xs) ys = ground (arith, has-append a xs ys)

pub has-snoc :
    (a p : Ptr) (bs : List ℕ) (xs : Cells)
    → has a xs ≡ false
    → a ≢ p
    → has a (xs ++ (p, bs) ∷ []) ≡ false
has-snoc a p bs xs out n = rw (has-append a xs ((p, bs) ∷ []), out) (ground arith)

pub ne-last : (a : Ptr) (x : Ptr × List ℕ) (xs : Cells) → has a (x ∷ xs) ≡ false → a ≢ last (x ∷ xs)
ne-last a x xs out e = false≢true (sym out ∙ ap (λ b. has b (x ∷ xs)) e ∙ has-last x xs)

-- A new last buffer: the old last one points at it, and the others are as they were.
pub Chain-snoc :
    (h g : Heap) (x : Ptr × List ℕ) (xs : Cells) (p : Ptr) (bs : List ℕ)
    → Chain h (x ∷ xs)
    → p ≢ null
    → has p (x ∷ xs) ≡ false
    → g p ≡ some (skb null bs)
    → g (last (x ∷ xs)) ≡ some (skb p (last_bytes (x ∷ xs)))
    → ((a : Ptr) → has a (x ∷ xs) ≡ true → a ≢ last (x ∷ xs) → g a ≡ h a)
    → Chain g ((x ∷ xs) ++ (p, bs) ∷ [])
Chain-snoc h g (a, cs) [] p bs c n out new old same = (c.0, ground arith, old, (n, refl, new, tt))
Chain-snoc h g (a, cs) (y ∷ ys) p bs c n out new old same = (
  c.0,
  has-snoc a p bs (y ∷ ys) c.1 (ground arith),
  same a (ground arith) (ne-last a y ys c.1) ∙ c.2,
  Chain-snoc h g y ys p bs c.3 n (ground arith) new old λ b i. same b (ground arith),
)
