-- ===== src/Netceptor/Routing/Queue.antt =====
-- The priority queue of github.com/jupp0r/go-priority-queue, which the routing uses and which is not
-- in the repository: its operations as a parameter, what its documentation says as laws, and a
-- list that meets them.
use receptor.Prelude.{
  ℕ, ◌+◌, ◌≤◌, ◌≡◌, refl, ◌⊎◌, Bool, true, false, ◌||◌, Option, none, some, List, [], ◌∷◌, arith,
  if◌then◌else◌, length, Bytes, same, same_iff,
}

pub record PriorityQueue : Type 1 where
  pub Queue : Type 0
  pub empty : Queue
  pub insert : Bytes → ℕ → Queue → Queue
  pub pop : Queue → Option (Bytes × Queue)
  pub len : Queue → ℕ
  pub has : Bytes → Queue → Bool

-- `Insert` adds an element, unless it is there already; `Pop` takes one out, and fails on the empty
-- queue only. Nothing is assumed of the order.
pub record QueueLaws (pq : PriorityQueue) : Type 0 where
  pub len-insert : (k : Bytes) (p : ℕ) (q : pq.Queue) → pq.len (pq.insert k p q) ≤ pq.len q + 1
  pub has-empty : (j : Bytes) → pq.has j pq.empty ≡ false
  pub has-insert :
      (j k : Bytes) (p : ℕ) (q : pq.Queue)
      → pq.has j (pq.insert k p q) ≡ (if same k j then true else pq.has j q)
  pub has-pop_none : (q : pq.Queue) (j : Bytes) → pq.pop q ≡ none → pq.has j q ≡ false
  pub len-pop : (q r : pq.Queue) (k : Bytes) → pq.pop q ≡ some (k, r) → pq.len r + 1 ≡ pq.len q
  pub has-pop :
      (q r : pq.Queue) (k j : Bytes)
      → pq.pop q ≡ some (k, r)
      → (pq.has k q ≡ true) × ((same k j ≡ true) ⊎ (pq.has j r ≡ pq.has j q))

-- A list of elements without priorities, newest last.
unfoldable pub mem : Bytes → List Bytes → Bool
mem j [] = false
mem j (k ∷ q) = same k j || mem j q

abbrev pub uncons : List Bytes → Option (Bytes × List Bytes)
uncons [] = none
uncons (k ∷ q) = some (k, q)

unfoldable pub snoc : List Bytes → Bytes → List Bytes
snoc [] k = k ∷ []
snoc (x ∷ q) k = if same x k then x ∷ q else x ∷ snoc q k

abbrev pub fifo : PriorityQueue
fifo = record {
  Queue = List Bytes;
  empty = [];
  insert = λ k p q. snoc q k;
  pop = uncons;
  len = length;
  has = mem;
}

length-snoc : (q : List Bytes) (k : Bytes) → length (snoc q k) ≤ length q + 1
unfolding snoc
length-snoc [] k = omega arith
length-snoc (x ∷ q) k = ground (arith, length-snoc q k)

mem-snoc : (j k : Bytes) (q : List Bytes) → mem j (snoc q k) ≡ (if same k j then true else mem j q)
unfolding snoc mem
mem-snoc j k [] = ground arith
mem-snoc j k (x ∷ q) = ground (arith, mem-snoc j k q, same_iff x k, same_iff x j, same_iff k j)

pop_none : (q : List Bytes) (j : Bytes) → uncons q ≡ none → mem j q ≡ false
unfolding mem
pop_none [] j e = refl
pop_none (x ∷ q) j e = cc

pop_len : (q r : List Bytes) (k : Bytes) → uncons q ≡ some (k, r) → length r + 1 ≡ length q
pop_len [] r k e = cc
pop_len (x ∷ q) r k e = ground arith

pop_has :
    (q r : List Bytes) (k j : Bytes)
    → uncons q ≡ some (k, r)
    → (mem k q ≡ true) × ((same k j ≡ true) ⊎ (mem j r ≡ mem j q))
unfolding mem
pop_has [] r k j e = cc
pop_has (x ∷ q) r k j e = ground (arith, same_iff x k, same_iff x j)

pub fifo-laws : QueueLaws fifo
unfolding mem
fifo-laws = record {
  len-insert = λ k p q. length-snoc q k;
  has-empty = λ j. refl;
  has-insert = λ j k p q. mem-snoc j k q;
  has-pop_none = pop_none;
  len-pop = pop_len;
  has-pop = pop_has;
}
