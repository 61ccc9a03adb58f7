-- ===== src/Tasks/Queues.antt =====
-- The `crossbeam_queue` crate's `ArrayQueue`: a bounded queue, first in, first out.
use blog_os.Base.{
  ℕ, ◌<◌, ◌≤◌, ◌≡◌, List, [], ◌∷◌, ◌++◌, length, Option, none, some, Bool, true, false,
}

-- `push` gives back the queue, or nothing where the queue is full; `pop` gives the first item.
-- `items` and `cap` are what the documentation speaks of, the items in order and the capacity.
pub record ArrayQueue (Q A : Type 0) : Type 0 where
  pub new : ℕ → Q
  pub push : Q → A → Option Q
  pub pop : Q → Option (A × Q)
  pub is_empty : Q → Bool
  pub items : Q → List A
  pub cap : Q → ℕ
  pub items-new : (n : ℕ) → items (new n) ≡ []
  pub cap-new : (n : ℕ) → cap (new n) ≡ n
  pub push_room :
      (q : Q) (a : A)
      → length (items q) < cap q
      → (q' : Q) × (push q a ≡ some q') × (items q' ≡ items q ++ (a ∷ [])) × (cap q' ≡ cap q)
  pub push_full : (q : Q) (a : A) → cap q ≤ length (items q) → push q a ≡ none
  pub pop_empty : (q : Q) → items q ≡ [] → pop q ≡ none
  pub pop_first :
      (q : Q) (a : A) (rest : List A)
      → items q ≡ a ∷ rest
      → (q' : Q) × (pop q ≡ some (a, q')) × (items q' ≡ rest) × (cap q' ≡ cap q)
  pub is_empty_nil : (q : Q) → items q ≡ [] → is_empty q ≡ true
  pub is_empty_cons : (q : Q) (a : A) (rest : List A) → items q ≡ a ∷ rest → is_empty q ≡ false
