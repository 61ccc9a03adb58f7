-- ===== src/Tests/Queues.antt =====
-- A bounded queue in a list, for the theorems of src/task.
use blog_os.Base.{
  ℕ, refl, List, [], ◌∷◌, ◌++◌, length, Option, none, some, Bool, true, false, if◌then◌else◌, ltb,
  arith,
}
use blog_os.Tasks.Queues.{ArrayQueue}

pub record ListQueue : Type 0 where
  pub listed : List ℕ
  pub size : ℕ

abbrev first : ℕ → List ℕ → Option (ℕ × ListQueue)
first size [] = none
first size (x ∷ rest) = some (x, record { listed = rest; size = size })

abbrev is_nil : List ℕ → Bool
is_nil [] = true
is_nil (x ∷ rest) = false

instance abbrev pub list_queue : ArrayQueue ListQueue ℕ
list_queue = record {
  new = λ n. record { listed = []; size = n };
  push = λ q a.
      if ltb (length q.listed) q.size
      then some (record q { listed = q.listed ++ (a ∷ []) })
      else none;
  pop = λ q. first q.size q.listed;
  is_empty = λ q. is_nil q.listed;
  items = λ q. q.listed;
  cap = λ q. q.size;
  items-new = λ n. refl;
  cap-new = λ n. refl;
  push_room = λ q a room. (record q { listed = q.listed ++ (a ∷ []) }, ground arith, refl, refl);
  push_full = λ q a full. ground arith;
  pop_empty = λ q e. rw e refl;
  pop_first = λ q a rest e. (record { listed = rest; size = q.size }, rw e refl, refl, refl);
  is_empty_nil = λ q e. rw e refl;
  is_empty_cons = λ q a rest e. rw e refl;
}
