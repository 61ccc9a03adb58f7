-- ===== src/Tests/Keyboards.antt =====
-- The theorems of src/task/keyboard.rs on a queue in a list.
use blog_os.Base.{
  ℕ, ◌≡◌, refl, List, [], ◌∷◌, ◌++◌, Option, none, some, done, Bool, true, false, inl, inr, ◌⊎◌,
}
use blog_os.Tests.Queues.{ListQueue, list_queue}
use blog_os.Tasks.Keyboard.{
  OnceCell, AtomicWaker, Statics, queued, Polled, add_scancode, stream_new, pop, register,
  poll_next,
}
use blog_os.Tasks.Keyboard.Interleaving.{
  waiting, System, interrupt, check, enlist, wait, Reach, here, next, started,
}
use blog_os.Tasks.Keyboard.Sound.{Reach-in_order, in_hand, waiting-notified}
use blog_os.Tasks.Keyboard.Atomic.{behind, poll_next-Reach}

abbrev init_once : Bool → Option Bool
init_once true = none
init_once false = some true

instance abbrev pub flag : OnceCell Bool
flag = record {
  uninit = false;
  try_get = λ c. c;
  try_init_once = init_once;
  try_get-uninit = refl;
  first_init = λ c e. (true, rw e refl, refl);
  again = λ c e. rw e refl;
}

instance abbrev pub last_waker : AtomicWaker (Option ℕ)
last_waker = record {
  new = none;
  register = λ a id. some id;
  wake = λ a. (a, none);
  take = λ a. (a, none);
  registered = λ a. a;
  registered-new = refl;
  registered-register = λ a id. refl;
  wake_calls = λ a. refl;
  wake_takes = λ a. refl;
  take_takes = λ a. refl;
}

abbrev pub statics_with : Bool → List ℕ → Option ℕ → Statics Bool ListQueue (Option ℕ)
statics_with cell listed waker = record {
  cell = cell;
  scancode_queue = record { listed = listed; size = 100 };
  scancode_waker = waker;
}

abbrev pub fresh : Statics Bool ListQueue (Option ℕ)
fresh = statics_with false [] none

pub fresh_stream : stream_new fresh ≡ done (statics_with true [] none)
unfolding stream_new
fresh_stream = refl

-- The reader of task 5 found nothing and waits.
abbrev pub asleep : System Bool ListQueue (Option ℕ)
asleep = record (started (statics_with true [] (some 5))) { place = waiting }

pub asleep-Reach : Reach 5 (started (statics_with true [] none)) asleep
unfolding pop register
asleep-Reach = next (next (next here (check (inl refl) refl)) (enlist refl)) (wait refl refl)

-- Then the scancode 30 comes.
abbrev woken_up : System Bool ListQueue (Option ℕ)
woken_up = record asleep {
  statics = statics_with true (30 ∷ []) none;
  notified = true;
  accepted = 30 ∷ [];
}

woken_up-Reach : Reach 5 (started (statics_with true [] none)) woken_up
unfolding add_scancode
woken_up-Reach = next asleep-Reach (interrupt 30 refl)

Reach-in_order_example : woken_up.accepted ≡ [] ++ (in_hand waiting ++ (30 ∷ []))
Reach-in_order_example =
    Reach-in_order 5 fresh (statics_with true [] none) woken_up fresh_stream refl woken_up-Reach

waiting-notified_example :
    (asleep.notified ≡ true)
    ⊎ ((asleep.statics.scancode_queue.listed ≡ [])
        × ((scancode : ℕ)
            → (statics : Statics Bool ListQueue (Option ℕ)) × (add_scancode scancode asleep.statics
                ≡ (queued (some 5), statics))
              × (statics.scancode_queue.listed ≡ scancode ∷ [])))
waiting-notified_example =
    waiting-notified 5 fresh (statics_with true [] none) asleep fresh_stream refl asleep-Reach refl

poll_next-Reach_example :
    (r : Polled × Statics Bool ListQueue (Option ℕ)) × (poll_next 5 woken_up.statics ≡ done r)
    × Reach 5 woken_up (behind 5 woken_up r)
poll_next-Reach_example = poll_next-Reach 5 woken_up (inr refl) refl
