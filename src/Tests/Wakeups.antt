-- ===== src/Tests/Wakeups.antt =====
-- The theorems on the keyboard's reader as a task, and on a poll of it.
use blog_os.Base.{ℕ, ◌+◌, ◌≤◌, ◌≡◌, refl, arith, [], ◌∷◌, length, none, some, ok, done, true, false}
use blog_os.Tests.Queues.{ListQueue, list_queue}
use blog_os.Tests.Executors.{counting, quiet}
use blog_os.Tests.Keyboards.{
  flag, last_waker, statics_with, fresh, fresh_stream, asleep, asleep-Reach,
}
use blog_os.Tasks.Futures.{Task}
use blog_os.Tasks.Executor.{Executor}
use blog_os.Tasks.Executor.Fair.{PolledAfter}
use blog_os.Tasks.Keyboard.{Statics, Keyboard, unicode}
use blog_os.Tasks.Keyboard.Draining.{
  Drained, unstarted, awaiting, poll_keypresses, IsDrained, poll_keypresses_lem,
}
use blog_os.Tasks.Wakeups.{keyboard_interrupt, keyboard_interrupt-PolledAfter}

abbrev reader_task : Task ℕ
reader_task = record { id = 5; future = 0 }

-- Two other tasks are in the queue.
abbrev with_reader : Executor ℕ ListQueue
with_reader = record {
  tasks = (5, reader_task) ∷ [];
  task_queue = record { listed = 0 ∷ 1 ∷ []; size = 100 };
  waker_cache = [];
}

keyboard_interrupt-PolledAfter_example :
    (s : Statics _ ListQueue _) × (next : Executor ℕ ListQueue) × (keyboard_interrupt 30
        asleep.statics with_reader
      ≡ done (s, next))
    × (s.scancode_queue.listed ≡ 30 ∷ [])
    × PolledAfter {W = ℕ} 2 next 0 5 reader_task
keyboard_interrupt-PolledAfter_example =
    keyboard_interrupt-PolledAfter quiet 5 fresh (statics_with true [] none) asleep fresh_stream
      refl asleep-Reach refl refl 30 with_reader 0 reader_task (omega arith) (omega arith) refl

-- A decoder without modes: a scancode is a character.
abbrev plain : Keyboard ℕ ℕ (Unit {0})
plain = record {
  add_byte = λ k scancode. (ok (some scancode), k + 1);
  process_keyevent = λ k event. (some (unicode event), k);
}

poll_keypresses_lem_example :
    (false ≡ false
      → (d : Drained ℕ (Statics _ ListQueue _)) × (poll_keypresses plain 101 5 0 unstarted fresh
          ≡ done (some d))
        × (d.statics.cell ≡ true)
        × IsDrained plain 5 [] 0 d.statics.cell d)
    × (false ≡ true
        → length fresh.scancode_queue.listed ≤ 100
        → (d : Drained ℕ (Statics _ ListQueue _)) × (poll_keypresses plain 101 5 0
              (awaiting 7)
              fresh
            ≡ done (some d))
          × IsDrained plain 5 [] 7 false d)
poll_keypresses_lem_example = poll_keypresses_lem plain 5 0 7 fresh
