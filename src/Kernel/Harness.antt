-- ===== src/Kernel/Harness.antt =====
-- src/lib.rs: the test runner. What a test prints itself is left out.
use blog_os.Base.{
  ℕ, suc, ◌+◌, ◌*◌, ◌≡◌, refl, ap, List, [], ◌∷◌, ◌++◌, length, Option, none, some, Exec, done,
  panic, Bool, true, false, if◌then◌else◌, ◌==◌,
}

-- The lines on the serial port, by their format string.
pub data Line : Type 0 where
  running : (tests : ℕ) → Line
  named : (type_name : List ℕ) → Line
  passed failed error exit_failed : Line

-- What the harness does to the machine: it prints, it writes to a port, it halts for ever.
pub data Event : Type 0 where
  serial : Line → Event
  port_write : (port value : ℕ) → Event
  halted : Event

-- `dyn Testable`: a function, with the name of its type
pub record Testable : Type 0 where
  pub type_name : List ℕ
  pub call : Exec (Unit {0})

pub data QemuExitCode : Type 0 where
  success failed : QemuExitCode

-- `exit_code as u32`
abbrev pub as_u32 : QemuExitCode → ℕ
as_u32 QemuExitCode.success = 0x10
as_u32 QemuExitCode.failed = 0x11

unfoldable pub exit_qemu : QemuExitCode → List Event
exit_qemu exit_code = port_write 0xf4 (as_u32 exit_code) ∷ []

-- `test_panic_handler`, which ends in `hlt_loop`
unfoldable pub test_panic_handler : List Event
unfolding exit_qemu
test_panic_handler =
    serial Line.failed
    ∷ serial error
    ∷ (exit_qemu QemuExitCode.failed ++ (serial exit_failed ∷ halted ∷ []))

-- `Testable::run`, with `rest` behind it; a test that panics goes to the panic handler.
unfoldable pub run : Testable → List Event → List Event
unfolding test_panic_handler
run test rest =
    serial (named test.type_name)
    ∷ elim test.call [ done u ↦ serial passed ∷ rest | panic ↦ test_panic_handler ]

-- The loop of `test_runner`, and the exit behind it.
unfoldable pub run_all : List Testable → List Event
unfolding run exit_qemu
run_all [] = exit_qemu QemuExitCode.success
run_all (test ∷ tests) = run test (run_all tests)

-- `test_runner`
unfoldable pub test_runner : List Testable → List Event
unfolding run_all
test_runner tests = serial (running (length tests)) ∷ run_all tests

-- Whether every test returns.
abbrev pub all_return : List Testable → Bool
all_return [] = true
all_return (test ∷ tests) = elim test.call [ done u ↦ all_return tests | panic ↦ false ]

-- The tests before the first that panics.
abbrev pub returned : List Testable → ℕ
returned [] = 0
returned (test ∷ tests) = elim test.call [ done u ↦ suc (returned tests) | panic ↦ 0 ]

-- The status with which the emulator exits: its device at the port 0xf4 exits with twice the value
-- that is written to it, and one.
abbrev pub exit_status : List Event → Option ℕ
exit_status [] = none
exit_status (serial line ∷ events) = exit_status events
exit_status (port_write port value ∷ events) =
    if port == 0xf4 then some (2 * value + 1) else exit_status events
exit_status (halted ∷ events) = none

-- The lines `[ok]` before the emulator exits.
abbrev pub oks : List Event → ℕ
oks [] = 0
oks (serial passed ∷ events) = suc (oks events)
oks (serial (running n) ∷ events) = oks events
oks (serial (named n) ∷ events) = oks events
oks (serial Line.failed ∷ events) = oks events
oks (serial error ∷ events) = oks events
oks (serial exit_failed ∷ events) = oks events
oks (port_write port value ∷ events) = 0
oks (halted ∷ events) = 0

run_all_lem :
    (tests : List Testable)
    → (exit_status (run_all tests) ≡ some (if all_return tests then 33 else 35))
      × (oks (run_all tests) ≡ returned tests)
unfolding run_all
run_all_lem [] = (refl, refl)
run_all_lem (test ∷ tests) = by_call test.call (run_all_lem tests)
  where
    by_call :
        (call : Exec (Unit {0}))
        → (exit_status (run_all tests) ≡ some (if all_return tests then 33 else 35))
          × (oks (run_all tests) ≡ returned tests)
        → (exit_status (run (record { type_name = test.type_name; call = call }) (run_all tests))
            ≡ some (if (elim call [ done u ↦ all_return tests | panic ↦ false ]) then 33 else 35))
          × (oks (run (record { type_name = test.type_name; call = call }) (run_all tests))
              ≡ (elim call [ done u ↦ suc (returned tests) | panic ↦ 0 ]))
    by_call (done u) (e, o) = (e, ap suc o)
    by_call panic h = (refl, refl)

-- The emulator exits with the status 33, which Cargo.toml names for success, if every test returns,
-- and with 35 if one panics. Before that
-- there is a line `[ok]` for each of the tests before the first that panics, and for no other.
pub test_runner_lem :
    (tests : List Testable)
    → (exit_status (test_runner tests) ≡ some (if all_return tests then 33 else 35))
      × (oks (test_runner tests) ≡ returned tests)
unfolding test_runner
test_runner_lem tests = run_all_lem tests
