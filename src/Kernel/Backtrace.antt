-- ===== src/Kernel/Backtrace.antt =====
-- src/main.rs: the stack backtrace of the panic handler.
use blog_os.Base.{
  ℕ, zero, suc, ◌+◌, ◌^◌, ◌≤◌, ◌<◌, ◌≡◌, ◌≢◌, refl, List, [], ◌∷◌, ◌⊎◌, length, take, Exec, done,
  ◌>>=◌, ◌==◌, true, false, inl, inr, arith,
}
use blog_os.Base.Words.{add_usize, add_usize-done}

-- The loop, with `n` frames left: the return addresses that it prints. `read` is the load of the
-- `u64` at an address, which panics where the pointer is not aligned, and does not return, which
-- is a panic too, where it is not mapped: the handler of the page fault halts.
unfoldable pub frames_from : (ℕ → Exec ℕ) → ℕ → ℕ → Exec (List ℕ)
frames_from read zero rbp = done []
frames_from read (suc n) rbp = elim (rbp == 0) [
  | true ↦ done []
  | false ↦ do
    at ← add_usize rbp 8
    ret ← read at
    next ← read rbp
    rest ← frames_from read n next
    done (ret ∷ rest)
]

unfoldable pub backtrace : (ℕ → Exec ℕ) → ℕ → Exec (List ℕ)
backtrace read rbp = frames_from read 20 rbp

-- Calls that are not done, the last one first, down to the frame at an address: each frame can be
-- read, and holds the address of the frame below it and behind that the return address.
pub data Calls (read : ℕ → Exec ℕ) : ℕ → List ℕ → ℕ → Type 0 where
  here : {rbp : ℕ} → Calls read rbp [] rbp
  frame :
      {rbp next ret end : ℕ} {returns : List ℕ}
      → rbp ≢ 0
      → rbp + 8 < 2 ^ 64
      → read rbp ≡ done next
      → read (rbp + 8) ≡ done ret
      → Calls read next returns end
      → Calls read rbp (ret ∷ returns) end

frames_from_lem :
    (read : ℕ → Exec ℕ) (n : ℕ) {rbp end : ℕ} {returns : List ℕ}
    → Calls read rbp returns end
    → (n ≤ length returns) ⊎ (end ≡ 0)
    → frames_from read n rbp ≡ done (take n returns)
unfolding frames_from
frames_from_lem read zero c h = refl
frames_from_lem read (suc n) {rbp} here (inl long) = absurd (omega arith)
frames_from_lem read (suc n) {rbp} here (inr last) =
    let test : (rbp == 0) ≡ true = ground (arith, last) in rw (frames_from, test) refl
frames_from_lem read (suc n) {rbp} {returns = ret ∷ later} (frame {next} ne room below at c) h =
    let test : (rbp == 0) ≡ false = ground (arith, ne) in
    rw
      (
        frames_from,
        test,
        add_usize-done rbp 8 room,
        at,
        below,
        frames_from_lem read n c (shorter n _ (length later) h),
      )
      refl
  where
    shorter : (n end count : ℕ) → (suc n ≤ suc count) ⊎ (end ≡ 0) → (n ≤ count) ⊎ (end ≡ 0)
    shorter n end count (inl long) = inl (omega arith)
    shorter n end count (inr last) = inr last

-- Where the frames of 20 calls that are not done can be read, or those of fewer, the last of which
-- has the link 0, and each of them lies below the last 8 bytes of the address space, the backtrace
-- ends with the return addresses of the last 20 calls, or of all if there are fewer. What stands
-- behind the 20th frame does not matter.
pub backtrace_lem :
    (read : ℕ → Exec ℕ) {rbp end : ℕ} {returns : List ℕ}
    → Calls read rbp returns end
    → (20 ≤ length returns) ⊎ (end ≡ 0)
    → backtrace read rbp ≡ done (take 20 returns)
unfolding backtrace
backtrace_lem read c h = frames_from_lem read 20 c h
