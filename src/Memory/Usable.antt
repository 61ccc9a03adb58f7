-- ===== src/Memory/Usable.antt =====
-- src/memory.rs: which frames `BootInfoFrameAllocator` hands out.
use blog_os.Base.{
  ℕ, zero, suc, ◌+◌, ◌^◌, ◌<◌, ◌≡◌, refl, ap, ◌∙◌, List, [], ◌∷◌, Option, none, some, map,
  get_elem?, Exec, done, ◌>>=◌, arith, length, All, All-map,
}
use blog_os.Base.Words.{add_usize-done}
use blog_os.Memory.Frames.{
  Region, BootInfoFrameAllocator, init, frame_addresses, usable_frames, allocate_frame, nth,
}
use blog_os.Memory.Addresses.{
  IsUsable, Ascend, InOrder, frame_addresses-IsUsable, IsUsable-frame_addresses,
  frame_addresses-Ascend,
}

-- What becomes of an address, if there is one.
abbrev pub made : {F : Type 0} → (ℕ → F) → Option ℕ → Option F
made frame_of none = none
made frame_of (some a) = some (frame_of a)

module _ {F : Type 0} (containing_address : ℕ → Exec F) where
  -- The results of so many calls of `allocate_frame`, in order.
  pub calls : ℕ → BootInfoFrameAllocator → Exec (List (Option F) × BootInfoFrameAllocator)
  calls zero self = done ([], self)
  calls (suc n) self = do
    (frame, self') ← allocate_frame containing_address self
    (frames, self'') ← calls n self'
    done (frame ∷ frames, self'')

  pub allocate_frame_lem :
      (self : BootInfoFrameAllocator) (frame : Option F)
      → self.next + 1 < 2 ^ 64
      → nth (usable_frames containing_address self) self.next ≡ done frame
      → allocate_frame containing_address self ≡ done (frame, record self { next = self.next + 1 })
  unfolding allocate_frame
  allocate_frame_lem self frame h e = rw (allocate_frame, e, add_usize-done self.next 1 h) refl

  module _ (frame_of : ℕ → F) where
    nth-map :
        (addrs : List ℕ) (n : ℕ)
        → All (λ a. containing_address a ≡ done (frame_of a)) addrs
        → nth (map containing_address addrs) n ≡ done (made frame_of (get_elem? addrs n))
    nth-map [] n h = refl
    nth-map (a ∷ addrs) zero (h, more) = rw h refl
    nth-map (a ∷ addrs) (suc n) (h, more) = rw h (nth-map addrs n more)

    calls_from :
        (n : ℕ) (self : BootInfoFrameAllocator)
        → All (λ a. containing_address a ≡ done (frame_of a)) (frame_addresses self.memory_map)
        → self.next + n < 2 ^ 64
        → (frames : List (Option F)) × (calls n self
            ≡ done (frames, record self { next = self.next + n }))
          × (length frames ≡ n)
          × ((i : ℕ)
              → i < n
              → get_elem? frames i
                ≡ some
                    (made frame_of (get_elem? (frame_addresses self.memory_map) (self.next + i))))
    unfolding calls usable_frames
    calls_from zero self all h = (
      [],
      ap (λ m. done ([], record self { next = m })) (omega arith),
      refl,
      (λ i lt. absurd (omega arith)),
    )
    calls_from (suc n) self all h =
        let (frames, run, len, each) =
          calls_from n (record self { next = self.next + 1 }) all (omega arith) in
        let first = made frame_of (get_elem? (frame_addresses self.memory_map) self.next) in
        let called =
          allocate_frame_lem self first (omega arith)
            (nth-map (frame_addresses self.memory_map) self.next all) in
        (
          first ∷ frames,
          rw (calls, called, run)
              (ap (λ m. done (first ∷ frames, record self { next = m })) (omega arith)),
          ap suc len,
          elements (frame_addresses self.memory_map) self.next n frames each,
        )
      where
        elements :
            (all : List ℕ) (k n : ℕ) (frames : List (Option F))
            → ((i : ℕ)
                → i < n
                → get_elem? frames i ≡ some (made frame_of (get_elem? all (k + 1 + i))))
            → (i : ℕ) → i < suc n
            → get_elem? (made frame_of (get_elem? all k) ∷ frames) i
              ≡ some (made frame_of (get_elem? all (k + i)))
        elements all k n frames each zero lt =
            ap (λ m. some (made frame_of (get_elem? all m))) (omega arith)
        elements all k n frames each (suc i) lt =
            each i (omega arith) ∙ ap (λ m. some (made frame_of (get_elem? all m))) (omega arith)

  -- If the regions of the memory map lie one behind the other, and a frame can be made of each
  -- usable address in it, `n` calls of `allocate_frame` on a fresh allocator return the frames of the
  -- first `n` addresses of a list, and nothing once it is exhausted. The list has each usable address
  -- once, in ascending order, and no other: those that lie in a usable region, a whole number of
  -- frames from its start.
  pub calls_lem :
      (frame_of : ℕ → F) (memory_map : List Region) (n : ℕ)
      → InOrder 0 memory_map
      → ((a : ℕ) → IsUsable a memory_map → containing_address a ≡ done (frame_of a))
      → n < 2 ^ 64
      → (addrs : List ℕ) × (frames : List (Option F)) × (self : BootInfoFrameAllocator) × (calls n
            (init memory_map)
          ≡ done (frames, self))
        × (length frames ≡ n)
        × ((i : ℕ) → i < n → get_elem? frames i ≡ some (made frame_of (get_elem? addrs i)))
        × All (λ a. IsUsable a memory_map) addrs
        × ((a : ℕ) → IsUsable a memory_map → (i : ℕ) × (get_elem? addrs i ≡ some a))
        × Ascend 0 addrs
  calls_lem frame_of memory_map n ordered makes h =
      let usable = frame_addresses-IsUsable memory_map in
      let all =
        All-map (λ a. IsUsable a memory_map) (λ a. containing_address a ≡ done (frame_of a))
          (frame_addresses memory_map) makes usable in
      let (frames, run, len, each) =
        calls_from frame_of n (init memory_map) all (omega (arith, h)) in
      (
        frame_addresses memory_map,
        frames,
        record { memory_map = memory_map; next = 0 + n },
        run,
        len,
        λ i lt.
            each i lt
            ∙ ap (λ m. some (made frame_of (get_elem? (frame_addresses memory_map) m)))
                (omega arith),
        usable,
        λ a u. IsUsable-frame_addresses a memory_map u,
        frame_addresses-Ascend 0 memory_map ordered,
      )
