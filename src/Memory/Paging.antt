-- ===== src/Memory/Paging.antt =====
-- src/memory.rs: `translate_addr_inner`. An address is its number, and a frame is the number at
-- which it starts. The `x86_64` crate's addresses, page tables and CR3 are parameters.
use blog_os.Base.{
  ℕ, zero, suc, ◌+◌, ◌*◌, ◌/◌, ◌%◌, ◌^◌, ◌<◌, ◌≡◌, ◌↔◌, refl, sym, subst, List, [], ◌∷◌, Option,
  none, some, some-injective, Option-cases, Exec, done, done-injective, panic, ◌⊎◌, inl, inr, ◌>>=◌,
  ◌>>◌, >>=-eq-done, assert, Result, ok, err, true, false, Bool, arith,
}
use blog_os.Base.Words.{add_usize, add_usize-done}

pub data FrameError : Type 0 where
  frame_not_present huge_frame : FrameError

-- The active level 4 frame (`Cr3::read`); the `frame` of an entry of the page table at a virtual
-- address; whether `VirtAddr::new` and `PhysAddr::new`, which make the sums of an address and a
-- number, take a number, and panic otherwise; and the parts of a virtual address, with the bits that
-- the crate documents for them.
pub record Mmu : Type 0 where
  pub level_4_table_frame : ℕ
  pub entry_frame : ℕ → ℕ → Result FrameError ℕ
  pub is_virtual : ℕ → Bool
  pub is_physical : ℕ → Bool
  pub p4_index : ℕ → ℕ
  pub p3_index : ℕ → ℕ
  pub p2_index : ℕ → ℕ
  pub p1_index : ℕ → ℕ
  pub page_offset : ℕ → ℕ
  pub p4_index_lem : (v : ℕ) → p4_index v ≡ v / 2 ^ 39 % 512
  pub p3_index_lem : (v : ℕ) → p3_index v ≡ v / 2 ^ 30 % 512
  pub p2_index_lem : (v : ℕ) → p2_index v ≡ v / 2 ^ 21 % 512
  pub p1_index_lem : (v : ℕ) → p1_index v ≡ v / 2 ^ 12 % 512
  pub page_offset_lem : (v : ℕ) → page_offset v ≡ v % 2 ^ 12

module _ (mmu : Mmu) where
  unfoldable pub table_indexes : ℕ → List ℕ
  table_indexes addr =
      mmu.p4_index addr ∷ mmu.p3_index addr ∷ mmu.p2_index addr ∷ mmu.p1_index addr ∷ []

  -- What the entry says: the next frame, `none` for the early return, or a panic.
  abbrev pub follow : Result FrameError ℕ → Exec (Option ℕ)
  follow (ok next) = done (some next)
  follow (err frame_not_present) = done none
  follow (err huge_frame) = panic

  -- The loop over the tables: the last frame, or `none` for the early return.
  unfoldable pub walk : ℕ → List ℕ → ℕ → Exec (Option ℕ)
  walk physical_memory_offset [] frame = done (some frame)
  walk physical_memory_offset (index ∷ rest) frame = do
    virt ← add_usize physical_memory_offset frame
    assert (mmu.is_virtual virt)
    entry ← follow (mmu.entry_frame virt index)
    elim entry [ none ↦ done none | some next ↦ walk physical_memory_offset rest next ]

  -- `frame.start_address() + u64::from(addr.page_offset())`
  unfoldable pub physical_address : ℕ → ℕ → Exec ℕ
  physical_address frame addr = do
    phys ← add_usize frame (mmu.page_offset addr)
    assert (mmu.is_physical phys)
    done phys

  unfoldable pub translate_addr : ℕ → ℕ → Exec (Option ℕ)
  translate_addr addr physical_memory_offset = do
    frame ← walk physical_memory_offset (table_indexes addr) mmu.level_4_table_frame
    elim frame [
      | none ↦ done none
      | some frame ↦ do phys ← physical_address frame addr; done (some phys)
    ]

  -- The tables that an address leads through from a frame on, with so many levels left: at each, the
  -- nine bits of the address for that level choose the entry that gives the next frame.
  pub data Leads (physical_memory_offset addr : ℕ) : ℕ → ℕ → ℕ → Type 0 where
    page : {frame : ℕ} → Leads physical_memory_offset addr 0 frame frame
    table :
        {levels frame next last : ℕ}
        → physical_memory_offset + frame < 2 ^ 64
        → mmu.is_virtual (physical_memory_offset + frame) ≡ true
        → mmu.entry_frame (physical_memory_offset + frame) (addr / (2 ^ 12 * 512 ^ levels) % 512)
          ≡ ok next
        → Leads physical_memory_offset addr levels next last
        → Leads physical_memory_offset addr (suc levels) frame last

  -- The address's bits for the levels from so many down to the first.
  indexes : ℕ → ℕ → List ℕ
  indexes addr zero = []
  indexes addr (suc levels) = addr / (2 ^ 12 * 512 ^ levels) % 512 ∷ indexes addr levels

  table_indexes_lem : (addr : ℕ) → table_indexes addr ≡ indexes addr 4
  unfolding table_indexes indexes
  table_indexes_lem addr =
      rw
        (mmu.p4_index_lem addr, mmu.p3_index_lem addr, mmu.p2_index_lem addr, mmu.p1_index_lem addr)

  walk-Leads :
      (offset addr levels frame last : ℕ)
      → Leads offset addr levels frame last
      → walk offset (indexes addr levels) frame ≡ done (some last)
  unfolding walk indexes
  walk-Leads offset addr zero frame _ page = refl
  walk-Leads offset addr (suc levels) frame last (table {next} room canonical there l) =
      rw
        (
          walk,
          add_usize-done offset frame room,
          canonical,
          there,
          walk-Leads offset addr levels next last l,
        )
        refl

  follow-some :
      (r : Result FrameError ℕ) (entry : Option ℕ)
      → follow r ≡ done entry
      → ((next : ℕ) × (r ≡ ok next) × (entry ≡ some next)) ⊎ (entry ≡ none)
  follow-some (ok next) entry e = inl (next, refl, sym (done-injective _ _ e))
  follow-some (err frame_not_present) entry e = inr (sym (done-injective _ _ e))
  follow-some (err huge_frame) entry e = absurd cc

  add-done : (a b c : ℕ) → add_usize a b ≡ done c → (a + b < 2 ^ 64) × (c ≡ a + b)
  add-done a b c e = ground (arith, e)

  assert-done : (b : Bool) (u : Unit {0}) → assert b ≡ done u → b ≡ true
  assert-done true u e = refl
  assert-done false u e = absurd cc

  Leads-walk :
      (offset addr levels frame last : ℕ)
      → walk offset (indexes addr levels) frame ≡ done (some last)
      → Leads offset addr levels frame last
  unfolding walk indexes
  Leads-walk offset addr zero frame last e =
      subst (λ f. Leads offset addr 0 frame f) (some-injective _ _ (done-injective _ _ e)) page
  Leads-walk offset addr (suc levels) frame last e =
      let (virt, added, e₁) = >>=-eq-done (add_usize offset frame) _ e in
      let (room, at) = add-done offset frame virt added in
      let (u, canonical, e₂) = >>=-eq-done (assert (mmu.is_virtual virt)) _ e₁ in
      let (entry, followed, e₃) =
        >>=-eq-done (follow (mmu.entry_frame virt (addr / (2 ^ 12 * 512 ^ levels) % 512))) _ e₂ in
      elim (follow-some _ entry followed) [
        | inl (next, there, is_next) ↦
            table room (rw at at (assert-done _ u canonical)) (rw at at there)
              (Leads-walk offset addr levels next last (rw is_next at e₃))
        | inr nothing ↦ let bad = rw nothing at e₃ in absurd cc
      ]

  physical_address-done :
      (frame addr p : ℕ)
      → physical_address frame addr ≡ done p
      → (p ≡ frame + addr % 4096) × (p < 2 ^ 64) × (mmu.is_physical p ≡ true)
  unfolding physical_address
  physical_address-done frame addr p e =
      let (phys, added, e₁) = >>=-eq-done (add_usize frame (mmu.page_offset addr)) _ e in
      let (room, at) = add-done frame (mmu.page_offset addr) phys added in
      let (u, canonical, e₂) = >>=-eq-done (assert (mmu.is_physical phys)) _ e₁ in
      let same : phys ≡ p = done-injective _ _ e₂ in
      let offset = mmu.page_offset_lem addr in
      (
        omega (arith, at, same, offset),
        omega (arith, room, at, same),
        rw same at (assert-done _ u canonical),
      )

  done-physical_address :
      (frame addr p : ℕ)
      → p ≡ frame + addr % 4096
      → p < 2 ^ 64
      → mmu.is_physical p ≡ true
      → physical_address frame addr ≡ done p
  unfolding physical_address
  done-physical_address frame addr p e room canonical =
      let sum : frame + mmu.page_offset addr ≡ p = omega (arith, mmu.page_offset_lem addr) in
      rw
        (
          physical_address,
          add_usize-done frame (mmu.page_offset addr) (omega (arith, sum)),
          sum,
          canonical,
        )
        refl

  -- `translate_addr` gives a physical address exactly when the four nine-bit parts of the address
  -- above its lowest 12 bits, the highest first, lead through tables at virtual addresses from the
  -- level 4 table to a frame, and the physical address is the frame's start plus the number in
  -- those 12 bits, and is one that fits.
  pub translate_addr_lem :
      (addr physical_memory_offset p : ℕ)
      → (translate_addr addr physical_memory_offset ≡ done (some p)) ↔ (
          (frame : ℕ) × Leads physical_memory_offset addr 4 mmu.level_4_table_frame frame
          × (p ≡ frame + addr % 4096)
          × (p < 2 ^ 64)
          × (mmu.is_physical p ≡ true))
  unfolding translate_addr
  translate_addr_lem addr offset p = (
    λ e.
        let (found, walked, e₁) =
          >>=-eq-done (walk offset (table_indexes addr) mmu.level_4_table_frame) _ e in
        elim (Option-cases found) [
          | inl nothing ↦ let bad = rw nothing at e₁ in absurd cc
          | inr (frame, is_frame) ↦
              let (phys, got, e₂) =
                >>=-eq-done (physical_address frame addr) _ (rw is_frame at e₁) in
              let same : phys ≡ p = some-injective _ _ (done-injective _ _ e₂) in
              let (at, room, canonical) = physical_address-done frame addr p (rw same at got) in
              (
                frame,
                Leads-walk offset addr 4 mmu.level_4_table_frame frame
                    (rw (table_indexes_lem addr, is_frame) at walked),
                at,
                room,
                canonical,
              )
        ],
    λ (frame, leads, at, room, canonical).
        rw
          (
            translate_addr,
            table_indexes_lem addr,
            walk-Leads offset addr 4 mmu.level_4_table_frame frame leads,
            done-physical_address frame addr p at room canonical,
          )
          refl,
  )
