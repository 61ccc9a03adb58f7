-- ===== src/Vga/Scroll.antt =====
-- src/vga_buffer.rs: what `new_line` does to the screen.
use native.Mathlib.Decide.{ℕ_discrete}
use blog_os.Base.{
  ℕ, zero, suc, ◌+◌, ◌-◌, ◌≤◌, ◌<◌, ◌≡◌, ◌≢◌, refl, sym, subst, ◌∙◌, arith, Exec, done, ◌>>=◌,
}
use blog_os.Vga.Colors.{ScreenChar}
use blog_os.Vga.Screen.{
  Buffer, read, write, put, for_range, read_lem, write_lem, put_here, put_elsewhere,
}
use blog_os.Vga.Writer.{Writer, blank, clear_row, move_row_up, new_line}

-- The columns from `first` on of `row` stand in the row above, and nothing else changed.
record Moved (row first count : ℕ) (chars out : Buffer) : Type 0 where
  moved : (k : ℕ) → first ≤ k → k < first + count → out (row - 1) k ≡ chars row k
  kept_left : (r k : ℕ) → k < first → out r k ≡ chars r k
  kept_rows : (r k : ℕ) → suc r ≢ row → out r k ≡ chars r k

abbrev move_cell : ℕ → ℕ → Buffer → Exec Buffer
move_cell row col chars = do character ← read chars row col; write chars (row - 1) col character

move_cell_lem :
    (row col : ℕ) (chars : Buffer)
    → 1 ≤ row
    → row < 25
    → col < 80
    → move_cell row col chars ≡ done (put chars (row - 1) col (chars row col))
move_cell_lem row col chars h k m =
    rw (read_lem chars row col k m) (write_lem chars (row - 1) col (chars row col) (omega arith) m)

extend :
    (row first count : ℕ) (chars out : Buffer)
    → 1 ≤ row
    → Moved row (suc first) count (put chars (row - 1) first (chars row first)) out
    → Moved row first (suc count) chars out
extend row first count chars out h rest = record {
  moved = λ k p q. elim (ℕ_discrete k first) [
    | yes e ↦ rw e (
        rest.kept_left (row - 1) first (omega arith)
        ∙ put_here chars (row - 1) first (chars row first))
    | no apart ↦
        rest.moved k (omega arith) (omega arith)
        ∙ put_elsewhere chars (row - 1) first row k (chars row first)
            (λ same _. absurd (omega arith))
  ];
  kept_left = λ r k p.
      rest.kept_left r k (omega arith)
      ∙ put_elsewhere chars (row - 1) first r k (chars row first) (λ _ same. absurd (omega arith));
  kept_rows = λ r k ne.
      rest.kept_rows r k ne
      ∙ put_elsewhere chars (row - 1) first r k (chars row first)
          (λ same _. absurd (ne (omega arith)));
}

move_cells :
    (row first count : ℕ) (chars : Buffer)
    → 1 ≤ row
    → row < 25
    → first + count ≤ 80
    → (out : Buffer) × (for_range count first (move_cell row) chars ≡ done out)
      × Moved row first count chars out
move_cells row first zero chars h k m = (
  chars,
  refl,
  record {
    moved = λ j p q. absurd (omega arith);
    kept_left = λ r j p. refl;
    kept_rows = λ r j p. refl;
  },
)
move_cells row first (suc count) chars h k m =
    let next = put chars (row - 1) first (chars row first) in
    let (out, run, rest) = move_cells row (suc first) count next h k (omega arith) in
    let step = move_cell_lem row first chars h k (omega arith) in
    (out, rw step run, extend row first count chars out h rest)

-- The rows from `first` on stand one row higher, and the rows above them are as they were.
record Shifted (first count : ℕ) (chars out : Buffer) : Type 0 where
  shifted : (r k : ℕ) → first ≤ suc r → suc r < first + count → k < 80 → out r k ≡ chars (suc r) k
  kept_above : (r k : ℕ) → suc r < first → out r k ≡ chars r k

extend_rows :
    (first count : ℕ) (chars next out : Buffer)
    → Moved first 0 80 chars next
    → Shifted (suc first) count next out
    → Shifted first (suc count) chars out
extend_rows first count chars next out one rest = record {
  shifted = λ r k p q low. elim (ℕ_discrete (suc r) first) [
    | yes e ↦
        let here : r ≡ first - 1 = omega arith in
        let above : next r k ≡ chars (suc r) k =
          subst (λ f. next r k ≡ chars f k) (sym e)
            (subst (λ i. next i k ≡ chars first k) (sym here)
              (one.moved k (omega arith) (omega arith))) in
        rest.kept_above r k (omega arith) ∙ above
    | no apart ↦
        rest.shifted r k (omega arith) (omega arith) low
        ∙ one.kept_rows (suc r) k (λ e. absurd (omega arith))
  ];
  kept_above =
      λ r k p. rest.kept_above r k (omega arith) ∙ one.kept_rows r k (λ e. absurd (omega arith));
}

shift_rows :
    (first count : ℕ) (chars : Buffer)
    → 1 ≤ first
    → first + count ≤ 25
    → (out : Buffer) × (for_range count first move_row_up chars ≡ done out)
      × Shifted first count chars out
unfolding move_row_up
shift_rows first zero chars h m = (
  chars,
  refl,
  record { shifted = λ r k p q low. absurd (omega arith); kept_above = λ r k p. refl },
)
shift_rows first (suc count) chars h m =
    let (next, step, one) = move_cells first 0 80 chars h (omega arith) (omega arith) in
    let (out, run, rest) = shift_rows (suc first) count next (omega arith) (omega arith) in
    (out, rw step run, extend_rows first count chars next out one rest)

clear_cells :
    (row first count : ℕ) (c : ScreenChar) (chars : Buffer)
    → row < 25
    → first + count ≤ 80
    → (out : Buffer) × (for_range count first (λ col now. write now row col c) chars ≡ done out)
      × ((k : ℕ) → first ≤ k → k < first + count → out row k ≡ c)
      × ((r k : ℕ) → (r ≡ row → first ≤ k → ⊥) → out r k ≡ chars r k)
clear_cells row first zero c chars h m =
    (chars, refl, (λ k p q. absurd (omega arith)), (λ r k ne. refl))
clear_cells row first (suc count) c chars h m =
    let next = put chars row first c in
    let (out, run, cleared, kept) = clear_cells row (suc first) count c next h (omega arith) in
    let step = write_lem chars row first c h (omega arith) in
    (
      out,
      rw step run,
      (λ k p q. elim (ℕ_discrete k first) [
        | yes e ↦ rw e (kept row first (λ _ low. absurd (omega arith)) ∙ put_here chars row first c)
        | no apart ↦ cleared k (omega arith) (omega arith)
      ]),
      (λ r k ne.
          kept r k (λ e low. ne e (omega arith))
          ∙ put_elsewhere chars row first r k c (λ e same. ne e (omega arith))),
    )

-- `new_line` always succeeds. Every row but the last then holds what the row below held, the last
-- row is blank in the writer's color, and the next byte goes to its first column.
pub new_line_lem :
    (w : Writer)
    → (v : Writer) × (new_line w ≡ done v)
      × (v.column_position ≡ 0)
      × (v.color_code ≡ w.color_code)
      × ((r k : ℕ) → r < 24 → k < 80 → v.buffer r k ≡ w.buffer (suc r) k)
      × ((k : ℕ) → k < 80 → v.buffer 24 k ≡ blank w)
unfolding new_line clear_row
new_line_lem w =
    let (chars, run, up) = shift_rows 1 24 w.buffer (omega arith) (omega arith) in
    let (out, clear, cleared, kept) =
      clear_cells 24 0 80 (blank w) chars (omega arith) (omega arith) in
    (
      record { column_position = 0; color_code = w.color_code; buffer = out },
      rw (run, clear) refl,
      refl,
      refl,
      (λ r k p q.
          kept r k (λ e low. absurd (omega arith)) ∙ up.shifted r k (omega arith) (omega arith) q),
      (λ k p. cleared k (omega arith) (omega arith)),
    )
