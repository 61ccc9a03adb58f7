-- ===== src/Vga/Lines.antt =====
-- src/vga_buffer.rs: a line that `writeln!` prints, and the test `test_println_output`.
use blog_os.Base.{
  ℕ, zero, suc, ◌+◌, ◌-◌, ◌≤◌, ◌<◌, ◌≡◌, refl, ap, sym, ◌∙◌, List, [], ◌∷◌, length, get_elem?, some,
  ok, err, Exec, done, done-injective, panic, ◌>>=◌, ◌>>◌, assert, ◌==◌, true, All, arith,
}
use blog_os.Vga.Colors.{ScreenChar}
use blog_os.Vga.Screen.{Buffer, buffer_height, read, read_lem}
use blog_os.Vga.Writer.{Writer, write_byte, write_string, new_line}
use blog_os.Vga.Scroll.{new_line_lem}
use blog_os.Vga.Printing.{glyph, write_string_prints, write_string_total}
use blog_os.Vga.Formatting.{write_str, write_fmt}

-- The strings of `writeln!(writer, "\n{}", s)`
abbrev pub line_args : List ℕ → List (List ℕ)
line_args s = (10 ∷ []) ∷ s ∷ (10 ∷ []) ∷ []

-- The loop of `test_println_output` over the characters, from column `i` on.
unfoldable pub check_row : Buffer → ℕ → List ℕ → Exec (Unit {0})
check_row chars i [] = done tt
check_row chars i (c ∷ s) = do
  screen_char ← read chars (buffer_height - 2) i
  assert (screen_char.ascii_character == c)
  check_row chars (i + 1) s

-- `test_println_output` for the line `s`: what it leaves on the screen.
unfoldable pub test_println_output : List ℕ → Writer → Exec Writer
test_println_output s writer = do
  (written, writer') ← write_fmt writer (line_args s)
  elim written [ err e ↦ panic | ok u ↦ check_row writer'.buffer 0 s >>= λ u. done writer' ]

line_feed : (w v : Writer) → new_line w ≡ done v → write_string w (10 ∷ []) ≡ done v
unfolding write_string write_byte
line_feed w v e = rw (write_string, write_byte, e) refl

get_elem?-some : (s : List ℕ) (i byte : ℕ) → get_elem? s i ≡ some byte → i < length s
get_elem?-some [] i byte e = absurd cc
get_elem?-some (c ∷ s) zero byte e = omega arith
get_elem?-some (c ∷ s) (suc i) byte e = omega (arith, get_elem?-some s i byte e)

check_row_lem :
    (chars : Buffer) (s : List ℕ) (i : ℕ)
    → i + length s ≤ 80
    → ((k byte : ℕ) → get_elem? s k ≡ some byte → (chars 23 (i + k)).ascii_character ≡ byte)
    → check_row chars i s ≡ done tt
unfolding check_row
check_row_lem chars [] i room there = refl
check_row_lem chars (c ∷ s) i room there =
    let shown = read_lem chars 23 i (omega arith) (omega arith) in
    let here : (chars 23 i).ascii_character ≡ c =
      ap (λ k. (chars 23 k).ascii_character) (omega arith) ∙ there 0 c refl in
    let same : ((chars 23 i).ascii_character == c) ≡ true = ground (arith, here) in
    let rest =
      check_row_lem chars s (i + 1) (omega arith)
        (λ k byte e. ap (λ n. (chars 23 n).ascii_character) (omega arith) ∙ there (suc k) byte e) in
    rw (check_row, shown, same) rest

-- A line of at most 80 printable bytes that `writeln!` prints between two line feeds stands on the
-- last but one row from the first column on, above a blank row; and `test_println_output`, which
-- compares that row with the line, returns, wherever the cursor was.
pub test_println_output_lem :
    (s : List ℕ) (w : Writer)
    → All (λ byte. (32 ≤ byte) × (byte ≤ 126)) s
    → length s ≤ 80
    → (v : Writer) × (write_fmt w (line_args s) ≡ done (ok tt, v))
      × ((i byte : ℕ) → get_elem? s i ≡ some byte → v.buffer 23 i ≡ glyph w.color_code byte)
      × ((k : ℕ) → k < 80 → v.buffer 24 k ≡ glyph w.color_code 32)
      × (test_println_output s w ≡ done v)
unfolding test_println_output write_fmt write_str
test_println_output_lem s w printable short =
    let (w₁, first, start, color₁, up₁, cleared₁) = new_line_lem w in
    let (w₂, wrote, column, there, kept) =
      write_string_prints s w₁ printable (omega (arith, start)) in
    let (v, second, end, color₂, up₂, cleared₂) = new_line_lem w₂ in
    let (w₂', again, low, color) = write_string_total s w₁ (omega (arith, start)) in
    let same : w₂' ≡ w₂ = done-injective w₂' w₂ (sym again ∙ wrote) in
    let kept_color : w₂.color_code ≡ w.color_code =
      ap (λ (u : Writer). u.color_code) (sym same) ∙ color ∙ color₁ in
    let row : (i byte : ℕ) → get_elem? s i ≡ some byte → v.buffer 23 i ≡ glyph w.color_code byte =
      λ i byte e.
        up₂ 23 i (omega arith) (omega (arith, get_elem?-some s i byte e, short))
        ∙ ap (λ n. w₂.buffer 24 n) (omega (arith, start))
        ∙ there i byte e
        ∙ ap (λ c. glyph c byte) color₁ in
    let args : write_fmt w (line_args s) ≡ done (ok tt, v) =
      rw (write_fmt, write_str, line_feed w w₁ first, wrote, line_feed w₂ v second) refl in
    let checked = check_row_lem v.buffer s 0 (omega arith) (λ k byte e.
      ap (λ n. (v.buffer 23 n).ascii_character) (omega arith)
      ∙ ap (λ (c : ScreenChar). c.ascii_character) (row k byte e)) in
    (
      v,
      args,
      row,
      λ k h. cleared₂ k h ∙ ap (λ c. glyph c 32) kept_color,
      rw (test_println_output, args, checked) refl,
    )
