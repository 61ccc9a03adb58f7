-- ===== src/Tests/Screens.antt =====
-- The theorems of src/vga_buffer.rs on a blank screen.
use blog_os.Base.{ℕ, ◌<◌, ◌≡◌, arith, List, [], ◌∷◌, some, get_elem?, done, ok}
use blog_os.Vga.Colors.{ColorCode}
use blog_os.Vga.Writer.{Writer}
use blog_os.Vga.Formatting.{write_fmt}
use blog_os.Vga.Lines.{line_args, test_println_output, test_println_output_lem}
use blog_os.Vga.Printing.{glyph}

abbrev color : ColorCode
color = record { value = 0x1e }

-- `A` everywhere, and the cursor at a column.
abbrev writer_at : ℕ → Writer
writer_at column = record {
  column_position = column;
  color_code = color;
  buffer = λ r k. glyph color b'A';
}

abbrev hello : List ℕ
hello = b'h' ∷ b'i' ∷ []

test_println_output_lem_example :
    (v : Writer) × (write_fmt (writer_at 77) (line_args hello) ≡ done (ok tt, v))
    × ((i byte : ℕ) → get_elem? hello i ≡ some byte → v.buffer 23 i ≡ glyph color byte)
    × ((k : ℕ) → k < 80 → v.buffer 24 k ≡ glyph color 32)
    × (test_println_output hello (writer_at 77) ≡ done v)
test_println_output_lem_example =
    test_println_output_lem hello (writer_at 77)
      ((omega arith, omega arith), ((omega arith, omega arith), tt)) (omega arith)
