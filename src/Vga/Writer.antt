-- ===== src/Vga/Writer.antt =====
-- src/vga_buffer.rs: `Writer` and its methods.
use blog_os.Base.{
  ℕ, ◌+◌, ◌-◌, ◌==◌, leb, ◌&&◌, ◌||◌, if◌then◌else◌, List, [], ◌∷◌, Exec, done, ◌>>=◌,
}
use blog_os.Vga.Colors.{ColorCode, ScreenChar}
use blog_os.Vga.Screen.{Buffer, buffer_height, buffer_width, read, write, for_range}

pub record Writer : Type 0 where
  pub column_position : ℕ
  pub color_code : ColorCode
  pub buffer : Buffer

-- the character that `clear_row` writes
abbrev pub blank : Writer → ScreenChar
blank self = record { ascii_character = 32; color_code = self.color_code }

unfoldable pub clear_row : Writer → ℕ → Exec Writer
clear_row self row = do
  chars ← for_range buffer_width 0 (λ col chars. write chars row col (blank self)) self.buffer
  done (record self { buffer = chars })

-- the inner loop of `new_line`
unfoldable pub move_row_up : ℕ → Buffer → Exec Buffer
move_row_up row =
    for_range buffer_width 0
      (λ col chars. do character ← read chars row col; write chars (row - 1) col character)

unfoldable pub new_line : Writer → Exec Writer
new_line self = do
  chars ← for_range (buffer_height - 1) 1 move_row_up self.buffer
  cleared ← clear_row (record self { buffer = chars }) (buffer_height - 1)
  done (record cleared { column_position = 0 })

-- what `write_byte` does for a byte that is not a line feed, after the wrap
unfoldable pub put_byte : ℕ → Writer → Exec Writer
put_byte byte self = do
  chars ←
      write self.buffer (buffer_height - 1) self.column_position
        (record { ascii_character = byte; color_code = self.color_code })
  done (record self { buffer = chars; column_position = self.column_position + 1 })

unfoldable pub write_byte : Writer → ℕ → Exec Writer
write_byte self byte = if byte == 10 then new_line self else do
  wrapped ← if leb buffer_width self.column_position then new_line self else done self
  put_byte byte wrapped

-- the byte that `write_string` passes to `write_byte`
abbrev pub shown : ℕ → ℕ
shown byte = if leb 32 byte && leb byte 126 || byte == 10 then byte else 254

-- on the bytes of the string
unfoldable pub write_string : Writer → List ℕ → Exec Writer
write_string self [] = done self
write_string self (byte ∷ s) = do next ← write_byte self (shown byte); write_string next s
