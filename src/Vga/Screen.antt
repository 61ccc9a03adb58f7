-- ===== src/Vga/Screen.antt =====
-- src/vga_buffer.rs: `Buffer`, the memory of the screen, and the loops over it.
use blog_os.Base.{
  ℕ, zero, suc, ◌<◌, ◌≡◌, arith, ltb, ◌==◌, ◌&&◌, if◌then◌else◌, Exec, done, panic, ◌>>=◌,
}
use blog_os.Vga.Colors.{ScreenChar}

abbrev pub buffer_height : ℕ
buffer_height = 25

abbrev pub buffer_width : ℕ
buffer_width = 80

-- `[[Volatile<ScreenChar>; BUFFER_WIDTH]; BUFFER_HEIGHT]`: what stands at a row and a column.
abbrev pub Buffer : Type 0
Buffer = ℕ → ℕ → ScreenChar

-- `chars[row][col].read()`: an index out of bounds panics.
unfoldable pub read : Buffer → ℕ → ℕ → Exec ScreenChar
read chars row col =
    if ltb row buffer_height && ltb col buffer_width then done (chars row col) else panic

unfoldable pub put : Buffer → ℕ → ℕ → ScreenChar → Buffer
put chars row col c r k = if r == row && k == col then c else chars r k

-- `chars[row][col].write(c)`
unfoldable pub write : Buffer → ℕ → ℕ → ScreenChar → Exec Buffer
write chars row col c =
    if ltb row buffer_height && ltb col buffer_width then done (put chars row col c) else panic

-- `for i in first..first + count`
abbrev pub for_range {ℓ} : {S : Type ℓ} → ℕ → ℕ → (ℕ → S → Exec S) → S → Exec S
for_range zero first body s = done s
for_range (suc count) first body s = body first s >>= for_range count (suc first) body

pub read_lem :
    (chars : Buffer) (row col : ℕ) → row < 25 → col < 80 → read chars row col ≡ done (chars row col)
unfolding read
read_lem chars row col h k = ground arith

pub write_lem :
    (chars : Buffer) (row col : ℕ) (c : ScreenChar)
    → row < 25
    → col < 80
    → write chars row col c ≡ done (put chars row col c)
unfolding write
write_lem chars row col c h k = ground arith

pub put_here : (chars : Buffer) (row col : ℕ) (c : ScreenChar) → put chars row col c row col ≡ c
unfolding put
put_here chars row col c = ground arith

pub put_elsewhere :
    (chars : Buffer) (row col r k : ℕ) (c : ScreenChar)
    → (r ≡ row → k ≡ col → ⊥)
    → put chars row col c r k ≡ chars r k
unfolding put
put_elsewhere chars row col r k c h = ground arith
