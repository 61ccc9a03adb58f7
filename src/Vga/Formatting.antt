-- ===== src/Vga/Formatting.antt =====
-- src/vga_buffer.rs: `fmt::Write` for `Writer`, `_print`, `print_something` and `WRITER`.
use blog_os.Base.{
  ℕ, ◌≡◌, refl, List, [], ◌∷◌, ◌++◌, Result, ok, err, Exec, done, panic, ◌>>=◌, Exec-cases, inl,
  inr,
}
use blog_os.Vga.Colors.{Color, color_code_new}
use blog_os.Vga.Screen.{Buffer}
use blog_os.Vga.Writer.{Writer, write_byte, write_string, shown}

-- `fmt::Write::write_str`, which never returns an error
unfoldable pub write_str : Writer → List ℕ → Exec (Result (Unit {0}) (Unit {0}) × Writer)
write_str self s = do self' ← write_string self s; done (ok tt, self')

-- `write_fmt` of `core::fmt::Write`: the arguments are the strings that the formatting code passes
-- to `write_str`, in order.
unfoldable pub write_fmt : Writer → List (List ℕ) → Exec (Result (Unit {0}) (Unit {0}) × Writer)
write_fmt self [] = done (ok tt, self)
write_fmt self (s ∷ args) = do
  (written, self') ← write_str self s
  elim written [ ok u ↦ write_fmt self' args | err e ↦ done (err e, self') ]

-- `_print`: `WRITER` under its lock, with `unwrap` on the result
unfoldable pub print : List (List ℕ) → Writer → Exec Writer
print args writer = do
  (written, writer') ← write_fmt writer args
  elim written [ ok u ↦ done writer' | err e ↦ panic ]

-- The initial value of `WRITER`, on the screen's memory.
unfoldable pub writer_static : Buffer → Writer
writer_static buffer = record {
  column_position = 0;
  color_code = color_code_new Color.yellow Color.red;
  buffer = buffer;
}

-- `print_something`; `args` are the strings of its `write!`.
unfoldable pub print_something : List (List ℕ) → Buffer → Exec Writer
print_something args buffer = do
  with_letter ←
      write_byte
        (record {
          column_position = 0;
          color_code = color_code_new Color.yellow Color.blue;
          buffer = buffer;
        })
        b'H'
  with_word ← write_string with_letter (b'e' ∷ b'l' ∷ b'l' ∷ b'o' ∷ b' ' ∷ [])
  (written, writer) ← write_fmt with_word args
  elim written [ ok u ↦ done writer | err e ↦ panic ]

-- The strings, one behind the other.
abbrev pub joined : List (List ℕ) → List ℕ
joined [] = []
joined (s ∷ args) = s ++ joined args

write_string-append :
    (self : Writer) (s t : List ℕ)
    → write_string self (s ++ t) ≡ (write_string self s >>= λ next. write_string next t)
unfolding write_string
write_string-append self [] t = refl
write_string-append self (byte ∷ s) t = elim (Exec-cases (write_byte self (shown byte))) [
  | inl stop ↦ rw (write_string, stop) refl
  | inr (next, e) ↦ rw (write_string, e) (write_string-append next s t)
]

-- `_print` puts on the screen what `write_string` does with its strings joined: where the formatting
-- code divides the text does not show, and the `unwrap` never fails.
pub print-write_string :
    (args : List (List ℕ)) (writer : Writer) → print args writer ≡ write_string writer (joined args)
unfolding print write_fmt write_str write_string
print-write_string [] writer = refl
print-write_string (s ∷ args) writer = elim (Exec-cases (write_string writer s)) [
  | inl stop ↦
      rw (print, write_fmt, write_str, write_string-append writer s (joined args), stop) refl
  | inr (next, e) ↦
      rw (print, write_fmt, write_str, write_string-append writer s (joined args), e)
        (print-write_string args next)
]
