-- ===== src/Vga/Printing.antt =====
-- src/vga_buffer.rs: what the writer's methods print.
use native.Mathlib.Decide.{ℕ_discrete, dec_lt}
use blog_os.Base.{
  ℕ, zero, suc, ◌+◌, ◌≤◌, ◌<◌, ◌≡◌, ◌≢◌, refl, sym, subst, ap, ◌∙◌, arith, List, [], ◌∷◌, some,
  some-injective, length, get_elem?, All, true, false, leb, ◌==◌, done,
}
use blog_os.Vga.Colors.{ColorCode, ScreenChar}
use blog_os.Vga.Screen.{put, write_lem, put_here, put_elsewhere}
use blog_os.Vga.Writer.{Writer, blank, put_byte, write_byte, write_string, shown}
use blog_os.Vga.Scroll.{new_line_lem}

-- What the writer shows of a byte.
abbrev pub glyph : ColorCode → ℕ → ScreenChar
glyph color byte = record { ascii_character = byte; color_code = color }

put_byte_lem :
    (byte : ℕ) (w : Writer)
    → w.column_position < 80
    → put_byte byte w
      ≡ done (record w {
        column_position = w.column_position + 1;
        buffer = put w.buffer 24 w.column_position (glyph w.color_code byte);
      })
unfolding put_byte
put_byte_lem byte w h =
    rw (write_lem w.buffer 24 w.column_position (glyph w.color_code byte) (omega arith) h) refl

-- A byte that fits on the line.
write_byte_fits :
    (w : Writer) (byte : ℕ)
    → byte ≢ 10
    → w.column_position < 80
    → write_byte w byte
      ≡ done (record w {
        column_position = w.column_position + 1;
        buffer = put w.buffer 24 w.column_position (glyph w.color_code byte);
      })
unfolding write_byte
write_byte_fits w byte ne h =
    let line : (byte == 10) ≡ false = ground arith in
    let fits : leb 80 w.column_position ≡ false = ground arith in
    rw (write_byte, line, fits) (put_byte_lem byte w h)

-- A byte on a full line: the screen scrolls, and the byte starts the new last row.
pub write_byte_wraps :
    (w : Writer) (byte : ℕ)
    → byte ≢ 10
    → 80 ≤ w.column_position
    → (v : Writer) × (write_byte w byte ≡ done v)
      × (v.column_position ≡ 1)
      × (v.color_code ≡ w.color_code)
      × ((r k : ℕ) → r < 24 → k < 80 → v.buffer r k ≡ w.buffer (suc r) k)
      × (v.buffer 24 0 ≡ glyph w.color_code byte)
      × ((k : ℕ) → 0 < k → k < 80 → v.buffer 24 k ≡ blank w)
unfolding write_byte
write_byte_wraps w byte ne h =
    let line : (byte == 10) ≡ false = ground arith in
    let full : leb 80 w.column_position ≡ true = ground arith in
    let (u, run, start, color, up, cleared) = new_line_lem w in
    let place = put_byte_lem byte u (omega (arith, start)) in
    (
      record u {
        column_position = u.column_position + 1;
        buffer = put u.buffer 24 u.column_position (glyph u.color_code byte);
      },
      rw (write_byte, line, full, run) place,
      omega (arith, start),
      color,
      (λ r k p q.
          put_elsewhere u.buffer 24 u.column_position r k (glyph u.color_code byte)
            (λ e _. absurd (omega arith))
          ∙ up r k p q),
      subst (λ c. put u.buffer 24 c (glyph u.color_code byte) 24 0 ≡ glyph w.color_code byte)
          (sym start)
          (put_here u.buffer 24 0 (glyph u.color_code byte) ∙ ap (λ c. glyph c byte) color),
      (λ k p q.
          put_elsewhere u.buffer 24 u.column_position 24 k (glyph u.color_code byte)
            (λ _ e. absurd (omega (arith, start)))
          ∙ cleared k q),
    )

write_byte_total :
    (w : Writer) (byte : ℕ)
    → w.column_position ≤ 80
    → (v : Writer) × (write_byte w byte ≡ done v)
      × (v.column_position ≤ 80)
      × (v.color_code ≡ w.color_code)
unfolding write_byte
write_byte_total w byte h = elim (ℕ_discrete byte 10) [
  | yes e ↦
      let (v, run, start, color, _, _) = new_line_lem w in
      let line : (byte == 10) ≡ true = ground (arith, e) in
      (v, rw (write_byte, line) run, omega (arith, start), color)
  | no ne ↦ elim (dec_lt w.column_position 80) [
    | yes room ↦ (
      record w {
        column_position = w.column_position + 1;
        buffer = put w.buffer 24 w.column_position (glyph w.color_code byte);
      },
      write_byte_fits w byte ne room,
      omega arith,
      refl,
    )
    | no full ↦
        let (v, run, one, color, _, _, _) = write_byte_wraps w byte ne (omega arith) in
        (v, run, omega (arith, one), color)
  ]
]

-- Any bytes can be written: the writer never leaves the screen, and keeps its color.
pub write_string_total :
    (s : List ℕ) (w : Writer)
    → w.column_position ≤ 80
    → (v : Writer) × (write_string w s ≡ done v)
      × (v.column_position ≤ 80)
      × (v.color_code ≡ w.color_code)
unfolding write_string
write_string_total [] w h = (w, refl, h, refl)
write_string_total (byte ∷ s) w h =
    let (u, step, low, color) = write_byte_total w (shown byte) h in
    let (v, run, low', color') = write_string_total s u low in
    (v, rw step run, low', color' ∙ color)

shown_printable : (byte : ℕ) → 32 ≤ byte → byte ≤ 126 → shown byte ≡ byte
shown_printable byte h k =
    let low : leb 32 byte ≡ true = ground arith in
    let high : leb byte 126 ≡ true = ground arith in rw (low, high) refl

printed_cons :
    (row : ℕ → ScreenChar) (col : ℕ) (color : ColorCode) (byte : ℕ) (s : List ℕ)
    → row col ≡ glyph color byte
    → ((i b : ℕ) → get_elem? s i ≡ some b → row (col + 1 + i) ≡ glyph color b)
    → (i b : ℕ) → get_elem? (byte ∷ s) i ≡ some b
    → row (col + i) ≡ glyph color b
printed_cons row col color byte s here later zero b e =
    subst (λ c. row c ≡ glyph color b) (omega arith)
      (here ∙ ap (glyph color) (some-injective _ _ e))
printed_cons row col color byte s here later (suc i) b e =
    subst (λ c. row c ≡ glyph color b) (omega arith) (later i b e)

-- Printable bytes that fit on the line stand there in the order of the string, in the writer's
-- color; the cursor is behind them, and no other cell of the screen changed.
pub write_string_prints :
    (s : List ℕ) (w : Writer)
    → All (λ byte. (32 ≤ byte) × (byte ≤ 126)) s
    → w.column_position + length s ≤ 80
    → (v : Writer) × (write_string w s ≡ done v)
      × (v.column_position ≡ w.column_position + length s)
      × ((i byte : ℕ)
          → get_elem? s i ≡ some byte
          → v.buffer 24 (w.column_position + i) ≡ glyph w.color_code byte)
      × ((r k : ℕ)
          → (r ≡ 24 → w.column_position ≤ k → w.column_position + length s ≤ k)
          → v.buffer r k ≡ w.buffer r k)
unfolding write_string
write_string_prints [] w h room = (w, refl, omega arith, (λ i byte e. cc), (λ r k p. refl))
write_string_prints (byte ∷ s) w h room =
    let u : Writer = record w {
      column_position = w.column_position + 1;
      buffer = put w.buffer 24 w.column_position (glyph w.color_code byte);
    } in
    let step = write_byte_fits w byte (λ e. absurd (omega (arith, h.0.0))) (omega arith) in
    let (v, run, end, printed, kept) = write_string_prints s u h.1 (omega arith) in
    (
      v,
      rw (shown_printable byte h.0.0 h.0.1, step) run,
      omega (arith, end),
      printed_cons (v.buffer 24) w.column_position w.color_code byte s
          (kept 24 w.column_position (λ _ low. absurd (omega arith))
            ∙ put_here w.buffer 24 w.column_position (glyph w.color_code byte))
          printed,
      (λ r k out.
          kept r k (λ e low. let far = out e (omega arith) in omega (arith, far))
          ∙ put_elsewhere w.buffer 24 w.column_position r k (glyph w.color_code byte) (λ e same.
            let far = out e (omega (arith, same)) in absurd (omega (arith, far, same)))),
    )
