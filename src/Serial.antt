-- ===== src/Serial.antt =====
-- src/serial.rs: `SERIAL1` and `_print`. The `uart_16550` crate's `SerialPort` is a parameter.
use blog_os.Base.{ℕ, List, [], ◌∷◌, Result, ok, err, Exec, done, ◌>>=◌, expect_ok}

pub record SerialPort (P E : Type 0) : Type 0 where
  pub new : ℕ → P
  pub init : P → P
  pub write_str : P → List ℕ → Result E (Unit {0}) × P

module _ {P E : Type 0} (port : SerialPort P E) where
  -- The initial value of `SERIAL1`
  unfoldable pub serial1 : P
  serial1 = port.init (port.new 0x3f8)

  -- `write_fmt` of `core::fmt::Write`, which stops at the first error; `args` are the strings that the
  -- formatting code passes to `write_str`.
  unfoldable pub write_fmt : P → List (List ℕ) → Result E (Unit {0}) × P
  write_fmt p [] = (ok tt, p)
  write_fmt p (s ∷ args) =
      let (written, p') = port.write_str p s in
      elim written [ ok u ↦ write_fmt p' args | err e ↦ (err e, p') ]

  -- `_print`
  unfoldable pub print : List (List ℕ) → P → Exec P
  print args p = let (written, p') = write_fmt p args in expect_ok written >>= λ u. done p'
