-- ===== src/Scanc.antt =====
-- src/scanc.rs: the table of scancodes.
use blog_os.Base.{
  ℕ, ◌<◌, ◌≡◌, refl, sym, ap, ◌∙◌, [], ◌∷◌, Option, none, some, Bool, true, ◌==◌, if◌then◌else◌,
  ==_iff,
}
use blog_os.Base.Maps.{Map, lookup}
use blog_os.Base.Bytes.{all_below, all_below_sound}

-- The arms of the `match`; a string of one character is its byte.
abbrev pub keys : Map ℕ
keys =
    (0x02, 0x31)
    ∷ (0x03, 0x32)
    ∷ (0x04, 0x33)
    ∷ (0x05, 0x34)
    ∷ (0x06, 0x35)
    ∷ (0x07, 0x36)
    ∷ (0x08, 0x37)
    ∷ (0x09, 0x38)
    ∷ (0x0a, 0x39)
    ∷ (0x0b, 0x30)
    ∷ (0x1e, 0x61)
    ∷ (0x30, 0x62)
    ∷ (0x2e, 0x63)
    ∷ (0x20, 0x64)
    ∷ (0x12, 0x65)
    ∷ (0x21, 0x66)
    ∷ (0x22, 0x67)
    ∷ (0x23, 0x68)
    ∷ (0x17, 0x69)
    ∷ (0x24, 0x6a)
    ∷ (0x25, 0x6b)
    ∷ (0x26, 0x6c)
    ∷ (0x32, 0x6d)
    ∷ (0x31, 0x6e)
    ∷ (0x18, 0x6f)
    ∷ (0x19, 0x70)
    ∷ (0x10, 0x71)
    ∷ (0x13, 0x72)
    ∷ (0x1f, 0x73)
    ∷ (0x14, 0x74)
    ∷ (0x16, 0x75)
    ∷ (0x2f, 0x76)
    ∷ (0x11, 0x77)
    ∷ (0x2d, 0x78)
    ∷ (0x15, 0x79)
    ∷ (0x2c, 0x7a)
    ∷ (0x39, 0x20)
    ∷ (0x0c, 0x2d)
    ∷ (0x0d, 0x3d)
    ∷ (0x1a, 0x5b)
    ∷ (0x1b, 0x5d)
    ∷ (0x2b, 0x5c)
    ∷ (0x27, 0x3b)
    ∷ (0x28, 0x27)
    ∷ (0x33, 0x2c)
    ∷ (0x34, 0x2e)
    ∷ (0x35, 0x2f)
    ∷ []

-- `get_key`
unfoldable pub get_key : ℕ → Option ℕ
get_key scancode = lookup keys scancode

-- The scancode of a key, in a table.
abbrev pub scancode_of : Map ℕ → ℕ → ℕ
scancode_of [] key = 0
scancode_of ((scancode, k) ∷ rest) key =
    let later = scancode_of rest key in if k == key then scancode else later

abbrev is_inverse : Option ℕ → ℕ → Bool
is_inverse none scancode = true
is_inverse (some key) scancode = scancode_of keys key == scancode

-- A byte that has a key is the scancode that the table has for that key: no two scancodes have
-- the same key.
pub scancode_of-get_key :
    (scancode key : ℕ)
    → scancode < 256
    → get_key scancode ≡ some key
    → scancode_of keys key ≡ scancode
unfolding get_key all_below
scancode_of-get_key scancode key h e =
    let fine = all_below_sound 256 (λ s. is_inverse (get_key s) s) refl scancode h in
    let at_key : (scancode_of keys key == scancode) ≡ true =
      sym (ap (λ o. is_inverse o scancode) e) ∙ fine in
    (==_iff (scancode_of keys key) scancode).0 at_key
