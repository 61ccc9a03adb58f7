-- ===== src/Fs/Zerocopy.antt =====
-- The `zerocopy` crate's `U16<LE>`, `U32<LE>` and `U64<LE>`, which are not part of the
-- repository. A value of such a type is its bytes; `w` is the width in bytes.
use blog_os.Base.{ℕ, ◌^◌, ◌<◌, ◌≡◌, List, length, All, replicate}
use blog_os.Base.Bytes.{IsByte}

pub record Zerocopy : Type 0 where
  -- `U64::new` and its kin
  pub new : ℕ → ℕ → List ℕ
  -- `U64::get` and its kin
  pub get : ℕ → List ℕ → ℕ
  pub length-new : (w n : ℕ) → length (new w n) ≡ w
  pub new_bytes : (w n : ℕ) → All IsByte (new w n)
  pub get-new : (w n : ℕ) → n < 256 ^ w → get w (new w n) ≡ n
  pub get_zeros : (w : ℕ) → get w (replicate w 0) ≡ 0
  pub get-lt : (w : ℕ) (bs : List ℕ) → length bs ≡ w → All IsByte bs → get w bs < 256 ^ w
