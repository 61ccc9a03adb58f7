-- ===== src/Fs/SimpleFs/State.antt =====
-- The state of `SFS`, and its methods as state passing with errors and panics.
use blog_os.Base.{
  ℕ, List, Option, none, some, Result, ok, err, Exec, done, panic, Bool, true, false,
}
use blog_os.Fs.BlockDev.{BlockDevice, FileSystemError, block_error, to_block_error}
use blog_os.Fs.Layout.Superblock.{SuperBlock}
use blog_os.Fs.Layout.{block_size}
use blog_os.Base.{replicate}

pub record Sfs (D : Type 0) : Type 0 where
  pub device : D
  pub superblock : SuperBlock

-- A method with `&mut self` that returns `Result<A, FileSystemError>`.
abbrev pub Method : Type 0 → Type 0 → Type 0
Method D A = Sfs D → Exec (Result FileSystemError A × Sfs D)

module _ {D A B : Type 0} where
  abbrev pub and_then :
      Exec (Result FileSystemError A × Sfs D)
      → (A → Method D B)
      → Exec (Result FileSystemError B × Sfs D)
  and_then (done (ok a, s)) f = f a s
  and_then (done (err e, s)) f = done (err e, s)
  and_then panic f = panic

  infixl 5 ◌>>=◌ ◌>>◌
  abbrev pub ◌>>=◌ : Method D A → (A → Method D B) → Method D B
  m >>= f = λ s. and_then (m s) f

  abbrev pub ◌>>◌ : Method D A → Method D B → Method D B
  m >> k = m >>= λ _. k

module _ {D A : Type 0} where
  abbrev pub pure : A → Method D A
  pure a s = done (ok a, s)

  abbrev pub throw : FileSystemError → Method D A
  throw e s = done (err e, s)

  -- A call that may panic and does not touch the state.
  abbrev pub run : Exec A → Method D A
  run (done a) s = done (ok a, s)
  run panic s = panic

  -- A call that returns a `Result`, with `?` behind it.
  abbrev pub try : Result FileSystemError A → Method D A
  try (ok a) s = done (ok a, s)
  try (err e) s = done (err e, s)

  -- `ok_or(e)?`
  abbrev pub ok_or : Option A → FileSystemError → Method D A
  ok_or none e s = done (err e, s)
  ok_or (some a) e s = done (ok a, s)

abbrev pub guard : {D : Type 0} → Bool → FileSystemError → Method D (Unit {0})
guard true e s = done (err e, s)
guard false e s = done (ok tt, s)

abbrev pub superblock : {D : Type 0} → Method D SuperBlock
superblock s = done (ok s.superblock, s)

-- `[0u8; BLOCK_SIZE]`
abbrev pub zero_block : List ℕ
zero_block = replicate block_size 0

module _ {D : Type 0} ⦃dev : BlockDevice D⦄ where
  -- `device.read_blocks(id, &mut buffer).map_err(|_| BlockError)?` on a zeroed buffer
  unfoldable pub read_block : ℕ → Method D (List ℕ)
  read_block id s =
      let (r, buffer, d) = dev.read_blocks s.device id zero_block in
      done (elim r [ ok u ↦ ok buffer | err e ↦ err block_error ], record s { device = d })

  -- `device.write_blocks(id, &buffer).map_err(|_| BlockError)?`
  unfoldable pub write_block : ℕ → List ℕ → Method D (Unit {0})
  write_block id buffer s =
      let (r, d) = dev.write_blocks s.device id buffer in
      done (to_block_error r, record s { device = d })
