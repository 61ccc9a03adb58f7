-- ===== src/Tests/Directories.antt =====
-- The theorems on directory blocks, on small data.
use blog_os.Base.{ℕ, List, [], ◌∷◌, replicate}
use blog_os.Tests.Fixtures.{ram_device, little_endian}

abbrev hello : List ℕ
hello = b'h' ∷ b'i' ∷ []

abbrev empty_block : List ℕ
empty_block = replicate 512 0
