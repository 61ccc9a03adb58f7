-- ===== src/Tests/Boots.antt =====
-- The theorems on a root directory, on a disk in memory.
use blog_os.Base.{ℕ, ◌<◌, ◌≡◌, ◌≢◌, refl, ap, ◌∙◌, arith, List, [], ◌∷◌, ok, err, done, true}
use blog_os.Tests.Fixtures.{RamDisk, ram_device, little_endian}
use blog_os.Fs.SimpleFs.AddEntry.{AddOutcome, add_root_dir_entry_lem}
use blog_os.Tests.Volumes.{ram_reliable, volume, volume-IsReady}
use blog_os.Fs.SimpleFs.State.{Sfs}
use blog_os.Fs.SimpleFs.Dirs.{init_root_directory}
use blog_os.Fs.SimpleFs.Files.{same_bytes, create_file, FileError}
use blog_os.Fs.SimpleFs.Reliable.{Same, content}
use blog_os.Fs.SimpleFs.Create.{IsName, Created, root_entries}
use blog_os.Fs.SimpleFs.Scan.{hits, any_hit}
use blog_os.Fs.SimpleFs.Table.{block_of}
use blog_os.Fs.Layout.Dirents.{entry_at, entries_lem}
use blog_os.Fs.SimpleFs.Existing.{create_file-Created, create_file-Refusal, exists}
use blog_os.Fs.SimpleFs.Initialize.{IsNew, init_root_directory_lem, dot}
use blog_os.Kernel.FirstBoot.{IsNew-free, hits-new_entry}

abbrev hello : List ℕ
hello = b'h' ∷ b'e' ∷ b'l' ∷ b'l' ∷ b'o' ∷ []

hello-IsName : IsName hello
hello-IsName = record { some_byte = omega arith; fits = omega arith; bytes = omega arith }

hello_not_dot : hello ≢ dot
hello_not_dot e = cc

init_root_directory_lem_example :
    (s' : Sfs RamDisk) × (init_root_directory volume ≡ done (ok tt, s'))
    × (s'.superblock ≡ volume.superblock)
    × IsNew ram_reliable s' 7
init_root_directory_lem_example =
    init_root_directory_lem ram_reliable volume 7 volume-IsReady refl refl refl (omega arith)
      (omega arith) refl refl

made :
    (s' : Sfs RamDisk) × (init_root_directory volume ≡ done (ok tt, s'))
    × (s'.superblock ≡ volume.superblock)
    × IsNew ram_reliable s' 7
made =
    init_root_directory_lem ram_reliable volume 7 volume-IsReady refl refl refl (omega arith)
      (omega arith) refl refl

-- The volume with a new root directory.
abbrev rooted : Sfs RamDisk
rooted = made.0

rooted-IsNew : IsNew ram_reliable rooted 7
rooted-IsNew = made.3

before_root : block_of ram_reliable rooted 1 < 7
before_root = omega (arith, ap (λ q. q.inode_table_start_block) made.2)

dot_there : any_hit dot (root_entries ram_reliable rooted 7) ≡ true
unfolding same_bytes
dot_there =
    let r = rooted-IsNew.root_block in
    let hit : hits dot (entry_at (content ram_reliable rooted 7) 0) ≡ true =
      ap (hits dot) r.first ∙ hits-new_entry 0 dot dot (omega arith) in
    ap (any_hit dot) (entries_lem (content ram_reliable rooted 7) r.is_block.size) ∙ rw hit refl

create_file-Created_example :
    (s' : Sfs RamDisk) × (create_file hello rooted ≡ done (ok (record { index = 1 }), s'))
    × Created ram_reliable rooted 7 2 1 hello s'
create_file-Created_example =
    create_file-Created ram_reliable rooted 7 2 1 hello rooted-IsNew.has_root hello-IsName
      (IsNew-free ram_reliable hello rooted 7 rooted-IsNew hello_not_dot (λ e. cc)).0
      (IsNew-free ram_reliable hello rooted 7 rooted-IsNew hello_not_dot (λ e. cc)).1
      rooted-IsNew.first_inode before_root

dot-IsName : IsName dot
dot-IsName = record { some_byte = omega arith; fits = omega arith; bytes = omega arith }

create_file-Refusal_example :
    (s' : Sfs RamDisk) × (create_file dot rooted ≡ done (err FileError.corrupt, s'))
    × Same ram_reliable rooted s'
create_file-Refusal_example =
    create_file-Refusal ram_reliable rooted 7 dot rooted-IsNew.has_root
      (exists dot-IsName dot_there)

add_root_dir_entry_lem_example : AddOutcome ram_reliable rooted 7 5 hello
add_root_dir_entry_lem_example =
    add_root_dir_entry_lem ram_reliable rooted 7 5 hello rooted-IsNew.has_root
