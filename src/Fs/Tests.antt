-- ===== src/Fs/Tests.antt =====
-- A boot memory with two tags and the text to compare with, and a disk whose file has one block.
use pointer_os.Base.{
  ℕ, ◌+◌, ◌-◌, ◌<◌, min, ◌≡◌, refl, ◌⊎◌, inr, Bool, true, false, Option, none, some, List, [], ◌∷◌,
  arith, leb, ◌==◌, if◌then◌else◌, get_elem?,
}
use pointer_os.Libc.{Memory, memcmp, memcpy}
use pointer_os.Boot.{TagsAt, first_tag}
use pointer_os.Fs.Ramdisk.{
  Ramdisk, Search, first_module, outcome, parse_ramdisk, parse_ramdisk-first_module,
}
use pointer_os.Fs.Dfs.{
  VfsNode, extent_bytes, extent_start, failure, dfs_read, dfs_read_lem, IsBadRead, IsAsked, Copied,
}

abbrev byte_at : List ℕ → ℕ → ℕ
byte_at bs i = elim (get_elem? bs i) [ some b ↦ b | none ↦ 0 ]

abbrev ramdisk_text : List ℕ
ramdisk_text = 114 ∷ 97 ∷ 109 ∷ 100 ∷ 105 ∷ 115 ∷ 107 ∷ []

-- A tag of type 1 and 10 bytes, a module from 0x200000 to 0x203000 with its command line, the end.
abbrev boot_tags : List ℕ
boot_tags =
    1 ∷ 0 ∷ 0 ∷ 0 ∷ 10 ∷ 0 ∷ 0 ∷ 0 ∷ 97 ∷ 0 ∷ 0 ∷ 0 ∷ 0 ∷ 0 ∷ 0 ∷ 0 ∷ 3 ∷ 0 ∷ 0 ∷ 0 ∷ 24 ∷ 0 ∷ 0 ∷ 0
    ∷ 0 ∷ 0 ∷ 32 ∷ 0 ∷ 0 ∷ 48 ∷ 32 ∷ 0 ∷ ramdisk_text

abbrev boot_memory : Memory
boot_memory a =
    if leb (first_tag 0x1000) a
    then byte_at boot_tags (a - first_tag 0x1000)
    else byte_at ramdisk_text (a - 16)

abbrev no_ramdisk : Ramdisk
no_ramdisk = record { kind = 0; size = 0; start = 0; end = 0 }

abbrev two_tags : List ℕ
two_tags = first_tag 0x1000 ∷ (first_tag 0x1000 + 16) ∷ []

two_tags-TagsAt : TagsAt boot_memory (first_tag 0x1000) two_tags
two_tags-TagsAt =
    (refl, (λ e. absurd (omega (arith, e))), (refl, (λ e. absurd (omega (arith, e))), refl))

parse_ramdisk-first_module_example :
    parse_ramdisk 9 boot_memory 16 no_ramdisk 0x1000
    ≡ some (outcome boot_memory 16 no_ramdisk (first_module boot_memory two_tags))
parse_ramdisk-first_module_example =
    parse_ramdisk-first_module two_tags boot_memory 16 no_ramdisk 0x1000 9 two_tags-TagsAt
      (omega arith)

abbrev is_found : Option Search → Bool
is_found (some (Search.returns r)) = r.start == 0xffff_8000_0020_0000
is_found _ = false

finds_ramdisk : is_found (parse_ramdisk 9 boot_memory 16 no_ramdisk 0x1000) ≡ true
unfolding parse_ramdisk memcmp
finds_ramdisk = refl

-- The inode stands at 0x2000, and its extent is block 3.
abbrev disk_memory : Memory
disk_memory a = if a == 0x2014 then 1 else if a == 0x2018 then 3 else if a == 0x3000 then 77 else 0

abbrev small_disk : Ramdisk
small_disk = record { kind = 0; size = 0x4000; start = 0; end = 0x4000 }

abbrev file_node : VfsNode
file_node = record {
  name = [];
  kind = 1;
  size = 0x1000;
  priv_data = record { inode_num = 2; inode = 0x2000 };
}

dfs_read_lem_example :
    let bytes = extent_bytes disk_memory 0x2000 in
    let block = extent_start disk_memory small_disk 0x2000 in
    let (m', n) = dfs_read disk_memory small_disk (some file_node) 16 32 0x8000 in
    (IsBadRead disk_memory file_node 16 32 0x8000 × (m' ≡ disk_memory) × (n ≡ failure))
    ⊎ (IsAsked file_node 32 0x8000 × (16 ≡ bytes) × (m' ≡ disk_memory) × (n ≡ 0))
    ⊎ (IsAsked file_node 32 0x8000
        × (16 < bytes)
        × (n ≡ min 32 (bytes - 16))
        × (n < failure)
        × Copied disk_memory m' block 0x8000 n)
dfs_read_lem_example =
    dfs_read_lem disk_memory small_disk file_node 16 32 0x8000 (omega arith) (inr (omega arith))

-- The read at offset 16 returns the first byte of the file.
ignores_offset : (dfs_read disk_memory small_disk (some file_node) 16 1 0x8000).0 0x8000 ≡ 77
unfolding dfs_read memcpy
ignores_offset = refl
