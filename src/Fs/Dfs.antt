-- ===== src/Fs/Dfs.antt =====
-- fs/dfs.c and fs/vfs.c: mounting the ramdisk, and reading a file of it.
use pointer_os.Base.{
  ℕ, ◌+◌, ◌-◌, ◌*◌, ◌%◌, ◌^◌, ◌≤◌, ◌<◌, min, ◌≡◌, refl, ◌≢◌, ◌⊎◌, inl, inr, Bool, true, false, ◌&&◌,
  ◌||◌, not, Option, none, some, List, [], ◌∷◌, arith, ltb, leb, ◌==◌, if◌then◌else◌, Bool-cases,
  ◌>>=◌, add64,
}
use pointer_os.Kernel.Spinlock.{Cpu}
use pointer_os.Mm.Kmalloc.{Kheap, kmalloc, kfree}
use pointer_os.Libc.{Memory, memcpy}
use pointer_os.Libc.Copy.{memcpy_lem}
use pointer_os.Boot.{read16, read32, read64}
use pointer_os.Fs.Ramdisk.{Ramdisk}

-- `dfs_vfs_ctx_t`, with the address of the inode.
pub record Context : Type 0 where
  pub inode_num : ℕ
  pub inode : ℕ

-- `vfs_node_t`; its operations are those of this file.
pub record VfsNode : Type 0 where
  pub name : List ℕ
  pub kind : ℕ
  pub size : ℕ
  pub priv_data : Context

-- The size of the file in the first extent of its inode, a word of 32 bits.
abbrev pub extent_bytes : Memory → ℕ → ℕ
extent_bytes m inode = read32 m (inode + 20) * 0x1000 % 2 ^ 32

-- Where the first extent starts.
abbrev pub extent_start : Memory → Ramdisk → ℕ → ℕ
extent_start m disk inode = add64 disk.start (read64 m (inode + 24) * 0x1000 % 2 ^ 64)

-- -1 in 32 bits.
abbrev pub failure : ℕ
failure = 2 ^ 32 - 1

-- The memory and the result, a word of 32 bits. `none` is a node that is `NULL`, and so is a buffer
-- at 0.
unfoldable pub dfs_read : Memory → Ramdisk → Option VfsNode → ℕ → ℕ → ℕ → Memory × ℕ
dfs_read m disk none offset size buffer = (m, failure)
dfs_read m disk (some node) offset size buffer =
    let inode = node.priv_data.inode in
    let bytes = extent_bytes m inode in
    let count = if ltb bytes (add64 size offset) then bytes - offset else size in
    if size == 0 || buffer == 0 || not (node.kind == 1)
    then (m, failure)
    else if ltb bytes offset
    then (m, failure)
    else if offset == bytes
    then (m, 0)
    else (memcpy m buffer (extent_start m disk inode) count, count % 2 ^ 32)

abbrev pub check_dfs : Memory → Ramdisk → Bool
check_dfs m disk = read64 m (add64 disk.start 0x1000) == 0x534644

-- How `mount_ramdisk` ends.
pub data Mount : Type 0 where
  stops : Mount
  no_memory : Cpu → Kheap → Mount
  mounted : Cpu → Kheap → VfsNode → Mount

-- The structs have 80 and 16 bytes, and `sizeof(inode_t)` is 128. Of the name the bytes that the
-- code writes are given. `none` comes from `kmalloc` and `kfree`.
unfoldable pub mount_ramdisk : Cpu → Kheap → Memory → Ramdisk → Option Mount
mount_ramdisk cpu k m disk =
    let inode = add64 disk.start (read32 m (disk.start + 0x1000 + 36) * 0x1000 % 2 ^ 32) + 128 in
    let node : VfsNode = record {
      name = 47 ∷ 0 ∷ [];
      kind = read16 m (inode + 8) % 256;
      size = read64 m inode % 2 ^ 32;
      priv_data = record { inode_num = 1; inode = inode };
    } in
    let allocated = kmalloc cpu k 80 >>= λ first.
    let with_context = kmalloc first.0 first.1 16 >>= λ second.
    let given_back =
      kfree second.0 second.1 first.2 >>= λ freed. some (no_memory freed.0 freed.1) in
    if second.2 == 0 then given_back else some (mounted second.0 second.1 node) in
    if first.2 == 0 then some (no_memory first.0 first.1) else with_context in
    if check_dfs m disk then allocated else some stops

-- Why a read of a node fails.
abbrev pub IsBadRead : Memory → VfsNode → ℕ → ℕ → ℕ → Type 0
IsBadRead m node offset size buffer =
    (size ≡ 0) ⊎ (buffer ≡ 0) ⊎ (node.kind ≢ 1) ⊎ (extent_bytes m node.priv_data.inode < offset)

-- What a read of a file asks for: some bytes of a file, and a buffer for them.
abbrev pub IsAsked : VfsNode → ℕ → ℕ → Type 0
IsAsked node size buffer = (size ≢ 0) × (buffer ≢ 0) × (node.kind ≡ 1)

good_read :
    (size buffer kind : ℕ)
    → (size == 0 || buffer == 0 || not (kind == 1)) ≡ false
    → (size ≢ 0) × (buffer ≢ 0) × (kind ≡ 1)
good_read size buffer kind good = ground arith

-- `n` bytes from `block` on stand at `buffer`, and nothing else has changed.
abbrev pub Copied : Memory → Memory → ℕ → ℕ → ℕ → Type 0
Copied m m' block buffer n =
    (a : ℕ) → m' a ≡ (if leb buffer a && ltb a (buffer + n) then m (block + (a - buffer)) else m a)

bad_read :
    (size buffer kind : ℕ)
    → (size == 0 || buffer == 0 || not (kind == 1)) ≡ true
    → (size ≡ 0) ⊎ (buffer ≡ 0) ⊎ (kind ≢ 1)
bad_read size buffer kind bad = elim (Bool-cases (size == 0)) [
  | inl a ↦ inl (ground arith)
  | inr a ↦ elim (Bool-cases (buffer == 0)) [
    | inl b ↦ inr (inl (ground arith))
    | inr b ↦ inr (inr (λ e. ground arith))
  ]
]

read_count :
    (bytes offset size : ℕ)
    → bytes < 2 ^ 32
    → offset < bytes
    → size + offset < 2 ^ 64
    → (if ltb bytes (add64 size offset) then bytes - offset else size) ≡ min size (bytes - offset)
read_count bytes offset size low inside small = elim (Bool-cases (ltb bytes (add64 size offset))) [
  | inl cut ↦ rw cut (ground arith)
  | inr whole ↦ rw whole (ground arith)
]

extent_bytes-lt : (m : Memory) (inode : ℕ) → extent_bytes m inode < failure
extent_bytes-lt m inode = omega arith

-- A read either fails with -1 for one of the reasons and changes nothing; or, with none of them, starts
-- at the end of the extent, reads nothing and returns 0; or, with none of them, starts inside it and returns the number of bytes that are
-- asked for or left, never -1. It has then copied as many bytes from the start of the extent into the
-- buffer, whatever the offset. The buffer does not start inside the extent.
pub dfs_read_lem :
    (m : Memory) (disk : Ramdisk) (node : VfsNode) (offset size buffer : ℕ)
    → let bytes = extent_bytes m node.priv_data.inode in
      let block = extent_start m disk node.priv_data.inode in
      size + offset < 2 ^ 64
      → (buffer ≤ block) ⊎ (block + bytes ≤ buffer)
      → let (m', n) = dfs_read m disk (some node) offset size buffer in
        (IsBadRead m node offset size buffer × (m' ≡ m) × (n ≡ failure))
        ⊎ (IsAsked node size buffer × (offset ≡ bytes) × (m' ≡ m) × (n ≡ 0))
        ⊎ (IsAsked node size buffer
            × (offset < bytes)
            × (n ≡ min size (bytes - offset))
            × (n < failure)
            × Copied m m' block buffer n)
unfolding dfs_read
dfs_read_lem m disk node offset size buffer small apart =
    let bytes = extent_bytes m node.priv_data.inode in
    let block = extent_start m disk node.priv_data.inode in
    let n = min size (bytes - offset) in
    elim (Bool-cases (size == 0 || buffer == 0 || not (node.kind == 1))) [
      | inl bad ↦ rw bad (inl (reason (bad_read size buffer node.kind bad), refl, refl))
      | inr good ↦ elim (Bool-cases (ltb bytes offset)) [
        | inl past ↦ rw (good, past) (inl (inr (inr (inr (ground arith))), refl, refl))
        | inr inside ↦ elim (Bool-cases (offset == bytes)) [
          | inl at_end ↦
              rw (good, inside, at_end)
                (inr (inl (good_read size buffer node.kind good, ground arith, refl, refl)))
          | inr before ↦
              let low = extent_bytes-lt m node.priv_data.inode in
              let inner : offset < bytes = ground arith in
              let fits : (n ≤ bytes) × (n < failure) = (omega arith, omega arith) in
              let whole : n % 2 ^ 32 ≡ n = omega arith in
              let away : (buffer ≤ block) ⊎ (block + n ≤ buffer) = elim apart [
                | inl below ↦ inl below
                | inr behind ↦ inr (omega arith)
              ] in
              rw
                (
                  good,
                  inside,
                  before,
                  read_count bytes offset size (omega arith) inner small,
                  whole,
                )
                (inr (
                  inr (
                    good_read size buffer node.kind good,
                    inner,
                    refl,
                    fits.1,
                    λ a. memcpy_lem m buffer block n a away,
                  )))
        ]
      ]
    ]
  where
    reason : (size ≡ 0) ⊎ (buffer ≡ 0) ⊎ (node.kind ≢ 1) → IsBadRead m node offset size buffer
    reason (inl a) = inl a
    reason (inr (inl b)) = inr (inl b)
    reason (inr (inr c)) = inr (inr (inl c))
