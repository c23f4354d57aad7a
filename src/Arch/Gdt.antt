-- ===== src/Arch/Gdt.antt =====
-- arch/x86_64/gdt/gdt.c: the segment descriptors and the descriptor of the task state segment.
use pointer_os.Base.{ℕ, ◌+◌, ◌*◌, ◌/◌, ◌%◌, ◌^◌, ◌<◌, ◌≡◌, ◌≢◌, arith, update}

-- `struct gdt_entry_struct`
pub record Descriptor : Type 0 where
  pub limit_low : ℕ
  pub base_low : ℕ
  pub base_mid : ℕ
  pub access : ℕ
  pub limit_high_flags : ℕ
  pub base_high : ℕ

-- The `|` joins the low and the high half of a byte, so it is a sum.
unfoldable pub set_gdt_gate : (ℕ → Descriptor) → ℕ → ℕ → ℕ → ℕ → ℕ → ℕ → Descriptor
set_gdt_gate entries vector base limit access flags = update entries vector (record {
  limit_low = limit % 2 ^ 16;
  base_low = base % 2 ^ 16;
  base_mid = base / 2 ^ 16 % 2 ^ 8;
  access = access;
  limit_high_flags = limit / 2 ^ 16 % 16 + flags / 16 % 16 * 16;
  base_high = base / 2 ^ 24 % 2 ^ 8;
})

-- The descriptor takes two entries: `base_upper` and `reserved` are the eight bytes of the second,
-- the lowest byte first.
unfoldable pub set_tss_gate : (ℕ → Descriptor) → ℕ → ℕ → ℕ → ℕ → Descriptor
set_tss_gate entries vector base limit =
    let base_upper = base / 2 ^ 32 % 2 ^ 32 in
    update (set_gdt_gate entries vector (base % 2 ^ 32) limit 0x89 0x40) (vector + 1) (record {
      limit_low = base_upper % 2 ^ 16;
      base_low = base_upper / 2 ^ 16;
      base_mid = 0;
      access = 0;
      limit_high_flags = 0;
      base_high = 0;
    })

-- The fields of `struct TSS` that are not 0, and `gdt_ptr` with `gdt_entries`.
pub record Segments : Type 0 where
  pub ist_0 : ℕ
  pub iopb : ℕ
  pub limit : ℕ
  pub base : ℕ
  pub entries : ℕ → Descriptor

-- The addresses are those of the first interrupt stack, of `tss` and of `gdt_entries`. The task
-- state segment has 104 bytes, the table 56.
unfoldable pub init_gdt : Segments → ℕ → ℕ → ℕ → Segments
init_gdt s ist1_stack_top tss_at entries_at =
    let e = set_gdt_gate s.entries 0 0 0 0 0 in
    let e = set_gdt_gate e 1 0 0xFFFFFFFF 0x9A 0x20 in
    let e = set_gdt_gate e 2 0 0xFFFFFFFF 0x92 0x00 in
    let e = set_gdt_gate e 3 0 0xFFFFFFFF 0xF2 0x00 in
    let e = set_gdt_gate e 4 0 0xFFFFFFFF 0xFA 0x20 in
    record {
      ist_0 = ist1_stack_top;
      iopb = 104;
      limit = 55;
      base = entries_at;
      entries = set_tss_gate e 5 tss_at 103;
    }

-- The base and the limit that the processor reads from a descriptor.
abbrev pub base_of : Descriptor → ℕ
base_of d = d.base_low + d.base_mid * 2 ^ 16 + d.base_high * 2 ^ 24

abbrev pub limit_of : Descriptor → ℕ
limit_of d = d.limit_low + d.limit_high_flags % 16 * 2 ^ 16

-- The base of a descriptor of two entries.
abbrev pub long_base_of : Descriptor → Descriptor → ℕ
long_base_of d upper = base_of d + (upper.limit_low + upper.base_low * 2 ^ 16) * 2 ^ 32

-- A segment descriptor holds its 32-bit base, the low 20 bits of its limit, its access byte and
-- the high half of its flags, and the other descriptors stay.
set_gdt_gate_lem :
    (entries : ℕ → Descriptor) (vector base limit access flags : ℕ)
    → base < 2 ^ 32
    → let e = set_gdt_gate entries vector base limit access flags in
      (base_of (e vector) ≡ base)
      × (limit_of (e vector) ≡ limit % 2 ^ 20)
      × ((e vector).access ≡ access)
      × ((e vector).limit_high_flags / 16 ≡ flags / 16 % 16)
      × ((j : ℕ) → j ≢ vector → e j ≡ entries j)
unfolding set_gdt_gate
set_gdt_gate_lem entries vector base limit access flags h = ground arith

-- The descriptor of the task state segment leads to its 64-bit base, and all but its two entries
-- stay.
pub set_tss_gate_lem :
    (entries : ℕ → Descriptor) (vector base limit : ℕ)
    → base < 2 ^ 64
    → let e = set_tss_gate entries vector base limit in
      (long_base_of (e vector) (e (vector + 1)) ≡ base)
      × (limit_of (e vector) ≡ limit % 2 ^ 20)
      × ((j : ℕ) → j ≢ vector → j ≢ vector + 1 → e j ≡ entries j)
unfolding set_tss_gate set_gdt_gate
set_tss_gate_lem entries vector base limit h = ground arith
