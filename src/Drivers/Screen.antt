-- ===== src/Drivers/Screen.antt =====
-- `init_LFB` and `lfb_swap` of drivers/lfb/lfb.c with `init_klog` of drivers/lfb/klog.c: the screen
-- from the boot loader's tag, its mapping, the back buffer, and the log. Sizes are below 2^31.
use pointer_os.Base.{
  ℕ, zero, suc, ◌+◌, ◌*◌, ◌%◌, ◌^◌, true, Option, none, some, ltb, ◌==◌, if◌then◌else◌, ◌>>=◌,
  add64,
}
use pointer_os.Libc.{Memory, memset, memcpy}
use pointer_os.Boot.{read32, first_tag, walk_tags}
use pointer_os.Kernel.Spinlock.{Cpu}
use pointer_os.Mm.Kmalloc.{Kheap, kmalloc}
use pointer_os.Mm.Mapping.{Space, vmalloc}
use pointer_os.Mm.Vmm.{Mmu, vmm_map_page}
use pointer_os.Drivers.Console.{Framebuffer}
use pointer_os.Drivers.Klog.{Klog}

abbrev pub lfb_addr : ℕ
lfb_addr = 0xFFFFFFFFC0000000

-- `lfb`, with the field `paddr` of 32 bits, which only `init_LFB` reads.
pub record Screen : Type 0 where
  pub paddr : ℕ
  pub fb : Framebuffer

-- The loop over the tags at `tag`. The address in the tag has 64 bits, of which 32 are kept.
abbrev pub read_framebuffer : Memory → Screen → ℕ → Screen
read_framebuffer m s tag =
    let pitch = read32 m (tag + 16) in
    let height = read32 m (tag + 24) in
    if read32 m tag == 8
    then record s {
      paddr = read32 m (tag + 8);
      fb = record s.fb {
        width = read32 m (tag + 20);
        height = height;
        pitch = pitch;
        size = pitch * height % 2 ^ 32;
      };
    }
    else s

-- The loop that maps the screen in pages of 2 MB, from `at`.
pub map_screen : ℕ → Mmu → ℕ → ℕ → ℕ → ℕ → Option Mmu
map_screen zero m cr3 paddr size at = none
map_screen (suc fuel) m cr3 paddr size at =
    let rest =
      vmm_map_page m cr3 ((paddr + at) % 2 ^ 32) (add64 at lfb_addr) 0x200000 0x1002 >>= λ m'.
      map_screen fuel m' cr3 paddr size (at + 0x200000) in
    if ltb at size then rest else some m

-- The loop that clears the buffer never runs, so the entries are what the memory held. `none`:
-- without room the kernel stays in `for(;;)`.
unfoldable pub init_klog : Cpu → Kheap → Klog → Option (Cpu × Kheap × Klog)
init_klog cpu h k = kmalloc cpu h 8192 >>= λ r.
    if r.2 == 0
    then none
    else some (r.0, r.1, record k { allocated = true; klog_head = 0; klog_tail = 0 })

abbrev pub lfb_swap : Memory → Framebuffer → Memory
lfb_swap bytes fb = memcpy bytes lfb_addr fb.buffer fb.size

-- `font8x16` is the address of the font, and `bytes` the memory that is written through pointers.
unfoldable pub init_lfb :
    ℕ → Memory → ℕ → Space → Screen → Klog → Memory → ℕ → Option (Space × Screen × Klog × Memory)
unfolding map_screen
init_lfb fuel boot font8x16 s screen k bytes boot_info =
    walk_tags fuel boot (read_framebuffer boot) screen (first_tag boot_info) >>= λ found.
    map_screen fuel s.mmu s.cr3 found.paddr found.fb.size 0 >>= λ m.
    vmalloc fuel (record s { mmu = m }) found.fb.size >>= λ placed.
    let fb = record found.fb {
      buffer = placed.1;
      font = font8x16;
      char_width = 8;
      char_height = 16;
      cursor_x = 0;
      cursor_y = 0;
    } in
    let cleared = memset bytes placed.1 0 fb.size in
    init_klog placed.0.mmu.cpu placed.0.kheap k >>= λ r. some (
      record placed.0 { kheap = r.1; mmu = record placed.0.mmu { cpu = r.0 } },
      record found { fb = fb },
      r.2,
      lfb_swap cleared fb,
    )
