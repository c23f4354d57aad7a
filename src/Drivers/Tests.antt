-- ===== src/Drivers/Tests.antt =====
-- Formats and arguments.
use pointer_os.Base.{
  ℕ, ◌-◌, ◌^◌, ◌≤◌, ◌≡◌, refl, true, none, some, List, [], ◌∷◌, arith, length, get_elem?,
}
use pointer_os.Drivers.Screen.{read_framebuffer}
use pointer_os.Libc.{Memory}
use pointer_os.Drivers.Console.{Framebuffer, OnScreen, kputchar_direct, kputchar_direct-OnScreen}
use pointer_os.Drivers.Klog.Cells.{HasCells}
use pointer_os.Drivers.Klog.Events.{
  Event, reserves, stores, flushes, run_events, run_events-HasCells,
}
use pointer_os.Drivers.Klog.{Klog}
use pointer_os.Drivers.Printf.{temp_digits, word, local_putnum, kprintf}
use pointer_os.Drivers.Printf.Digits.{hexadecimal, read_number, read-local_putnum}
use pointer_os.Drivers.Printf.Expand.{expand, Pieces, kprintf-Pieces}

read-local_putnum_example :
    (read_number 16 0 (local_putnum 255 0xdeadbeef 16) ≡ 0xdeadbeef)
    × (length (local_putnum 255 0xdeadbeef 16) ≤ 22)
read-local_putnum_example = read-local_putnum 0xdeadbeef 16 hexadecimal (omega arith)

-- `"<%d%%>"` with -5.
abbrev a_format : List ℕ
a_format = 60 ∷ 37 ∷ 100 ∷ 37 ∷ 37 ∷ 62 ∷ []

expansion : expand a_format 0 (word (2 ^ 32 - 5) ∷ []) ≡ some (60 ∷ 45 ∷ 53 ∷ 37 ∷ 62 ∷ [])
unfolding expand local_putnum temp_digits
expansion = refl

kprintf-Pieces_example :
    Pieces (kprintf a_format (word (2 ^ 32 - 5) ∷ [])) (expand a_format 0 (word (2 ^ 32 - 5) ∷ []))
kprintf-Pieces_example = kprintf-Pieces a_format (word (2 ^ 32 - 5) ∷ [])

-- The last cell of a screen of 3 by 2 characters.
abbrev small_screen : Framebuffer
small_screen = record {
  buffer = 0x10000;
  width = 24;
  height = 32;
  pitch = 96;
  size = 3072;
  font = 0;
  char_width = 8;
  char_height = 16;
  cursor_x = 16;
  cursor_y = 16;
}

small_screen-OnScreen : OnScreen small_screen
small_screen-OnScreen = omega arith

kputchar_direct-OnScreen_example :
    let fb = (kputchar_direct small_screen (λ p. 0) 65).0 in
    OnScreen fb × (fb.cursor_y ≤ 32) × (fb.width ≡ 24) × (fb.height ≡ 32)
kputchar_direct-OnScreen_example =
    kputchar_direct-OnScreen small_screen (λ p. 0) 65 small_screen-OnScreen

abbrev new_log : Klog
new_log = record {
  allocated = true;
  klog_buffer = λ i. record { c = 0; ready = 0 };
  klog_head = 2 ^ 64 - 1;
  klog_tail = 2 ^ 64 - 1;
  klog_write_lock = record { lock = 0 };
  klog_read_lock = record { lock = 0 };
}

new_log-HasCells : HasCells new_log []
new_log-HasCells = record {
  there = refl;
  head = omega arith;
  tail = omega arith;
  count = refl;
  few = omega arith;
  write_lock = refl;
  read_lock = refl;
  places = λ i h. refl;
}

-- Two writers, of `hi` and `you`, from the last position before the wrap-around of the head on; the
-- second stores first, and the log is flushed between.
abbrev two_writers : List Event
two_writers =
    reserves (104 ∷ 105 ∷ [])
    ∷ reserves (121 ∷ 111 ∷ 117 ∷ [])
    ∷ stores 1 121
    ∷ flushes
    ∷ stores (2 ^ 64 - 1) 104
    ∷ stores 0 105
    ∷ flushes
    ∷ stores 2 111
    ∷ stores 3 117
    ∷ flushes
    ∷ []

run_events-HasCells_example :
    (k' : Klog) × (run_events two_writers (record { rflags = 0x202 }) new_log
      ≡ some (k', 104 ∷ 105 ∷ 121 ∷ 111 ∷ 117 ∷ []))
    × HasCells k' []
run_events-HasCells_example =
    run_events-HasCells two_writers (record { rflags = 0x202 }) new_log [] []
      (104 ∷ 105 ∷ 121 ∷ 111 ∷ 117 ∷ []) new_log-HasCells refl

-- A screen of 1024 by 768 points at 0x1_fd00_0000, of which the upper half is lost.
abbrev screen_bytes : List ℕ
screen_bytes =
    8 ∷ 0 ∷ 0 ∷ 0 ∷ 38 ∷ 0 ∷ 0 ∷ 0 ∷ 0 ∷ 0 ∷ 0 ∷ 0xfd ∷ 1 ∷ 0 ∷ 0 ∷ 0 ∷ 0 ∷ 16 ∷ 0 ∷ 0 ∷ 0 ∷ 4 ∷ 0
    ∷ 0 ∷ 0 ∷ 3 ∷ []

abbrev screen_tag : Memory
screen_tag a = elim (get_elem? screen_bytes a) [ some b ↦ b | none ↦ 0 ]

reads_screen :
    let s = read_framebuffer screen_tag (record { paddr = 0; fb = small_screen }) 0 in
    (s.paddr ≡ 0xfd00_0000) × (s.fb.width ≡ 1024) × (s.fb.size ≡ 0x30_0000)
reads_screen = (refl, refl, refl)
