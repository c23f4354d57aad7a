-- ===== src/Drivers/Console.antt =====
-- drivers/lfb/lfb.c: text on the back buffer of the screen, which is memory of bytes.
use pointer_os.Base.{
  ℕ, zero, suc, ◌+◌, ◌-◌, ◌*◌, ◌/◌, ◌%◌, ◌^◌, ◌≤◌, ◌<◌, ◌≡◌, ◌||◌, List, [], ◌∷◌, reverse, arith,
  ltb, leb, ◌==◌, if◌then◌else◌, update,
}
use pointer_os.Drivers.Printf.{temp_digits}
use pointer_os.Libc.{Memory, memset, memcpy}

-- The fields of `framebuffer_t` that the text functions use. `buffer` and `font` are addresses.
pub record Framebuffer : Type 0 where
  pub buffer : ℕ
  pub width : ℕ
  pub height : ℕ
  pub pitch : ℕ
  pub size : ℕ
  pub font : ℕ
  pub char_width : ℕ
  pub char_height : ℕ
  pub cursor_x : ℕ
  pub cursor_y : ℕ

abbrev pub add32 : ℕ → ℕ → ℕ
add32 a b = (a + b) % 2 ^ 32

abbrev pub sub32 : ℕ → ℕ → ℕ
sub32 a b = (a + (2 ^ 32 - b % 2 ^ 32)) % 2 ^ 32

-- A store of four bytes, the lowest first.
abbrev pub store32 : Memory → ℕ → ℕ → Memory
store32 m p v =
    let m = update m p (v % 256) in
    let m = update m (p + 1) (v / 2 ^ 8 % 256) in
    let m = update m (p + 2) (v / 2 ^ 16 % 256) in update m (p + 3) (v / 2 ^ 24 % 256)

unfoldable pub lfb_scroll : Framebuffer → Memory → Memory
lfb_scroll fb m =
    let line_size = fb.pitch * fb.char_height % 2 ^ 32 in
    let move_size = sub32 fb.size line_size in
    let m = memcpy m fb.buffer (fb.buffer + line_size) move_size in
    memset m (fb.buffer + move_size) 0 line_size

-- The conversion of a negative coordinate to `uint32_t` is above every width, so that coordinates
-- are natural numbers here.
unfoldable pub putpixel : Framebuffer → Memory → ℕ → ℕ → ℕ → Memory
putpixel fb m x y color =
    if leb fb.width x || leb fb.height y
    then m
    else store32 m (fb.buffer + 4 * (y * (fb.pitch / 4) + x)) color

-- The inner loop from column `j` of row `i` of a character.
pub draw_row : Framebuffer → Memory → ℕ → ℕ → ℕ → ℕ → ℕ → ℕ → ℕ → Memory
draw_row fb m row x y fg bg j zero = m
draw_row fb m row x y fg bg j (suc rounds) =
    let color = if row / 2 ^ (7 - j) % 2 == 1 then fg else bg in
    draw_row fb (putpixel fb m (x + j) y color) row x y fg bg (j + 1) rounds

-- The outer loop from row `i`.
pub draw_rows : Framebuffer → Memory → ℕ → ℕ → ℕ → ℕ → ℕ → ℕ → ℕ → Memory
draw_rows fb m glyph x y fg bg i zero = m
draw_rows fb m glyph x y fg bg i (suc rounds) =
    draw_rows fb (draw_row fb m (m (glyph + i)) x (y + i) fg bg 0 fb.char_width) glyph x y fg bg
      (i + 1) rounds

unfoldable pub draw_char_at : Framebuffer → Memory → ℕ → ℕ → ℕ → ℕ → ℕ → Memory
draw_char_at fb m x y c fg bg =
    draw_rows fb m (fb.font + c % 256 * fb.char_height) x y fg bg 0 fb.char_height

-- The cursor goes to the start of the next line.
abbrev pub next_line : Framebuffer → Framebuffer
next_line fb = record fb { cursor_x = 0; cursor_y = add32 fb.cursor_y fb.char_height }

unfoldable pub kputchar_direct : Framebuffer → Memory → ℕ → Framebuffer × Memory
kputchar_direct fb m c =
    let m = if c == 10 then m else draw_char_at fb m fb.cursor_x fb.cursor_y c 0xFFFFFFFF 0 in
    let fb =
      if c == 10 then next_line fb else record fb { cursor_x = add32 fb.cursor_x fb.char_width } in
    let fb = if ltb fb.width (add32 fb.cursor_x fb.char_width) then next_line fb else fb in
    if ltb fb.height (add32 fb.cursor_y fb.char_height)
    then (record fb { cursor_y = sub32 fb.cursor_y fb.char_height }, lfb_scroll fb m)
    else (fb, m)

-- The characters of a text in their order.
pub put_chars : Framebuffer → Memory → List ℕ → Framebuffer × Memory
put_chars fb m [] = (fb, m)
put_chars fb m (c ∷ s) = let r = kputchar_direct fb m c in put_chars r.0 r.1 s

-- The loop that fills `buf` is the one of `local_putnum`, for a `uint32_t`.
unfoldable pub kputnum_direct : Framebuffer → Memory → ℕ → ℕ → Framebuffer × Memory
unfolding put_chars
kputnum_direct fb m num base =
    put_chars fb m (if num == 0 then 48 ∷ [] else reverse (temp_digits 32 num base))

-- The cell under the cursor lies on the screen, which is smaller than 2^31 pixels each way.
pub record OnScreen (fb : Framebuffer) : Type 0 where
  pub narrow : fb.width < 2 ^ 31
  pub low : fb.height < 2 ^ 31
  pub column : fb.cursor_x + fb.char_width ≤ fb.width
  pub line : fb.cursor_y + fb.char_height ≤ fb.height

-- If the cell under the cursor lies on the screen, it does so after every character, the ends of
-- lines and the scrolling included; the cursor moves down by one line at most, and the size of the
-- screen stays.
pub kputchar_direct-OnScreen :
    (fb : Framebuffer) (m : Memory) (c : ℕ)
    → OnScreen fb
    → let fb' = (kputchar_direct fb m c).0 in
      OnScreen fb'
      × (fb'.cursor_y ≤ fb.cursor_y + fb.char_height)
      × (fb'.width ≡ fb.width)
      × (fb'.height ≡ fb.height)
unfolding kputchar_direct
kputchar_direct-OnScreen fb m c h = ground arith

put_chars-OnScreen :
    (fb : Framebuffer) (m : Memory) (s : List ℕ) → OnScreen fb → OnScreen (put_chars fb m s).0
unfolding put_chars
put_chars-OnScreen fb m [] h = h
put_chars-OnScreen fb m (c ∷ s) h =
    let r = kputchar_direct fb m c in
    put_chars-OnScreen r.0 r.1 s (kputchar_direct-OnScreen fb m c h).0

-- Printing a number keeps the cell under the cursor on the screen.
kputnum_direct-OnScreen :
    (fb : Framebuffer) (m : Memory) (num base : ℕ)
    → OnScreen fb
    → OnScreen (kputnum_direct fb m num base).0
unfolding kputnum_direct
kputnum_direct-OnScreen fb m num base h =
    put_chars-OnScreen fb m (if num == 0 then 48 ∷ [] else reverse (temp_digits 32 num base)) h
