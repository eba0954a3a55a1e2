-- ===== src/Freestanding/Screen.antt =====
-- projects/freestanding/code/peripheral/screen/src/screen.c: the characters of the terminal, the
-- starts of its logical lines, and the parsing of characters into lines of the screen.

pub mod Search
pub mod Text
pub mod Fill
pub mod Window
pub mod Scroll
mod Tests
use homegrown.Prelude.{
  ℕ, zero, suc, ◌+◌, ◌-◌, ◌*◌, ◌/◌, ◌^◌, min, Bool, true, false, not, ◌&&◌, ◌||◌, Option, none,
  some, List, [], ◌∷◌, ltb, leb, ◌==◌, if◌then◌else◌, bit_and, u8, u16, u32, u64, sub64, length,
}
use homegrown.Shared.Maths.{ring_range_value, ring_increment, ring_plus, ring_decrement, ring_minus}

abbrev pub tab_size_in_glyphs : ℕ
tab_size_in_glyphs = 4

abbrev pub max_scrollback_lines : ℕ
max_scrollback_lines = 8192

abbrev pub file_buf_len : ℕ
file_buf_len = 65536

abbrev pub newline : ℕ
newline = 10

abbrev pub tab : ℕ
tab = 9

-- The variables that `initScreen` sets once.
pub record Dimension : Type 0 where
  pub glyphs_per_line : ℕ
  pub glyphs_per_column : ℕ
  pub ring_glyphs_per_column : ℕ
  pub max_chars_to_process : ℕ

-- The characters, and the starts of the logical lines, in rings.
pub record Terminal : Type 0 where
  pub buf : ℕ → ℕ
  pub next_char_in_buf : ℕ
  pub char_count : ℕ
  pub logical_lines : ℕ → ℕ
  pub logical_line_to_write : ℕ
  pub logical_newline : Bool

abbrev pub put : ℕ → ℕ → (ℕ → ℕ) → ℕ → ℕ
put index value words a = if a == index then value else words a

-- A new logical line starts at the character behind a line break.
pub start_line : Terminal → Terminal
unfolding ring_increment
start_line t =
    let line = u32 (ring_increment t.logical_line_to_write max_scrollback_lines) in
    if t.logical_newline
    then record t {
      logical_lines = put line t.char_count t.logical_lines;
      logical_line_to_write = line;
      logical_newline = false;
    }
    else t

-- One round of the loop of `flushToScreen`.
pub put_char : ℕ → Terminal → Terminal
unfolding start_line ring_increment
put_char ch t =
    let started = start_line (record t { buf = put t.next_char_in_buf ch t.buf }) in
    record started {
      logical_newline = if ch == newline then true else started.logical_newline;
      next_char_in_buf = u32 (ring_increment t.next_char_in_buf file_buf_len);
      char_count = u64 (t.char_count + 1);
    }

unfoldable pub put_chars : List ℕ → Terminal → Terminal
unfolding put_char
put_chars [] t = t
put_chars (ch ∷ chars) t = put_chars chars (put_char ch t)

drop : ℕ → List ℕ → List ℕ
drop zero xs = xs
drop (suc n) [] = []
drop (suc n) (x ∷ xs) = drop n xs

-- The loop of `flushToScreen`: only the last characters that fit are kept.
pub flush_chars : List ℕ → Terminal → Terminal
unfolding put_chars drop
flush_chars buffer = put_chars (drop (length buffer - file_buf_len) buffer)

-- `toScreenLines`
pub to_screen_lines : Dimension → ℕ → ℕ
to_screen_lines d number =
    if number == 0 then 1 else u64 (number + (d.glyphs_per_line - 1)) / d.glyphs_per_line

-- The loop of `I8IndexToLogicalLine`.
pub search_line : ℕ → Terminal → ℕ → ℕ → ℕ → Option ℕ
unfolding ring_minus ring_plus
search_line zero t index left right =
    if ltb 1 (ring_minus right left max_scrollback_lines) then none else some left
search_line (suc fuel) t index left right =
    let mid =
      ring_plus left (ring_minus right left max_scrollback_lines / 2) max_scrollback_lines in
    let lower = search_line fuel t index left mid in
    let upper = search_line fuel t index mid right in
    if ltb 1 (ring_minus right left max_scrollback_lines)
    then if ltb index (t.logical_lines mid) then lower else upper
    else some left

-- `I8IndexToLogicalLine`; there are 2 ^ 13 lines to halve.
pub index_to_logical_line : Terminal → ℕ → Option ℕ
unfolding search_line ring_increment
index_to_logical_line t index =
    let searched =
      search_line 13 t index (ring_increment t.logical_line_to_write max_scrollback_lines)
        t.logical_line_to_write in
    if leb (t.logical_lines t.logical_line_to_write) index
    then some t.logical_line_to_write
    else searched
