-- ===== src/Freestanding/Screen/Fill.antt =====
-- `fillScreenLines` and `oldestCharToParseGivenScreenLines`.
use homegrown.Prelude.{
  ℕ, zero, suc, ◌+◌, ◌-◌, ◌^◌, min, Bool, true, false, not, ◌&&◌, Option, none, some, ltb, leb,
  ◌==◌, if◌then◌else◌, bit_and, u8, u16, u64, sub64,
}
use mathlib.Core.Option.{map as map_some}
use homegrown.Shared.Maths.{ring_range_value, ring_increment, ring_decrement}
use homegrown.Freestanding.Screen.{
  tab_size_in_glyphs, max_scrollback_lines, file_buf_len, newline, tab, Dimension, Terminal, put,
  to_screen_lines, index_to_logical_line,
}

-- The variables of the loop of `fillScreenLines`; `screen_lines_copy` and `logical_line_lens` are
-- written by it only.
pub record Fill : Type 0 where
  pub current_screen_line_index : ℕ
  pub screen_lines_in_window : ℕ
  pub current_glyph_len : ℕ
  pub current_logical_line_len : ℕ
  pub to_next : Bool
  pub screen_lines_copy : ℕ → ℕ
  pub logical_line_lens : ℕ → ℕ

-- `FillResult`, with the two arrays.
pub record FillResult : Type 0 where
  pub real_screen_lines_written : ℕ
  pub current_screen_line_index : ℕ
  pub last_line_done : Bool
  pub screen_lines_copy : ℕ → ℕ
  pub logical_line_lens : ℕ → ℕ

abbrev pub bind_some : {A B : Type 0} → (A → Option B) → Option A → Option B
bind_some f none = none
bind_some f (some a) = f a

abbrev pub one_if : Bool → ℕ
one_if b = if b then 1 else 0

-- The character at an index of the whole text.
unfoldable pub char_at : Terminal → ℕ → ℕ
unfolding ring_range_value
char_at t i = t.buf (ring_range_value i file_buf_len)

-- `maxNewScreenLinesToFill && screenLinesInWindow >= maxNewScreenLinesToFill`
abbrev pub is_window_full : ℕ → Fill → Bool
is_window_full max_lines f = not (max_lines == 0) && leb max_lines f.screen_lines_in_window

-- A screen line starts at the character, with `offset` glyphs of its logical line before it.
pub open_line : Dimension → ℕ → ℕ → ℕ → Fill → Fill
unfolding ring_increment
open_line d start i offset f =
    let line = ring_increment f.current_screen_line_index d.ring_glyphs_per_column in
    record f {
      current_screen_line_index = line;
      screen_lines_copy = put line i f.screen_lines_copy;
      logical_line_lens = put line (u64 (f.current_logical_line_len + offset)) f.logical_line_lens;
      screen_lines_in_window = u16 (f.screen_lines_in_window + one_if (leb start i));
    }

-- The glyphs up to the next tab stop.
abbrev pub additional_space : ℕ → ℕ
additional_space len = u8 (bit_and (u64 (len + tab_size_in_glyphs)) 252 + 2 ^ 64 - len)

-- A tab; where it overflows and the window is full, the `break` leaves the `switch` only.
pub fill_tab : Dimension → Terminal → ℕ → ℕ → ℕ → Fill → Fill
unfolding char_at open_line
fill_tab d t start max_lines i f =
    let space = additional_space f.current_logical_line_len in
    let final_size = u16 (f.current_glyph_len + space) in
    let len = u64 (f.current_logical_line_len + space) in
    let extra = u8 (d.glyphs_per_line + 2 ^ 64 - f.current_glyph_len) in
    let overflown = record (open_line d start i extra f) {
      current_glyph_len = u16 (space + 2 ^ 16 - extra);
      current_logical_line_len = len;
    } in
    if leb final_size d.glyphs_per_line
    then record f {
      current_glyph_len = final_size;
      to_next = final_size == d.glyphs_per_line && not (char_at t (i + 1) == newline);
      current_logical_line_len = len;
    }
    else if is_window_full max_lines f
    then f
    else overflown

-- Any other character takes a glyph.
pub fill_glyph : Dimension → Terminal → ℕ → Fill → Fill
unfolding char_at
fill_glyph d t i f =
    let glyphs = u16 (f.current_glyph_len + 1) in
    record f {
      current_glyph_len = glyphs;
      current_logical_line_len = u64 (f.current_logical_line_len + 1);
      to_next =
          if leb d.glyphs_per_line glyphs && not (char_at t (i + 1) == newline)
          then true
          else f.to_next;
    }

-- The `switch` on the character.
pub fill_char : Dimension → Terminal → ℕ → ℕ → ℕ → Fill → Fill
unfolding fill_tab fill_glyph char_at
fill_char d t start max_lines i f =
    let ch = char_at t i in
    if ch == 0
    then f
    else if ch == newline
    then record f { to_next = true; current_logical_line_len = 0 }
    else if ch == tab
    then fill_tab d t start max_lines i f
    else fill_glyph d t i f

-- The loop, by the characters that are left, with the index at which it ends.
pub fill_chars : ℕ → Dimension → Terminal → ℕ → ℕ → ℕ → Fill → Fill × ℕ
unfolding fill_char open_line
fill_chars zero d t start max_lines i f = (f, i)
fill_chars (suc left) d t start max_lines i f =
    let opened = record (open_line d start i 0 f) { current_glyph_len = 0; to_next = false } in
    let in_next =
      fill_chars left d t start max_lines (i + 1) (fill_char d t start max_lines i opened) in
    let in_line = fill_chars left d t start max_lines (i + 1) (fill_char d t start max_lines i f) in
    if f.to_next then if is_window_full max_lines f then (f, i) else in_next else in_line

-- The first line starts at `dry_start`; the arrays keep what stood in them.
abbrev pub first_line : ℕ → ℕ → (ℕ → ℕ) → (ℕ → ℕ) → Fill
first_line dry_start start copy lens = record {
  current_screen_line_index = 0;
  screen_lines_in_window = one_if (leb start dry_start);
  current_glyph_len = 0;
  current_logical_line_len = 0;
  to_next = false;
  screen_lines_copy = put 0 dry_start copy;
  logical_line_lens = put 0 0 lens;
}

-- The entry behind the last screen line is the end.
abbrev pub end_fill : Dimension → Fill × ℕ → FillResult
end_fill d (f, i) =
    let line = ring_increment f.current_screen_line_index d.ring_glyphs_per_column in
    record {
      real_screen_lines_written = min f.screen_lines_in_window d.glyphs_per_column;
      current_screen_line_index = line;
      last_line_done = f.to_next;
      screen_lines_copy = put line i f.screen_lines_copy;
      logical_line_lens = f.logical_line_lens;
    }

-- `fillScreenLines`
unfoldable pub fill_screen_lines :
    Dimension → Terminal → ℕ → ℕ → ℕ → ℕ → (ℕ → ℕ) → (ℕ → ℕ) → FillResult
unfolding fill_chars ring_increment
fill_screen_lines d t dry_start start end_exclusive max_lines copy lens = end_fill d (
    fill_chars (end_exclusive - dry_start) d t start max_lines dry_start
      (first_line dry_start start copy lens))

-- The loop of `oldestCharToParseGivenScreenLines`, with fuel for the lines; it gives a line.
pub older_line : ℕ → Dimension → Terminal → ℕ → ℕ → ℕ → ℕ → Option ℕ
unfolding ring_decrement to_screen_lines
older_line zero d t oldest needed processed line =
    if ltb processed needed && not (line == oldest) then none else some line
older_line (suc fuel) d t oldest needed processed line =
    let before = ring_decrement line max_scrollback_lines in
    let lines = to_screen_lines d (sub64 (t.logical_lines line) (t.logical_lines before)) in
    let older = older_line fuel d t oldest needed (u64 (processed + lines)) before in
    if ltb processed needed && not (line == oldest) then older else some line

-- What is parsed at most, from the start of a line on.
abbrev pub limit_chars : Dimension → ℕ → ℕ → ℕ
limit_chars d end_exclusive oldest_char =
    if ltb d.max_chars_to_process (sub64 end_exclusive oldest_char)
    then sub64 end_exclusive d.max_chars_to_process
    else oldest_char

-- From the logical line of the end on.
pub oldest_char_from : Dimension → Terminal → ℕ → ℕ → ℕ → Option ℕ
unfolding older_line ring_decrement ring_increment to_screen_lines
oldest_char_from d t end_exclusive screen_lines line =
    let oldest = ring_increment t.logical_line_to_write max_scrollback_lines in
    let first =
      if t.logical_lines line == end_exclusive
      then ring_decrement line max_scrollback_lines
      else line in
    let processed = to_screen_lines d (sub64 end_exclusive (t.logical_lines first)) in
    let found = older_line max_scrollback_lines d t oldest screen_lines processed first in
    if line == oldest && leb end_exclusive (t.logical_lines line)
    then some end_exclusive
    else map_some (λ l. limit_chars d end_exclusive (t.logical_lines l)) found

-- `oldestCharToParseGivenScreenLines`
unfoldable pub oldest_char_to_parse_given_screen_lines : Dimension → Terminal → ℕ → ℕ → Option ℕ
unfolding oldest_char_from index_to_logical_line
oldest_char_to_parse_given_screen_lines d t end_exclusive screen_lines =
    bind_some (oldest_char_from d t end_exclusive screen_lines)
      (index_to_logical_line t end_exclusive)
