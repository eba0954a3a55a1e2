-- ===== src/Freestanding/Screen/Tests.antt =====
-- A window of two lines of four glyphs.
use homegrown.Prelude.{◌+◌, ℕ, ◌≡◌, refl, arith, true, false, Option, none, some, List, [], ◌∷◌}
use mathlib.Core.Option.{map as map_some}
use homegrown.Shared.Maths.{ring_increment, ring_plus, ring_minus, ring_decrement}
use homegrown.Freestanding.Screen.{
  flush_chars, Dimension, Terminal, put, put_chars, index_to_logical_line, max_scrollback_lines,
}
use homegrown.Freestanding.Screen.Search.{IsLine, line_slot, index_to_logical_line-IsLine}
use homegrown.Freestanding.Screen.Text.{flush_chars-char_at}
use homegrown.Freestanding.Screen.Fill.{char_at, FillResult, fill_screen_lines}
use homegrown.Freestanding.Screen.Window.{Screen, Draw, flush_to_screen}
use homegrown.Freestanding.Screen.Scroll.{rewind, prowind}

abbrev small_window : Dimension
small_window = record {
  glyphs_per_line = 4;
  glyphs_per_column = 2;
  ring_glyphs_per_column = 4;
  max_chars_to_process = 16;
}

abbrev no_text : Terminal
no_text = record {
  buf = λ i. 0;
  next_char_in_buf = 0;
  char_count = 0;
  logical_lines = λ i. 0;
  logical_line_to_write = 0;
  logical_newline = false;
}

abbrev start_screen : Screen
start_screen = record {
  terminal = no_text;
  screen_lines = λ i. 0;
  screen_lines_copy = λ i. 0;
  logical_line_lens = λ i. 0;
  oldest_screen_line_index = 0;
  last_screenline_open = false;
  is_tailing = true;
}

-- The entries of the window and the one behind it.
abbrev window : Screen × Option Draw → List ℕ
window (s, draw) =
    let entry = λ (i : ℕ). s.screen_lines (ring_plus s.oldest_screen_line_index i 4) in
    entry 0 ∷ entry 1 ∷ entry 2 ∷ []

abbrev three_lines : List ℕ
three_lines = 97 ∷ 98 ∷ 10 ∷ 99 ∷ 100 ∷ 101 ∷ 102 ∷ 103 ∷ 104 ∷ []

-- The last two screen lines of the text are shown.
flush_three :
    map_some window (flush_to_screen small_window three_lines start_screen) ≡ some (3 ∷ 7 ∷ 9 ∷ [])
unfolding flush_to_screen ring_plus ring_minus ring_decrement ring_increment
flush_three = refl

abbrev screen_of : Screen × Option Draw → Screen
screen_of (s, draw) = s

abbrev then_rewind : Option (Screen × Option Draw) → Option (Screen × Option Draw)
then_rewind none = none
then_rewind (some r) = rewind small_window 1 (screen_of r)

abbrev then_prowind : Option (Screen × Option Draw) → Option (Screen × Option Draw)
then_prowind none = none
then_prowind (some r) = prowind small_window 1 (screen_of r)

-- The window moves up by a line, and back.
rewind_three :
    map_some window (then_rewind (flush_to_screen small_window three_lines start_screen))
    ≡ some (0 ∷ 3 ∷ 7 ∷ [])
unfolding flush_to_screen rewind ring_plus ring_minus ring_decrement ring_increment
rewind_three = refl

prowind_three :
    map_some window
      (then_prowind (then_rewind (flush_to_screen small_window three_lines start_screen)))
    ≡ some (3 ∷ 7 ∷ 9 ∷ [])
unfolding flush_to_screen rewind prowind ring_plus ring_minus ring_decrement ring_increment
prowind_three = refl

abbrev six_glyphs : Dimension
six_glyphs = record small_window { glyphs_per_line = 6 }

abbrev end_of : FillResult → ℕ
end_of r = r.screen_lines_copy r.current_screen_line_index

-- A tab that overflows does not end a full window: the character behind it is on the line, too.
fill_past_tab :
    end_of (
      fill_screen_lines six_glyphs
        (put_chars (97 ∷ 98 ∷ 99 ∷ 100 ∷ 101 ∷ 9 ∷ 120 ∷ 121 ∷ []) no_text)
        0
        0
        8
        1
        (λ i. 0)
        (λ i. 0))
    ≡ 7
unfolding fill_screen_lines put_chars ring_increment
fill_past_tab = refl

two_lines : Terminal
two_lines = record no_text {
  char_count = 9;
  next_char_in_buf = 9;
  logical_lines = put 1 3 (λ i. 0);
  logical_line_to_write = 1;
}

index_to_logical_line-IsLine_example :
    (j : ℕ) × (index_to_logical_line two_lines 2
      ≡ some (line_slot (ring_increment 1 max_scrollback_lines) j))
    × IsLine two_lines (ring_increment 1 max_scrollback_lines) 2 j
unfolding two_lines
index_to_logical_line-IsLine_example = index_to_logical_line-IsLine two_lines 2 (omega arith)

flush_chars-char_at_example : char_at (flush_chars three_lines two_lines) (9 + 4) ≡ 100
unfolding two_lines
flush_chars-char_at_example =
    flush_chars-char_at three_lines two_lines 4 refl (omega arith) (omega arith)
