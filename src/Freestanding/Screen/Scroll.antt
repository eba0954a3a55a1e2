-- ===== src/Freestanding/Screen/Scroll.antt =====
-- `rewind` and `prowind`: the window moves up and down over the text.
use homegrown.Prelude.{
  ℕ, ◌+◌, ◌-◌, ◌^◌, min, Bool, false, not, Option, none, some, leb, ◌==◌, if◌then◌else◌, u16,
}
use mathlib.Core.Option.{map as map_some}
use homegrown.Shared.Maths.{ring_plus, ring_minus}
use homegrown.Freestanding.Screen.{Dimension}
use homegrown.Freestanding.Screen.Fill.{
  FillResult, fill_screen_lines, oldest_char_to_parse_given_screen_lines,
}
use homegrown.Freestanding.Screen.Window.{Screen, Draw, copy_lines}

-- The entry behind the window.
pub end_entry : Dimension → ℕ → ℕ
unfolding ring_plus
end_entry d oldest = ring_plus oldest d.glyphs_per_column d.ring_glyphs_per_column

-- `isWindowSmallerThanScreen`
pub is_window_smaller_than_screen : Dimension → Screen → Bool
unfolding end_entry
is_window_smaller_than_screen d s =
    leb (s.screen_lines (end_entry d s.oldest_screen_line_index))
      (s.screen_lines s.oldest_screen_line_index)

-- `rewind` with what was parsed before the window.
pub rewind_filled : Dimension → ℕ → FillResult → Screen → Screen × Draw
unfolding copy_lines ring_minus
rewind_filled d number_of_screen_lines fill s =
    let ring = d.ring_glyphs_per_column in
    let new_lines = min fill.real_screen_lines_written number_of_screen_lines in
    let start_index = ring_minus fill.current_screen_line_index new_lines ring in
    let oldest = ring_minus s.oldest_screen_line_index new_lines ring in
    (
      record s {
        screen_lines =
            copy_lines new_lines ring oldest start_index 0 fill.screen_lines_copy s.screen_lines;
        screen_lines_copy = fill.screen_lines_copy;
        logical_line_lens = fill.logical_line_lens;
        oldest_screen_line_index = oldest;
        last_screenline_open = false;
        is_tailing = false;
      },
      record {
        start_index = oldest;
        screen_lines_to_draw = new_lines;
        current_logical_line_len = fill.logical_line_lens start_index;
        row_number = 0;
      },
    )

-- Where nothing moves, nothing is drawn.
abbrev pub still : Screen → Option (Screen × Option Draw)
still s = some (s, none)

abbrev pub drawn : Screen × Draw → Screen × Option Draw
drawn (s, draw) = (s, some draw)

-- `rewind`, from the oldest character to process on.
pub rewind_from : Dimension → ℕ → Screen → ℕ → Screen × Option Draw
unfolding rewind_filled fill_screen_lines
rewind_from d number_of_screen_lines s oldest_char =
    let current = s.screen_lines s.oldest_screen_line_index in
    let fill =
      fill_screen_lines d s.terminal oldest_char oldest_char current 0 s.screen_lines_copy
        s.logical_line_lens in
    if oldest_char == current
    then (s, none)
    else drawn (rewind_filled d number_of_screen_lines fill s)

unfoldable pub rewind : Dimension → ℕ → Screen → Option (Screen × Option Draw)
unfolding is_window_smaller_than_screen oldest_char_to_parse_given_screen_lines rewind_from
rewind d number_of_screen_lines s =
    let found =
      oldest_char_to_parse_given_screen_lines d s.terminal
        (s.screen_lines s.oldest_screen_line_index) number_of_screen_lines in
    if is_window_smaller_than_screen d s
    then still s
    else map_some (rewind_from d number_of_screen_lines s) found

-- `prowind` with what was parsed behind the window.
pub prowind_filled : Dimension → FillResult → Screen → Screen × Draw
unfolding copy_lines ring_plus ring_minus end_entry
prowind_filled d fill s =
    let ring = d.ring_glyphs_per_column in
    let written = fill.real_screen_lines_written in
    let old_lines = u16 (d.glyphs_per_column + 2 ^ 16 - written) in
    let start_index = ring_minus fill.current_screen_line_index written ring in
    let oldest = ring_plus s.oldest_screen_line_index written ring in
    let lines =
      copy_lines (written + 1) ring (oldest + old_lines) start_index 0 fill.screen_lines_copy
        s.screen_lines in
    (
      record s {
        screen_lines = lines;
        screen_lines_copy = fill.screen_lines_copy;
        logical_line_lens = fill.logical_line_lens;
        oldest_screen_line_index = oldest;
        last_screenline_open = not fill.last_line_done;
        is_tailing = lines (end_entry d oldest) == (s.terminal).char_count;
      },
      record {
        start_index = ring_plus oldest old_lines ring;
        screen_lines_to_draw = written;
        current_logical_line_len = fill.logical_line_lens start_index;
        row_number = old_lines;
      },
    )

-- `prowind`, from the oldest character to process on.
pub prowind_from : Dimension → ℕ → Screen → ℕ → Screen × Option Draw
unfolding prowind_filled fill_screen_lines end_entry
prowind_from d number_of_screen_lines s oldest_char =
    let t = s.terminal in
    drawn (
      prowind_filled d
        (fill_screen_lines d t oldest_char (s.screen_lines (end_entry d s.oldest_screen_line_index))
          t.char_count number_of_screen_lines s.screen_lines_copy s.logical_line_lens)
        s)

unfoldable pub prowind : Dimension → ℕ → Screen → Option (Screen × Option Draw)
unfolding is_window_smaller_than_screen oldest_char_to_parse_given_screen_lines prowind_from
    end_entry
prowind d number_of_screen_lines s =
    let first_outside = s.screen_lines (end_entry d s.oldest_screen_line_index) in
    let found = oldest_char_to_parse_given_screen_lines d s.terminal first_outside 0 in
    if is_window_smaller_than_screen d s
    then still s
    else if (s.terminal).char_count == first_outside
    then still s
    else map_some (prowind_from d number_of_screen_lines s) found
