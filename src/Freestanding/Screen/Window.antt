-- ===== src/Freestanding/Screen/Window.antt =====
-- `toTail`, `flushToScreen`, `rewind` and `prowind`: the lines that the window shows. Of the drawing
-- the arguments are kept.
use homegrown.Prelude.{
  ℕ, zero, suc, ◌+◌, ◌-◌, ◌^◌, max, Bool, not, ◌&&◌, Option, none, some, List, ltb, leb, ◌==◌,
  if◌then◌else◌, u16,
}
use mathlib.Core.Option.{map as map_some}
use homegrown.Shared.Maths.{ring_plus, ring_minus, ring_decrement}
use homegrown.Freestanding.Screen.{Dimension, Terminal, put, flush_chars, index_to_logical_line}
use homegrown.Freestanding.Screen.Fill.{
  FillResult, bind_some, one_if, fill_screen_lines, oldest_char_to_parse_given_screen_lines,
}

-- The state of the screen besides its text. `screen_lines` is a ring of starts of screen lines.
pub record Screen : Type 0 where
  pub terminal : Terminal
  pub screen_lines : ℕ → ℕ
  pub screen_lines_copy : ℕ → ℕ
  pub logical_line_lens : ℕ → ℕ
  pub oldest_screen_line_index : ℕ
  pub last_screenline_open : Bool
  pub is_tailing : Bool

-- The call of `drawLines`: rows of the window, from an entry of `screen_lines` on.
pub record Draw : Type 0 where
  pub start_index : ℕ
  pub screen_lines_to_draw : ℕ
  pub current_logical_line_len : ℕ
  pub row_number : ℕ

-- The copy of new entries into the ring of screen lines, from the entry `i` on.
unfoldable pub copy_lines : ℕ → ℕ → ℕ → ℕ → ℕ → (ℕ → ℕ) → (ℕ → ℕ) → ℕ → ℕ
unfolding ring_plus
copy_lines zero ring to from i copy lines = lines
copy_lines (suc left) ring to from i copy lines =
    copy_lines left ring to from (i + 1) copy
      (put (ring_plus to i ring) (copy (ring_plus from i ring)) lines)

-- The loop of `toTail` from the last entry back to the first that is in the window, by its entry.
pub final_entry : ℕ → Dimension → Screen → ℕ → Option ℕ
unfolding ring_decrement
final_entry zero d s entry =
    if leb (s.screen_lines entry) (s.screen_lines s.oldest_screen_line_index)
      && not (entry == s.oldest_screen_line_index)
    then none
    else some entry
final_entry (suc fuel) d s entry =
    let before = final_entry fuel d s (ring_decrement entry d.ring_glyphs_per_column) in
    if leb (s.screen_lines entry) (s.screen_lines s.oldest_screen_line_index)
      && not (entry == s.oldest_screen_line_index)
    then before
    else some entry

-- `toTail` with what was parsed.
pub tail_filled : Dimension → ℕ → FillResult → Screen → Screen × Draw
unfolding copy_lines ring_plus ring_minus
tail_filled d final fill s =
    let ring = d.ring_glyphs_per_column in
    let written = fill.real_screen_lines_written in
    let start_index = ring_minus fill.current_screen_line_index written ring in
    let old_lines = u16 (d.glyphs_per_column + 2 ^ 16 - written) in
    let original = ring_minus final s.oldest_screen_line_index ring in
    let total = u16 (written + original) in
    let oldest =
      if ltb d.glyphs_per_column total
      then ring_plus s.oldest_screen_line_index (total - d.glyphs_per_column) ring
      else s.oldest_screen_line_index in
    (
      record s {
        screen_lines =
            copy_lines (written + 1) ring (oldest + old_lines) start_index 0 fill.screen_lines_copy
              s.screen_lines;
        screen_lines_copy = fill.screen_lines_copy;
        logical_line_lens = fill.logical_line_lens;
        oldest_screen_line_index = oldest;
        last_screenline_open = not fill.last_line_done;
      },
      record {
        start_index = ring_plus oldest old_lines ring;
        screen_lines_to_draw = written;
        current_logical_line_len = fill.logical_line_lens start_index;
        row_number = old_lines;
      },
    )

-- `toTail` from the entry that its loop finds; the ring has as many entries as there is fuel.
pub tail_from : Dimension → Screen → ℕ → Option (Screen × Draw)
unfolding tail_filled fill_screen_lines oldest_char_to_parse_given_screen_lines
    index_to_logical_line
tail_from d s final =
    let t = s.terminal in
    let first_outside = s.screen_lines final in
    let filled = λ (oldest line : ℕ).
      fill_screen_lines d t (max oldest (t.logical_lines line)) first_outside t.char_count 0
        s.screen_lines_copy s.logical_line_lens in
    bind_some
      (λ oldest.
        map_some (λ line. tail_filled d final (filled oldest line) s)
          (index_to_logical_line t first_outside))
      (oldest_char_to_parse_given_screen_lines d t t.char_count d.glyphs_per_column)

pub to_tail : Dimension → Screen → Option (Screen × Draw)
unfolding tail_from final_entry ring_plus
to_tail d s = bind_some (tail_from d s) (
    final_entry d.ring_glyphs_per_column d s (
      ring_plus s.oldest_screen_line_index
        (u16 (d.glyphs_per_column + 2 ^ 16 - one_if s.last_screenline_open))
        d.ring_glyphs_per_column))

-- `flushToScreen`; nothing is drawn where the window does not follow the text.
unfoldable pub flush_to_screen : Dimension → List ℕ → Screen → Option (Screen × Option Draw)
unfolding flush_chars to_tail
flush_to_screen d buffer s =
    let written = record s { terminal = flush_chars buffer s.terminal } in
    if written.is_tailing
    then map_some (λ (r : Screen × Draw). (r.0, some r.1)) (to_tail d written)
    else some (written, none)
