-- ===== src/Recorder/Rotating.antt =====
-- Marks, rotations and rows of core/recorder.py leave the device's chunks where they are.
use py_uart_proxy.Prelude.{
  ℕ, suc, ◌+◌, ◌*◌, max, String, Bool, true, false, not, ◌&&◌, ◌||◌, List, [], ◌∷◌, ◌==◌, leb,
  if◌then◌else◌, is_some,
}
use py_uart_proxy.Event.{Event}
use py_uart_proxy.Recorder.{
  Part, Texts, Recorder, write_row, mark, mark_all, next_part_number, finish, rotate, maybe_rotate,
  write_line, write_relative, write_full, no_lines, full_row, relative_row,
}
use py_uart_proxy.Recorder.Kept.{IsKept, prune_parts-IsKept, finish-IsKept}

module _ (texts : Texts) where
  pub mark_all-IsKept :
      (old : List Part) (all : List Event) (lines : List String) (s : Recorder)
      → IsKept texts old all s
      → IsKept texts old all (mark_all lines s)
  unfolding mark_all mark
  mark_all-IsKept old all [] s h = h
  mark_all-IsKept old all (line ∷ lines) s h = mark_all-IsKept old all lines (mark line s) h

  mark-IsKept :
      (old : List Part) (all : List Event) (line : String) (s : Recorder)
      → IsKept texts old all s
      → IsKept texts old all (mark line s)
  unfolding mark
  mark-IsKept old all line s h = h

  rotate-IsKept :
      (old : List Part) (all : List Event) (s : Recorder)
      → IsKept texts old all s
      → IsKept texts old all (rotate texts s)
  unfolding rotate mark
  rotate-IsKept old all s h =
      let ended = mark (texts.continues (suc (next_part_number s.disk))) s in
      let started = finish (next_part_number s.disk) ended in
      let titled = mark_all s.banner started in
      prune_parts-IsKept texts old all
        (mark (texts.begins (suc (next_part_number s.disk)) ended.files) titled)
        (mark-IsKept old all (texts.begins (suc (next_part_number s.disk)) ended.files) titled (
          mark_all-IsKept old all s.banner started (
            finish-IsKept texts old all ended
              (mark-IsKept old all (texts.continues (suc (next_part_number s.disk))) s h))))

  pub maybe_rotate-IsKept :
      (old : List Part) (all : List Event) (at_line_end : Bool) (s : Recorder)
      → IsKept texts old all s
      → IsKept texts old all (maybe_rotate texts at_line_end s)
  unfolding maybe_rotate
  maybe_rotate-IsKept old all at_line_end s h = by_tests (s.rotate_bytes == 0) (
      (leb s.rotate_bytes (max s.raw_bytes s.text_bytes) && (at_line_end || no_lines texts s.files))
      || leb (2 * s.rotate_bytes) s.raw_bytes)
    where
      by_tests :
          (b c : Bool) → IsKept texts old all (if b then s else if c then rotate texts s else s)
      by_tests true c = h
      by_tests false true = rotate-IsKept old all s h
      by_tests false false = h

  counted_text :
      (old : List Part) (all : List Event) (b : Bool) (size : ℕ) (s : Recorder)
      → IsKept texts old all s
      → IsKept texts old all
          (if b then maybe_rotate texts true (record s { text_bytes = s.text_bytes + size }) else s)
  counted_text old all true size s h =
      maybe_rotate-IsKept old all true (record s { text_bytes = s.text_bytes + size }) h
  counted_text old all false size s h = h

  write_relative-IsKept :
      (old : List Part) (all : List Event) (row : String) (s : Recorder)
      → IsKept texts old all s
      → IsKept texts old all (write_relative texts row s)
  write_relative-IsKept old all row s h =
      counted_text old all (is_some s.files.relative && not (is_some s.files.full))
        (texts.utf8_length row)
        (record s { files = record s.files { relative = write_row row s.files.relative } }) h

  write_full-IsKept :
      (old : List Part) (all : List Event) (row : String) (s : Recorder)
      → IsKept texts old all s
      → IsKept texts old all (write_full texts row s)
  write_full-IsKept old all row s h =
      counted_text old all (is_some s.files.full) (texts.utf8_length row)
        (record s { files = record s.files { full = write_row row s.files.full } }) h

  pub write_line-IsKept :
      (old : List Part) (all : List Event) (e : Event) (marker : String) (s : Recorder)
      → IsKept texts old all s
      → IsKept texts old all (write_line texts e marker s)
  unfolding write_line
  write_line-IsKept old all e marker s h =
      write_full-IsKept old all (full_row texts e.stamp marker e.text)
        (write_relative texts (relative_row texts e.stamp marker e.text) s)
        (write_relative-IsKept old all (relative_row texts e.stamp marker e.text) s h)
