-- ===== src/Recorder.antt =====
-- core/recorder.py: the files of a session and their parts. The disk is the list of the finished parts,
-- with the files of each, and does what it is told; the names of files are their part's number and
-- which of the four they are. The texts of stamps and rows are in a record of functions.
pub mod Numbers
pub mod Kept
pub mod Rotating
pub mod Rotation
pub mod Playback
use py_uart_proxy.Prelude.{
  ℕ, zero, suc, ◌+◌, ◌*◌, max, String, str_append, Bool, true, false, not, ◌&&◌, ◌||◌, Option, none,
  some, List, [], ◌∷◌, ◌++◌, Bytes, ◌==◌, ltb, leb, if◌then◌else◌, length, keep, map, is_some,
}
use py_uart_proxy.Event.{Event, EventKind, Direction, Stamp}

-- What an open file holds, and `none` where it is not open.
pub record Files : Type 0 where
  pub raw : Option Bytes
  pub relative : Option (List String)
  pub full : Option (List String)
  pub timing : Option (List String)

pub record Part : Type 0 where
  pub number : ℕ
  pub files : Files

-- The stamps of a row, the row of the timing file, the texts of the marks at the end and the start of
-- a part, and the bytes that a text takes in UTF-8.
pub record Texts : Type 0 where
  pub elapsed_str : ℕ → String
  pub wall_str : ℕ → String
  pub timing_row : ℕ → ℕ → ℕ → String
  pub continues : ℕ → String
  pub begins : ℕ → Files → String
  pub utf8_length : String → ℕ

pub record Wanted : Type 0 where
  pub raw : Bool
  pub relative : Bool
  pub full : Bool
  pub timing : Bool

pub record Recorder : Type 0 where
  pub include_tx : Bool
  pub wanted : Wanted
  pub rotate_bytes : ℕ
  pub keep_parts : ℕ
  pub parts : List ℕ
  pub banner : List String
  pub raw_bytes : ℕ
  pub text_bytes : ℕ
  pub files : Files
  pub disk : List Part

abbrev pub when {ℓ} : {A : Type ℓ} → Bool → A → Option A
when true a = some a
when false a = none

-- Fresh files, as `_open_files` opens them when it does not append.
abbrev pub fresh : Wanted → Files
fresh w = record {
  raw = when w.raw [];
  relative = when w.relative [];
  full = when w.full [];
  timing = when w.timing [];
}

-- The constructor: timing is wanted beside the raw bytes only.
abbrev pub wants : Bool → Bool → Bool → Bool → Wanted
wants raw relative full timing = record {
  raw = raw;
  relative = relative;
  full = full;
  timing = timing && raw;
}

abbrev pub new : Wanted → Bool → ℕ → ℕ → List Part → Recorder
new wanted include_tx rotate_bytes keep_parts disk = record {
  include_tx = include_tx;
  wanted = wanted;
  rotate_bytes = rotate_bytes;
  keep_parts = keep_parts;
  parts = [];
  banner = [];
  raw_bytes = 0;
  text_bytes = 0;
  files = fresh wanted;
  disk = disk;
}

abbrev pub write_row : String → Option (List String) → Option (List String)
write_row row none = none
write_row row (some rows) = some (rows ++ row ∷ [])

abbrev pub comment : String → String
comment text = str_append "# " (str_append text "\n")

unfoldable pub mark : String → Recorder → Recorder
mark text s = record s {
  files = record s.files {
    relative = write_row (comment text) s.files.relative;
    full = write_row (comment text) s.files.full;
  };
}

unfoldable pub mark_all : List String → Recorder → Recorder
mark_all [] s = s
mark_all (line ∷ lines) s = mark_all lines (mark line s)

abbrev pub set_banner : List String → Recorder → Recorder
set_banner lines s = mark_all lines (record s { banner = lines })

abbrev pub numbers : List Part → List ℕ
numbers ps = map (λ p. p.number) ps

abbrev pub highest : List ℕ → ℕ
highest [] = 0
highest (n ∷ ns) = max n (highest ns)

-- One past the highest part on disk.
unfoldable pub next_part_number : List Part → ℕ
next_part_number disk = suc (highest (numbers disk))

abbrev pub unlink : ℕ → List Part → List Part
unlink number disk = keep (λ p. not (p.number == number)) disk

-- os.replace of the files of a part, which takes the place of files of that name.
abbrev pub replace : Part → List Part → List Part
replace part disk = unlink part.number disk ++ part ∷ []

-- The `while` of `_prune_parts`.
unfoldable pub prune_loop : ℕ → List ℕ → List Part → List ℕ × List Part
prune_loop keep_parts [] disk = ([], disk)
prune_loop keep_parts (n ∷ ns) disk =
    let rest = prune_loop keep_parts ns (unlink n disk) in
    if ltb keep_parts (length (n ∷ ns)) then rest else (n ∷ ns, disk)

abbrev with_parts : Recorder → List ℕ × List Part → Recorder
with_parts s (parts, disk) = record s { parts = parts; disk = disk }

unfoldable pub prune_parts : Recorder → Recorder
prune_parts s =
    if s.keep_parts == 0 then s else with_parts s (prune_loop s.keep_parts s.parts s.disk)

-- The files become a part, and fresh ones are open.
unfoldable pub finish : ℕ → Recorder → Recorder
finish number s = record s {
  disk = replace (record { number = number; files = s.files }) s.disk;
  parts = s.parts ++ number ∷ [];
  files = fresh s.wanted;
  raw_bytes = 0;
  text_bytes = 0;
}

module _ (texts : Texts) where
  unfoldable pub rotate : Recorder → Recorder
  rotate s =
      let number = next_part_number s.disk in
      let ended = mark (texts.continues (suc number)) s in
      let started = finish number ended in
      prune_parts (mark (texts.begins (suc number) ended.files) (mark_all s.banner started))

  abbrev pub no_lines : Files → Bool
  no_lines f = not (is_some f.relative) && not (is_some f.full)

  unfoldable pub maybe_rotate : Bool → Recorder → Recorder
  maybe_rotate at_line_end s =
      let over = leb s.rotate_bytes (max s.raw_bytes s.text_bytes) in
      if s.rotate_bytes == 0
      then s
      else if (over && (at_line_end || no_lines s.files)) || leb (2 * s.rotate_bytes) s.raw_bytes
      then rotate s
      else s

  abbrev pub count : ℕ → Recorder → Recorder
  count size s = maybe_rotate false (record s { raw_bytes = s.raw_bytes + size })

  abbrev pub count_text : ℕ → Recorder → Recorder
  count_text size s = maybe_rotate true (record s { text_bytes = s.text_bytes + size })

  abbrev pub relative_row : Stamp → String → String → String
  relative_row t marker text = str_append "[" (
      str_append (texts.elapsed_str t.elapsed)
        (str_append "] " (str_append marker (str_append text "\n"))))

  abbrev pub full_row : Stamp → String → String → String
  full_row t marker text = str_append "[" (
      str_append (texts.wall_str t.wall) (
        str_append " | " (
          str_append (texts.elapsed_str t.elapsed)
            (str_append "] " (str_append marker (str_append text "\n"))))))

  -- Counted here only where there is no file with full stamps.
  abbrev pub write_relative : String → Recorder → Recorder
  write_relative row s =
      let s' = record s { files = record s.files { relative = write_row row s.files.relative } } in
      if is_some s.files.relative && not (is_some s.files.full)
      then count_text (texts.utf8_length row) s'
      else s'

  abbrev pub write_full : String → Recorder → Recorder
  write_full row s =
      let s' = record s { files = record s.files { full = write_row row s.files.full } } in
      if is_some s.files.full then count_text (texts.utf8_length row) s' else s'

  unfoldable pub write_line : Event → String → Recorder → Recorder
  write_line e marker s =
      write_full (full_row e.stamp marker e.text)
        (write_relative (relative_row e.stamp marker e.text) s)

  abbrev pub timing_of : Event → String
  timing_of e = texts.timing_row e.stamp.wall e.stamp.elapsed (length e.raw)

  abbrev pub write_data : Event → Option Bytes → Recorder → Recorder
  write_data e none s = s
  write_data e (some bytes) s = count (length e.raw) (record s {
    files = record s.files {
      raw = some (bytes ++ e.raw);
      timing = write_row (timing_of e) s.files.timing;
    };
  })

  unfoldable pub handle_as : EventKind → Direction → Event → Recorder → Recorder
  handle_as EventKind.data_chunk Direction.rx e s = write_data e s.files.raw s
  handle_as EventKind.line Direction.rx e s = write_line e "" s
  handle_as EventKind.line Direction.tx e s = if s.include_tx then write_line e ">> " s else s
  handle_as _ _ e s = s

  abbrev pub handle : Event → Recorder → Recorder
  handle e s = handle_as e.kind e.direction e s

  unfoldable pub handle_all : List Event → Recorder → Recorder
  handle_all [] s = s
  handle_all (e ∷ es) s = handle_all es (handle e s)
