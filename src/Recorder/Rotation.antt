-- ===== src/Recorder/Rotation.antt =====
-- core/recorder.py across rotations: where the bytes that the device sent are.
use py_uart_proxy.Prelude.{
  ℕ, ◌+◌, String, Bool, true, false, Option, none, some, List, [], ◌∷◌, ◌++◌, Bytes, if◌then◌else◌,
  length, map, append-nil, append_assoc, ◌≡◌, refl, sym, ap, ◌∙◌, subst, arith, inl,
}
use mathlib.Core.Option.{some-injective}
use py_uart_proxy.Event.{Event, EventKind, Direction}
use py_uart_proxy.Recorder.{
  Part, Texts, Recorder, write_row, write_line, timing_of, write_data, handle_as, handle,
  handle_all, new, wants, set_banner,
}
use py_uart_proxy.Recorder.Kept.{bytes_of, flat, bytes_of-snoc, Kept, IsKept}
use py_uart_proxy.Recorder.Rotating.{mark_all-IsKept, maybe_rotate-IsKept, write_line-IsKept}

not_both : {o : Option Bytes} {bs : Bytes} → o ≡ none → o ≡ some bs → ⊥
not_both e f = ground (arith, e, f)

-- What an event adds to what was received.
abbrev pub heard_as : EventKind → Direction → Event → List Event
heard_as EventKind.data_chunk Direction.rx e = e ∷ []
heard_as _ _ e = []

abbrev pub heard : List Event → List Event
heard [] = []
heard (e ∷ es) = heard_as e.kind e.direction e ++ heard es

module _ (texts : Texts) where
  map-snoc :
      (es : List Event) (e : Event)
      → map (timing_of texts) (es ++ e ∷ []) ≡ map (timing_of texts) es ++ timing_of texts e ∷ []
  map-snoc [] e = refl
  map-snoc (d ∷ es) e = ap (λ t. timing_of texts d ∷ t) (map-snoc es e)

  -- A chunk goes to the open files.
  added :
      (old : List Part) (all : List Event) (e : Event) (bytes : Bytes) (s : Recorder)
      → s.files.raw ≡ some bytes
      → IsKept texts old all s
      → Kept texts old
          (all ++ e ∷ [])
          s.disk
          s.parts
          (some (bytes ++ e.raw))
          (write_row (timing_of texts e) s.files.timing)
          s.keep_parts
          s.wanted
  added old all e bytes s open_raw h = record {
    lost = h.lost;
    new_parts = h.new_parts;
    in_parts = h.in_parts;
    open_chunks = h.open_chunks ++ e ∷ [];
    disk_is = h.disk_is;
    parts_are = h.parts_are;
    numbered = h.numbered;
    in_parts_cover = h.in_parts_cover;
    open_cover = (
      ap some (
          ap (λ t. t ++ e.raw)
            (some-injective bytes (bytes_of h.open_chunks) (sym open_raw ∙ h.open_cover.0))
          ∙ sym (bytes_of-snoc h.open_chunks e)),
      ap (write_row (timing_of texts e)) h.open_cover.1 ∙ ap some (sym (map-snoc h.open_chunks e)),
    );
    every_chunk =
        ap (λ t. h.lost ++ t) (sym (append_assoc (flat h.in_parts) h.open_chunks (e ∷ [])))
        ∙ (sym (append_assoc h.lost (flat h.in_parts ++ h.open_chunks) (e ∷ []))
            ∙ ap (λ t. t ++ e ∷ []) h.every_chunk);
    none_lost = h.none_lost;
    wants_raw = h.wants_raw;
    wants_timing = h.wants_timing;
  }

  write_data-IsKept :
      (old : List Part) (all : List Event) (e : Event) (s : Recorder)
      → IsKept texts old all s
      → IsKept texts old (all ++ e ∷ []) (write_data texts e s.files.raw s)
  write_data-IsKept old all e s h = by_file s.files.raw refl
    where
      by_file :
          (raw : Option Bytes)
          → (s.files.raw ≡ raw)
          → IsKept texts old (all ++ e ∷ []) (write_data texts e raw s)
      by_file none k = absurd (not_both k h.open_cover.0)
      by_file (some bytes) k =
          maybe_rotate-IsKept texts old (all ++ e ∷ []) false
            (record s {
              files = record s.files {
                raw = some (bytes ++ e.raw);
                timing = write_row (timing_of texts e) s.files.timing;
              };
              raw_bytes = s.raw_bytes + length e.raw;
            })
            (added old all e bytes s k h)

  same :
      (old : List Part) (all : List Event) (s : Recorder)
      → IsKept texts old all s
      → IsKept texts old (all ++ []) s
  same old all s h = subst (λ t. IsKept texts old t s) (sym (append-nil all)) h

  handle_as-IsKept :
      (old : List Part) (all : List Event) (k : EventKind) (d : Direction) (e : Event)
      (s : Recorder)
      → IsKept texts old all s
      → IsKept texts old (all ++ heard_as k d e) (handle_as texts k d e s)
  unfolding handle_as
  handle_as-IsKept old all EventKind.data_chunk Direction.rx e s h = write_data-IsKept old all e s h
  handle_as-IsKept old all EventKind.line Direction.rx e s h =
      same old all (write_line texts e "" s) (write_line-IsKept texts old all e "" s h)
  handle_as-IsKept old all EventKind.line Direction.tx e s h =
      same old all (if s.include_tx then write_line texts e ">> " s else s) (by_choice s.include_tx)
    where
      by_choice : (b : Bool) → IsKept texts old all (if b then write_line texts e ">> " s else s)
      by_choice true = write_line-IsKept texts old all e ">> " s h
      by_choice false = h
  handle_as-IsKept old all k d e s h = same old all s h

  handle_all-IsKept :
      (old : List Part) (all es : List Event) (s : Recorder)
      → IsKept texts old all s
      → IsKept texts old (all ++ heard es) (handle_all texts es s)
  unfolding handle_all
  handle_all-IsKept old all [] s h = same old all s h
  handle_all-IsKept old all (e ∷ es) s h =
      subst (λ t. IsKept texts old t (handle_all texts es (handle texts e s)))
        (append_assoc all (heard_as e.kind e.direction e) (heard es))
        (handle_all-IsKept old (all ++ heard_as e.kind e.direction e) es (handle texts e s)
          (handle_as-IsKept old all e.kind e.direction e s h))

  -- A recorder that writes the raw and the timing file starts in a folder that may hold an earlier
  -- run's parts `old`, sets any banner, and hears any events, rotating and deleting parts as its limits
  -- say. Then the disk has the parts of the earlier run, untouched, and the new ones, numbered upwards
  -- from past them; each part's raw and timing file, and the open ones, hold the same chunks; and the
  -- chunks of the deleted parts, of the parts in order, and of the open files are all the chunks the
  -- device sent, each once and in order. Without `keep_parts` none is in a deleted part.
  pub handle_all-new :
      (old : List Part) (relative full include_tx : Bool) (rotate_bytes keep_parts : ℕ)
      (banner : List String) (es : List Event)
      → IsKept texts old (heard es) (
          handle_all texts es (
            set_banner banner
              (new (wants true relative full true) include_tx rotate_bytes keep_parts old)))
  handle_all-new old relative full include_tx rotate_bytes keep_parts banner es =
      handle_all-IsKept old [] es (set_banner banner started) (
        mark_all-IsKept texts old [] banner (record started { banner = banner }) (begun keep_parts))
    where
      started : Recorder
      started = new (wants true relative full true) include_tx rotate_bytes keep_parts old

      begun :
          (k : ℕ) → Kept texts old [] old [] (some []) (some []) k (wants true relative full true)
      begun k = record {
        lost = [];
        new_parts = [];
        in_parts = [];
        open_chunks = [];
        disk_is = sym (append-nil old);
        parts_are = refl;
        numbered = tt;
        in_parts_cover = tt;
        open_cover = (refl, refl);
        every_chunk = refl;
        none_lost = inl refl;
        wants_raw = refl;
        wants_timing = refl;
      }
