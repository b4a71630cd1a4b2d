-- ===== src/Recorder/Kept.antt =====
-- The chunks that the files of core/recorder.py hold, and that finishing and deleting parts keep them.
use py_uart_proxy.Prelude.{
  ℕ, suc, ◌<◌, String, Bool, true, false, Option, some, List, [], ◌∷◌, ◌++◌, Bytes, ◌==◌, ltb,
  if◌then◌else◌, length, map, append-nil, append_assoc, ◌≡◌, refl, sym, ap, ◌∙◌, subst, arith, ◌⊎◌,
  inr,
}
use py_uart_proxy.Event.{Event}
use py_uart_proxy.Recording.Timeline.{Rising}
use py_uart_proxy.Recorder.{
  Part, Texts, Wanted, Recorder, numbers, highest, next_part_number, unlink, prune_loop,
  prune_parts, finish, when, timing_of,
}
use py_uart_proxy.Recorder.Numbers.{
  unlink_above, unlink_oldest, numbers-append, Rising-weaken, numbered_next,
}

abbrev pub bytes_of : List Event → Bytes
bytes_of [] = []
bytes_of (e ∷ es) = e.raw ++ bytes_of es

abbrev pub flat : List (List Event) → List Event
flat [] = []
flat (es ∷ ess) = es ++ flat ess

pub bytes_of-snoc : (es : List Event) (e : Event) → bytes_of (es ++ e ∷ []) ≡ bytes_of es ++ e.raw
bytes_of-snoc [] e = append-nil e.raw
bytes_of-snoc (d ∷ es) e =
    ap (λ t. d.raw ++ t) (bytes_of-snoc es e) ∙ sym (append_assoc d.raw (bytes_of es) e.raw)

pub flat-snoc : (ess : List (List Event)) (es : List Event) → flat (ess ++ es ∷ []) ≡ flat ess ++ es
flat-snoc [] es = append-nil es
flat-snoc (ds ∷ ess) es = ap (λ t. ds ++ t) (flat-snoc ess es) ∙ sym (append_assoc ds (flat ess) es)

module _ (texts : Texts) where
  -- Files that hold the bytes and the timing of some chunks.
  abbrev pub Covers : Option Bytes → Option (List String) → List Event → Type 0
  Covers raw timing es = (raw ≡ some (bytes_of es)) × (timing ≡ some (map (timing_of texts) es))

  abbrev pub AllCover : List Part → List (List Event) → Type 0
  AllCover [] [] = Unit
  AllCover (p ∷ ps) (es ∷ ess) = Covers p.files.raw p.files.timing es × AllCover ps ess
  AllCover _ _ = ⊥

  AllCover-snoc :
      (ps : List Part) (ess : List (List Event)) (p : Part) (es : List Event)
      → AllCover ps ess
      → Covers p.files.raw p.files.timing es
      → AllCover (ps ++ p ∷ []) (ess ++ es ∷ [])
  AllCover-snoc [] [] p es a c = (c, tt)
  AllCover-snoc [] (ds ∷ ess) p es a c = absurd a
  AllCover-snoc (q ∷ ps) [] p es a c = absurd a
  AllCover-snoc (q ∷ ps) (ds ∷ ess) p es a c = (a.0, AllCover-snoc ps ess p es a.1 c)

  -- The chunks `all` that a run recorded on a disk with the parts `old`: those in parts deleted since,
  -- those in each part that is there, and those in the open files.
  pub record Kept (old : List Part) (all : List Event) (disk : List Part) (parts : List ℕ)
      (raw : Option Bytes) (timing : Option (List String)) (keep_parts : ℕ) (wanted : Wanted)
      : Type 0 where
    pub lost : List Event
    pub new_parts : List Part
    pub in_parts : List (List Event)
    pub open_chunks : List Event
    pub disk_is : disk ≡ old ++ new_parts
    pub parts_are : parts ≡ numbers new_parts
    pub numbered : Rising (highest (numbers old)) (numbers new_parts)
    pub in_parts_cover : AllCover new_parts in_parts
    pub open_cover : Covers raw timing open_chunks
    pub every_chunk : lost ++ (flat in_parts ++ open_chunks) ≡ all
    pub none_lost : (lost ≡ []) ⊎ (0 < keep_parts)
    pub wants_raw : wanted.raw ≡ true
    pub wants_timing : wanted.timing ≡ true

  abbrev pub IsKept : List Part → List Event → Recorder → Type 0
  IsKept old all s = Kept old all s.disk s.parts s.files.raw s.files.timing s.keep_parts s.wanted

  prune_loop-Kept :
      (old : List Part) (all lost : List Event) (new_parts : List Part)
      (in_parts : List (List Event)) (open_chunks : List Event) (raw : Option Bytes)
      (timing : Option (List String)) (k : ℕ) (w : Wanted)
      → 0 < k
      → w.raw ≡ true
      → w.timing ≡ true
      → Rising (highest (numbers old)) (numbers new_parts)
      → AllCover new_parts in_parts
      → Covers raw timing open_chunks
      → lost ++ (flat in_parts ++ open_chunks) ≡ all
      → let r = prune_loop k (numbers new_parts) (old ++ new_parts) in
        Kept old all r.1 r.0 raw timing k w
  unfolding prune_loop
  prune_loop-Kept old all lost [] [] o raw timing k w pos wr wt num cov op ev = record {
    lost = lost;
    new_parts = [];
    in_parts = [];
    open_chunks = o;
    disk_is = refl;
    parts_are = refl;
    numbered = tt;
    in_parts_cover = tt;
    open_cover = op;
    every_chunk = ev;
    none_lost = inr pos;
    wants_raw = wr;
    wants_timing = wt;
  }
  prune_loop-Kept old all lost [] (es ∷ ess) o raw timing k w pos wr wt num cov op ev = absurd cov
  prune_loop-Kept old all lost (p ∷ ps) [] o raw timing k w pos wr wt num cov op ev = absurd cov
  prune_loop-Kept old all lost (p ∷ ps) (es ∷ ess) o raw timing k w pos wr wt num cov op ev =
      by_test (ltb k (suc (length (numbers ps)))) (
        subst
          (λ d.
            Kept old all (prune_loop k (numbers ps) d).1 (prune_loop k (numbers ps) d).0 raw timing
              k w)
          (sym (unlink_oldest old p ps num))
          (prune_loop-Kept old all (lost ++ es) ps ess o raw timing k w pos wr wt
            (Rising-weaken (highest (numbers old)) p.number (numbers ps) (omega (arith, num.0))
              num.1)
            cov.1 op
            (append_assoc lost es (flat ess ++ o)
              ∙ (ap (λ t. lost ++ t) (sym (append_assoc es (flat ess) o)) ∙ ev))))
    where
      by_test :
          (b : Bool)
          → (let r = prune_loop k (numbers ps) (unlink p.number (old ++ p ∷ ps)) in
              Kept old all r.1 r.0 raw timing k w)
          → let r : List ℕ × List Part =
              if b
              then prune_loop k (numbers ps) (unlink p.number (old ++ p ∷ ps))
              else (p.number ∷ numbers ps, old ++ p ∷ ps) in
            Kept old all r.1 r.0 raw timing k w
      by_test true h = h
      by_test false h = record {
        lost = lost;
        new_parts = p ∷ ps;
        in_parts = es ∷ ess;
        open_chunks = o;
        disk_is = refl;
        parts_are = refl;
        numbered = num;
        in_parts_cover = cov;
        open_cover = op;
        every_chunk = ev;
        none_lost = inr pos;
        wants_raw = wr;
        wants_timing = wt;
      }

  pub prune_parts-IsKept :
      (old : List Part) (all : List Event) (s : Recorder)
      → IsKept old all s
      → IsKept old all (prune_parts s)
  unfolding prune_parts
  prune_parts-IsKept old all s h = by_test (s.keep_parts == 0) refl
    where
      pruned : List ℕ × List Part
      pruned = prune_loop s.keep_parts s.parts s.disk

      by_test :
          (b : Bool)
          → (b ≡ (s.keep_parts == 0))
          → IsKept old all (if b then s else record s { parts = pruned.0; disk = pruned.1 })
      by_test true e = h
      by_test false e =
          subst
            (λ q.
              Kept old all (prune_loop s.keep_parts q s.disk).1 (prune_loop s.keep_parts q s.disk).0
                s.files.raw s.files.timing s.keep_parts s.wanted)
            (sym h.parts_are)
            (subst
              (λ d.
                Kept old all (prune_loop s.keep_parts (numbers h.new_parts) d).1
                  (prune_loop s.keep_parts (numbers h.new_parts) d).0 s.files.raw s.files.timing
                  s.keep_parts s.wanted)
              (sym h.disk_is)
              (prune_loop-Kept old all h.lost h.new_parts h.in_parts h.open_chunks s.files.raw
                s.files.timing s.keep_parts s.wanted (ground (arith, e)) h.wants_raw h.wants_timing
                h.numbered h.in_parts_cover h.open_cover h.every_chunk))

  pub finish-IsKept :
      (old : List Part) (all : List Event) (s : Recorder)
      → IsKept old all s
      → IsKept old all (finish (next_part_number s.disk) s)
  unfolding finish next_part_number
  finish-IsKept old all s h = record {
    lost = h.lost;
    new_parts =
        h.new_parts ++ record { number = suc (highest (numbers s.disk)); files = s.files } ∷ [];
    in_parts = h.in_parts ++ h.open_chunks ∷ [];
    open_chunks = [];
    disk_is =
        ap (λ t. t ++ record { number = suc (highest (numbers s.disk)); files = s.files } ∷ [])
          (unlink_above (suc (highest (numbers s.disk))) s.disk (omega arith) ∙ h.disk_is)
        ∙ append_assoc old h.new_parts
            (record { number = suc (highest (numbers s.disk)); files = s.files } ∷ []);
    parts_are =
        ap (λ t. t ++ suc (highest (numbers s.disk)) ∷ []) h.parts_are
        ∙ sym (
            numbers-append h.new_parts
              (record { number = suc (highest (numbers s.disk)); files = s.files } ∷ []));
    numbered = numbered_next old h.new_parts s.disk s.files h.disk_is h.numbered;
    in_parts_cover =
        AllCover-snoc h.new_parts h.in_parts
          (record { number = suc (highest (numbers s.disk)); files = s.files }) h.open_chunks
          h.in_parts_cover h.open_cover;
    open_cover = (ap (λ b. when b []) h.wants_raw, ap (λ b. when b []) h.wants_timing);
    every_chunk =
        ap (λ t. h.lost ++ t)
          (append-nil (flat (h.in_parts ++ h.open_chunks ∷ []))
            ∙ flat-snoc h.in_parts h.open_chunks)
        ∙ h.every_chunk;
    none_lost = h.none_lost;
    wants_raw = h.wants_raw;
    wants_timing = h.wants_timing;
  }
