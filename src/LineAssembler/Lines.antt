-- ===== src/LineAssembler/Lines.antt =====
-- Device output: whole lines go in with their terminators and come out as they were.
use py_uart_proxy.Prelude.{
  ◌≡◌, refl, sym, inl, inr, false, List, [], ◌∷◌, ◌++◌, append_assoc, Bytes, subst, arith, ◌⊎◌, All,
}
use py_uart_proxy.LineAssembler.{new, cr, lf, rstrip, feed}
use py_uart_proxy.LineAssembler.Scan.{
  scan, cons_line, scan-append, NoLf, NoLf-snoc, scan-NoLf, scan-lf,
}
use py_uart_proxy.LineAssembler.Chunks.{feed-eq-scan}

-- Lines as a device or a person sends them, each ended by `eol`.
abbrev pub terminated : Bytes → List Bytes → Bytes
terminated eol [] = []
terminated eol (l ∷ ls) = l ++ (eol ++ terminated eol ls)

-- A line as the device means it: no line feed in it, no carriage return at its end.
pub record IsDeviceLine (l : Bytes) : Type 0 where
  pub no_lf : NoLf l
  pub no_trailing_cr : rstrip cr l ≡ l

rstrip-snoc : (l : Bytes) → rstrip cr (l ++ cr ∷ []) ≡ rstrip cr l
unfolding rstrip
rstrip-snoc [] = refl
rstrip-snoc (b ∷ l) = rw (rstrip-snoc l)

scan_line : (l bs : Bytes) → NoLf l → scan [] (l ++ lf ∷ bs) ≡ cons_line (rstrip cr l) (scan [] bs)
scan_line l bs h = rw (scan-append [] l (lf ∷ bs), scan-NoLf [] l h) (scan-lf l bs)

scan_line_crlf :
    (l bs : Bytes) → NoLf l → scan [] (l ++ cr ∷ lf ∷ bs) ≡ cons_line (rstrip cr l) (scan [] bs)
scan_line_crlf l bs h = rw (
  ← append_assoc l (cr ∷ []) (lf ∷ bs),
  scan_line (l ++ cr ∷ []) bs (NoLf-snoc l cr h (omega arith)),
  rstrip-snoc l,
)

module _ (rest : Bytes) (k : NoLf rest) where
  scan-terminated-lf :
      (ls : List Bytes)
      → All IsDeviceLine ls
      → scan [] (terminated (lf ∷ []) ls ++ rest) ≡ (ls, rest)
  scan-terminated-lf [] h = scan-NoLf [] rest k
  scan-terminated-lf (l ∷ ls) h =
      let more = terminated (lf ∷ []) ls in
      rw (
        append_assoc l (lf ∷ more) rest,
        scan_line l (more ++ rest) h.0.no_lf,
        scan-terminated-lf ls h.1,
        h.0.no_trailing_cr,
      )

  scan-terminated-crlf :
      (ls : List Bytes)
      → All IsDeviceLine ls
      → scan [] (terminated (cr ∷ lf ∷ []) ls ++ rest) ≡ (ls, rest)
  scan-terminated-crlf [] h = scan-NoLf [] rest k
  scan-terminated-crlf (l ∷ ls) h =
      let more = terminated (cr ∷ lf ∷ []) ls in
      rw (
        append_assoc l (cr ∷ lf ∷ more) rest,
        scan_line_crlf l (more ++ rest) h.0.no_lf,
        scan-terminated-crlf ls h.1,
        h.0.no_trailing_cr,
      )

  scan-terminated :
      {eol : Bytes} (ls : List Bytes)
      → (eol ≡ lf ∷ []) ⊎ (eol ≡ cr ∷ lf ∷ [])
      → All IsDeviceLine ls
      → scan [] (terminated eol ls ++ rest) ≡ (ls, rest)
  scan-terminated ls (inl e) h =
      subst (λ t. scan [] (terminated t ls ++ rest) ≡ (ls, rest)) (sym e) (scan-terminated-lf ls h)
  scan-terminated ls (inr e) h =
      subst (λ t. scan [] (terminated t ls ++ rest) ≡ (ls, rest)) (sym e)
        (scan-terminated-crlf ls h)

-- Device output made of lines ended by `\n`, or by `\r\n`, and then of an unfinished line, comes out
-- as exactly these lines, and the unfinished line stays in the buffer.
pub feed-terminated :
    (eol : Bytes) (ls : List Bytes) (rest : Bytes)
    → (eol ≡ lf ∷ []) ⊎ (eol ≡ cr ∷ lf ∷ [])
    → All IsDeviceLine ls
    → NoLf rest
    → feed (terminated eol ls ++ rest) (new false) ≡ (ls, record (new false) { buf = rest })
feed-terminated eol ls rest e h k =
    rw (feed-eq-scan (new false) (terminated eol ls ++ rest) refl, scan-terminated rest k ls e h)
