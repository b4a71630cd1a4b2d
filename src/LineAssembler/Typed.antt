-- ===== src/LineAssembler/Typed.antt =====
-- What a person types, where a carriage return ends a line too.
use py_uart_proxy.Prelude.{
  ℕ, ◌≡◌, ◌≢◌, refl, sym, ap, ◌∙◌, Bool, true, false, List, [], ◌∷◌, ◌++◌, append-nil, append_assoc,
  Bytes, arith, All,
}
use py_uart_proxy.LineAssembler.{LineAssembler, new, cr, lf, feed_cr_byte, feed_cr_loop, feed}
use py_uart_proxy.LineAssembler.Chunks.{feed-eq-cr}
use py_uart_proxy.LineAssembler.Lines.{terminated}

-- What a person types: neither end-of-line byte.
abbrev pub IsTypedLine : Bytes → Type 0
IsTypedLine = All (λ b. (b ≢ lf) × (b ≢ cr))

abbrev after_run : Bool → Bytes → Bool
after_run f [] = f
after_run f (b ∷ bs) = false

after_run-false : (l : Bytes) → after_run false l ≡ false
after_run-false [] = refl
after_run-false (b ∷ l) = refl

typed_byte :
    (b : ℕ) (s : LineAssembler) (lines : List Bytes)
    → b ≢ lf
    → b ≢ cr
    → feed_cr_byte b s lines ≡ (lines, record s { buf = s.buf ++ b ∷ []; after_cr = false })
typed_byte b s lines h k = ground arith

abbrev typed_state : LineAssembler → Bytes → LineAssembler
typed_state s l = record s { buf = s.buf ++ l; after_cr = after_run s.after_cr l }

typed_run :
    (l bs : Bytes) (s : LineAssembler) (lines : List Bytes)
    → IsTypedLine l
    → feed_cr_loop (l ++ bs) s lines ≡ feed_cr_loop bs (typed_state s l) lines
unfolding feed_cr_loop
typed_run [] bs s lines h = rw (append-nil s.buf)
typed_run (b ∷ l) bs s lines h =
    let s' = record s { buf = s.buf ++ b ∷ []; after_cr = false } in
    ap (λ t. feed_cr_loop (l ++ bs) t.1 t.0) (typed_byte b s lines h.0.0 h.0.1)
    ∙ typed_run l bs s' lines h.1
    ∙ rw (append_assoc s.buf (b ∷ []) l, after_run-false l)

abbrev ended : LineAssembler → Bool → LineAssembler
ended s f = record s { buf = []; after_cr = f }

module _ (l bs : Bytes) (s : LineAssembler) (lines : List Bytes) (h : IsTypedLine l)
    (e : s.buf ≡ []) where
  typed_cr : feed_cr_loop (l ++ cr ∷ bs) s lines ≡ feed_cr_loop bs (ended s true) (lines ++ l ∷ [])
  unfolding feed_cr_loop
  typed_cr = rw (typed_run l (cr ∷ bs) s lines h, e)

  typed_crlf :
      feed_cr_loop (l ++ cr ∷ lf ∷ bs) s lines ≡ feed_cr_loop bs (ended s false) (lines ++ l ∷ [])
  unfolding feed_cr_loop
  typed_crlf = rw (typed_run l (cr ∷ lf ∷ bs) s lines h, e)

  typed_lf :
      s.after_cr ≡ false
      → feed_cr_loop (l ++ lf ∷ bs) s lines ≡ feed_cr_loop bs (ended s false) (lines ++ l ∷ [])
  unfolding feed_cr_loop
  typed_lf f = rw (typed_run l (lf ∷ bs) s lines h, e, f, after_run-false l)

pub data TypedEol : Type 0 where
  cr_only lf_only crlf : TypedEol

abbrev pub eol_bytes : TypedEol → Bytes
eol_bytes cr_only = cr ∷ []
eol_bytes lf_only = lf ∷ []
eol_bytes crlf = cr ∷ lf ∷ []

abbrev after_eol : TypedEol → Bool
after_eol cr_only = true
after_eol _ = false

abbrev Ready : TypedEol → LineAssembler → Type 0
Ready lf_only s = (s.buf ≡ []) × (s.after_cr ≡ false)
Ready _ s = s.buf ≡ []

typed_line :
    (e : TypedEol) (l bs : Bytes) (s : LineAssembler) (lines : List Bytes)
    → IsTypedLine l
    → Ready e s
    → feed_cr_loop (l ++ (eol_bytes e ++ bs)) s lines
      ≡ feed_cr_loop bs (ended s (after_eol e)) (lines ++ l ∷ [])
typed_line cr_only l bs s lines h r = typed_cr l bs s lines h r
typed_line lf_only l bs s lines h r = typed_lf l bs s lines h r.0 r.1
typed_line crlf l bs s lines h r = typed_crlf l bs s lines h r

Ready-ended : (e : TypedEol) (s : LineAssembler) → Ready e (ended s (after_eol e))
Ready-ended cr_only s = refl
Ready-ended lf_only s = (refl, refl)
Ready-ended crlf s = refl

Ready-buf : (e : TypedEol) (s : LineAssembler) → Ready e s → s.buf ≡ []
Ready-buf cr_only s r = r
Ready-buf lf_only s r = r.0
Ready-buf crlf s r = r

feed_cr_loop-nil : (s : LineAssembler) (lines : List Bytes) → feed_cr_loop [] s lines ≡ (lines, s)
unfolding feed_cr_loop
feed_cr_loop-nil s lines = refl

Ready-new : (e : TypedEol) → Ready e (new true)
Ready-new cr_only = refl
Ready-new lf_only = (refl, refl)
Ready-new crlf = refl

feed_cr_loop-terminated :
    (e : TypedEol) (ls : List Bytes) (s : LineAssembler) (lines : List Bytes)
    → All IsTypedLine ls
    → Ready e s
    → ((feed_cr_loop (terminated (eol_bytes e) ls) s lines).0 ≡ lines ++ ls)
      × ((feed_cr_loop (terminated (eol_bytes e) ls) s lines).1.buf ≡ [])
feed_cr_loop-terminated e [] s lines h r =
    rw (feed_cr_loop-nil s lines) (sym (append-nil lines), Ready-buf e s r)
feed_cr_loop-terminated e (l ∷ ls) s lines h r =
    let s' = ended s (after_eol e) in
    let (found, done) = feed_cr_loop-terminated e ls s' (lines ++ l ∷ []) h.1 (Ready-ended e s) in
    rw (typed_line e l (terminated (eol_bytes e) ls) s lines h.0 r)
      (found ∙ append_assoc lines (l ∷ []) ls, done)

-- Typed input made of lines that hold neither end-of-line byte, all ended the same way (`\r`, `\n` or
-- `\r\n`), comes out of the assembler for typed input as exactly these lines, with nothing left over.
pub feed-typed :
    (e : TypedEol) (ls : List Bytes)
    → All IsTypedLine ls
    → ((feed (terminated (eol_bytes e) ls) (new true)).0 ≡ ls)
      × ((feed (terminated (eol_bytes e) ls) (new true)).1.buf ≡ [])
feed-typed e ls h =
    rw (feed-eq-cr (new true) (terminated (eol_bytes e) ls) refl)
      (feed_cr_loop-terminated e ls (new true) [] h (Ready-new e))
