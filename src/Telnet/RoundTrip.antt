-- ===== src/Telnet/RoundTrip.antt =====
-- What one side encodes the other receives.
use py_uart_proxy.Prelude.{
  ℕ, ◌≡◌, refl, sym, ap, ◌∙◌, inl, inr, ◌⊎◌, Bool, true, false, not, ◌&&◌, [], ◌∷◌, Bytes, arith,
  ◌==◌, ==_iff, Bool-cases,
}
use py_uart_proxy.Telnet.{
  Telnet, Step, plain, has, binary, iac, encode, encode_bytes, follows_lf, receive, byte_in,
  then_step,
}

-- The receiver expects data, and no carriage return is open unless a line feed comes next.
record IsReady (bin : Bool) (bs : Bytes) (s : Telnet) : Type 0 where
  plain_mode : s.mode ≡ plain
  same_binary : has binary s.them ≡ bin
  no_open_cr : (bin ≡ true) ⊎ ((s.last_cr ≡ false) ⊎ (follows_lf bs ≡ true))

abbrev data_step : Bytes → Telnet → Step → Step
data_step out s rest = then_step (record { out = out; replies = []; next = s }) rest

module _ (s : Telnet) (m : s.mode ≡ plain) where
  pub receive-plain :
      (b : ℕ) (bs : Bytes)
      → receive (b ∷ bs) s ≡ then_step (byte_in plain b s) (receive bs (byte_in plain b s).next)
  unfolding receive
  receive-plain b bs = ap (λ t. then_step (byte_in t b s) (receive bs (byte_in t b s).next)) m

  receive-iac :
      (bs : Bytes)
      → receive (iac ∷ iac ∷ bs) s ≡ data_step (iac ∷ []) s (receive bs (record s { mode = plain }))
  unfolding receive byte_in
  receive-iac bs = receive-plain iac (iac ∷ bs)

  -- A byte that neither starts a command nor closes a carriage return.
  byte_kept :
      (b : ℕ)
      → b == iac ≡ false
      → (s.last_cr && (b == 0 && not (has binary s.them))) ≡ false
      → byte_in plain b s
        ≡ record { out = b ∷ []; replies = []; next = record s { last_cr = b == 0x0D } }
  unfolding byte_in
  byte_kept b e f = rw (e, f)

-- The outcome of receiving: the data, no replies.
abbrev pub Receives : Bytes → Telnet → Bytes → Type 0
Receives wire s bs = ((receive wire s).out ≡ bs) × ((receive wire s).replies ≡ [])

Receives-kept :
    (b : ℕ) (wire bs : Bytes) (s : Telnet)
    → s.mode ≡ plain
    → b == iac ≡ false
    → (s.last_cr && (b == 0 && not (has binary s.them))) ≡ false
    → Receives wire (record s { last_cr = b == 0x0D }) bs
    → Receives (b ∷ wire) s (b ∷ bs)
Receives-kept b wire bs s m e f (h, k) =
    rw (receive-plain s m b wire, byte_kept s m b e f) (ap (λ l. b ∷ l) h, k)

Receives-iac :
    (wire bs : Bytes) (s : Telnet)
    → s.mode ≡ plain
    → Receives wire (record s { mode = plain }) bs
    → Receives (iac ∷ iac ∷ wire) s (iac ∷ bs)
Receives-iac wire bs s m (h, k) = rw (receive-iac s m wire) (ap (λ l. iac ∷ l) h, k)

-- The NUL behind a bare carriage return goes.
Receives-nul :
    (wire bs : Bytes) (s : Telnet)
    → s.mode ≡ plain
    → s.last_cr ≡ true
    → has binary s.them ≡ false
    → Receives wire (record s { last_cr = false }) bs
    → Receives (0 ∷ wire) s bs
unfolding byte_in
Receives-nul wire bs s m c n h = rw (receive-plain s m 0 wire) (ground arith)

module _ (bin : Bool) where
  IsReady-next :
      (b : ℕ) (bs : Bytes) (s : Telnet)
      → (b == 0x0D && (not bin && not (follows_lf bs))) ≡ false
      → IsReady bin (b ∷ bs) s
      → IsReady bin bs (record s { last_cr = b == 0x0D })
  IsReady-next b bs s f r = record {
    plain_mode = r.plain_mode;
    same_binary = r.same_binary;
    no_open_cr = ground arith;
  }

  IsReady-iac :
      (b : ℕ) (bs : Bytes) (s : Telnet)
      → b == iac ≡ true
      → IsReady bin (b ∷ bs) s
      → IsReady bin bs (record s { mode = plain })
  IsReady-iac b bs s e r = record {
    plain_mode = refl;
    same_binary = r.same_binary;
    no_open_cr = ground arith;
  }

  -- After a bare carriage return and its NUL nothing is open.
  IsReady-nul :
      (bs : Bytes) (s : Telnet) (b : ℕ)
      → IsReady bin (b ∷ bs) s
      → IsReady bin bs (record s { last_cr = false })
  IsReady-nul bs s b r = record {
    plain_mode = r.plain_mode;
    same_binary = r.same_binary;
    no_open_cr = inr (inl refl);
  }

  nothing_dropped :
      (b : ℕ) (bs : Bytes) (s : Telnet)
      → IsReady bin (b ∷ bs) s
      → (s.last_cr && (b == 0 && not (has binary s.them))) ≡ false
  nothing_dropped b bs s r = rw r.same_binary (ground arith)

  receive-encode_bytes :
      (bs : Bytes) (s : Telnet) → IsReady bin bs s → Receives (encode_bytes bin bs) s bs
  unfolding receive encode_bytes
  receive-encode_bytes [] s r = (refl, refl)
  receive-encode_bytes (b ∷ bs) s r = elim (Bool-cases (b == iac)) [
    | inl e ↦
        rw (e, (==_iff b iac).0 e)
          (Receives-iac (encode_bytes bin bs) bs s r.plain_mode
            (receive-encode_bytes bs (record s { mode = plain }) (IsReady-iac b bs s e r)))
    | inr e ↦ elim (Bool-cases (b == 0x0D && (not bin && not (follows_lf bs)))) [
      | inl f ↦
          rw (e, f)
            (Receives-kept b (0 ∷ encode_bytes bin bs) bs s r.plain_mode e
              (nothing_dropped b bs s r)
              (Receives-nul (encode_bytes bin bs) bs (record s { last_cr = b == 0x0D }) r.plain_mode
                (ground arith) (r.same_binary ∙ ground arith)
                (receive-encode_bytes bs (record s { last_cr = false }) (IsReady-nul bs s b r))))
      | inr f ↦
          rw (e, f)
            (Receives-kept b (encode_bytes bin bs) bs s r.plain_mode e (nothing_dropped b bs s r) (
              receive-encode_bytes bs (record s { last_cr = b == 0x0D }) (IsReady-next b bs s f r)))
    ]
  ]

-- What one side encodes, a side that agrees on binary mode, expects data and has no carriage return
-- open receives as it was, for any bytes, with nothing to reply.
pub receive-encode :
    (a b : Telnet) (bs : Bytes)
    → has binary a.us ≡ has binary b.them
    → b.mode ≡ plain
    → b.last_cr ≡ false
    → Receives (encode bs a) b bs
unfolding encode
receive-encode a b bs h m c =
    receive-encode_bytes (has binary a.us) bs b
      (record { plain_mode = m; same_binary = sym h; no_open_cr = inr (inl c) })
