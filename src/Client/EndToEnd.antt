-- ===== src/Client/EndToEnd.antt =====
-- From the session through the server's messages to the lines of a client.
use py_uart_proxy.Prelude.{
  ℕ, suc, ◌-◌, max, drop-nil, ◌≡◌, refl, sym, ap, ◌∙◌, subst, String, Bool, true, false, ◌&&◌,
  Option, none, some, List, [], ◌∷◌, ◌++◌, Bytes, map, All, last_n as newest, append_assoc,
  append-nil, if◌then◌else◌,
}
use py_uart_proxy.Json.{Json, Fields, get, get_or, end}
use py_uart_proxy.Event.{Event, EventKind, Direction, Stamp, is_tx}
use py_uart_proxy.LineAssembler
use py_uart_proxy.LineAssembler.{LineAssembler, feed}
use py_uart_proxy.LineAssembler.Chunks.{feed-append}
use py_uart_proxy.LineAssembler.Scan.{NoLf}
use py_uart_proxy.Session.{Env, Session, emit, emit_line, emit_lines, on_rx}
use py_uart_proxy.Session.Connection.{Read, read_loop}
use py_uart_proxy.Session.Stretches.{IsTimely, chunks_of, read_loop-pump}
use py_uart_proxy.Session.Pipeline.{
  chunk_of, heard, heard_lines, join, pump, pump-heard, feed-settled, feed_nil,
}
use py_uart_proxy.Server.{Calls}
use py_uart_proxy.Server.Fanout.{message_of, serialize, tx_echo}
use py_uart_proxy.Client
use py_uart_proxy.Client.{Line, SessionClient, Tools, line_of, add, add_each}
use py_uart_proxy.Client.Messages.{handle, handle_rx}
use py_uart_proxy.Client.Shows.{texts, Shows, shown, hear-Shows}

-- The server's hex digits of these bytes are read back as the bytes.
abbrev pub IsHex : Calls → Tools → Bytes → Type 0
IsHex calls tools b = tools.from_hex (tools.to_str (Json.str (calls.hex_of b))) ≡ some b

-- A chunk or a line, the chunk with hex digits that are read back.
abbrev IsOutput : Calls → Tools → EventKind → Direction → Bytes → Type 0
IsOutput calls tools EventKind.data_chunk Direction.rx raw = IsHex calls tools raw
IsOutput calls tools EventKind.data_chunk d raw = Unit
IsOutput calls tools EventKind.line d raw = Unit
IsOutput calls tools EventKind.notice d raw = ⊥
IsOutput calls tools EventKind.status d raw = ⊥
IsOutput calls tools EventKind.trigger d raw = ⊥

abbrev AreOutput : Calls → Tools → List Event → Type 0
AreOutput calls tools es = All (λ e. IsOutput calls tools e.kind e.direction e.raw) es

abbrev handle_if : Tools → ℕ → Option Fields → SessionClient → SessionClient
handle_if tools now none c = c
handle_if tools now (some m) c = handle tools now m c

module _ (calls : Calls) (tools : Tools) (echo_tx : Bool) (h : Session) (now : ℕ) where
  -- The messages that the server makes of events, handled by a client.
  unfoldable pub deliver : List Event → SessionClient → SessionClient
  deliver [] c = c
  deliver (e ∷ es) c = deliver es (handle_if tools now (message_of calls echo_tx h e) c)

  -- What the client shows and keeps after some bytes of the device.
  abbrev After : Bytes → List String → SessionClient → SessionClient → Type 0
  After bytes ts c d =
      Shows (ts ++ map (shown tools) (feed bytes c.asm).0) d × (d.asm ≡ (feed bytes c.asm).1)

  map-append :
      (xs ys : List Bytes)
      → map (shown tools) (xs ++ ys) ≡ map (shown tools) xs ++ map (shown tools) ys
  map-append [] ys = refl
  map-append (x ∷ xs) ys = ap (λ t. shown tools x ∷ t) (map-append xs ys)

  idle :
      (b : Bool) (e : Event) (c : SessionClient)
      → handle_if tools now (if b then some (tx_echo calls e) else none) c ≡ c
  unfolding handle get get_or
  idle true e c = refl
  idle false e c = refl

  idle-After :
      (b : Bool) (e : Event) (ts : List String) (c : SessionClient)
      → feed [] c.asm ≡ ([], c.asm)
      → Shows ts c
      → After [] ts c (handle_if tools now (if b then some (tx_echo calls e) else none) c)
  idle-After b e ts c settled k =
      subst (After [] ts c) (sym (idle b e c))
        (rw settled (k ∙ ap (newest c.max_lines) (sym (append-nil ts)), refl))

  one-After :
      (kind : EventKind) (direction : Direction) (stamp : Stamp) (seq : ℕ) (raw : Bytes)
      (text' : String) (meta : Fields) (ts : List String) (c : SessionClient)
      → IsOutput calls tools kind direction raw
      → feed [] c.asm ≡ ([], c.asm)
      → Shows ts c
      → After (chunk_of kind direction raw) ts c (
          handle_if tools now
            (message_of calls echo_tx h (record {
              kind = kind;
              direction = direction;
              stamp = stamp;
              seq = seq;
              raw = raw;
              text = text';
              meta = meta;
            }))
            c)
  unfolding message_of serialize handle handle_rx get get_or
  one-After EventKind.data_chunk Direction.rx stamp seq raw text' meta ts c out settled k =
      rw out (hear-Shows tools now raw _ ts c k)
  one-After EventKind.data_chunk Direction.tx stamp seq raw text' meta ts c out settled k =
      idle-After (echo_tx && false)
        (record {
          kind = EventKind.data_chunk;
          direction = Direction.tx;
          stamp = stamp;
          seq = seq;
          raw = raw;
          text = text';
          meta = meta;
        })
        ts c settled k
  one-After EventKind.data_chunk Direction.sys stamp seq raw text' meta ts c out settled k =
      idle-After (echo_tx && false)
        (record {
          kind = EventKind.data_chunk;
          direction = Direction.sys;
          stamp = stamp;
          seq = seq;
          raw = raw;
          text = text';
          meta = meta;
        })
        ts c settled k
  one-After EventKind.line direction stamp seq raw text' meta ts c out settled k =
      idle-After (echo_tx && is_tx direction)
        (record {
          kind = EventKind.line;
          direction = direction;
          stamp = stamp;
          seq = seq;
          raw = raw;
          text = text';
          meta = meta;
        })
        ts c settled k
  one-After EventKind.notice direction stamp seq raw text' meta ts c out settled k = absurd out
  one-After EventKind.status direction stamp seq raw text' meta ts c out settled k = absurd out
  one-After EventKind.trigger direction stamp seq raw text' meta ts c out settled k = absurd out

  joined :
      (a b : Bytes) (ts : List String) (c d d' : SessionClient)
      → d.asm ≡ (feed a c.asm).1
      → After b (ts ++ map (shown tools) (feed a c.asm).0) d d'
      → After (a ++ b) ts c d'
  joined a b ts c d d' e (k, k') =
      let first = (feed a c.asm).0 in
      let later = feed b (feed a c.asm).1 in
      let same : feed b d.asm ≡ later = ap (feed b) e in
      let texts' : (ts ++ map (shown tools) first) ++ map (shown tools) (feed b d.asm).0
          ≡ ts ++ map (shown tools) (first ++ later.0) =
        ap (λ x. (ts ++ map (shown tools) first) ++ map (shown tools) x.0) same
        ∙ append_assoc ts (map (shown tools) first) (map (shown tools) later.0)
        ∙ ap (λ x. ts ++ x) (sym (map-append first later.0)) in
      subst (λ x. Shows (ts ++ map (shown tools) x.0) d' × (d'.asm ≡ x.1))
        (sym (feed-append c.asm a b)) (k ∙ ap (newest d'.max_lines) texts', k' ∙ ap (λ x. x.1) same)

  deliver-After :
      (es : List Event) (ts : List String) (c : SessionClient)
      → AreOutput calls tools es
      → feed [] c.asm ≡ ([], c.asm)
      → Shows ts c
      → After (heard es) ts c (deliver es c)
  unfolding deliver
  deliver-After [] ts c out settled k =
      rw settled (k ∙ ap (newest c.max_lines) (sym (append-nil ts)), refl)
  deliver-After (e ∷ es) ts c (o, out) settled k =
      let d = handle_if tools now (message_of calls echo_tx h e) c in
      let bytes = chunk_of e.kind e.direction e.raw in
      let (k', a) =
        one-After e.kind e.direction e.stamp e.seq e.raw e.text e.meta ts c o settled k in
      let settled' : feed [] d.asm ≡ ([], d.asm) = rw a (feed-settled c.asm bytes) in
      let rest =
        deliver-After es (ts ++ map (shown tools) (feed bytes c.asm).0) d out settled' k' in
      joined bytes (heard es) ts c d (deliver es d) a rest

module _ (calls : Calls) (tools : Tools) where
  abbrev env : Env
  env = calls.world.session

  emit_lines-IsOutput :
      (d : Direction) (m : Fields) (ls : List Bytes) (s : Session)
      → AreOutput calls tools (emit_lines env d m ls s).0
  unfolding emit_lines emit_line emit
  emit_lines-IsOutput d m [] s = tt
  emit_lines-IsOutput d m (l ∷ ls) s =
      (tt, emit_lines-IsOutput d m ls (record s { next_seq = suc s.next_seq }))

  All-append :
      (es fs : List Event)
      → AreOutput calls tools es
      → AreOutput calls tools fs
      → AreOutput calls tools (es ++ fs)
  All-append [] fs h k = k
  All-append (e ∷ es) fs (o, h) k = (o, All-append es fs h k)

  pump-IsOutput :
      (bs : List (ℕ × Bytes)) (s : Session)
      → All (λ x. IsHex calls tools x.1) bs
      → AreOutput calls tools (pump env bs s).0
  unfolding on_rx emit
  pump-IsOutput [] s h = tt
  pump-IsOutput ((now, b) ∷ bs) s (x, h) =
      let o = on_rx env now b s in
      All-append o.0 (pump env bs o.1).0
        (x, emit_lines-IsOutput Direction.rx end (feed b s.rx_asm).0 _) (pump-IsOutput bs o.1 h)

-- The same of chunks received one after the other.
deliver-pump :
    (calls : Calls) (tools : Tools) (echo_tx : Bool) (h s : Session) (now max_lines : ℕ)
    (bs : List (ℕ × Bytes))
    → All (λ x. IsHex calls tools x.1) bs
    → s.rx_asm ≡ LineAssembler.new false
    → let o = pump calls.world.session bs s in
      let c = deliver calls tools echo_tx h now o.0 (Client.new max_lines) in
      texts c.lines ≡ newest c.max_lines (map (shown tools) (heard_lines o.0))
deliver-pump calls tools echo_tx h s now max_lines bs hex fresh =
    let o = pump calls.world.session bs s in
    let asm = LineAssembler.new false in
    let (bytes, lines, left) =
      pump-heard calls.world.session bs s (ap (λ a. a.cr_ends_line) fresh)
        (subst (λ a. NoLf a.buf) (sym fresh) tt) in
    let same : (feed (heard o.0) asm).0 ≡ heard_lines o.0 =
      ap (λ x. (feed x asm).0) bytes ∙ ap (λ a. (feed (join bs) a).0) (sym fresh) ∙ sym lines in
    let (shows, kept) =
      deliver-After calls tools echo_tx h now o.0 [] (Client.new max_lines)
        (pump-IsOutput calls tools bs s hex) (feed_nil asm refl tt)
        (sym (drop-nil (0 - max 1 max_lines))) in
    shows
    ∙ ap
        (λ x.
          newest (deliver calls tools echo_tx h now o.0 (Client.new max_lines)).max_lines
            (map (shown tools) x))
        same

-- Where the server's hex digits of each chunk are read back as the chunk, what `_read_loop` reads of a
-- device, for a session that has nothing pending, sent by the server as messages and handled by a new
-- client, gives the client the very lines that the session published, as text, as many of the newest as
-- it keeps. This is so where the source does not break and no silence that is longer than the session's
-- idle flush comes while a line is pending: there the session makes a line of its own of what waits,
-- and the client does not.
pub deliver-read_loop :
    (calls : Calls) (tools : Tools) (echo_tx : Bool) (h s : Session) (now max_lines : ℕ)
    (rs : List Read)
    → All (λ x. IsHex calls tools x.1) (chunks_of calls.world.session rs)
    → s.rx_asm ≡ LineAssembler.new false
    → IsTimely calls.world.session rs s.rx_asm
    → let o = (read_loop calls.world.session rs s).1 in
      let c = deliver calls tools echo_tx h now o.0 (Client.new max_lines) in
      texts c.lines ≡ newest c.max_lines (map (shown tools) (heard_lines o.0))
deliver-read_loop calls tools echo_tx h s now max_lines rs hex fresh timely =
    let env = calls.world.session in
    subst
      (λ o.
        let c = deliver calls tools echo_tx h now o.0 (Client.new max_lines) in
        texts c.lines ≡ newest c.max_lines (map (shown tools) (heard_lines o.0)))
      (sym (read_loop-pump env rs s timely))
      (deliver-pump calls tools echo_tx h s now max_lines (chunks_of env rs) hex fresh)
