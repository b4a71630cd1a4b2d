-- ===== src/Pty.antt =====
-- core/pty_proxy.py: the mirrors that let other programs of the machine share the port. A clock reading
-- is an argument, in ticks; the pty, the link and the serving thread are the platform's. What an
-- `os.write` or `os.read` on the master does is an argument too.
pub mod Flush
pub mod Merge
pub mod Accounts
pub mod Wire
pub mod Refines
use py_uart_proxy.Prelude.{
  ℕ, zero, suc, ◌+◌, ◌-◌, ◌*◌, min, String, Bool, true, false, ◌&&◌, ◌||◌, Option, none, some, List,
  [], ◌∷◌, ◌++◌, Bytes, ◌==◌, ltb, leb, str_eq, if◌then◌else◌, length, take, drop, map, not,
}
use py_uart_proxy.Prelude.Result.{Result, ok, demand, ◌>>=◌, ◌>>◌}
use py_uart_proxy.Event.{Event, is_data, is_rx}
use py_uart_proxy.LineAssembler.{find_byte}

abbrev pub default_queue_max : ℕ
default_queue_max = 1048576

abbrev pub default_line_max : ℕ
default_line_max = 4096

-- `\n` and `\r`, and then ^C, ^D, ^Z and ^\
abbrev pub flush_bytes : Bytes
flush_bytes = 0x0A ∷ 0x0D ∷ 0x03 ∷ 0x04 ∷ 0x1A ∷ 0x1C ∷ []

pub record PtyMirror : Type 0 where
  pub name : String
  pub link : String
  pub queue_max : ℕ
  pub max_lag : ℕ
  pub out : Bytes
  pub txline : Bytes
  pub rx_bytes : ℕ
  pub tx_bytes : ℕ
  pub dropped : ℕ
  pub stale : ℕ
  pub progress_at : ℕ
  pub warned_at : ℕ

abbrev pub new_mirror : String → String → ℕ → ℕ → PtyMirror
new_mirror name link queue_max max_lag = record {
  name = name;
  link = link;
  queue_max = queue_max;
  max_lag = max_lag;
  out = [];
  txline = [];
  rx_bytes = 0;
  tx_bytes = 0;
  dropped = 0;
  stale = 0;
  progress_at = 0;
  warned_at = 0;
}

abbrev pub is_empty : Bytes → Bool
is_empty [] = true
is_empty (b ∷ bs) = false

-- The log gets one line for each 64 KiB dropped.
abbrev pub warn : PtyMirror → PtyMirror
warn m = if leb 65536 (m.dropped - m.warned_at) then record m { warned_at = m.dropped } else m

abbrev pub drop_chunk : Bytes → PtyMirror → PtyMirror
drop_chunk data' m = warn (record m { dropped = m.dropped + length data' })

abbrev pub begin_backlog : ℕ → PtyMirror → PtyMirror
begin_backlog now m = if is_empty m.out then record m { progress_at = now } else m

abbrev pub append_out : Bytes → PtyMirror → PtyMirror
append_out data' m = record m { out = m.out ++ data'; rx_bytes = m.rx_bytes + length data' }

unfoldable pub enqueue : ℕ → Bytes → PtyMirror → PtyMirror
enqueue now data' m =
    if ltb m.queue_max (length m.out + length data')
    then drop_chunk data' m
    else append_out data' (begin_backlog now m)

abbrev pub note_progress : ℕ → PtyMirror → PtyMirror
note_progress now m = record m { progress_at = now }

-- `tcflush(self.slave, TCIFLUSH)`, by whether it raises, on the bytes that the kernel holds for a reader.
abbrev pub tcflush : Bool → Bytes → Bytes
tcflush raises kernel = if raises then kernel else []

-- The bytes thrown away, the bytes that the kernel holds after, and the mirror after.
unfoldable pub drop_if_stale : Bool → ℕ → Bytes → PtyMirror → ℕ × Bytes × PtyMirror
drop_if_stale raises now kernel m =
    if is_empty m.out || m.max_lag == 0
    then (0, kernel, m)
    else if ltb (now - m.progress_at) m.max_lag
    then (0, kernel, m)
    else (
      length m.out,
      tcflush raises kernel,
      record m { out = []; stale = m.stale + length m.out },
    )

pub record MirrorStats : Type 0 where
  pub name : String
  pub link : String
  pub rx_bytes : ℕ
  pub tx_bytes : ℕ
  pub dropped : ℕ
  pub stale : ℕ
  pub pending : ℕ

abbrev pub mirror_stats : PtyMirror → MirrorStats
mirror_stats m = record {
  name = m.name;
  link = m.link;
  rx_bytes = m.rx_bytes;
  tx_bytes = m.tx_bytes;
  dropped = m.dropped;
  stale = m.stale;
  pending = length m.out;
}

-- What `os.write` of the backlog does: takes some bytes, finds the buffer full, or fails.
pub data Written : Type 0 where
  wrote : ℕ → Written
  would_block : Written
  failed : Written

-- `_pump_rx` after the write, when the mirror may have heard more since it began.
unfoldable pub after_write : ℕ → Written → PtyMirror → PtyMirror
after_write now (Written.wrote zero) m = m
after_write now (Written.wrote (suc n)) m =
    note_progress now (record m { out = drop (suc n) m.out })
after_write now Written.would_block m = m
after_write now Written.failed m = record m { dropped = m.dropped + length m.out; out = [] }

-- The lower of two indices, where there is one.
abbrev pub least : Option ℕ → Option ℕ → Option ℕ
least none j = j
least (some i) none = some i
least (some i) (some j) = some (min i j)

unfoldable pub min_found : Bytes → Bytes → Option ℕ
min_found [] buf = none
min_found (b ∷ bs) buf = least (find_byte b buf) (min_found bs buf)

unfoldable pub first_flush_point : Bytes → Option ℕ
first_flush_point buf = min_found flush_bytes buf

-- The `while True` of `_pump_tx`, on fuel: each round takes a chunk off the front.
unfoldable pub cut_loop : ℕ → Bytes → List Bytes → List Bytes × Bytes
cut_loop zero txline ready = (ready, txline)
cut_loop (suc fuel) txline ready = elim (first_flush_point txline) [
  | none ↦ (ready, txline)
  | some cut ↦ cut_loop fuel (drop (suc cut) txline) (ready ++ take (suc cut) txline ∷ [])
]

abbrev pub flush_runaway : ℕ → List Bytes × Bytes → List Bytes × Bytes
flush_runaway line_max (ready, txline) =
    if leb line_max (length txline) then (ready ++ txline ∷ [], []) else (ready, txline)

-- A line of n bytes holds at most n chunks, so n + 1 rounds are enough.
unfoldable pub merge_line : ℕ → Bytes → List Bytes × Bytes
merge_line line_max txline = flush_runaway line_max (cut_loop (suc (length txline)) txline [])

-- What a read forwards, and the line that the mirror then holds.
unfoldable pub to_forward : String → ℕ → Bytes → Bytes → List Bytes × Bytes
to_forward tx_merge line_max data' txline =
    if is_empty data'
    then ([], txline)
    else if str_eq tx_merge "raw"
    then (data' ∷ [], txline)
    else merge_line line_max (txline ++ data')

-- The group over the state `S` of the session that its callbacks act on: `on_tx` gives the text of an
-- exception it raises, `on_notice` what becomes of a notice.
module _ {S : Type 0} (on_tx : Bytes → S → Option String × S)
    (dropped_notice : PtyMirror → Bytes → String → String) (on_notice : String → S → S) where
  abbrev pub forwarded : PtyMirror → Bytes → Option String × S → PtyMirror × S
  forwarded m data' (none, s) = (record m { tx_bytes = m.tx_bytes + length data' }, s)
  forwarded m data' (some error, s) = (m, on_notice (dropped_notice m data' error) s)

  unfoldable pub forward : Bytes → PtyMirror × S → PtyMirror × S
  forward data' (m, s) = forwarded m data' (on_tx data' s)

  unfoldable pub forward_all : List Bytes → PtyMirror × S → PtyMirror × S
  forward_all [] ms = ms
  forward_all (line ∷ ready) ms = forward_all ready (forward line ms)

  -- `_pump_tx` of what was read
  unfoldable pub pump_tx : String → ℕ → Bytes → PtyMirror × S → PtyMirror × S
  pump_tx tx_merge line_max data' (m, s) =
      let (ready, txline) = to_forward tx_merge line_max data' m.txline in
      forward_all ready (record m { txline = txline }, s)

  abbrev and_others : List PtyMirror → PtyMirror × S → List PtyMirror × S
  and_others ms (m, s) = (m ∷ ms, s)

  abbrev after_mirror : PtyMirror → List PtyMirror × S → List PtyMirror × S
  after_mirror m (ms, s) = (m ∷ ms, s)

  -- The serving thread's call for the mirror that a client has typed at.
  unfoldable pub serve_read : String → ℕ → ℕ → Bytes → List PtyMirror → S → List PtyMirror × S
  serve_read tx_merge line_max i data' [] s = ([], s)
  serve_read tx_merge line_max zero data' (m ∷ ms) s =
      and_others ms (pump_tx tx_merge line_max data' (m, s))
  serve_read tx_merge line_max (suc i) data' (m ∷ ms) s =
      after_mirror m (serve_read tx_merge line_max i data' ms s)

  unfoldable pub serve_reads :
      String → ℕ → List (ℕ × Bytes) → List PtyMirror × S → List PtyMirror × S
  serve_reads tx_merge line_max [] (ms, s) = (ms, s)
  serve_reads tx_merge line_max (r ∷ rs) (ms, s) =
      serve_reads tx_merge line_max rs (serve_read tx_merge line_max r.0 r.1 ms s)

pub record PtyProxyGroup : Type 0 where
  pub tx_merge : String
  pub line_max : ℕ
  pub mirrors : List PtyMirror

abbrev is_merge_mode : String → Bool
is_merge_mode tx_merge = str_eq tx_merge "raw" || str_eq tx_merge "line"

abbrev some_links : List (String × String) → Bool
some_links [] = false
some_links (l ∷ ls) = true

-- The constructor's checks and then the mirrors of `start`, one for each link with its base name.
unfoldable pub start : List (String × String) → String → ℕ → ℕ → ℕ → Result PtyProxyGroup
start links tx_merge queue_max max_lag line_max =
    demand (is_merge_mode tx_merge) "tx_merge must be one of ('raw', 'line')"
    >> demand (some_links links) "at least one mirror link is required"
    >> ok (record {
      tx_merge = tx_merge;
      line_max = line_max;
      mirrors = map (λ l. new_mirror l.0 l.1 queue_max max_lag) links;
    })

unfoldable pub broadcast : ℕ → Bytes → PtyProxyGroup → PtyProxyGroup
broadcast now data' g = record g { mirrors = map (enqueue now data') g.mirrors }

unfoldable pub handle : ℕ → Event → PtyProxyGroup → PtyProxyGroup
handle now e g =
    if is_data e.kind && (is_rx e.direction && not (is_empty e.raw))
    then broadcast now e.raw g
    else g

abbrev pub stats : PtyProxyGroup → List MirrorStats
stats g = map mirror_stats g.mirrors
