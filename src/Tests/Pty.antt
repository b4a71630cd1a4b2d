-- ===== src/Tests/Pty.antt =====
-- The mirrors of the port at concrete inputs.
use py_uart_proxy.Prelude.{
  false, ℕ, zero, suc, String, ◌≡◌, refl, Option, none, some, List, [], ◌∷◌, ◌++◌, Bytes, arith,
}
use py_uart_proxy.Pty.{
  PtyMirror, Written, forward, forward_all, pump_tx, serve_read, serve_reads, to_forward,
  merge_line, cut_loop, first_flush_point, min_found, new_mirror, enqueue, drop_if_stale,
  after_write,
}
use py_uart_proxy.LineAssembler.{find_byte}
use py_uart_proxy.Pty.Accounts.{Step, Watched, watch, act_all, sent, Accounts, act_all-Accounts}
use py_uart_proxy.Pty.Wire.{of, held_at, sends, AllGo}
use py_uart_proxy.Pty.Refines.{noted, told, new_mirrors, txlines, chunks, serve_reads-sends}

abbrev links : List (String × String)
links = ("a-0", "/tmp/a-0") ∷ ("a-1", "/tmp/a-1") ∷ []

-- "l" from one client, "^C" from the other, and then "s" and a return.
abbrev reads : List (ℕ × Bytes)
reads = (0, 108 ∷ []) ∷ (1, 3 ∷ []) ∷ (0, 115 ∷ 13 ∷ 120 ∷ []) ∷ []

-- A session that counts what it is told, and takes nothing the second time.
abbrev takes : Bytes → ℕ → Option String × ℕ
takes bytes zero = (none, 1)
takes bytes (suc n) = (some "gone", suc (suc n))

abbrev notice : PtyMirror → Bytes → String → String
notice m bytes error = error

abbrev counts : String → ℕ → ℕ
counts text n = n

serve_reads-sends_example :
    let ms = new_mirrors links 100 5 in
    let w : List PtyMirror × (ℕ × List Bytes) =
      serve_reads (noted takes) notice (told counts) "line" 8 reads (ms, (0, [])) in
    let log = (sends 8 reads (txlines ms)).0 in
    (w.1.1 ≡ chunks log) × AllGo 8 log × (of 0 log ++ held_at 0 (txlines w.0) ≡ of 0 reads)
serve_reads-sends_example =
    serve_reads-sends takes notice counts links 100 5 8 0 reads 0 (omega arith) (omega arith)

-- The interrupt goes first, the line whole, and the "x" waits.
serve_reads_runs :
    (serve_reads
      (noted takes)
      notice
      (told counts)
      "line"
      8
      reads
      (new_mirrors links 100 5, (0, []))).1.1
    ≡ (3 ∷ []) ∷ (108 ∷ 115 ∷ 13 ∷ []) ∷ []
unfolding serve_reads serve_read pump_tx forward_all forward to_forward merge_line cut_loop
    first_flush_point min_found find_byte
serve_reads_runs = refl

abbrev steps : List Step
steps =
    Step.sends 0 (65 ∷ 66 ∷ 71 ∷ [])
    ∷ Step.writes 1 (Written.wrote 2)
    ∷ Step.reads 1
    ∷ Step.sends 2 (67 ∷ 68 ∷ 69 ∷ [])
    ∷ Step.looks 9 false
    ∷ Step.sends 10 (70 ∷ [])
    ∷ []

abbrev watched : Watched
watched = watch (new_mirror "a-0" "/tmp/a-0" 3 5)

act_all-Accounts_example : Accounts (sent steps) (act_all steps watched)
act_all-Accounts_example = act_all-Accounts "a-0" "/tmp/a-0" 3 5 steps

-- One byte read, one flushed, three dropped, one stale, and the last waiting.
act_all_runs :
    ((act_all steps watched).delivered ≡ 65 ∷ [])
    × ((act_all steps watched).flushed ≡ 1)
    × ((act_all steps watched).mirror.dropped ≡ 3)
    × ((act_all steps watched).mirror.stale ≡ 1)
    × ((act_all steps watched).mirror.out ≡ 70 ∷ [])
unfolding act_all enqueue drop_if_stale after_write
act_all_runs = (refl, refl, refl, refl, refl)
