-- ===== src/Pty/Accounts.antt =====
-- The receiving side of a mirror of core/pty_proxy.py: what became of each byte the device sent.
use py_uart_proxy.Prelude.{
  ℕ, zero, suc, ◌+◌, ◌-◌, ◌≤◌, String, Bool, true, false, ◌||◌, List, [], ◌∷◌, ◌++◌, Bytes, ◌==◌,
  ltb, leb, if◌then◌else◌, length, take, drop, ◌≡◌, refl, sym, ap, ◌∙◌, subst, arith, append-nil,
  append_assoc, length-append, length-drop,
}
use mathlib.Core.List.Sublist
use mathlib.Core.List.Sublistᴰ
use mathlib.Core.List.{Sublist}
use py_uart_proxy.Pty.{
  drop_chunk, append_out, begin_backlog, PtyMirror, note_progress, Written, enqueue, drop_if_stale,
  tcflush, after_write, new_mirror, is_empty,
}
use py_uart_proxy.Pty.Merge.{take-drop}

-- What happens to a mirror: the device sends, the loop looks for a stale backlog, a write to the pty
-- ends, the reader takes some bytes of the kernel's. Each but the last carries the clock's reading, and
-- a look whether `tcflush` raises.
pub data Step : Type 0 where
  sends : ℕ → Bytes → Step
  looks : ℕ → Bool → Step
  writes : ℕ → Written → Step
  reads : ℕ → Step

-- A mirror with, beside it, the bytes that the kernel holds for the reader, all those that the reader has
-- taken, and the number of those that `tcflush` has thrown away.
pub record Watched : Type 0 where
  pub mirror : PtyMirror
  pub kernel : Bytes
  pub delivered : Bytes
  pub flushed : ℕ

abbrev pub taken : Written → Bytes → Bytes
taken (Written.wrote n) out = take n out
taken _ out = []

abbrev pub watch : PtyMirror → Watched
watch m = record { mirror = m; kernel = []; delivered = []; flushed = 0 }

abbrev pub looked : Watched → ℕ × Bytes × PtyMirror → Watched
looked w (n, kernel, m) = record w {
  mirror = m;
  kernel = kernel;
  flushed = w.flushed + (length w.kernel - length kernel);
}

abbrev pub act : Step → Watched → Watched
act (Step.sends now data') w = record w { mirror = enqueue now data' w.mirror }
act (Step.looks now raises) w = looked w (drop_if_stale raises now w.kernel w.mirror)
act (Step.writes now r) w = record w {
  mirror = after_write now r w.mirror;
  kernel = w.kernel ++ taken r w.mirror.out;
}
act (Step.reads n) w = record w {
  kernel = drop n w.kernel;
  delivered = w.delivered ++ take n w.kernel;
}

unfoldable pub act_all : List Step → Watched → Watched
act_all [] w = w
act_all (s ∷ ss) w = act_all ss (act s w)

abbrev pub sent_in : Step → Bytes
sent_in (Step.sends now data') = data'
sent_in _ = []

abbrev pub sent : List Step → Bytes
sent [] = []
sent (s ∷ ss) = sent_in s ++ sent ss

-- A prefix is what is left when the rest is left out.
Sublist_prefix : (d o : Bytes) → Sublist d (d ++ o)
Sublist_prefix d o =
    subst (λ t. Sublist t (d ++ o)) (append-nil d)
      (Sublist.append (Sublist.refl d) ∣ Sublistᴰ.nil-sublist o ∣₁)

-- What holds when `h` was sent, `d` passed on to the kernel and not flushed, and `f` bytes flushed.
abbrev pub Splits : ℕ → Bytes → Bytes → PtyMirror → Type 0
Splits f h d m =
    (length d + f + length m.out + m.dropped + m.stale ≡ length h)
    × (length m.out ≤ m.queue_max)
    × Sublist (d ++ m.out) h

-- What holds of a mirror and its reader when `h` was sent: each byte was taken by the reader, or the
-- kernel has it, or it was flushed out of the kernel, or it waits, or it is counted as dropped or as
-- stale; not more than `queue_max` wait; and what was taken, what the kernel has and what waits are what
-- was sent, in its order, with some left out.
abbrev pub Accounts : Bytes → Watched → Type 0
Accounts h w = Splits w.flushed h (w.delivered ++ w.kernel) w.mirror

module _ (f : ℕ) where
  -- The times that a mirror notes do not count.
  with_warned :
      (h d : Bytes) (m : PtyMirror) (t : Bool) (n : ℕ)
      → Splits f h d (m)
      → Splits f h d (if t then record m { warned_at = n } else m)
  with_warned h d m true n a = a
  with_warned h d m false n a = a

  begun :
      (h d data' : Bytes) (m : PtyMirror) (t : Bool) (n : ℕ)
      → Splits f h d (append_out data' m)
      → Splits f h d (append_out data' (if t then record m { progress_at = n } else m))
  begun h d data' m true n a = a
  begun h d data' m false n a = a

  enqueue-Splits :
      (h d : Bytes) (now : ℕ) (data' : Bytes) (m : PtyMirror)
      → Splits f h d (m)
      → Splits f (h ++ data') d (enqueue now data' m)
  unfolding enqueue
  enqueue-Splits h d now data' m a = by_test (ltb m.queue_max (length m.out + length data')) refl
    where
      by_test :
          (t : Bool)
          → (t ≡ ltb m.queue_max (length m.out + length data'))
          → Splits f
              (h ++ data')
              d
              (if t then drop_chunk data' m else append_out data' (begin_backlog now m))
      by_test true e =
          with_warned (h ++ data') d (record m { dropped = m.dropped + length data' })
            (leb 65536 (m.dropped + length data' - m.warned_at)) (m.dropped + length data')
            (
              omega (arith, length-append h data', a.0),
              a.1,
              Sublist.trans a.2 (Sublist_prefix h data'),
            )
      by_test false e = begun (h ++ data') d data' m (is_empty m.out) now (
        omega (arith, length-append h data', length-append m.out data', a.0),
        ground (arith, length-append m.out data'),
        subst (λ t. Sublist t (h ++ data')) (append_assoc d m.out data')
            (Sublist.append a.2 (Sublist.refl data')),
      )

  -- What waits may go.
  without_rest : (h d o : Bytes) → Sublist (d ++ o) h → Sublist (d ++ []) h
  without_rest h d o k =
      subst (λ t. Sublist t h) (sym (append-nil d)) (Sublist.trans (Sublist_prefix d o) k)

  write-Splits :
      (h d : Bytes) (n now : ℕ) (m : PtyMirror)
      → Splits f h d (m)
      → Splits f h (d ++ take n m.out) (note_progress now (record m { out = drop n m.out }))
  write-Splits h d n now m a = (
    omega (
      arith,
      length-append d (take n m.out),
      length-append (take n m.out) (drop n m.out),
      ap length (take-drop n m.out),
      a.0,
    ),
    omega (arith, length-drop n m.out, a.1),
    subst (λ t. Sublist t h)
        (ap (λ t. d ++ t) (sym (take-drop n m.out))
          ∙ sym (append_assoc d (take n m.out) (drop n m.out)))
        a.2,
  )

  nothing_taken : (h d : Bytes) (m : PtyMirror) → Splits f h d (m) → Splits f h (d ++ []) (m)
  nothing_taken h d m a = subst (λ t. Splits f h t (m)) (sym (append-nil d)) a

  after_write-Splits :
      (h d : Bytes) (now : ℕ) (r : Written) (m : PtyMirror)
      → Splits f h d (m)
      → Splits f h (d ++ taken r m.out) (after_write now r m)
  unfolding after_write
  after_write-Splits h d now (Written.wrote zero) m a = nothing_taken h d m a
  after_write-Splits h d now (Written.wrote (suc n)) m a = write-Splits h d (suc n) now m a
  after_write-Splits h d now Written.would_block m a = nothing_taken h d m a
  after_write-Splits h d now Written.failed m a =
      nothing_taken h d (record m { dropped = m.dropped + length m.out; out = [] })
        (omega (arith, a.0), omega arith, without_rest h d m.out a.2)

looked-Accounts :
    (h : Bytes) (raises : Bool) (now : ℕ) (w : Watched)
    → Accounts h w
    → Accounts h (looked w (drop_if_stale raises now w.kernel w.mirror))
unfolding drop_if_stale
looked-Accounts h raises now w a =
    by_tests (is_empty w.mirror.out || w.mirror.max_lag == 0)
      (ltb (now - w.mirror.progress_at) w.mirror.max_lag) raises
  where
    same : Accounts h (looked w (0, w.kernel, w.mirror))
    same = (omega (arith, a.0), a.1, a.2)

    by_tests :
        (t u raises : Bool)
        → Accounts h (
            looked w (
              if t then (0, w.kernel, w.mirror) else if u then (0, w.kernel, w.mirror) else (
                length w.mirror.out,
                tcflush raises w.kernel,
                record w.mirror { out = []; stale = w.mirror.stale + length w.mirror.out },
              )))
    by_tests true u raises = same
    by_tests false true raises = same
    by_tests false false true = (
      omega (arith, a.0),
      omega arith,
      without_rest w.flushed h (w.delivered ++ w.kernel) w.mirror.out a.2,
    )
    by_tests false false false = (
      omega (arith, a.0, length-append w.delivered w.kernel, length-append w.delivered []),
      omega arith,
      subst (λ t. Sublist t h) (sym (append-nil (w.delivered ++ [])))
          (without_rest w.flushed h w.delivered (w.kernel ++ w.mirror.out)
            (subst (λ t. Sublist t h) (append_assoc w.delivered w.kernel w.mirror.out) a.2)),
    )

act-Accounts :
    (h : Bytes) (s : Step) (w : Watched) → Accounts h w → Accounts (h ++ sent_in s) (act s w)
act-Accounts h (Step.sends now data') w a =
    enqueue-Splits w.flushed h (w.delivered ++ w.kernel) now data' w.mirror a
act-Accounts h (Step.looks now raises) w a =
    subst (λ t. Accounts t (act (Step.looks now raises) w)) (sym (append-nil h))
      (looked-Accounts h raises now w a)
act-Accounts h (Step.writes now r) w a =
    subst (λ t. Accounts t (act (Step.writes now r) w)) (sym (append-nil h))
      (subst (λ t. Splits w.flushed h t (after_write now r w.mirror))
        (append_assoc w.delivered w.kernel (taken r w.mirror.out))
        (after_write-Splits w.flushed h (w.delivered ++ w.kernel) now r w.mirror a))
act-Accounts h (Step.reads n) w a =
    subst (λ t. Accounts t (act (Step.reads n) w)) (sym (append-nil h))
      (subst (λ t. Splits w.flushed h t w.mirror)
        (ap (λ t. w.delivered ++ t) (sym (take-drop n w.kernel))
          ∙ sym (append_assoc w.delivered (take n w.kernel) (drop n w.kernel)))
        a)

act_all-keeps :
    (h : Bytes) (ss : List Step) (w : Watched)
    → Accounts h w
    → Accounts (h ++ sent ss) (act_all ss w)
unfolding act_all
act_all-keeps h [] w a = subst (λ t. Accounts t w) (sym (append-nil h)) a
act_all-keeps h (s ∷ ss) w a =
    subst (λ t. Accounts t (act_all ss (act s w))) (append_assoc h (sent_in s) (sent ss))
      (act_all-keeps (h ++ sent_in s) ss (act s w) (act-Accounts h s w a))

-- Through any sequence of device output, looks for a stale backlog, writes to the pty and reads by the
-- mirror's user, at any clock readings and whatever the writes and `tcflush` do, a new mirror accounts
-- for every byte: the reader took it, or the kernel holds it for the reader, or a look flushed it out of
-- the kernel, or it waits, or it is counted in `dropped` or in `stale`. At most `queue_max` bytes ever
-- wait; and what the reader took, what the kernel holds and what waits are, one after the other, the
-- device's output in its order with some left out.
pub act_all-Accounts :
    (name link : String) (queue_max max_lag : ℕ) (ss : List Step)
    → Accounts (sent ss) (act_all ss (watch (new_mirror name link queue_max max_lag)))
act_all-Accounts name link queue_max max_lag ss =
    act_all-keeps [] ss (watch (new_mirror name link queue_max max_lag))
      (omega arith, omega arith, Sublist.refl [])
