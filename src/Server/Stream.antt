-- ===== src/Server/Stream.antt =====
-- What one client receives of the events, over any run of its queue.
use py_uart_proxy.Prelude.{
  ◌≡◌, refl, sym, ap, ◌∙◌, subst, ◌⊎◌, inl, inr, Bool, true, false, Option, none, some, is_some,
  List, [], ◌∷◌, ◌++◌, if◌then◌else◌, length, ltb, keep, keep-append, append-nil, append_assoc, All,
  Bool-cases, arith,
}
use mathlib.Core.Bool.{true≢false}
use py_uart_proxy.Server.{Client, Message, enqueue, shutdown, write_next, send_queue_max, take_line}
use py_uart_proxy.Server.Fanout.{kept_or_dropped, offer}

-- What may happen to a client: an event's message, an answer of its own reader, a round of its writer.
pub data Turn : Type 0 where
  offered replied : Message → Turn
  drained : Turn

unfoldable pub turn : Turn → Client → Client
unfolding offer enqueue write_next
turn (offered m) c = offer m c
turn (replied m) c = (enqueue (some m) c).1
turn drained c = write_next c

unfoldable pub run : List Turn → Client → Client
run [] c = c
run (t ∷ ts) c = run ts (turn t c)

abbrev pub offers : List Turn → List Message
offers [] = []
offers (offered m ∷ ts) = m ∷ offers ts
offers (replied m ∷ ts) = offers ts
offers (drained ∷ ts) = offers ts

-- The messages in a queue.
abbrev pub waiting : List (Option Message) → List Message
waiting [] = []
waiting (none ∷ q) = waiting q
waiting (some m ∷ q) = m ∷ waiting q

abbrev pub IsWaiting : Option Message → Type 0
IsWaiting o = is_some o ≡ true

waiting-append : (q r : List (Option Message)) → waiting (q ++ r) ≡ waiting q ++ waiting r
waiting-append [] r = refl
waiting-append (none ∷ q) r = waiting-append q r
waiting-append (some m ∷ q) r = ap (λ x. m ∷ x) (waiting-append q r)

module _ (is_event : Message → Bool) where
  -- The test tells the messages of events from the answers.
  abbrev pub IsToldApart : Turn → Type 0
  IsToldApart (offered m) = is_event m ≡ true
  IsToldApart (replied m) = is_event m ≡ false
  IsToldApart drained = Unit

  -- The messages of events that the client was sent or that wait for it.
  abbrev pub received : Client → List Message
  received c = keep is_event (c.told ++ waiting c.queue)

  turn_dropped :
      (t : Turn) (c : Client)
      → c.live ≡ false
      → c.connected ≡ false
      → ((turn t c).told ≡ c.told) × ((turn t c).live ≡ false) × ((turn t c).connected ≡ false)
  unfolding turn offer enqueue write_next
  turn_dropped (offered m) c l o = ground (arith, l, o)
  turn_dropped (replied m) c l o = ground (arith, l, o)
  turn_dropped drained c l o = ground (arith, l, o)

  dropped_run :
      (ts : List Turn) (c : Client)
      → c.live ≡ false
      → c.connected ≡ false
      → ((run ts c).told ≡ c.told) × ((run ts c).live ≡ false)
  unfolding run
  dropped_run [] c l o = (refl, l)
  dropped_run (t ∷ ts) c l o =
      let (same, l', o') = turn_dropped t c l o in
      let (told, live) = dropped_run ts (turn t c) l' o' in (told ∙ same, live)

  -- A client of the set whose socket is open, with lines alone in its queue.
  abbrev pub IsJoined : Client → Type 0
  IsJoined c = (c.live ≡ true) × (c.connected ≡ true) × All IsWaiting c.queue

  All-append :
      (q r : List (Option Message)) → All IsWaiting q → All IsWaiting r → All IsWaiting (q ++ r)
  All-append [] r h k = k
  All-append (x ∷ q) r (x', h) k = (x', All-append q r h k)

  -- What a turn adds to what the client received.
  abbrev adds : Turn → List Message
  adds t = offers (t ∷ [])

  received-enqueue :
      (m : Message) (c : Client)
      → keep is_event (c.told ++ waiting (c.queue ++ some m ∷ []))
        ≡ received c ++ keep is_event (m ∷ [])
  received-enqueue m c =
      rw (waiting-append c.queue (some m ∷ []), ← append_assoc c.told (waiting c.queue) (m ∷ []))
        (keep-append is_event (c.told ++ waiting c.queue) (m ∷ []))

  -- Joined still, with what the turn adds received, or dropped with nothing more sent.
  abbrev Next : Client → List Message → Client → Type 0
  Next c more d =
      (IsJoined d × (received d ≡ received c ++ more))
      ⊎ ((d.live ≡ false) × (d.connected ≡ false) × (d.told ≡ c.told))

  enqueue-cases :
      (o : Option Message) (c : Client)
      → (enqueue o c ≡ (true, record c { queue = c.queue ++ o ∷ [] })) ⊎ (enqueue o c ≡ (false, c))
  unfolding enqueue
  enqueue-cases o c = elim (Bool-cases (ltb (length c.queue) send_queue_max)) [
    | inl e ↦ inl (rw e refl)
    | inr e ↦ inr (rw e refl)
  ]

  enqueued-Next :
      (m : Message) (c : Client)
      → IsJoined c
      → Next c (keep is_event (m ∷ [])) (record c { queue = c.queue ++ some m ∷ [] })
  enqueued-Next m c (l, o, q) =
      inl ((l, o, All-append c.queue (some m ∷ []) q (refl, tt)), received-enqueue m c)

  shutdown-told : (c : Client) → (shutdown c).told ≡ c.told
  unfolding shutdown
  shutdown-told c = elim (enqueue-cases none c) [
    | inl e ↦ ap (λ x. x.1.told) e
    | inr e ↦ ap (λ x. x.1.told) e
  ]

  offer-Next :
      (m : Message) (c : Client) → IsJoined c → is_event m ≡ true → Next c (m ∷ []) (offer m c)
  unfolding offer shutdown
  offer-Next m c (l, o, q) e =
      subst (λ b. Next c (m ∷ []) (if b then kept_or_dropped c (enqueue (some m) c) else c)) (sym l)
        (elim (enqueue-cases (some m) c) [
          | inl h ↦
              subst (λ x. Next c (m ∷ []) (kept_or_dropped c x)) (sym h)
                (subst
                  (λ b.
                    Next c (elim b [ true ↦ m ∷ [] | false ↦ [] ])
                      (record c { queue = c.queue ++ some m ∷ [] }))
                  e (enqueued-Next m c (l, o, q)))
          | inr h ↦
              subst (λ x. Next c (m ∷ []) (kept_or_dropped c x)) (sym h)
                (inr (refl, refl, shutdown-told c))
        ])

  unchanged-Next : (c : Client) → IsJoined c → Next c [] c
  unchanged-Next c j = inl (j, sym (append-nil (received c)))

  taken :
      (c : Client) (q : List (Option Message))
      → IsJoined c
      → c.queue ≡ q
      → Next c [] (take_line q c)
  taken c [] j e = unchanged-Next c j
  taken c (none ∷ q) (l, o, all) e = absurd (true≢false (sym (subst (All IsWaiting) e all).0))
  taken c (some m ∷ q) (l, o, all) e =
      let all' = subst (All IsWaiting) e all in
      let sent = record c { told = c.told ++ m ∷ []; queue = q } in
      let same : received sent ≡ received c ++ [] =
        ap (keep is_event)
          (append_assoc c.told (m ∷ []) (waiting q) ∙ ap (λ x. c.told ++ waiting x) (sym e))
        ∙ sym (append-nil (received c)) in
      let next : Next c [] sent = inl ((l, o, all'.1), same) in
      subst (λ b. Next c [] (if b then sent else record c { queue = q })) (sym o) next

  drained-Next : (c : Client) → IsJoined c → Next c [] (write_next c)
  unfolding write_next
  drained-Next c j =
      subst (λ b. Next c [] (if b then take_line c.queue c else c)) (sym j.1)
        (taken c c.queue j refl)

  turn_joined : (t : Turn) (c : Client) → IsJoined c → IsToldApart t → Next c (adds t) (turn t c)
  unfolding turn
  turn_joined (offered m) c j e = offer-Next m c j e
  turn_joined (replied m) c j e = elim (enqueue-cases (some m) c) [
    | inl h ↦
        subst (λ x. Next c [] x.1) (sym h)
          (subst
            (λ b.
              Next c (elim b [ true ↦ m ∷ [] | false ↦ [] ])
                (record c { queue = c.queue ++ some m ∷ [] }))
            e (enqueued-Next m c j))
    | inr h ↦ subst (λ x. Next c [] x.1) (sym h) (unchanged-Next c j)
  ]
  turn_joined drained c j e = drained-Next c j

  -- Once dropped, a client is sent a front part of what it would have been.
  abbrev pub Received : Client → List Message → Client → Type 0
  Received c more d =
      ((d.live ≡ true) × (received d ≡ received c ++ more))
      ⊎ ((d.live ≡ false)
          × (later : List Message) × (keep is_event d.told ++ later ≡ received c ++ more))

  cut :
      (c : Client) (more : List Message) (told : List Message)
      → told ≡ c.told
      → (later : List Message) × (keep is_event told ++ later ≡ received c ++ more)
  cut c more told e =
      let rest = keep is_event (waiting c.queue) in
      (
        rest ++ more,
        rw (e) (
            sym (append_assoc (keep is_event c.told) rest more)
            ∙ ap (λ x. x ++ more) (sym (keep-append is_event c.told (waiting c.queue)))),
      )

  offers-adds : (t : Turn) (ts : List Turn) → offers (t ∷ ts) ≡ adds t ++ offers ts
  offers-adds (offered m) ts = refl
  offers-adds (replied m) ts = refl
  offers-adds drained ts = refl

  joined_on :
      (t : Turn) (ts : List Turn) (c c' d : Client)
      → received c' ≡ received c ++ adds t
      → Received c' (offers ts) d
      → Received c (offers (t ∷ ts)) d
  joined_on t ts c c' d more h =
      let whole : received c' ++ offers ts ≡ received c ++ offers (t ∷ ts) =
        ap (λ x. x ++ offers ts) more
        ∙ append_assoc (received c) (adds t) (offers ts)
        ∙ ap (λ x. received c ++ x) (sym (offers-adds t ts)) in
      elim h [ inl (l, e) ↦ inl (l, e ∙ whole) | inr (l, later, e) ↦ inr (l, later, e ∙ whole) ]

  -- Over any run, a client that has joined and stays in the set has received, in order and without a gap,
  -- the message of every event, counting what waits in its queue; one that was dropped was sent a front
  -- part of them.
  pub run-Received :
      (ts : List Turn) (c : Client)
      → IsJoined c
      → All IsToldApart ts
      → Received c (offers ts) (run ts c)
  unfolding run
  run-Received [] c j e = inl (j.0, sym (append-nil (received c)))
  run-Received (t ∷ ts) c j e = elim (turn_joined t c j e.0) [
    | inl (j', more) ↦
        joined_on t ts c (turn t c) (run ts (turn t c)) more (run-Received ts (turn t c) j' e.1)
    | inr (l, o, same) ↦
        let (told, live) = dropped_run ts (turn t c) l o in
        let (later, e') = cut c (offers (t ∷ ts)) (run ts (turn t c)).told (told ∙ same) in
        inr (live, later, e')
  ]
