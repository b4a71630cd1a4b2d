-- ===== src/Server/ReadOnly.antt =====
-- What a client without full access cannot do.
use py_uart_proxy.Prelude.{
  ℕ, suc, ◌≡◌, refl, sym, ap, subst, ◌⊎◌, inl, inr, String, Bool, true, false, not, Option, none,
  some, [], str_eq, str_append, if◌then◌else◌, any, length, leb,
}
use py_uart_proxy.Prelude.Dict
use py_uart_proxy.Prelude.Dict.{Dict, get-put, get-remove}
use py_uart_proxy.Prelude.Result.{
  Result, ok, value_error, raised, ◌>>=◌, Gives, Gives-weaken, either_way,
}
use py_uart_proxy.Json
use py_uart_proxy.Json.{
  Json, Fields, Items, field, end, get_json, get_or, get, get_or_else, is_text,
}
use py_uart_proxy.Triggers.{Triggers, Rule, Spec, new_rule, level_of}
use py_uart_proxy.Triggers.Normalise.{normalise, text_in}
use py_uart_proxy.Triggers.Kept.{Keeps, normalise-Keeps}
use py_uart_proxy.Triggers.Loading.{any_sends, sends_kind}
use py_uart_proxy.Triggers.Adding.{add, fresh_id, or_raised, added}
use py_uart_proxy.Triggers.Rules
use py_uart_proxy.Server.{Calls, Client, ProxyServer, reply, notice}
use py_uart_proxy.Server.Requests.{
  is_full, own_watches, watch_rule, watch_add, watch_added, watch_remove, has_id, watch_fail,
  watch_ok, handle_tx, handle_tx_full, handle_resize_full, handle_resize, handle_watch,
  handle_watch_in,
}
use py_uart_proxy.Server.Proposals.{
  Proposal, handle, handle_propose, propose_to, refuse, propose_as, plain, any_watch,
}

abbrev rules_of : Option Triggers → Dict Rule
rules_of none = []
rules_of (some t) = t.rules

abbrev if_armed : Option Rule → Option Rule
if_armed none = none
if_armed (some r) = if level_of r.spec.actions then some r else none

-- The rule of an id, if it sends.
abbrev pub armed : String → Option Triggers → Option Rule
armed rid t = if_armed (Dict.get rid (rules_of t))

module _ (calls : Calls) (rid : String) where
  -- Nothing is proposed, written or resized, and the rule of the id sends only if it did, unchanged.
  abbrev pub Untouched : ProxyServer → Option Proposal × ProxyServer → Type 0
  Untouched s out =
      (out.0 ≡ none)
      × (out.1.session ≡ s.session)
      × (out.1.sizes ≡ s.sizes)
      × ((armed rid out.1.triggers ≡ none) ⊎ (armed rid out.1.triggers ≡ armed rid s.triggers))

  abbrev Same : ProxyServer → ProxyServer → Type 0
  Same s s' = Untouched s (none, s')

  same : (s : ProxyServer) → Same s s
  same s = (refl, refl, refl, inr refl)

  plain-Untouched :
      (s : ProxyServer) (r : Result ProxyServer) → Gives (Same s) r → Gives (Untouched s) (plain r)
  plain-Untouched s (ok s') h = h
  plain-Untouched s (value_error e) h = tt
  plain-Untouched s raised h = tt

  -- A watch sends nothing.
  watch-level :
      (c : Client) (msg : Fields) (s : ProxyServer)
      → Gives
          (λ spec. level_of spec.actions ≡ false)
          (normalise calls.python (watch_rule calls c msg s))
  unfolding get_or_else get_or get any_sends sends_kind
  watch-level c msg s =
      let rule = watch_rule calls c msg s in
      Gives-weaken (Keeps calls.python rule false) (λ spec. level_of spec.actions ≡ false)
        (normalise calls.python rule) (normalise-Keeps calls.python rule false refl) (λ spec k. k.0)

  armed-put :
      (k : String) (spec : Spec) (t : Triggers)
      → level_of spec.actions ≡ false
      → (if_armed (Dict.get rid (Dict.put k (new_rule k spec) t.rules)) ≡ none)
        ⊎ (if_armed (Dict.get rid (Dict.put k (new_rule k spec) t.rules))
            ≡ if_armed (Dict.get rid t.rules))
  armed-put k spec t e =
      subst (λ o. (if_armed o ≡ none) ⊎ (if_armed o ≡ if_armed (Dict.get rid t.rules)))
        (sym (get-put k rid (new_rule k spec) t.rules)) (by_test (str_eq k rid))
    where
      by_test :
          (b : Bool)
          → (if_armed (if b then some (new_rule k spec) else Dict.get rid t.rules) ≡ none)
            ⊎ (if_armed (if b then some (new_rule k spec) else Dict.get rid t.rules)
                ≡ if_armed (Dict.get rid t.rules))
      by_test true = inl (ap (λ b. if b then some (new_rule k spec) else none) e)
      by_test false = inr refl

  add-Untouched :
      (c : Client) (msg : Fields) (t : Triggers) (s : ProxyServer)
      → s.triggers ≡ some t
      → Gives
          (Same s)
          (watch_added calls c (add calls.world calls.python (watch_rule calls c msg s) t) s)
  unfolding add reply
  add-Untouched c msg t s e =
      by_spec (normalise calls.python (watch_rule calls c msg s)) (watch-level c msg s)
    where
      by_fresh :
          (spec : Spec) (o : Option (String × ℕ))
          → level_of spec.actions ≡ false
          → Gives (Same s) (
              watch_added calls c
                (or_raised o >>= λ x. ok (added calls.world calls.python t spec x))
                s)
      by_fresh spec none h = tt
      by_fresh spec (some (k, next)) h = (
        refl,
        refl,
        refl,
        subst
            (λ o.
              (if_armed (Dict.get rid (Dict.put k (new_rule k spec) t.rules)) ≡ none)
              ⊎ (if_armed (Dict.get rid (Dict.put k (new_rule k spec) t.rules)) ≡ armed rid o))
            (sym e) (armed-put k spec t h),
      )

      by_spec :
          (r : Result Spec)
          → Gives (λ spec. level_of spec.actions ≡ false) r
          → Gives (Same s) (
              watch_added calls c
                (r >>= λ spec.
                  or_raised (fresh_id calls.world calls.python (watch_rule calls c msg s) t)
                  >>= λ x. ok (added calls.world calls.python t spec x))
                s)
      by_spec (ok spec) h =
          by_fresh spec (fresh_id calls.world calls.python (watch_rule calls c msg s) t) h
      by_spec (value_error x) h = same s
      by_spec raised h = tt

  watch_add-Untouched :
      (c : Client) (msg : Fields) (t : Triggers) (s : ProxyServer)
      → s.triggers ≡ some t
      → Gives (Same s) (watch_add calls c msg t s)
  unfolding watch_add reply
  watch_add-Untouched c msg t s e = either_way (Same s) (Json.has "actions" msg) _ _ (same s) (
      either_way (Same s) (leb s.max_watches (length (own_watches c s.sid t))) _ _ (same s)
        (add-Untouched c msg t s e))

  armed-remove :
      (k : String) (t : Triggers)
      → (if_armed (Dict.get rid (Dict.remove k t.rules)) ≡ none)
        ⊎ (if_armed (Dict.get rid (Dict.remove k t.rules)) ≡ if_armed (Dict.get rid t.rules))
  armed-remove k t =
      subst (λ o. (if_armed o ≡ none) ⊎ (if_armed o ≡ if_armed (Dict.get rid t.rules)))
        (sym (get-remove k rid t.rules)) (by_test (str_eq k rid))
    where
      by_test :
          (b : Bool)
          → (if_armed (if b then none else Dict.get rid t.rules) ≡ none)
            ⊎ (if_armed (if b then none else Dict.get rid t.rules)
                ≡ if_armed (Dict.get rid t.rules))
      by_test true = inl refl
      by_test false = inr refl

  watch_remove-Untouched :
      (c : Client) (msg : Fields) (t : Triggers) (s : ProxyServer)
      → s.triggers ≡ some t
      → Same s (watch_remove calls c msg t s)
  unfolding watch_remove reply Rules.remove
  watch_remove-Untouched c msg t s e =
      let k = calls.python.to_str (get_or "id" (Json.str "") msg) in
      let gone : Same s (record s { triggers = some (Rules.remove k t).1 }) = (
        refl,
        refl,
        refl,
        subst
            (λ o.
              (if_armed (Dict.get rid (Dict.remove k t.rules)) ≡ none)
              ⊎ (if_armed (Dict.get rid (Dict.remove k t.rules)) ≡ armed rid o))
            (sym e) (armed-remove k t),
      ) in
      by_test (any (has_id calls k) (own_watches c s.sid t)) gone
    where
      by_test :
          (b : Bool)
          → Same s (record s {
            triggers =
                some (Rules.remove (calls.python.to_str (get_or "id" (Json.str "") msg)) t).1;
          })
          → Same s (
              if not b
              then reply c
                  (watch_fail (
                    str_append "no watch " (
                      str_append
                        (calls.python.to_str (get_or "id" (Json.str "") msg))
                        " of yours")))
                  s
              else reply c
                  (watch_ok (calls.python.to_str (get_or "id" (Json.str "") msg)))
                  (record s {
                    triggers =
                        some
                          (Rules.remove (calls.python.to_str (get_or "id" (Json.str "") msg)) t).1;
                  }))
      by_test true h = h
      by_test false h = same s

  watch-Untouched :
      (c : Client) (mtype : String) (msg : Fields) (s : ProxyServer)
      → Gives (Same s) (handle_watch calls c mtype msg s)
  unfolding handle_watch reply
  watch-Untouched c mtype msg s = by_triggers s.triggers refl
    where
      by_triggers :
          (o : Option Triggers)
          → s.triggers ≡ o
          → Gives (Same s) (handle_watch_in calls o c mtype msg s)
      by_triggers none e = same s
      by_triggers (some t) e = either_way (Same s) (str_eq mtype "watch_list") _ _ (same s) (
          either_way (Same s) (str_eq mtype "watch_remove") _ _ (watch_remove-Untouched c msg t s e)
            (watch_add-Untouched c msg t s e))

  module _ (c : Client) (limited : is_full c.role ≡ false) where
    tx-Untouched : (msg : Fields) (s : ProxyServer) → Gives (Same s) (handle_tx calls c msg s)
    unfolding handle_tx reply
    tx-Untouched msg s =
        let rest = handle_tx_full calls c msg s in
        subst
          (λ b.
            Gives (Same s)
              (if not b then ok (reply c (notice "write denied (read-only)") s) else rest))
          (sym limited) (same s)

    resize-Untouched : (msg : Fields) (s : ProxyServer) → Same s (handle_resize calls c msg s)
    unfolding handle_resize
    resize-Untouched msg s =
        let rest = handle_resize_full calls msg s in
        subst (λ b. Same s (if not b then s else rest)) (sym limited) (same s)

    propose-Untouched :
        (msg : Fields) (s : ProxyServer) → Gives (Untouched s) (handle_propose calls c msg s)
    unfolding handle_propose reply
    propose-Untouched msg s = by_parts s.triggers s.propose
      where
        by_parts :
            (t : Option Triggers) (ask : Option (Spec → Client → Result Bool))
            → Gives (Untouched s) (
                propose_to calls t ask c
                  (str_append "p" (calls.world.decimal s.next_pid))
                  msg
                  (record s { next_pid = suc s.next_pid }))
        by_parts none ask = (refl, refl, refl, inr refl)
        by_parts (some t) none = (refl, refl, refl, inr refl)
        by_parts (some t) (some ask) =
            let s' = record s { next_pid = suc s.next_pid } in
            let pid = str_append "p" (calls.world.decimal s.next_pid) in
            subst
              (λ b. Gives (Untouched s) (
                if not b
                then ok (refuse c pid "read-only: a rule that acts needs a share that may send" s')
                else propose_as calls c pid msg s'))
              (sym limited) (refl, refl, refl, inr refl)

    -- A message of a client without full access, where handling it raises nothing, writes nothing to the device, tells it no window size,
    -- and proposes nothing; and for any id, after it there is no sending rule of that id, or the same
    -- sending rule as before.
    pub handle-Untouched :
        (msg : Fields) (s : ProxyServer) → Gives (Untouched s) (handle calls c msg s)
    unfolding handle reply
    handle-Untouched msg s =
        let mtype = get_json "type" msg in
        either_way (Untouched s) (is_text "tx" mtype) _ _
          (plain-Untouched s (handle_tx calls c msg s) (tx-Untouched msg s))
          (either_way (Untouched s) (is_text "ping" mtype) _ _ (same s) (
            either_way (Untouched s) (is_text "resize" mtype) _ _ (resize-Untouched msg s) (
              either_way (Untouched s) (any_watch mtype) _ _
                (plain-Untouched s (handle_watch calls c (text_in mtype) msg s)
                  (watch-Untouched c (text_in mtype) msg s))
                (either_way (Untouched s) (is_text "rule_propose" mtype) _ _
                  (propose-Untouched msg s) (same s)))))
