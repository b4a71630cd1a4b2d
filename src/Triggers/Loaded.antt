-- ===== src/Triggers/Loaded.antt =====
-- What a file of rules can bring in.
use py_uart_proxy.Prelude.{
  ◌≡◌, refl, sym, ap, ◌∙◌, subst, ◌⊎◌, inl, inr, String, Bool, true, false, ◌&&◌, none, some,
  str_eq, if◌then◌else◌,
}
use mathlib.Core.Option.{some-injective}
use py_uart_proxy.Prelude.Dict
use py_uart_proxy.Prelude.Dict.{Dict, get-put}
use py_uart_proxy.Prelude.Result.{
  Result, ok, value_error, raised, ◌>>=◌, Gives, Gives-bind, Gives-weaken, anything,
}
use py_uart_proxy.Json.{Json, Fields, Items, truthy, get_or_else, put_key, field, end}
use py_uart_proxy.Triggers.{Spec, Rule, Triggers, new_rule, level_of}
use py_uart_proxy.Triggers.Pattern.{Python}
use py_uart_proxy.Triggers.Normalise.{normalise, a_person, fields_of, approval_of}
use py_uart_proxy.Triggers.Firing.{World}
use py_uart_proxy.Triggers.Adding.{add, added, fresh_id, or_raised}
use py_uart_proxy.Triggers.Loading.{
  approved_if, load_items, rules_in, then_each, sends_of, from_file, off_if, load_one, load_each,
  load,
}
use py_uart_proxy.Triggers.Kept.{Keeps, normalise-Keeps, get_or-put}

-- A rule that sends nothing, or is off and approved by nobody.
abbrev pub IsHarmless : Spec → Type 0
IsHarmless spec =
    (level_of spec.actions ≡ false) ⊎ ((spec.enabled ≡ false) × (spec.approved ≡ none))

module _ (p : Python) where
  harmless :
      (sends : Bool) (rule : Fields)
      → sends_of (from_file rule) ≡ ok sends
      → Gives IsHarmless (normalise p (off_if (sends && true) (from_file rule)))
  unfolding get_or_else
  harmless false rule e =
      Gives-weaken (Keeps p (from_file rule) false) IsHarmless (normalise p (from_file rule))
        (normalise-Keeps p (from_file rule) false e) (λ spec k. inl k.0)
  harmless true rule e =
      let off = put_key "enabled" (Json.flag false) (from_file rule) in
      let sends : sends_of off ≡ ok true =
        rw
          (get_or-put "enabled" "actions" Json.null (Json.flag false) (from_file rule), get_or_else)
          e in
      Gives-weaken (Keeps p off true) IsHarmless (normalise p off)
        (normalise-Keeps p off true sends)
        (λ spec k. inr (
          k.1
              ∙ ap truthy (
                  get_or-put "enabled" "enabled" (Json.flag true) (Json.flag false)
                    (from_file rule)),
          k.2
              ∙ ap approval_of (
                  get_or-put "enabled" "approved" Json.null (Json.flag false) (from_file rule)
                  ∙ get_or-put "approved" "approved" Json.null Json.null
                      (put_key "owner" a_person rule)),
        ))

module _ (w : World) (p : Python) where
  -- A new rule under some id, which may not send on its own.
  abbrev Brings : Triggers → String × Triggers → Type 0
  Brings t x =
      (spec : Spec) × IsHarmless spec × (x.1.rules ≡ Dict.put x.0 (new_rule x.0 spec) t.rules)

  add-Brings :
      (rule : Fields) (t : Triggers)
      → Gives IsHarmless (normalise p rule)
      → Gives (Brings t) (add w p rule t)
  unfolding add
  add-Brings rule t h = Gives-bind IsHarmless (Brings t) (normalise p rule) _ h λ spec good.
      Gives-bind (λ o. Unit {0}) (Brings t) (or_raised (fresh_id w p rule t)) _ (anything _)
        λ found _. let brings : Brings t (added w p t spec found) = (spec, good, refl) in brings

  load_one-Brings : (j : Json) (t : Triggers) → Gives (Brings t) (load_one w p false j t)
  unfolding load_one
  load_one-Brings j t =
      Gives-bind (λ a. Unit {0}) (Brings t) (fields_of j) _ (anything _)
        λ rule _. by_sends rule (sends_of (from_file rule)) refl
    where
      by_sends :
          (rule : Fields) (r : Result Bool)
          → sends_of (from_file rule) ≡ r
          → Gives (Brings t) (
              r >>= λ sends. add w p (off_if (sends && true) (from_file rule)) t >>= λ a.
              ok (approved_if w p (sends && false) a))
      by_sends rule (ok false) e =
          Gives-bind (Brings t) (Brings t) (add w p (from_file rule) t) _
            (add-Brings (from_file rule) t (harmless p false rule e)) λ a h. h
      by_sends rule (ok true) e =
          Gives-bind (Brings t) (Brings t) (add w p (off_if true (from_file rule)) t) _
            (add-Brings (off_if true (from_file rule)) t (harmless p true rule e)) λ a h. h
      by_sends rule (value_error x) e = tt
      by_sends rule raised e = tt

  new_or_old :
      (t : Triggers) (spec : Spec) (k rid : String) (r : Rule)
      → IsHarmless spec
      → (if str_eq k rid then some (new_rule k spec) else Dict.get rid t.rules) ≡ some r
      → (Dict.get rid t.rules ≡ some r) ⊎ IsHarmless r.spec
  new_or_old t spec k rid r good e = by_test (str_eq k rid) e
    where
      by_test :
          (b : Bool)
          → (if b then some (new_rule k spec) else Dict.get rid t.rules) ≡ some r
          → (Dict.get rid t.rules ≡ some r) ⊎ IsHarmless r.spec
      by_test true h =
          inr (subst (λ x. IsHarmless x.spec) (some-injective (new_rule k spec) r h) good)
      by_test false h = inl h

  -- A rule that is there after rules of a file come in was there before, or may not send on its own.
  load_each-Harmless :
      (js : Items) (t : Triggers) (rid : String) (r : Rule)
      → Dict.get rid (load_each w p false js t).1.rules ≡ some r
      → (Dict.get rid t.rules ≡ some r) ⊎ IsHarmless r.spec
  unfolding load_each
  load_each-Harmless Items.nil t rid r e = inl e
  load_each-Harmless (Items.cons j js) t rid r e =
      from_one (load_one w p false j t) (load_one-Brings j t) e
        (λ t' h. load_each-Harmless js t' rid r h)
    where
      from_one :
          (x : Result (String × Triggers))
          → Gives (Brings t) x
          → Dict.get rid (then_each t (load_each w p false js) x).1.rules ≡ some r
          → ((t' : Triggers)
              → Dict.get rid (load_each w p false js t').1.rules ≡ some r
              → (Dict.get rid t'.rules ≡ some r) ⊎ IsHarmless r.spec)
          → (Dict.get rid t.rules ≡ some r) ⊎ IsHarmless r.spec
      from_one (ok (k, t')) (spec, good, put) e rest = elim (rest t' e) [
        | inr later ↦ inr later
        | inl there ↦
            new_or_old t spec k rid r good
              (sym (ap (Dict.get rid) put ∙ get-put k rid (new_rule k spec) t.rules) ∙ there)
      ]
      from_one (value_error x) h e rest = inl e
      from_one raised h e rest = inl e

  -- Where a person does not approve the file, each rule that is there after `load` was there before,
  -- or sends nothing, or is off and approved by nobody. This holds also where a rule of the file is
  -- refused and those before it stay.
  pub load-IsHarmless :
      (file : Json) (t : Triggers) (rid : String) (r : Rule)
      → Dict.get rid (load w p false file t).1.rules ≡ some r
      → (Dict.get rid t.rules ≡ some r) ⊎ IsHarmless r.spec
  unfolding load
  load-IsHarmless file t rid r e = by_items (rules_in file) e
    where
      by_items :
          (j : Json)
          → Dict.get rid (load_items w p false j t).1.rules ≡ some r
          → (Dict.get rid t.rules ≡ some r) ⊎ IsHarmless r.spec
      by_items (Json.arr js) h = load_each-Harmless js t rid r h
      by_items (Json.obj end) h = inl h
      by_items (Json.obj (field k x rest)) h = inl h
      by_items (Json.str s) h = inl h
      by_items Json.null h = inl h
      by_items (Json.flag b) h = inl h
      by_items (Json.int n) h = inl h
      by_items (Json.float n) h = inl h
