-- ===== src/Client/Shows.antt =====
-- The texts that a client shows, line after line.
use py_uart_proxy.Prelude.{
  ℕ, zero, suc, ◌-◌, drop, ◌≡◌, refl, sym, ap, ◌∙◌, String, Bool, false, List, [], ◌∷◌, ◌++◌, Bytes,
  map, last_n as newest, last_n-append, append_assoc, append-nil, length,
}
use py_uart_proxy.Json.{Fields}
use py_uart_proxy.LineAssembler.{feed}
use py_uart_proxy.Client.{Line, SessionClient, Tools, line_of, add, add_each}
use py_uart_proxy.Client.Messages.{hear}

abbrev pub texts : List Line → List String
texts [] = []
texts (l ∷ ls) = l.text ∷ texts ls

texts-append : (ls ms : List Line) → texts (ls ++ ms) ≡ texts ls ++ texts ms
texts-append [] ms = refl
texts-append (l ∷ ls) ms = ap (λ x. l.text ∷ x) (texts-append ls ms)

texts-drop : (n : ℕ) (ls : List Line) → texts (drop n ls) ≡ drop n (texts ls)
texts-drop zero ls = refl
texts-drop (suc n) [] = refl
texts-drop (suc n) (l ∷ ls) = texts-drop n ls

length-texts : (ls : List Line) → length (texts ls) ≡ length ls
length-texts [] = refl
length-texts (l ∷ ls) = ap (λ n. suc n) (length-texts ls)

texts-newest : (n : ℕ) (ls : List Line) → texts (newest n ls) ≡ newest n (texts ls)
texts-newest n ls = rw (length-texts ls) (texts-drop (length ls - n) ls)

-- The client shows the newest of these texts.
abbrev pub Shows : List String → SessionClient → Type 0
Shows ts c = texts c.lines ≡ newest c.max_lines ts

module _ (tools : Tools) where
  abbrev pub shown : Bytes → String
  shown raw = tools.clean_text (tools.decode raw)

  add-Shows :
      (now : ℕ) (chars : String) (msg : Fields) (replayed : Bool) (ts : List String)
      (c : SessionClient)
      → Shows ts c
      → Shows (ts ++ tools.clean_text chars ∷ []) (add tools now chars msg replayed c)
  unfolding add line_of
  add-Shows now chars msg replayed ts c h =
      let l = line_of tools chars msg (suc c.last_n) replayed false in
      texts-newest c.max_lines (c.lines ++ l ∷ [])
      ∙ ap (newest c.max_lines)
          (texts-append c.lines (l ∷ []) ∙ ap (λ x. x ++ tools.clean_text chars ∷ []) h)
      ∙ last_n-append c.max_lines ts (tools.clean_text chars ∷ [])

  add_each-Shows :
      (now : ℕ) (raws : List Bytes) (msg : Fields) (ts : List String) (c : SessionClient)
      → Shows ts c
      → Shows (ts ++ map shown raws) (add_each tools now raws msg c)
        × ((add_each tools now raws msg c).asm ≡ c.asm)
  unfolding add_each add
  add_each-Shows now [] msg ts c h = (h ∙ ap (newest c.max_lines) (sym (append-nil ts)), refl)
  add_each-Shows now (raw ∷ raws) msg ts c h =
      let (k, e) =
        add_each-Shows now raws msg (ts ++ shown raw ∷ [])
          (add tools now (tools.decode raw) msg false c)
          (add-Shows now (tools.decode raw) msg false ts c h) in
      (k ∙ ap (newest _) (append_assoc ts (shown raw ∷ []) (map shown raws)), e)

  pub hear-Shows :
      (now : ℕ) (bytes : Bytes) (msg : Fields) (ts : List String) (c : SessionClient)
      → Shows ts c
      → Shows (ts ++ map shown (feed bytes c.asm).0) (hear tools now bytes msg c)
        × ((hear tools now bytes msg c).asm ≡ (feed bytes c.asm).1)
  unfolding hear
  hear-Shows now bytes msg ts c h =
      add_each-Shows now (feed bytes c.asm).0 msg ts (record c { asm = (feed bytes c.asm).1 }) h
