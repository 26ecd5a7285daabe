-- ===== src/Front/Events/Chunks.antt =====
-- front/src/client.ts, readEvents: the chunks of the body do not matter.
use hackathon.Common.{
  ℕ, ◌≡◌, refl, sym, ◌∙◌, ap, true, false, Option, none, some, List, [], ◌∷◌, ◌++◌, ◌==◌,
  append_assoc, append-nil, Bool-cases, inl, inr,
}
use hackathon.Text.{Text, codes}
use hackathon.Text
use hackathon.Text.Separated.{split_some, split_cut, split_inner}
use hackathon.Runner.Shell.Stderr.{joined}
use hackathon.Front.Events.{
  pop, payload, Yielded, of_payload, yields, read_lines, and_then, read_from, read_events,
}

split_snoc_cut :
    (sep c : ℕ) (s t p : Text) (ps : List Text)
    → (c == sep) ≡ true
    → Text.split sep (s ++ t) ≡ (pop (p ∷ ps)).0 ++ Text.split sep ((pop (p ∷ ps)).1 ++ t)
    → Text.split sep (c ∷ (s ++ t))
      ≡ (pop ([] ∷ p ∷ ps)).0 ++ Text.split sep ((pop ([] ∷ p ∷ ps)).1 ++ t)
unfolding pop
split_snoc_cut sep c s t p ps cut h = split_cut sep c (s ++ t) cut ∙ ap (λ ls. [] ∷ ls) h

split_snoc_inner :
    (sep c : ℕ) (s t p : Text) (ps : List Text)
    → (c == sep) ≡ false
    → Text.split sep (s ++ t) ≡ (pop (p ∷ ps)).0 ++ Text.split sep ((pop (p ∷ ps)).1 ++ t)
    → Text.split sep (c ∷ (s ++ t))
      ≡ (pop ((c ∷ p) ∷ ps)).0 ++ Text.split sep ((pop ((c ∷ p) ∷ ps)).1 ++ t)
unfolding pop
split_snoc_inner sep c s t p [] inner h =
    let (q, qs, e) = split_some sep (p ++ t) in
    split_inner sep c (s ++ t) q qs inner (h ∙ e) ∙ sym (split_inner sep c (p ++ t) q qs inner e)
split_snoc_inner sep c s t p (q ∷ qs) inner h = split_inner sep c (s ++ t) p _ inner h

split_nothing :
    (sep : ℕ) (t : Text)
    → Text.split sep t
      ≡ (pop (Text.split sep [])).0 ++ Text.split sep ((pop (Text.split sep [])).1 ++ t)
unfolding pop Text.split
split_nothing sep t = refl

-- A split of two texts in a row: all but the last part of the first, and then the rest.
split-append_pop :
    (sep : ℕ) (s t : Text)
    → Text.split sep (s ++ t)
      ≡ (pop (Text.split sep s)).0 ++ Text.split sep ((pop (Text.split sep s)).1 ++ t)
split-append_pop sep [] t = split_nothing sep t
split-append_pop sep (c ∷ s) t =
    let (p, ps, e) = split_some sep s in
    let before : Text.split sep (s ++ t)
        ≡ (pop (p ∷ ps)).0 ++ Text.split sep ((pop (p ∷ ps)).1 ++ t) =
      rw e at (split-append_pop sep s t) in
    elim (Bool-cases (c == sep)) [
      | inl cut ↦ rw (split_cut sep c s cut, e) (split_snoc_cut sep c s t p ps cut before)
      | inr inner ↦
          rw (split_inner sep c s p ps inner e) (split_snoc_inner sep c s t p ps inner before)
    ]

module _ {Event : Type 0} (parse : Text → Option Event) where
  yields_lem :
      (o : Option Event) (a b : Yielded parse)
      → yields parse o (and_then parse a b) ≡ and_then parse (yields parse o a) b
  yields_lem none a b = refl
  yields_lem (some e) (es, false) b = refl
  yields_lem (some e) (es, true) b = refl

  yields-and_then :
      (o : Option Text) (a b : Yielded parse)
      → of_payload parse o (and_then parse a b) ≡ and_then parse (of_payload parse o a) b
  yields-and_then none a b = refl
  yields-and_then (some p) a b = yields_lem (parse p) a b

  read_lines-append :
      (ls ms : List Text)
      → read_lines parse (ls ++ ms) ≡ and_then parse (read_lines parse ls) (read_lines parse ms)
  unfolding read_lines
  read_lines-append [] ms = refl
  read_lines-append (l ∷ ls) ms =
      ap (of_payload parse (payload l)) (read_lines-append ls ms) ∙ yields-and_then (payload l) _ _

  read_from_lem :
      (kept : Text) (chunks : List Text)
      → read_from parse kept chunks ≡ read_lines parse (Text.split b'\n' (kept ++ joined chunks))
  unfolding read_from
  read_from_lem kept [] =
      ap (λ (t : Text). read_lines parse (Text.split b'\n' t)) (sym (append-nil kept))
  read_from_lem kept (chunk ∷ chunks) =
      let (lines, last) = pop (Text.split b'\n' (kept ++ chunk)) in
      let whole : read_lines parse (Text.split b'\n' ((kept ++ chunk) ++ joined chunks))
          ≡ and_then parse (read_lines parse lines)
              (read_lines parse (Text.split b'\n' (last ++ joined chunks))) =
        ap (read_lines parse) (split-append_pop b'\n' (kept ++ chunk) (joined chunks))
        ∙ read_lines-append lines _ in
      ap (and_then parse (read_lines parse lines)) (read_from_lem last chunks)
      ∙ sym whole
      ∙ ap (λ (t : Text). read_lines parse (Text.split b'\n' t))
          (append_assoc kept chunk (joined chunks))

  -- However the body is cut into chunks, the page reads what it would read if the body came as one.
  pub read_events-joined :
      (chunks : List Text)
      → read_events parse chunks ≡ read_lines parse (Text.split b'\n' (joined chunks))
  unfolding read_events
  read_events-joined chunks = read_from_lem [] chunks
