-- ===== src/Runner/Shell/Output.antt =====
-- runner/shell.go, from the bytes of stdout to the bytes that the channel gets.
use mathlib.Core.List.{map-append}
use hackathon.Common.{
  ℕ, ◌^◌, ◌-◌, ◌≤◌, ◌<◌, ◌≡◌, refl, ◌∙◌, ap, inl, inr, true, false, Option, none, some, List, [],
  ◌∷◌, ◌++◌, map, arith, All, All-append, ◌==◌, Bool-cases,
}
use hackathon.Text.{Text, codes, is_empty, all_test}
use hackathon.Text
use hackathon.Text.Separated.{Lacks, split_some, split_both, split-append, split_cut, split_inner}
use hackathon.Text.Decimal.{decimal, is_digit, digits-decimal}
use hackathon.Runner.Shell.{
  newline, strip_prefix, marker_of, BashShell, Result, Surroundings, execute_stream,
}
use hackathon.Runner.Shell.Stream.{ended, own_lines, execute_stream_lem}
use hackathon.Runner.Shell.Scanner.{
  drop_cr, drop_open, fits, within, within-append, scan, joined_lines, completed, drop_open_inner,
  own_lines-completed,
}

abbrev carriage_return : ℕ
carriage_return = b'\r'

drop_cr_lacks : (s : Text) → Lacks carriage_return s → drop_cr s ≡ s
unfolding drop_cr
drop_cr_lacks [] h = refl
drop_cr_lacks (c ∷ []) h = rw h.0 refl
drop_cr_lacks (c ∷ d ∷ s) h = ap (◌∷◌ c) (drop_cr_lacks (d ∷ s) h.1)

map-drop_cr : (lines : List Text) → All (Lacks carriage_return) lines → map drop_cr lines ≡ lines
map-drop_cr [] h = refl
map-drop_cr (line ∷ lines) h = rw (drop_cr_lacks line h.0, map-drop_cr lines h.1) refl

-- The parts of a text lack what the text lacks.
All-split : (sep r : ℕ) (s : Text) → Lacks r s → All (Lacks r) (Text.split sep s)
unfolding Text.split
All-split sep r [] h = (tt, tt)
All-split sep r (c ∷ s) h = elim (Bool-cases (c == sep)) [
  | inl cut ↦ rw (split_cut sep c s cut) (tt, All-split sep r s h.1)
  | inr inner ↦
      let (p, ps, e) = split_some sep s in
      let rest = rw e at (All-split sep r s h.1) in
      rw (split_inner sep c s p ps inner e) ((h.0, rest.0), rest.1)
]

digits_lack : (r : ℕ) (s : Text) → r < b'0' → all_test is_digit s ≡ true → Lacks r s
digits_lack r [] lt h = tt
digits_lack r (c ∷ s) lt h = (ground arith, digits_lack r s lt (ground arith))

letters_lack : (r : ℕ) → r < b'0' → Lacks r (codes "__MRK_") × Lacks r (codes "_END__")
letters_lack r lt = (ground arith, ground arith)

marker_lacks : (r now n : ℕ) → r < b'0' → Lacks r (marker_of now ++ decimal n)
unfolding marker_of
marker_lacks r now n lt =
    let (front, back) = letters_lack r lt in
    let digits = λ (m : ℕ). digits_lack r (decimal m) lt (digits-decimal m) in
    All-append _ (codes "__MRK_" ++ (decimal now ++ codes "_END__")) (decimal n)
      (All-append _ (codes "__MRK_") (decimal now ++ codes "_END__") front
        (All-append _ (decimal now) (codes "_END__") (digits now) back))
      (digits n)

parts_of :
    (out mark more : Text)
    → Lacks newline mark
    → Text.split newline (out ++ (newline ∷ (mark ++ (newline ∷ more))))
      ≡ Text.split newline out ++ (mark ∷ Text.split newline more)
parts_of out mark more h =
    split_both newline out (mark ++ (newline ∷ more))
    ∙ ap (◌++◌ (Text.split newline out)) (split-append newline mark more h)

-- What the scanner makes of the output of a command, of the script's newline and marker, and of
-- whatever comes later.
scanned :
    (out more : Text) (now n : ℕ)
    → Lacks carriage_return out
    → All (λ t. fits t ≡ true) (Text.split newline out)
    → fits (marker_of now ++ decimal n) ≡ true
    → (rest : List Text) × ((scan
          (out ++ (newline ∷ ((marker_of now ++ decimal n) ++ (newline ∷ more))))).0
        ≡ Text.split newline out ++ ((marker_of now ++ decimal n) ∷ rest))
unfolding scan
scanned out more now n h short mark_fits =
    let mark = marker_of now ++ decimal n in
    let (z, zs, e) = split_some newline more in
    let body = Text.split newline out in
    let (kept, same) = within-append body mark (drop_open (z ∷ zs)) short mark_fits in
    (
      map drop_cr kept,
      ap (λ (x : List Text). map drop_cr (within (drop_open x)).0)
            (parts_of out mark more (marker_lacks newline now n (omega arith))
              ∙ ap (λ (t : List Text). body ++ (mark ∷ t)) e)
          ∙ ap (λ (x : List Text). map drop_cr (within x).0) (drop_open_inner body mark z zs)
          ∙ ap (map drop_cr) same
          ∙ map-append drop_cr body (mark ∷ kept)
          ∙ rw
              (
                map-drop_cr body (All-split newline carriage_return out h),
                drop_cr_lacks mark (marker_lacks carriage_return now n (omega arith)),
              )
              refl,
    )

-- A line that is sent holds its newline at least.
map-ended_filled : (lines : List Text) → All (λ line. is_empty line ≡ false) (map ended lines)
map-ended_filled [] = tt
map-ended_filled ([] ∷ lines) = (refl, map-ended_filled lines)
map-ended_filled ((c ∷ line) ∷ lines) = (refl, map-ended_filled lines)

module _ {W : Type 0} (s : BashShell) (e : Surroundings W) (out more : Text) (now n : ℕ)
    (stderr : Text) where
  abbrev Answered : Option Result × List Text × BashShell → Type 0
  Answered (result, sent, s') =
      (result
        ≡ some (record {
          exit_code = record { negative = false; magnitude = n };
          stderr = stderr;
          err = none;
        }))
      × (joined_lines sent ≡ completed out)
      × All (λ line. is_empty line ≡ false) sent
      × (s'.broken ≡ none)

  -- If the shell is in order, the context has not ended, the script was written, the channel takes
  -- every send, the marker came on stderr, and bash prints an output of lines below 1 MiB without carriage returns and without a line that begins
  -- with the marker, then the newline and the marker of the script with an exit code, and then
  -- anything, ExecuteStream returns that exit code and the channel gets the output whole, with
  -- a newline at its end if it lacks one, in texts that are not empty; the shell stays in order.
  pub execute_stream-output :
      s.broken ≡ none
      → e.context_err ≡ false
      → e.write_failed ≡ false
      → e.marker ≡ marker_of now
      → e.stderr ≡ some stderr
      → e.lines ≡ (scan (out ++ (newline ∷ ((marker_of now ++ decimal n) ++ (newline ∷ more))))).0
      → Lacks b'\r' out
      → All (λ t. fits t ≡ true) (Text.split newline out)
      → fits (marker_of now ++ decimal n) ≡ true
      → All (λ line. strip_prefix (marker_of now) line ≡ none) (Text.split newline out)
      → n ≤ 2 ^ 63 - 1
      → ((t : Text) (w : W) → (e.send t w).0 ≡ true)
      → let (result, sent, s') = execute_stream s e in
        (result
          ≡ some (record {
            exit_code = record { negative = false; magnitude = n };
            stderr = stderr;
            err = none;
          }))
        × (joined_lines sent ≡ completed out)
        × All (λ line. is_empty line ≡ false) sent
        × (s'.broken ≡ none)
  execute_stream-output ready alive written marker arrived lines plain short mark_fits unmarked le
        takes =
      let (rest, scanned_lines) = scanned out more now n plain short mark_fits in
      let (in_order, how) =
        execute_stream_lem s e (Text.split newline out) rest n stderr ready alive written arrived
          (rw marker (lines ∙ scanned_lines)) (rw marker unmarked) le in
      elim how [
        | inl (result, sent) ↦ (
          result,
          ap joined_lines sent ∙ own_lines-completed out,
          rw sent (map-ended_filled (own_lines (Text.split newline out))),
          in_order,
        )
        | inr (result, part, (t, w, refused)) ↦ absurd (cc (takes t w, refused))
      ]
