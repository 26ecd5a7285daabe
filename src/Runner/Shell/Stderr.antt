-- ===== src/Runner/Shell/Stderr.antt =====
-- runner/shell.go, readStderr and checkStderrMarker: the marker in what arrives on stderr, in chunks
-- cut anywhere.
use hackathon.Common.{
  ℕ, ◌≡◌, refl, sym, ◌∙◌, ap, subst, inl, inr, ◌⊎◌, true, false, Option, none, some, List, [], ◌∷◌,
  ◌++◌, append-nil, append_assoc, arith, length, ◌≤◌, ◌==◌, Bool-cases,
}
use mathlib.Core.Option.{some-injective}
use hackathon.Text.{Text, is_empty}
use hackathon.Runner.Shell.{
  BashShell, strip_prefix, here_or, cut_at, newline, drop_newline, strip_marker,
  check_stderr_marker, read_chunk, read_stderr,
}

abbrev pub joined : List Text → Text
joined [] = []
joined (chunk ∷ chunks) = chunk ++ joined chunks

strip_prefix_extend :
    (p s r more : Text) → strip_prefix p s ≡ some r → strip_prefix p (s ++ more) ≡ some (r ++ more)
unfolding strip_prefix
strip_prefix_extend [] s r more h = cc
strip_prefix_extend (a ∷ p) [] r more h = cc
strip_prefix_extend (a ∷ p) (b ∷ s) r more h = ground (arith, strip_prefix_extend p s r more)

strip_prefix-length : (p s r : Text) → strip_prefix p s ≡ some r → length p ≤ length s
unfolding strip_prefix
strip_prefix-length [] s r h = omega arith
strip_prefix-length (a ∷ p) [] r h = cc
strip_prefix-length (a ∷ p) (b ∷ s) r h = ground (arith, strip_prefix-length p s r)

-- A text that is long enough does not gain a prefix when it is extended.
strip_prefix_still_none :
    (p s more : Text)
    → length p ≤ length s
    → strip_prefix p s ≡ none
    → strip_prefix p (s ++ more) ≡ none
unfolding strip_prefix
strip_prefix_still_none [] s more le h = cc
strip_prefix_still_none (a ∷ p) [] more le h = absurd (omega (arith, le))
strip_prefix_still_none (a ∷ p) (b ∷ s) more le h =
    ground (arith, strip_prefix_still_none p s more (omega (arith, le)))

here_found :
    (c : ℕ) (here : Option Text) (later : Option (Text × Text)) (b r : Text)
    → here_or c here later ≡ some (b, r)
    → ((here ≡ some r) × (b ≡ []))
      ⊎ ((here ≡ none) × ((b' : Text) × (later ≡ some (b', r)) × (b ≡ c ∷ b')))
here_found c (some behind) later b r h =
    let e = some-injective _ _ h in
    inl (ap some (ap (λ (x : Text × Text). x.1) e), sym (ap (λ (x : Text × Text). x.0) e))
here_found c none none b r h = cc
here_found c none (some (before, behind)) b r h =
    let e = some-injective _ _ h in
    inr (
      refl,
      (
        before,
        ap (λ (t : Text). some (before, t)) (ap (λ (x : Text × Text). x.1) e),
        sym (ap (λ (x : Text × Text). x.0) e),
      ),
    )

cut_at-length : (marker s b r : Text) → cut_at marker s ≡ some (b, r) → length marker ≤ length s
unfolding cut_at
cut_at-length [] s b r h = omega arith
cut_at-length (a ∷ m) [] b r h = cc
cut_at-length (a ∷ m) (c ∷ s) b r h =
    elim (here_found c (strip_prefix (a ∷ m) (c ∷ s)) (cut_at (a ∷ m) s) b r h) [
      | inl (here, e) ↦ strip_prefix-length (a ∷ m) (c ∷ s) r here
      | inr (here, (b', later, e)) ↦ omega (arith, cut_at-length (a ∷ m) s b' r later)
    ]

-- What arrives later does not move the first marker.
cut_at_extend :
    (marker s b r more : Text)
    → cut_at marker s ≡ some (b, r)
    → cut_at marker (s ++ more) ≡ some (b, r ++ more)
unfolding cut_at strip_prefix
cut_at_extend [] [] b r [] h = cc
cut_at_extend [] [] b r (c ∷ more) h = cc
cut_at_extend (a ∷ m) [] b r more h = cc
cut_at_extend marker (c ∷ s) b r more h =
    elim (here_found c (strip_prefix marker (c ∷ s)) (cut_at marker s) b r h) [
      | inl (here, e) ↦ rw (strip_prefix_extend marker (c ∷ s) r more here, e) refl
      | inr (here, (b', later, e)) ↦
          rw
            (
              strip_prefix_still_none marker (c ∷ s) more
                  (omega (arith, cut_at-length marker s b' r later)) here,
              cut_at_extend marker s b' r more later,
              e,
            )
            refl
    ]

read_chunk_unmarked :
    (s : BashShell) (chunk : Text)
    → s.stderr_marker ≡ []
    → read_chunk s chunk ≡ record s { stderr_buf = s.stderr_buf ++ chunk }
unfolding read_chunk check_stderr_marker
read_chunk_unmarked s chunk h = rw h refl

-- A chunk behind which the marker is, or is not, in the buffer.
read_chunk_marked :
    (s : BashShell) (chunk : Text) (found : Option (Text × Text))
    → is_empty s.stderr_marker ≡ false
    → cut_at s.stderr_marker (s.stderr_buf ++ chunk) ≡ found
    → read_chunk s chunk ≡ strip_marker (record s { stderr_buf = s.stderr_buf ++ chunk }) found
unfolding read_chunk check_stderr_marker
read_chunk_marked s chunk found filled h = rw (filled, h) refl

-- Once the marker is found, what arrives is kept.
read_unmarked :
    (s : BashShell) (chunks : List Text)
    → s.stderr_marker ≡ []
    → read_stderr s chunks ≡ record s { stderr_buf = s.stderr_buf ++ joined chunks }
unfolding read_stderr
read_unmarked s [] h = rw (append-nil s.stderr_buf) refl
read_unmarked s (chunk ∷ chunks) h =
    ap (λ (x : BashShell). read_stderr x chunks) (read_chunk_unmarked s chunk h)
    ∙ read_unmarked (record s { stderr_buf = s.stderr_buf ++ chunk }) chunks h
    ∙ ap (λ (t : Text). record s { stderr_buf = t })
        (append_assoc s.stderr_buf chunk (joined chunks))

-- Done, with the marker gone, and the newline behind it kept or gone.
abbrev pub Stripped : Text → Text → BashShell → Type 0
Stripped before behind s =
    (s.stderr_done ≡ true)
    × (s.stderr_marker ≡ [])
    × ((s.stderr_buf ≡ before ++ behind) ⊎ (s.stderr_buf ≡ before ++ drop_newline behind))

split_newline :
    (before r more : Text)
    → let buf = (before ++ drop_newline r) ++ more in
      (buf ≡ before ++ (r ++ more)) ⊎ (buf ≡ before ++ drop_newline (r ++ more))
unfolding drop_newline
split_newline before [] more = inl (rw (append-nil before) refl)
split_newline before (c ∷ r) more = elim (Bool-cases (c == newline)) [
  | inl same ↦ inr (rw same (append_assoc before r more))
  | inr other ↦ inr (rw other (append_assoc before (c ∷ r) more))
]

rest_kept :
    (s : BashShell) (b r before behind : Text) (chunks : List Text)
    → ◌≡◌ {A = Option (Text × Text)} (some (b, r ++ joined chunks)) (some (before, behind))
    → Stripped before behind (read_stderr (strip_marker s (some (b, r))) chunks)
rest_kept s b r before behind chunks e =
    let same = some-injective _ _ e in
    subst
      (λ (x : Text × Text). Stripped x.0 x.1 (read_stderr (strip_marker s (some (b, r))) chunks))
      same
      (rw (read_unmarked (strip_marker s (some (b, r))) chunks refl)
        (refl, refl, split_newline b r (joined chunks)))

whole :
    (s : BashShell) (chunk : Text) (chunks : List Text) (before behind : Text)
    → cut_at s.stderr_marker (s.stderr_buf ++ (chunk ++ joined chunks)) ≡ some (before, behind)
    → cut_at s.stderr_marker ((s.stderr_buf ++ chunk) ++ joined chunks) ≡ some (before, behind)
whole s chunk chunks before behind h =
    ap (cut_at s.stderr_marker) (append_assoc s.stderr_buf chunk (joined chunks)) ∙ h

by_chunk :
    (s : BashShell) (chunk : Text) (chunks : List Text) (before behind : Text)
    → is_empty s.stderr_marker ≡ false
    → (found : Option (Text × Text)) → cut_at s.stderr_marker (s.stderr_buf ++ chunk) ≡ found
    → (cut_at s.stderr_marker (s.stderr_buf ++ chunk) ≡ none
        → Stripped before behind
            (read_stderr (record s { stderr_buf = s.stderr_buf ++ chunk }) chunks))
    → cut_at s.stderr_marker ((s.stderr_buf ++ chunk) ++ joined chunks) ≡ some (before, behind)
    → Stripped before behind (read_stderr (read_chunk s chunk) chunks)
by_chunk s chunk chunks before behind filled none e later h =
    subst (λ (x : BashShell). Stripped before behind (read_stderr x chunks))
      (sym (read_chunk_marked s chunk none filled e)) (later e)
by_chunk s chunk chunks before behind filled (some (b, r)) e later h =
    subst (λ (x : BashShell). Stripped before behind (read_stderr x chunks))
      (sym (read_chunk_marked s chunk (some (b, r)) filled e))
      (rest_kept (record s { stderr_buf = s.stderr_buf ++ chunk }) b r before behind chunks
        (sym (cut_at_extend s.stderr_marker (s.stderr_buf ++ chunk) b r (joined chunks) e) ∙ h))

read_marked :
    (s : BashShell) (chunks : List Text) (before behind : Text)
    → is_empty s.stderr_marker ≡ false
    → cut_at s.stderr_marker s.stderr_buf ≡ none
    → cut_at s.stderr_marker (s.stderr_buf ++ joined chunks) ≡ some (before, behind)
    → Stripped before behind (read_stderr s chunks)
unfolding read_stderr
read_marked s [] before behind filled absent h =
    absurd (cc (rw (append-nil s.stderr_buf) at h, absent))
read_marked s (chunk ∷ chunks) before behind filled absent h =
    by_chunk s chunk chunks before behind filled (cut_at s.stderr_marker (s.stderr_buf ++ chunk))
      refl
      (λ e.
        read_marked (record s { stderr_buf = s.stderr_buf ++ chunk }) chunks before behind filled e
          (whole s chunk chunks before behind h))
      (whole s chunk chunks before behind h)

no_marker : (marker : Text) → is_empty marker ≡ false → cut_at marker [] ≡ none
unfolding cut_at strip_prefix
no_marker [] h = cc
no_marker (a ∷ m) h = refl

-- If what arrives on stderr holds the marker, then however it is cut into chunks, the end of the
-- command is signalled and the marker is taken out of the buffer: what is kept is the text before its
-- first occurrence and the text behind it, the latter with or without a newline in front.
pub read_stderr_lem :
    (s : BashShell) (chunks : List Text) (before behind : Text)
    → s.stderr_buf ≡ []
    → is_empty s.stderr_marker ≡ false
    → cut_at s.stderr_marker (joined chunks) ≡ some (before, behind)
    → let s' = read_stderr s chunks in
      (s'.stderr_done ≡ true)
      × (s'.stderr_marker ≡ [])
      × ((s'.stderr_buf ≡ before ++ behind) ⊎ (s'.stderr_buf ≡ before ++ drop_newline behind))
read_stderr_lem s chunks before behind empty filled h =
    read_marked s chunks before behind filled (rw empty (no_marker s.stderr_marker filled))
      (rw empty h)
