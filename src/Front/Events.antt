-- ===== src/Front/Events.antt =====
-- front/src/client.ts, readEvents: the events that the page reads off the body of an answer. A chunk is
-- what TextDecoder makes of the bytes of one read; JSON.parse is a parameter, none where it throws.
pub mod Chunks
use hackathon.Common.{
  ℕ, Bool, true, false, ◌||◌, ◌&&◌, Option, none, some, List, [], ◌∷◌, ◌++◌, leb, ◌==◌,
  if◌then◌else◌,
}
use hackathon.Text.{Text, codes, is_empty}
use hackathon.Text
use hackathon.Runner.Shell.{strip_prefix}

-- The white space and the line terminators of ECMAScript.
abbrev pub is_js_space : ℕ → Bool
is_js_space c =
    (leb 9 c && leb c 13)
    || (c == 32)
    || (c == 160)
    || (c == 5760)
    || (leb 8192 c && leb c 8202)
    || (c == 8232)
    || (c == 8233)
    || (c == 8239)
    || (c == 8287)
    || (c == 12288)
    || (c == 65279)

unfoldable pub trim_start : Text → Text
trim_start [] = []
trim_start (c ∷ s) = let rest = trim_start s in if is_js_space c then rest else c ∷ s

-- What a line carries: none if it is skipped.
abbrev pub unless_empty : Text → Option Text
unless_empty t = if is_empty t then none else some t

abbrev pub payload_behind : Option Text → Option Text
payload_behind none = none
payload_behind (some rest) = unless_empty (trim_start rest)

unfoldable pub payload : Text → Option Text
payload line = payload_behind (strip_prefix (codes "data:") line)

-- `lines.pop()`, and what is left.
unfoldable pub pop : List Text → List Text × Text
pop [] = ([], [])
pop (line ∷ []) = ([], line)
pop (line ∷ next ∷ lines) = let (rest, last) = pop (next ∷ lines) in (line ∷ rest, last)

module _ {Event : Type 0} (parse : Text → Option Event) where
  -- What has been yielded, and whether nothing was thrown.
  abbrev pub Yielded : Type 0
  Yielded = List Event × Bool

  abbrev pub yields : Option Event → Yielded → Yielded
  yields none rest = ([], false)
  yields (some e) (es, fine) = (e ∷ es, fine)

  abbrev pub of_payload : Option Text → Yielded → Yielded
  of_payload none rest = rest
  of_payload (some p) rest = yields (parse p) rest

  -- The `for` over the lines.
  unfoldable pub read_lines : List Text → Yielded
  unfolding payload
  read_lines [] = ([], true)
  read_lines (line ∷ lines) = let rest = read_lines lines in of_payload (payload line) rest

  -- A later read follows unless something was thrown.
  abbrev pub and_then : Yielded → Yielded → Yielded
  and_then (es, false) later = (es, false)
  and_then (es, true) (more, fine) = (es ++ more, fine)

  -- The `for` over the reads; `kept` is what `chunks` holds, and the decoder has nothing left at the end.
  unfoldable pub read_from : Text → List Text → Yielded
  unfolding pop read_lines
  read_from kept [] = read_lines (Text.split b'\n' kept)
  read_from kept (chunk ∷ chunks) =
      let (lines, last) = pop (Text.split b'\n' (kept ++ chunk)) in
      let later = read_from last chunks in and_then (read_lines lines) later

  unfoldable pub read_events : List Text → Yielded
  unfolding read_from
  read_events chunks = read_from [] chunks
