-- ===== src/Server/Framing/Frames.antt =====
-- A reading of the buffer in one pass, and lines as a client sends them.
use order_matching_engine.Base.{
  ℕ, zero, suc, ◌<◌, ◌≡◌, refl, ap, ◌∙◌, sym, Bool, true, false, Option, none, some, List, [], ◌∷◌,
  ◌++◌, append_assoc, arith, eqb, length, if◌then◌else◌, Bool-cases, inl, inr, Text, All,
}
use order_matching_engine.Base.Exec.{ok, ◌>>=◌}
use order_matching_engine.Server.Framing.{
  newline, carriage_return, prepend, split_line, strip_return, drain, take_lines,
}

-- A new character in front of the first line, or of the rest if there is no line.
abbrev glue : ℕ → List Text × Text → List Text × Text
glue c ([], left) = ([], c ∷ left)
glue c (line ∷ lines, left) = ((c ∷ line) ∷ lines, left)

-- The lines of a text with their ends as they came, and what follows the last newline.
abbrev pub frames : Text → List Text × Text
frames [] = ([], [])
frames (c ∷ s) = let r = frames s in if eqb c newline then ([] ∷ r.0, r.1) else glue c r

abbrev strip_all : List Text → List Text
strip_all [] = []
strip_all (l ∷ ls) = strip_return l ∷ strip_all ls

-- The lines without their ends.
abbrev pub lines_of : Text → List Text × Text
lines_of s = let r = frames s in (strip_all r.0, r.1)

abbrev pub NoNewline : Text → Type 0
NoNewline = All (λ c. eqb c newline ≡ false)

-- What `split_line` finds, in terms of the lines.
abbrev FirstLine : Text → Option (Text × Text) → Type 0
FirstLine s none = frames s ≡ ([], s)
FirstLine s (some (line, rest)) =
    (frames s ≡ (line ∷ (frames rest).0, (frames rest).1)) × (length rest < length s)

prepend-FirstLine :
    (c : ℕ) (s : Text) (o : Option (Text × Text))
    → eqb c newline ≡ false
    → FirstLine s o
    → FirstLine (c ∷ s) (prepend c o)
prepend-FirstLine c s none other h = rw (other, h) refl
prepend-FirstLine c s (some (line, rest)) other h = (rw (other, h.0) refl, omega (arith, h.1))

split_line-FirstLine : (s : Text) → FirstLine s (split_line s)
unfolding split_line
split_line-FirstLine [] = refl
split_line-FirstLine (c ∷ s) = elim (Bool-cases (eqb c newline)) [
  | inl nl ↦ rw nl (rw nl refl, omega arith)
  | inr other ↦ rw other (prepend-FirstLine c s (split_line s) other (split_line-FirstLine s))
]

drain-lines_of : (fuel : ℕ) (s : Text) → length s < fuel → drain fuel s ≡ ok (lines_of s)
unfolding drain
drain-lines_of zero s h = absurd (omega arith)
drain-lines_of (suc fuel) s h =
    go (λ rest. drain-lines_of fuel rest) (split_line s) (split_line-FirstLine s)
  where
    go :
        ((rest : Text) → length rest < fuel → drain fuel rest ≡ ok (lines_of rest))
        → (o : Option (Text × Text)) → FirstLine s o
        → (elim o [
          | none ↦ ok ([], s)
          | some (line, rest) ↦
              drain fuel rest >>= λ (lines, left). ok (strip_return line ∷ lines, left)
        ])
          ≡ ok (lines_of s)
    go ih none f = rw f refl
    go ih (some (line, rest)) f = rw (ih rest (omega (arith, f.1)), f.0) refl

-- The loop that takes complete lines off a client's buffer ends, and finds the lines that one pass over
-- the buffer finds, each without its newline and a carriage return before it; what follows the last
-- newline stays in the buffer.
pub take_lines-lines_of : (buffer : Text) → take_lines buffer ≡ ok (lines_of buffer)
unfolding take_lines
take_lines-lines_of buffer = drain-lines_of (suc (length buffer)) buffer (omega arith)

glue-NoNewline :
    (c : ℕ) (r : List Text × Text) → eqb c newline ≡ false → NoNewline r.1 → NoNewline (glue c r).1
glue-NoNewline c ([], left) e h = (e, h)
glue-NoNewline c (line ∷ lines, left) e h = h

-- What stays in the buffer has no newline.
pub left-NoNewline : (s : Text) → NoNewline (lines_of s).1
left-NoNewline [] = tt
left-NoNewline (c ∷ s) = elim (Bool-cases (eqb c newline)) [
  | inl nl ↦ rw nl (left-NoNewline s)
  | inr other ↦ rw other (glue-NoNewline c (frames s) other (left-NoNewline s))
]

-- Lines found in two parts.
abbrev join_frames : List Text × Text → Text → List Text × Text
join_frames r s = let q = frames (r.1 ++ s) in (r.0 ++ q.0, q.1)

glue-join :
    (c : ℕ) (r : List Text × Text) (s : Text)
    → eqb c newline ≡ false
    → glue c (join_frames r s) ≡ join_frames (glue c r) s
glue-join c ([], left) s e = rw e refl
glue-join c (line ∷ lines, left) s e = refl

frames-append : (r s : Text) → frames (r ++ s) ≡ join_frames (frames r) s
frames-append [] s = refl
frames-append (c ∷ r) s = elim (Bool-cases (eqb c newline)) [
  | inl nl ↦ rw (nl, frames-append r s) refl
  | inr other ↦ rw (other, frames-append r s) (glue-join c (frames r) s other)
]

strip_all-append : (ls ms : List Text) → strip_all (ls ++ ms) ≡ strip_all ls ++ strip_all ms
strip_all-append [] ms = refl
strip_all-append (l ∷ ls) ms = ap (◌∷◌ (strip_return l)) (strip_all-append ls ms)

-- How the bytes of a client are cut into reads makes no difference: the lines of the first part, then
-- those of what it leaves with the second part, are the lines of the whole, and leave the same.
pub lines_of-append :
    (r s : Text)
    → let first = lines_of r in
      let second = lines_of (first.1 ++ s) in lines_of (r ++ s) ≡ (first.0 ++ second.0, second.1)
lines_of-append r s =
    let q = frames ((frames r).1 ++ s) in
    λ i. (
      (ap (λ f. strip_all f.0) (frames-append r s) ∙ strip_all-append (frames r).0 q.0) i,
      (frames-append r s i).1,
    )

-- A line as a client sends it, with or without a carriage return before the newline.
abbrev pub ended : Bool → Text → Text
ended false line = line ++ newline ∷ []
ended true line = line ++ carriage_return ∷ newline ∷ []

-- A line that can be sent: no newline in it, and no carriage return at its end.
abbrev pub IsSendable : Text → Type 0
IsSendable line = NoNewline line × (strip_return line ≡ line)

abbrev pub send_all : List (Bool × Text) → Text
send_all [] = []
send_all ((crlf, line) ∷ ls) = ended crlf line ++ send_all ls

abbrev pub texts : List (Bool × Text) → List Text
texts [] = []
texts ((crlf, line) ∷ ls) = line ∷ texts ls

strip_return-snoc : (line : Text) → strip_return (line ++ carriage_return ∷ []) ≡ line
unfolding strip_return
strip_return-snoc [] = refl
strip_return-snoc (c ∷ []) = refl
strip_return-snoc (c ∷ d ∷ s) = ap (◌∷◌ c) (strip_return-snoc (d ∷ s))

frames-line :
    (line rest : Text)
    → NoNewline line
    → frames (line ++ newline ∷ rest) ≡ (line ∷ (frames rest).0, (frames rest).1)
frames-line [] rest h = refl
frames-line (c ∷ line) rest h = rw (h.0, frames-line line rest h.1) refl

NoNewline-frames : (s : Text) → NoNewline s → frames s ≡ ([], s)
NoNewline-frames [] h = refl
NoNewline-frames (c ∷ s) h = rw (h.0, NoNewline-frames s h.1) refl

NoNewline-snoc : (line : Text) → NoNewline line → NoNewline (line ++ carriage_return ∷ [])
NoNewline-snoc [] h = (refl, tt)
NoNewline-snoc (c ∷ line) h = (h.0, NoNewline-snoc line h.1)

lines_of-ended :
    (crlf : Bool) (line rest : Text)
    → IsSendable line
    → lines_of (ended crlf line ++ rest) ≡ (line ∷ (lines_of rest).0, (lines_of rest).1)
lines_of-ended false line rest h =
    rw (append_assoc line (newline ∷ []) rest, frames-line line rest h.0, h.1) refl
lines_of-ended true line rest h =
    let cr = line ++ carriage_return ∷ [] in
    let regroup : ended true line ++ rest ≡ cr ++ newline ∷ rest =
      append_assoc line (carriage_return ∷ newline ∷ []) rest
      ∙ sym (append_assoc line (carriage_return ∷ []) (newline ∷ rest)) in
    rw (regroup, frames-line cr rest (NoNewline-snoc line h.0), strip_return-snoc line) refl

-- Round trip: lines without newlines that do not end in a carriage return, each sent with a newline or
-- with a carriage return and a newline, and followed by an incomplete line, are found again in order;
-- the incomplete line stays in the buffer.
pub take_lines-send_all :
    (lines : List (Bool × Text)) (left : Text)
    → All (λ l. IsSendable l.1) lines
    → NoNewline left
    → take_lines (send_all lines ++ left) ≡ ok (texts lines, left)
take_lines-send_all lines left h k =
    take_lines-lines_of (send_all lines ++ left) ∙ ap ok (found lines h)
  where
    found :
        (ls : List (Bool × Text))
        → All (λ l. IsSendable l.1) ls
        → lines_of (send_all ls ++ left) ≡ (texts ls, left)
    found [] h = rw (NoNewline-frames left k) refl
    found ((crlf, line) ∷ ls) h =
        rw
          (
            append_assoc (ended crlf line) (send_all ls) left,
            lines_of-ended crlf line (send_all ls ++ left) h.0,
          )
          (λ i. (line ∷ (found ls h.1 i).0, (found ls h.1 i).1))
