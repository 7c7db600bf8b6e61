-- ===== src/Egress/Output.antt =====
-- `LineBuffer` and `onStderrLine` of apps/server/src/egress/ffmpeg/ffmpeg-process.ts: the lines of a
-- process's output, and the last of them that are kept. Text is a list of code units.
use zvonok.Prelude.{
  ℕ, zero, suc, Bool, ◌||◌, Option, none, some, List, [], ◌∷◌, ◌++◌, ◌==◌, if◌then◌else◌, length,
}

abbrev pub line_feed : ℕ
line_feed = 10

abbrev pub carriage_return : ℕ
carriage_return = 13

unfoldable pub is_separator : ℕ → Bool
is_separator c = c == line_feed || c == carriage_return

-- What follows a separator: a line feed after a carriage return belongs to it.
unfoldable pub after_separator : ℕ → List ℕ → List ℕ
after_separator c [] = []
after_separator c (d ∷ cs) =
    if c == carriage_return then (if d == line_feed then cs else d ∷ cs) else d ∷ cs

abbrev pub extend : ℕ → Option (List ℕ × List ℕ) → Option (List ℕ × List ℕ)
extend c none = none
extend c (some (line, rest)) = some (c ∷ line, rest)

-- The text before the first separator, and the text after it.
unfoldable pub cut : List ℕ → Option (List ℕ × List ℕ)
cut [] = none
cut (c ∷ cs) =
    let found = extend c (cut cs) in
    if is_separator c then some ([], after_separator c cs) else found

unfoldable pub drain : ℕ → List ℕ → List (List ℕ) × List ℕ
drain zero t = ([], t)
drain (suc n) t = elim (cut t) [
  | none ↦ ([], t)
  | some (line, rest) ↦ let (lines, pending) = drain n rest in (line ∷ lines, pending)
]

-- `lines` are the calls of `onLine`.
pub record LineBuffer : Type 0 where
  pub pending : List ℕ
  pub lines : List (List ℕ)

unfoldable pub push : List ℕ → LineBuffer → LineBuffer
push chunk s =
    let text = s.pending ++ chunk in
    let (lines, pending) = drain (length text) text in
    record { pending = pending; lines = s.lines ++ lines }

unfoldable pub flush : LineBuffer → LineBuffer
flush s = elim s.pending [
  | [] ↦ s
  | c ∷ cs ↦ record { pending = []; lines = s.lines ++ (c ∷ cs) ∷ [] }
]

abbrev pub stderr_tail_limit : ℕ
stderr_tail_limit = 20

unfoldable pub shift : List (List ℕ) → List (List ℕ)
shift [] = []
shift (x ∷ xs) = xs

-- The event for the line is left out.
unfoldable pub on_stderr_line : List ℕ → List (List ℕ) → List (List ℕ)
on_stderr_line line tail =
    (if length tail == stderr_tail_limit then shift tail else tail) ++ line ∷ []

-- The lines of a process, one after the other.
unfoldable pub on_stderr_lines : List (List ℕ) → List (List ℕ) → List (List ℕ)
on_stderr_lines [] tail = tail
on_stderr_lines (line ∷ lines) tail = on_stderr_lines lines (on_stderr_line line tail)
