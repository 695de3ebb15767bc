-- ===== src/Watchdog/Buffer.antt =====
-- How lcnc-gateway/hal_watchdog.py cuts what it reads from a client into lines: `buf` and its loop. A text
-- is the list of its code points, and the lines are those of one connection.
use lcnc_suite.Base.{
  ℕ, zero, suc, ◌==◌, Option, none, some, List, [], ◌∷◌, ◌++◌, length, if◌then◌else◌,
}

abbrev pub Text : Type 0
Text = List ℕ

abbrev pub newline : ℕ
newline = 10

-- `buf.split("\n", 1)`, or `none` where `"\n" in buf` fails
unfoldable pub split_line : Text → Option (Text × Text)
split_line [] = none
split_line (c ∷ cs) =
    if c == newline
    then some ([], cs)
    else elim (split_line cs) [ none ↦ none | some (line, buf) ↦ some (c ∷ line, buf) ]

-- The loop, on fuel: the lines, and the buffer that is left
unfoldable pub take_lines : ℕ → Text → List Text × Text
unfolding split_line
take_lines zero buf = ([], buf)
take_lines (suc n) buf = elim (split_line buf) [
  | none ↦ ([], buf)
  | some (line, rest) ↦ (line ∷ (take_lines n rest).0, (take_lines n rest).1)
]

-- One read: `buf += data.decode()`, and the loop. A pass takes a character at least.
unfoldable pub read_data : Text → Text → List Text × Text
unfolding take_lines
read_data chunk buf = take_lines (length (buf ++ chunk)) (buf ++ chunk)

-- The reads of a connection, one after another
unfoldable pub reads : List Text → Text → List Text × Text
unfolding read_data
reads [] buf = ([], buf)
reads (chunk ∷ more) buf =
    let (lines, left) = read_data chunk buf in
    let (others, end) = reads more left in (lines ++ others, end)
