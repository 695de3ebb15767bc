-- ===== src/Watchdog/Framed.antt =====
-- The lines of a connection of lcnc-gateway/hal_watchdog.py are those of the stream, however it is read.
use lcnc_suite.Base.{◌≡◌, ℕ, ◌==◌, Bool, false, ◌||◌, List, [], ◌∷◌, ◌++◌, All}
use lcnc_suite.Watchdog.Buffer.{Text}

-- The code point of "\n"
abbrev pub line_feed : ℕ
line_feed = 10

abbrev pub has_newline : Text → Bool
has_newline [] = false
has_newline (c ∷ cs) = c == line_feed || has_newline cs

-- Lines, each with its newline
abbrev pub unlines : List Text → Text
unlines [] = []
unlines (l ∷ ls) = l ++ line_feed ∷ unlines ls

abbrev pub concat : List Text → Text
concat [] = []
concat (d ∷ ds) = d ++ concat ds

-- Lines and a rest that a stream falls into
pub record IsFramed (stream : Text) (r : List Text × Text) : Type 0 where
  pub joined : unlines r.0 ++ r.1 ≡ stream
  pub cut : All (λ l. has_newline l ≡ false) r.0
  pub ended : has_newline r.1 ≡ false
