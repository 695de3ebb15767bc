-- ===== src/Offsets/Examples.antt =====
-- The theorem of the table of work offsets at a concrete poll.
use lcnc_suite.Base.{◌≡◌, refl, ℕ, ◌==◌, Option, none, some, [], ◌∷◌, arith, if◌then◌else◌}
use lcnc_suite.Offsets
use lcnc_suite.Offsets.{var, other_line, File, Stat, World, poll, cell_of}
use lcnc_suite.Offsets.Polled.{IsPolled, poll-IsPolled}

-- A file with x and y of G54 and r of G55, where x stands twice
abbrev offsets : File ℕ
offsets = record {
  lines =
      other_line
      ∷ var 5221 (some 1)
      ∷ var 5222 (some 2)
      ∷ var 5210 none
      ∷ var 5250 (some 9)
      ∷ var 5221 (some 3)
      ∷ [];
  mtime = 7;
}

abbrev later_offsets : File ℕ
later_offsets = record { lines = var 5221 (some 4) ∷ []; mtime = 8 }

abbrev one_file : File ℕ → ℕ → Option (File ℕ)
one_file file path = if path == 1 then some file else none

-- G55 is active.
abbrev stat : Stat ℕ
stat = record { ini_filename = some 5; g5x_index = some 2; g5x = some (6 ∷ []); rotation_xy = none }

abbrev fresh : World ℕ
fresh = Offsets.at_start 0 (λ ini. Offsets.names 1) (one_file offsets)

abbrev polled : World ℕ
polled = poll 0 (one_file offsets) stat fresh

seeded_cells :
    polled.wcs_cache 0 0 ∷ polled.wcs_cache 0 1 ∷ polled.wcs_cache 1 0 ∷ polled.wcs_cache 1 9 ∷ []
    ≡ 3 ∷ 2 ∷ 6 ∷ 0 ∷ []
unfolding poll Offsets.at_start cell_of
seeded_cells = refl

-- The file is written between the read and its mtime, and the table keeps what was read.
abbrev raced : World ℕ
raced = poll 0 (one_file later_offsets) stat (poll 0 (one_file later_offsets) stat fresh)

raced_cell : raced.wcs_cache 0 0 ≡ 3
unfolding poll Offsets.at_start cell_of
raced_cell = refl

raced_mtime : raced.mtime ≡ some 8
unfolding poll Offsets.at_start cell_of
raced_mtime = refl

poll-IsPolled_example :
    IsPolled 0
      (one_file offsets)
      stat
      (Offsets.resolve_var_file_path 0 stat.ini_filename fresh).0
      fresh
      polled
      0
      1
poll-IsPolled_example =
    poll-IsPolled 0 (one_file offsets) stat fresh 0 1 (omega arith) (omega arith)
