-- ===== src/Bulk/Examples.antt =====
-- The theorems of the preview's publication at concrete orders of events.
use lcnc_suite.Base.{◌≡◌, refl, ℕ, true, some, List, [], ◌∷◌, ◌++◌}
use lcnc_suite.Bulk
use lcnc_suite.Bulk.Served.{Serves, steps-Serves}
use lcnc_suite.Bulk.Current.{IsCurrent, unchanged-IsCurrent}

abbrev on_disk : ℕ → Bulk.Disk
on_disk f = record { changes = 5; present = true }

abbrev next : Bulk.Move
next = Bulk.turns Bulk.fails

-- The poller finds the file 7, and its preview is published.
abbrev published : List Bulk.Move
published =
    Bulk.turns (Bulk.polls (some 7))
    ∷ next
    ∷ Bulk.turns (Bulk.goes_on true)
    ∷ Bulk.turns (Bulk.goes_on true)
    ∷ Bulk.turns (Bulk.goes_on true)
    ∷ next
    ∷ next
    ∷ next
    ∷ next
    ∷ next
    ∷ next
    ∷ next
    ∷ []

-- The file is edited while the thread reads, and published again.
abbrev while_read : List Bulk.Move
while_read = Bulk.edits 7 ∷ Bulk.reads ∷ Bulk.reads ∷ (published ++ Bulk.reads ∷ Bulk.reads ∷ [])

steps-Serves_example :
    Serves
      (Bulk.steps published (Bulk.at_start 100 on_disk)).preview.version
      (Bulk.steps while_read
        (Bulk.step (Bulk.asks true) (Bulk.steps published (Bulk.at_start 100 on_disk)))).reader
steps-Serves_example = steps-Serves 100 on_disk published while_read true

unchanged-IsCurrent_example : IsCurrent (Bulk.steps published (Bulk.at_start 100 on_disk)) 7
unfolding Bulk.steps Bulk.at_start Bulk.file_changed
unchanged-IsCurrent_example = unchanged-IsCurrent 100 on_disk published 7 refl refl refl

-- The header may name a later version than that of the bytes: they are read first.
abbrev late_header : List Bulk.Move
late_header =
    published
    ++ Bulk.asks true
      ∷ Bulk.reads
      ∷ Bulk.reads
      ∷ Bulk.reads
      ∷ Bulk.reads
      ∷ Bulk.edits 7
      ∷ (published ++ Bulk.reads ∷ [])

abbrev bytes_101 : Bulk.Payload
bytes_101 = record { file = 7; at = record { changes = 5; present = true }; stamp = 101 }

header_later :
    (Bulk.steps late_header (Bulk.at_start 100 on_disk)).reader ≡ Bulk.served (some bytes_101) 102
unfolding Bulk.steps Bulk.at_start
header_later = refl

-- A file that is unloaded while it is parsed is published afterwards.
abbrev unloaded : List Bulk.Move
unloaded =
    Bulk.turns (Bulk.polls (some 7))
    ∷ next
    ∷ Bulk.turns (Bulk.goes_on true)
    ∷ Bulk.turns Bulk.unloads
    ∷ next
    ∷ next
    ∷ next
    ∷ next
    ∷ next
    ∷ next
    ∷ Bulk.turns (Bulk.goes_on true)
    ∷ Bulk.turns (Bulk.goes_on true)
    ∷ next
    ∷ next
    ∷ next
    ∷ next
    ∷ next
    ∷ next
    ∷ next
    ∷ []

unloaded_published : (Bulk.steps unloaded (Bulk.at_start 100 on_disk)).preview.pending ≡ some 7
unfolding Bulk.steps Bulk.at_start
unloaded_published = refl
