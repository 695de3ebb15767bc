-- ===== src/Bulk.antt =====
-- The preview of lcnc-gateway/bulk_pipeline.py: its publication by the event loop, the poller and the
-- connections of lcnc-gateway/gateway.py that start and clear it, and get_preview, which reads it in a
-- thread of its own. Paths are numbers, since only their equality is used.
use lcnc_suite.Base.{
  ℕ, zero, suc, ◌+◌, ◌==◌, Bool, true, false, not, ◌&&◌, ◌||◌, Option, none, some, List, [], ◌∷◌,
  if◌then◌else◌, is_some,
}
mod Fresh
mod Served
mod Made
mod Current
mod Examples

-- A file on disk: its mtime grows with every change, also while it is away.
pub record Disk : Type 0 where
  pub changes : ℕ
  pub present : Bool

-- What the worker made of a file as it was at `at`. `stamp` is the version that it is published under,
-- which the code does not keep with the bytes.
pub record Payload : Type 0 where
  pub file : ℕ
  pub at : Disk
  pub stamp : ℕ

pub record Preview : Type 0 where
  pub pending : Option ℕ
  pub raw : Option Payload
  pub packed : Option Payload
  pub version : ℕ
  pub last_file : Option ℕ
  pub last_mtime : Option ℕ
  pub running : Bool

-- An assignment to a field
pub data Assign : Type 0 where
  set_pending : Option ℕ → Assign
  set_raw set_packed : Option Payload → Assign
  bump : Assign
  set_last_file set_last_mtime : Option ℕ → Assign
  set_running : Bool → Assign

unfoldable pub assign : Assign → Preview → Preview
assign (set_pending x) p = record p { pending = x }
assign (set_raw x) p = record p { raw = x }
assign (set_packed x) p = record p { packed = x }
assign bump p = record p { version = p.version + 1 }
assign (set_last_file x) p = record p { last_file = x }
assign (set_last_mtime x) p = record p { last_mtime = x }
assign (set_running x) p = record p { running = x }

-- The end of `refresh_gcode_preview`: the assignments after the last wait, and the `finally` block.
-- `large` is whether the output has 4096 bytes.
unfoldable pub publish : Bool → ℕ → Option ℕ → Disk → ℕ → List Assign
publish large file mtime at version =
    let out : Payload = record { file = file; at = at; stamp = version + 1 } in
    set_pending (some file)
    ∷ set_raw (if large then none else some out)
    ∷ set_packed (if large then some out else none)
    ∷ bump
    ∷ set_last_file (some file)
    ∷ set_last_mtime mtime
    ∷ set_running false
    ∷ []

-- `clear_preview`, which the poller and `unload_file` have written out
unfoldable pub clear : List Assign
clear =
    set_pending none
    ∷ set_raw none
    ∷ set_packed none
    ∷ bump
    ∷ set_last_file none
    ∷ set_last_mtime none
    ∷ []

-- Where `refresh_gcode_preview` waits
pub data Job : Type 0 where
  idle : Job
  scheduled : (file : ℕ) → Job
  spawned : (file : ℕ) (mtime : Option ℕ) → Job
  parsed : (file : ℕ) (mtime : Option ℕ) (at : Disk) → Job

-- Where the thread of `get_preview` stands. `accepts` is whether the client accepts gzip.
pub data Reader : Type 0 where
  away : Reader
  at_raw at_packed at_choice : (accepts : Bool) → Reader
  take_packed test_raw take_raw take_unpacked : Reader
  at_header : (body : Option Payload) → Reader
  served : (body : Option Payload) (version : ℕ) → Reader
  not_found failed : Reader

-- One read of a shared field. The body of a response may be `None`; decompressing `None` fails.
unfoldable pub read : Preview → Reader → Reader
read p (at_raw accepts) = if is_some p.raw then at_choice accepts else at_packed accepts
read p (at_packed accepts) = if is_some p.packed then at_choice accepts else not_found
read p (at_choice accepts) = if accepts && is_some p.packed then take_packed else test_raw
read p take_packed = at_header p.packed
read p test_raw = if is_some p.raw then take_raw else take_unpacked
read p take_raw = at_header p.raw
read p take_unpacked = if is_some p.packed then at_header p.packed else failed
read p (at_header body) = served body p.version
read p r = r

-- `todo` are the assignments that the event loop makes before its next wait.
pub record World : Type 0 where
  pub preview : Preview
  pub todo : List Assign
  pub job : Job
  pub disk : ℕ → Disk
  pub reader : Reader

abbrev pub mtime_of : Disk → Option ℕ
mtime_of d = if d.present then some d.changes else none

abbrev pub differs : Option ℕ → Option ℕ → Bool
differs none none = false
differs (some a) (some b) = not (a == b)
differs _ _ = true

-- `_cur_mtime` of a poll: a file that is away counts as unchanged.
abbrev pub current_mtime : Disk → Option ℕ → Option ℕ
current_mtime d last = if d.present then some d.changes else last

-- `file_changed` of a poll that finds a file
unfoldable pub file_changed : ℕ → World → Bool
file_changed file w =
    differs (some file) w.preview.last_file
    || differs (current_mtime (w.disk file) w.preview.last_mtime) w.preview.last_mtime

unfoldable pub start_refresh : ℕ → World → World
start_refresh file w =
    if w.preview.running then w else record w { todo = set_running true ∷ []; job = scheduled file }

-- A poll, with the file that LinuxCNC has open
unfoldable pub poll : Option ℕ → World → World
unfolding file_changed start_refresh clear
poll (some file) w = if file_changed file w then start_refresh file w else w
poll none w = if is_some w.preview.last_file then record w { todo = clear } else w

-- A connection, with the file that is open
unfoldable pub connect : ℕ → World → World
unfolding start_refresh
connect file w =
    let hit =
      not (differs (some file) w.preview.pending)
      && (is_some w.preview.raw || is_some w.preview.packed) in
    if hit then w else start_refresh file w

-- The next part of the refresh: the mtime is read, the worker reads the file, the result is published.
unfoldable pub refresh : Bool → World → Job → World
unfolding publish
refresh large w idle = w
refresh large w (scheduled file) = record w { job = spawned file (mtime_of (w.disk file)) }
refresh large w (spawned file mtime) = record w { job = parsed file mtime (w.disk file) }
refresh large w (parsed file mtime at) = record w {
  todo = publish large file mtime at w.preview.version;
  job = idle;
}

-- Any return before the publication, and any exception
unfoldable pub give_up : World → Job → World
give_up w idle = w
give_up w _ = record w { todo = set_running false ∷ []; job = idle }

pub data Event : Type 0 where
  polls : Option ℕ → Event
  connects : ℕ → Event
  unloads fails : Event
  goes_on : (large : Bool) → Event

unfoldable pub on_event : Event → World → World
unfolding poll connect clear refresh give_up
on_event (polls active) w = poll active w
on_event (connects file) w = connect file w
on_event unloads w = record w { todo = clear }
on_event fails w = give_up w w.job
on_event (goes_on large) w = refresh large w w.job

-- The event loop makes its next assignment, or else takes the event.
unfoldable pub turn : Event → World → List Assign → World
unfolding on_event assign
turn e w [] = on_event e w
turn e w (a ∷ rest) = record w { preview = assign a w.preview; todo = rest }

abbrev pub put_disk : ℕ → Disk → (ℕ → Disk) → ℕ → Disk
put_disk file d disk f = if f == file then d else disk f

-- What happens next: a turn of the event loop, a change of a file, a read or a request of the thread.
pub data Move : Type 0 where
  turns : Event → Move
  edits deletes : (file : ℕ) → Move
  reads : Move
  asks : (accepts : Bool) → Move

unfoldable pub step : Move → World → World
unfolding turn read
step (turns e) w = turn e w w.todo
step (edits f) w = record w {
  disk = put_disk f (record { changes = (w.disk f).changes + 1; present = true }) w.disk;
}
step (deletes f) w = record w {
  disk = put_disk f (record { changes = (w.disk f).changes; present = false }) w.disk;
}
step reads w = record w { reader = read w.preview w.reader }
step (asks accepts) w = record w { reader = at_raw accepts }

unfoldable pub steps : List Move → World → World
unfolding step
steps [] w = w
steps (m ∷ ms) w = steps ms (step m w)

-- A new gateway; versions begin at the time of its start.
unfoldable pub at_start : ℕ → (ℕ → Disk) → World
at_start time disk = record {
  preview = record {
    pending = none;
    raw = none;
    packed = none;
    version = time;
    last_file = none;
    last_mtime = none;
    running = false;
  };
  todo = [];
  job = idle;
  disk = disk;
  reader = away;
}
