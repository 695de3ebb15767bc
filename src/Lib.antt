-- ===== src/Lib.antt =====
-- Verification of lcnc-suite: the safety core of the gateway between browsers and LinuxCNC.
--
-- The program. Browsers send commands over a websocket to lcnc-gateway/gateway.py, which checks each
-- against a policy of the machine's state (lcnc-gateway/command_policy.py) and its own guards, and
-- sends calls to LinuxCNC. The gateway also beats a heartbeat to lcnc-gateway/hal_watchdog.py, a
-- process of its own, which drives the HAL pins that keep the machine enabled; and it reads the HAL
-- latch of a trip back, whose level lcnc-gateway/gateway_util.py turns into a banner.
--
-- The files.
--   Base: the names that all modules share, Boolean tests, native lists and integers.
--   Value: a decoded JSON message, Python's floats as exact multiples of 2^-1074, and finite_float
--     and finite_int of lcnc-gateway/gateway_util.py.
--   Policy: MachineState, the gates with their requirements, evaluate_permissions, COMMAND_GATES and
--     check_command of lcnc-gateway/command_policy.py; policy_state_from_payload of
--     lcnc-gateway/status_runtime.py.
--   Files: validate_extension and validate_path_within of lcnc-gateway/gateway_util.py.
--   Gateway: handle_command of lcnc-gateway/gateway.py. Machine has what LinuxCNC shows and takes,
--     World the gateway's state and the monad of a handler (a state that survives an exception),
--     Guards the helpers _cmd_blocking, set_mode and reject_if_auto_running; Jog, Power, Program,
--     Spindle, Wcs, Tools (with the metadata in Library) and Vars have one function per branch of
--     _handle_command_impl, under the name of its command; Dispatch puts them together. Frame has the
--     rules for what a handler leaves alone, Safety what holds of all commands, Handlers what holds of
--     single ones.
--   RunFromLine in Gateway: _rfl_sequence, _rfl_mdi_step and _rfl_wait_interp_idle of
--     lcnc-gateway/gateway.py, as a task over the world of the commands.
--   Sessions: who is armed, from the branches of ws_endpoint in lcnc-gateway/gateway.py for hello, arm,
--     safety_trip_ack and heartbeat, its check of a stalled heartbeat, and its end; and the holds by which
--     a session resumes.
--   Trip: evaluate_trip_latch of lcnc-gateway/gateway_util.py.
--   Watchdog: the main loop of lcnc-gateway/hal_watchdog.py; one `round` is one pass of the loop.
--     Buffer in it cuts what is read into lines.
--   Stores: SettingsStore of lcnc-gateway/settings_store.py and ToolLibraryStore of
--     lcnc-gateway/tool_store.py, over a file that may be missing, unreadable or broken.
--   Fanout: diff_status_data of lcnc-gateway/ws_fanout.py, its use in the status loop of
--     lcnc-gateway/gateway.py, and the merge of a client in lcnc-webui/src/lcncWs.ts.
--   Compensation: the loop of subroutines/surfacemap/compensation.py, one `step` per tick.
--   Heartbeat: _heartbeat_loop and _disconnect_grace of lcnc-gateway/gateway.py, and what a client that
--     leaves, stops or resets sends beside them; one `step` is a turn of the event loop.
--   Timer: update_program_timer of lcnc-gateway/status_runtime.py, one poll at a time.
--   Offsets: the table of work offsets of lcnc-gateway/status_runtime.py, from the parameter file and STAT,
--     one poll at a time.
--   Link: Heartbeat and Watchdog together, over watchdog_send of lcnc-gateway/hal_bridge.py; one `step`
--     is a turn of the gateway, another message, or a round that reads some lines.
--   Preview: _rdp_keep of lcnc-gateway/gcode_parse_worker.py and its use on the feed; Spans is its inner
--     loop, Pairs the outer one.
--   Bulk: the preview in lcnc-gateway/bulk_pipeline.py, with what starts and clears it and the route
--     get_preview in lcnc-gateway/gateway.py. The event loop makes one assignment per `turn`, and a thread
--     reads one field at a time.
--   Requests: reader_request and reader_recv_loop of lcnc-gateway/hal_bridge.py with _handle_request of
--     lcnc-gateway/hal_reader.py; one `step` is a request, a line that a side takes, a timeout, or a
--     change of the connection.
--   Telemetry: parse_telemetry_batch of lcnc-gateway/gateway_util.py.
--   Camera: the viewers, the task and the device of lcnc-gateway/camera_broker.py; one `step` is what
--     happens between two points where a coroutine waits.
--
-- What comes from outside. LinuxCNC is not part of the repository: the readings of STAT.poll and the
-- outcomes of the calls (0, another code, or an exception) are lists in the world, which the theorems
-- leave arbitrary. Python's conversions of ints and texts to floats, its path functions, the printed
-- form of a number and the INI's paths are fields of the record Environment. What json writes and reads
-- is a parameter of the stores, and the equality of values one of the fan-out; arithmetic of floats and
-- the results of numpy are parameters of the compensation, of the run from line, of the preview and of
-- the timer (IsClock in Timer/Clock). The lines that a printed remark or parameter is read as are
-- parameters too (IsReader in Gateway/Handlers/Plain, HasPlainKeys in Gateway/Handlers/VarJoin). The
-- mtime of the file of the preview grows with every change of it (Disk in Bulk). What
-- becomes of a message to the watchdog, and what a worker makes of a file, are events; what the module hal
-- writes and dumps is a parameter of the requests.
--
-- Bounds. Every loop of the modelled code is structural on its list but for the stack of _rdp_keep, whose
-- fuel is twice the length of its span: a span takes fewer passes than that; and for the loop that cuts
-- lines in the watchdog, whose fuel is the length of its text: a pass takes a character. The wait of a run from
-- line goes over the times that the clock will show, and is not over when they are used up. The times
-- of the watchdog are counts of one clock, and a round has two of them: at its head and after select.
--
-- Not modelled: the other messages of the websocket, the status loop but for its choice of frames, the
-- surface points and the grid of the bulk pipeline, the discovery of paths, the canon of the preview,
-- the snapshots of the HAL reader, the HTTP routes but for get_preview, and the frontend but for its merge of
-- differences. The lock that serialises commands is not modelled: one command runs at a time. Traces
-- and diagnostics are left out.
pub mod Base
pub mod Value
pub mod Policy
pub mod Preview
pub mod Requests
pub mod Link
pub mod Offsets
pub mod Bulk
pub mod Files
pub mod Gateway
pub mod Sessions
pub mod Trip
pub mod Watchdog
pub mod Stores
pub mod Fanout
pub mod Compensation
pub mod Timer
pub mod Telemetry
pub mod Camera
pub mod Heartbeat
