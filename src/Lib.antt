-- ===== src/Lib.antt =====
-- KFMon, the inotify-based launcher of kfmon.c (with kfmon.h), and its command line client
-- utils/kfmon-ipc.c.
--
-- The daemon loads its configuration, then repeats one iteration for ever: it waits for the target
-- mountpoint, brings the watches up to date with the configuration directory, asks inotify to watch
-- their files, and serves inotify events and clients until a watch is destroyed. An event on a watch,
-- or a client's request for it, launches the watch's action as a child process; a reaper thread waits
-- for each child and releases its entry of the process table.
--
-- Prelude: names that all modules share. Arrays are lists measured by native numbers (Prelude/Lists),
-- C strings lists of bytes without the final NUL, with strcmp, strcasecmp and the like on them
-- (Prelude/CText); a call of the daemon returns or ends the process, by exit or a crash (Outcome,
-- Prelude/Exit). A descriptor, pid or index that is -1 in the code is `none`.
--
-- Config: struct WatchConfig and struct DaemonConfig (Config), strtobool and strtoul_hu (Config/Value),
-- daemon_handler and watch_handler (Config/Handlers), validate_watch_config (Config/Validate),
-- validate_and_merge_watch_config (Config/Merge), load_config (Config/Load), update_watch_configs
-- (Config/Update). Config/WellFormed says what holds of the watch array between two calls. inih's
-- ini_parse and str5cpy are parameters (Config/Library): ini_parse calls the handler for some pairs of
-- keys and values in turn, str5cpy copies what fits, and truncates or refuses the rest as it is told.
-- The walk of the directory (fts) is a list of entries.
--
-- Process: struct process_table and its functions (Process/Table), spawn as one call of the main thread
-- (Process/Spawn), and the main thread and its reaper threads as interleaved steps, one for each hold
-- of ptlock or between two of them (Process/System). Its abstract view is the map from watches to pids
-- (Process/Refine), or the table without the order of its entries (Process/Unordered).
--
-- Processed: is_target_processed with its thumbnail checks, qhash and path munging included, and its
-- wait for the rollback journal, and once more call by call (Processed/Session), against the protocol
-- that SQLite wants of its clients (Processed/Session/Protocol). What SQLite and access answer is a
-- record. A row with a NULL title, which the code passes to strcmp, ends the daemon: crashes and
-- answer_of (Processed) and the call by call model say when.
--
-- Events: handle_events, with inotify's events and what the system answers to each as arguments. on_open
-- and on_close are what is done when is_target_processed returns; handle_event ends the process when it
-- crashes.
--
-- Ipc: handle_ipc (Ipc, with the commands and sscanf in Ipc/Commands) and handle_connection with its
-- polling loop (Ipc/Connection). What read, send, poll and accept give are arguments.
--
-- Mount: is_target_mounted and wait_for_target_mountpoint. MainLoop: main from load_config on, composed
-- of the operations above; the entries that reapers release in between are arguments.
--
-- Daemonize: daemonize, the switch to syslog and the child's side of spawn, over the table of open
-- descriptors (Descriptors). What fork, open and the others return are arguments.
--
-- AtomicIo: the reading and writing helpers of openssh/atomicio.c, rewritten in this repository.
-- SockUtils: utils/sock_utils.c. Firmware: fw_version_check, with strverscmp as a parameter.
--
-- Client: handle_stdin, handle_reply and the polling loop of utils/kfmon-ipc.c.
--
-- Loops over what the system delivers (reads, polls, directory entries, iterations of the main loop)
-- are recursion on the list of what is delivered. The end of a list of reads or entries is the answer
-- that ends the loop in the code; the end of a list of polls is a state of its own, in which the
-- process waits, never a result. The wait for the rollback journal is on fuel: 20, which is the code's
-- own limit of sleeps, so that the fuel runs out only when the code gives up. The write past
-- new_watch_list in update_watch_configs is a result of its own (overrun), as is that past the
-- client's buffer. Machine integers: strtoul is held to 32 bits (the long of the devices), qhash is
-- modulo 2^32, %hhu modulo 2^8; the other counters of the code stay below WATCH_MAX, 20 or 6, far from
-- their width.
--
-- Not modelled: logging and messages on the screen (FBInk), which decide nothing of the above; libraries
-- that are only called (inih, SQLite, FBInk, str5); get_process_name, get_user_name and get_group_name,
-- whose names are only logged; utils/shim.c, one call of execv; scripts and packaging.
pub mod Prelude
pub mod Config
pub mod Process
pub mod Processed
pub mod Events
pub mod Ipc
pub mod Mount
pub mod MainLoop
pub mod Client
pub mod Descriptors
pub mod Daemonize
pub mod AtomicIo
pub mod SockUtils
pub mod Firmware
