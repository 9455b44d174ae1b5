-- ===== src/Lib.antt =====
-- Verification of AFD, a multi-protocol download manager in Go.
--
-- The program takes download tasks, keeps them in a queue with a limit on the tasks that run at the same
-- time, and hands each running task to a downloader, which cuts the file into pieces and the pieces into
-- blocks, and lets several workers fetch blocks. Bitfields say which blocks are done and are saved so that a
-- download can go on after a restart. A cluster of nodes may share the tasks.
--
-- Which file models what (paths from the root of the repository):
-- - Prelude: names of the libraries, integers over the native numbers, maps as association lists, bits of
--   a byte, and loops that search, count and add up.
-- - Task/Model: internal/task/model.go. `Task` is the struct, without its mutex; each method is one
--   function (`set_status` is SetStatus, `cancel_task` is Cancel). Clock readings are arguments.
-- - Task/Heap: priorityQueue of internal/task/queue.go with the algorithm of container/heap: `less`,
--   `swap`, `push_back` and `pop_back` are the methods of the type, `up`, `down`, `push`, `pop` and
--   `remove` those of the Go library. Content, Index, Order and Priority hold its laws.
-- - Task/Queue: `TaskQueue` of internal/task/queue.go: `add` is Add, `remove_task` Remove, `pause` Pause,
--   `resume` Resume, `try_start_next` tryStartNext, `complete_task` CompleteTask, `fail_task` FailTask,
--   `purge_stopped` PurgeStopped, and Task/Queue/Position ChangePosition. Tasks are shared by pointers:
--   the state has a store of tasks, and the map and the heap hold references into it. Callbacks and
--   cancel functions that run are entries of a log. Task/Queue/Invariant says what holds between two
--   calls (Exact: of which tasks the entries are), Task/Queue/Slots how the limit is kept, Task/Queue/Failure
--   what internal/downloader/manager.go makes of a failed download.
-- - Downloader/Bitfield: `BitfieldMan` of internal/downloader/chunk.go, on lists of bytes.
-- - Downloader/Piece: `Piece` of the same file: the hand-out, the completion and the stealing of blocks.
-- - Downloader/Split: SplitFileIntoPieces, with the checks of DownloadConfig.Validate in
--   pkg/config/config.go that it relies on.
-- - Downloader/PieceManager: `PieceManager`: the choice of a piece, stealing, progress, and the saved
--   bitfields with PieceBitfieldEntry of internal/task/controlfile.go.
-- - Downloader/Worker: the read loops of internal/downloader/downloader.go: `read_loop` is the loop over one
--   response in downloadPieceOnceFromURL, `range_loop` that of downloadRangeOnceFromURL. What the network,
--   the file and the clock do is a list of reads. Written says which marks are honest, Release which blocks
--   stay taken, and Stolen which blocks a stolen range marks.
-- - Downloader/Requests: the requests around that loop: `fetch_piece` is downloadPieceOnceFromURL, and Honest
--   says that the marks of a whole attempt are honest.
-- - Downloader/Retry: internal/downloader/retry.go (`is_retryable_error`, `is_permanent_error`,
--   `do_with_retry`) and the attempts of downloadPiece (`download_piece`).
-- - Downloader/Limiter: internal/downloader/ratelimit.go: `refill`, `allow`, `wait`, `set_rate` and the
--   schedule (`check_schedule`).
-- - Downloader/Netrc, Adaptive and ServerStat: internal/downloader/netrc.go, adaptive.go and serverstat.go:
--   `load_netrc` is LoadNetrc, `fields` strings.Fields, `should_adjust` shouldAdjust, `record_speed` RecordSpeed.
-- - Cluster/Node, Membership, Scheduler, Failover and Sync: internal/cluster/node.go, membership.go,
--   scheduler.go, failover.go and sync.go: `check_timeouts` is CheckTimeouts, `select_node` selectNode,
--   `rebalance` Rebalance, `handle_node_failure` handleNodeFailure, `merge_state` MergeState. Channels and
--   timers that are set are lists in the state, and the scheduler's map holds its tasks themselves.
-- - Traversal/Relay and Traversal/Stun: internal/nat/relay.go (the messages and the handlers of the server)
--   and internal/nat/stun.go (the parsers of responses).
-- - Api/Middleware: internal/api/middleware.go and the chains of internal/api/server.go. A handler takes the
--   request, the writer and the state of the server, and may panic. Window is about the rate limiter, Gate
--   about what reaches a handler.
-- - Config: the Validate methods of pkg/config/config.go.
-- - Tests: runs at concrete inputs.
--
-- Conventions. A method that holds one lock from its first line to its last is one function from the
-- state to the state. A method of the queue that locks twice is run with no other call in between. A
-- Go int is an integer where it may be negative and a natural number otherwise; sizes and offsets are
-- bounded by a file's size and are not wrapped around. An error is a value next to the state, and a
-- run-time panic is `none`.
--
-- Fuel. The loops of the heap, of tryStartNext and of ChangePosition run on a number of rounds: the
-- length of the heap is enough, since each round moves an index towards an end or takes an entry out.
-- The loop that cuts a file runs once for each piece, and the search for another node once for each node.
-- The STUN parsers run a round for each byte of the packet, and each round passes at least four. The read
-- loops, Wait and the attempts run over the list of what happens, or count the retries down.
--
-- Parameters. math/rand is the function that says what is drawn, encoding/base64 a pair of functions. What
-- the code asks of an error, of the packages net and strings, and of the resolver of addresses are fields
-- of a record or arguments. The floats of the rate limiter are taken as exact and truncated as Go does.
--
-- Not modelled: the HTTP client, the transfers over FTP, SFTP, S3, WebDAV and BitTorrent, and the pool of
-- workers; the handlers of the API; the RPC and the discovery of the cluster; hole punching and
-- signaling; plugins, files and locks on disk, logging and the command line, which are input and output
-- for the most part; ProgressPercent and GenerateID of the task model, a float and random bytes; the two
-- halves of a method that locks twice with another call between them.
pub mod Prelude
pub mod Cluster
pub mod Downloader
pub mod Task
pub mod Tests
pub mod Traversal
pub mod Api
pub mod Config
