-- ===== src/Lib.antt =====
-- A verification library of waywallen, a wallpaper daemon in Rust: renderers draw into shared buffers,
-- the daemon links each renderer to displays, hands frames out and takes their releases back, and
-- chooses what to show next. Paths are from the repository's root.
--
-- - Routing/Table: src/routing/table.rs (RoutingTable). Which renderer draws on which display: a store
--   of links with an index for each side. One function for each method, loops as helpers.
-- - Routing/Autopause: src/routing/autopause.rs, and update_display_window_state and
--   update_session_state of src/routing/router.rs with the resume tasks they spawn. The tasks that
--   sleep are a list of generations, which wake up in any order.
-- - Scheduler: src/scheduler.rs. Displays are registered, the pool of buffers that is shown is set, and
--   frames are begun and released. It is a component by itself: the router keeps displays of its own,
--   and takes only the types DisplayInfo and ProjectedConfig from this file.
-- - Routing/Router: src/routing/router.rs (Router). The displays, each with the messages sent to it,
--   and the renderers' objects beside the table. Project: what a display is told of a link. Sync:
--   sync_display. Pause: reconcile_lifecycle. Formats: reconcile_buffer_flags. Renderers, Displays and
--   Events: the handlers. Runs: the sections under the lock as a step relation, whose sequences are
--   the interleavings of the handlers; Calls: each handler by itself as such a sequence. A handler as
--   a function is its sections one after another, with no other between them.
-- - Display/Layout: src/display/layout.rs, with the operations on floats as a parameter.
-- - Wire: src/display/proto/codec.rs and src/ipc/uds.rs, whose framing is the same. The generated
--   messages and the kernel are parameters; a stream socket is one that delivers some of the bytes
--   in flight. Four rounds of the header's loop are enough, as each delivers a byte.
-- - Wallpaper: src/wallpaper/sort.rs. The order of texts is a parameter; `sort_by` is a stable sort.
-- - Plugin/Registry: src/plugin/renderer_registry.rs (RendererRegistry), register and resolve.
-- - Settings: the resolution of src/settings.rs, and the overrides of src/wallpaper/properties.rs.
-- - Queue: src/queue/state.rs. Mode and the shuffle round; the modes are those of Playlist too.
-- - Playlist/Cursor: src/playlist/cursor.rs. The position in a playlist, in its three modes.
-- - Tasks: src/tasks.rs. The records of background tasks, cancellation, and the end of tasks. Each
--   method is a function; Tasks/Sections has its sections under the locks as steps, with a counter for
--   the thread of each task.
-- - Dma/Negotiate: src/dma/negotiate.rs. The buffer format of a renderer and a display.
-- - Base: tests, lists on native numbers, finite maps, sorting, machine words, the Fisher-Yates loop.
--
-- State is a record and is passed explicitly. A HashMap is an association list, read through its
-- lookup laws; where the code walks over one (TaskManager::list, the loops over renderers and
-- displays), the order is that of the list. u64 counters wrap at 2^64; a theorem on runs bounds
-- the number of operations below that. A float is its bit pattern. Loops recurse on lists or on
-- the index they count down; the header's loop of Wire alone has fuel. A panic is the outer `none`
-- of an answer.
--
-- Not modelled: sockets, processes, the database, D-Bus, file access and the async runtime; of the
-- router the snapshots, the editing of settings and the orderly stop; the sync reaper, hotkeys,
-- filters, the plugins' settings and sources.

mod Base
pub mod Display
pub mod Wire
pub mod Plugin
pub mod Wallpaper
pub mod Settings
pub mod Routing
pub mod Scheduler
pub mod Queue
pub mod Playlist
pub mod Tasks
pub mod Dma
