-- ===== src/Lib.antt =====
-- h2-server, an HTTP/2 file server (src/*.cc, src/*.h). The acceptor thread (src/server.cc) accepts
-- TCP connections, a load balancer (src/server.h) chooses a worker for each, and the socket goes
-- through a lock-free ring (src/circular_queue.h) to that worker's thread (src/worker.cc), which an
-- eventfd wakes. The worker runs TLS with ALPN (src/ssl_ctx.cc) and nghttp2; the callbacks in
-- src/session.cc route each request (src/router.cc) to a handler (src/handler.cc), which serves files
-- out of a cache of mapped files (src/file_cache.cc) in DATA frames, or stores uploads
-- (src/multipart_parser.cc).
--
-- Which file models which part:
-- - CircularQueue: `CircularQueue<T>` of src/circular_queue.h, a record with the indices as numbers and
--   their wrap-around written out. The children hold the rounding of the size (Capacity), the abstract
--   bounded list (Fifo) with the refinement (Refine), the quotient by the contents (Abstract), and the
--   interleaving of `push` with `Worker::dequeue_sock`, one shared access a turn (Threads).
-- - Notify: `Worker::enqueue_sock`, `Worker::startup`, the signal branch of `Worker::run` and the loop
--   of `Worker::handle_new_connections` (src/worker.cc), as turns on the queue, on `pending_notify`
--   and on the eventfd's counter.
-- - LoadBalancer: `LoadBalancer` of src/server.h, and in LoadBalancer/Accept `Server::handle_accept` of
--   src/server.cc, on the rings of CircularQueue.
-- - Router: `RouterNode` and `Router` (src/router.h, src/router.cc), a tree as two data types and a list
--   of children. Router/Segments is `split_path_segments`; Router/Table is the table of routes that the
--   tree stands for, and Router/Print the printing of it.
-- - Main: the routes that src/main.cc registers.
-- - Options: `ConfigOption` (src/config_opt.h, src/config_opt.cc), from what `getopt_long` returns.
-- - Serve: `main` (src/main.cc) and `listen_and_serve` (src/server.cc) with `startup`, around
--   `handle_accept`.
-- - FileCache: `MappedFile`, the cache and `downloader` (src/file_cache.cc, src/handler.cc).
-- - Connection: the buffers of a connection, the loops of src/worker.cc that fill, feed and flush them,
--   and the events that epoll watches.
-- - Events: the handlers of src/worker.cc for an event on a client's socket and for a new socket, on the
--   map of the sessions and what `epoll_ctl` has been asked to watch. Events/Handshake is the TLS handshake and the dispatch
--   of `Worker::run`; Events/Arrivals is the loop over the queued sockets, Events/Runs is
--   any run of events, and Events/Flow follows the bytes of each connection.
-- - System: the acceptor (src/server.cc), the queues and the workers (src/worker.cc) as one state, whose
--   steps are rounds of one thread, in any order.
-- - Epoll: `set_event` of src/worker.cc and src/server.cc and `startup` of src/server.cc, over an interface
--   for `epoll_ctl`.
-- - Lifetime: functions that make or end an object of the kernel, OpenSSL or nghttp2, as logs of the
--   calls on these objects. Lifetime/Contexts is `create_ssl_ctx` (src/ssl_ctx.cc), Lifetime/Connections
--   a connection from `SessionData`'s constructor to its destructor, Lifetime/Files the mapped files of a
--   thread.
-- - Multipart: `MultipartFormParser` of src/multipart_parser.cc; its effects on files are a list, and
--   Multipart/Disk is an interface for a file system that they act on.
-- - Handler: the handlers of src/handler.cc on a request.
-- - Session: the streams of a connection and the callbacks of src/session.cc. Session/Run is their runs
--   and the map of open streams that a session stands for; Session/Requests, Session/Uploads and
--   Session/Downloads are the callbacks of one whole request, Session/Unfinished is
--   the end of a session.
-- - FileStream: `FileContext` and the two read callbacks (src/file_cache.h, src/session.cc).
-- - Alpn: `select_next_proto`, `alpn_select_proto_cb` and `is_alpn_h2_selected` (src/ssl_ctx.cc).
-- - Prelude: shared names, tests on numbers, lists, texts and bits.
--
-- A text is the list of its bytes. A call that may change an object returns the new object. Undefined
-- behaviour of the source (an index out of range, a division by zero, a failed assertion) is `none`,
-- or the state `aborted` of the consumer. Atomic accesses are sequentially consistent: each shared
-- variable has one writer but for `pending_notify`, which is changed by exchanges and by one store.
--
-- Accepted sockets are descriptors that are not open, as the kernel gives them. A connection's bytes are
-- logged with the worker, for the theorems only.
--
-- Fuel: `round_to_pow2` has 6, for the shifts 1 to 16 and the last test; `split_path_segments` has the
-- length of its path and one, since each round but the last moves on; `find_available_worker` has the
-- number of workers, since the round visits each worker at most once; `select_next_proto` has the
-- length of the list and one. In each case the theorems say what the result is, so the fuel suffices.
--
-- What the kernel does is a parameter: the results of `accept4` and of the eventfd's `write` are in
-- the schedule, those of the calls on a socket, of OpenSSL and of nghttp2 are lists
-- (in Events, one for each loop of an event, with a last result that ends it), and what `open`,
-- `fstat` and `mmap` give is a function of the path, another one at each request; in Lifetime each call has
-- its result.
--
-- nghttp2's pointer for each stream is an interface with laws: it gives back what was set last, and null
-- behind the close of a stream. Which callbacks it makes, and in which order, is a list.
--
-- `none` also stands for the two calls whose bad results the source goes on with: `SSL_new` that gives
-- no object, and `nghttp2_session_mem_send2` that gives an error. What `epoll_ctl` is asked for is a list
-- in Events and System, whether it succeeds or not, as the worker does not see it; Epoll has what comes of
-- it. A mapping of a file is the bytes that the file has when it is mapped.
--
-- Not modelled: what nghttp2 and OpenSSL, which the source calls, do inside; the threads that
-- `spawn_workers` makes; the descriptors of a worker and of the server over their whole lives, with the
-- destructors of `Worker` and `Server`; files that are changed while they are mapped; the printing of the
-- options, of the balancer and of a queue.
pub mod Alpn
pub mod CircularQueue
pub mod Connection
pub mod Epoll
pub mod Events
pub mod FileCache
pub mod FileStream
pub mod Handler
pub mod Lifetime
pub mod LoadBalancer
pub mod Main
pub mod Multipart
pub mod Notify
pub mod Options
pub mod Prelude
pub mod Router
pub mod Serve
pub mod Session
pub mod System
