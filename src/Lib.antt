-- ===== src/Lib.antt =====
-- Ferret optimize, a server that shrinks PNG images: an HTTP server takes uploads and puts jobs
-- into a bounded queue, a pool of workers decodes each, trims and crops it, encodes it in up to
-- six ways, and puts the result into a second queue, from which the thread of the request takes
-- it. Progress events go to a browser meanwhile. This library models the parts below and proves
-- what they do.
--
-- - Queue: src/queue.c. `step` is one access to shared memory of fp_queue_push or fp_queue_pop;
--   Queue/Fifo has calls one after another, Queue/Threads any number of threads.
-- - Base64: the base64 and base64url routines of src/progress.c, src/server.c and src/auth.c.
-- - Buffer: fp_buffer of src/server.c and the writer of src/compress_png.c that grows alike.
-- - Json: the three JSON string writers of src/server.c, src/progress.c and src/auth.c.
-- - Image: src/image_ops.c, on pixels as a list of bytes.
-- - Ferret: include/ferret.h and src/ferret.c, the jobs and results that the parts exchange.
-- - Worker: src/worker.c. Worker makes the tasks of a job, Worker/Encode runs one, Worker/Handle
--   is fp_worker_handle_job.
-- - Progress: src/progress.c, the channels of events and their registry.
-- - Server: of src/server.c, the reading of a request from its socket (Server/Headers), the
--   request and its route (Server/Requests), the multipart parser (Server/Multipart), who may
--   use expert mode (Server/Access), an expert request up to its jobs (Server/Upload), the
--   quota of expert requests (Server/Usage), the expert options (Server/Options), the
--   submission of jobs (Server/Submit), the waiting for results (Server/Results) and the names
--   and paths that a request gives (Server/Paths).
-- - Auth: of src/auth.c, SHA-256 and HMAC (Auth/Sha256), the access tokens (Auth/Token, with the
--   JSON readers in Auth/Fields) and their issue with a refresh token (Auth/Issue), the scopes of
--   API keys (Auth/Scope), the keys (Auth/Keys; their table is an interface of operations and laws,
--   which the statements on its rows in Auth/Keys/Rows keep, by Auth/Keys/Stored) and the
--   constant-time comparison (Auth/Compare).
-- - Quant: of src/compress_png.c, the palette quantizer: the median cut (Quant, Quant/Cutting),
--   its palette, the lookup of pixels and the transparency (Quant/Palette).
-- - Common: what these share: C arrays as lists, signed integers, bytes, tests.
--
-- A pointer is an option or a value, an allocation that may fail is a function or a Boolean that
-- says whether it is granted, a size_t or uint64_t is a natural number with its wrap-around
-- written out where the code relies on it, and a float is its bit pattern. The loop of
-- fp_wait_for_result has fuel; one round more than there are results before the one that is waited
-- for is enough. The calls of the queue have fuel as well; alone, a call takes a bounded number of
-- steps. A header block is read in as many rounds as it has bytes at most, and a list of keys or
-- cookies likewise. The median cut has a round for each colour asked for, and each round adds one.
-- The loop of fp_parse_multipart has as many rounds as the body has bytes, and one more, which is
-- enough since each round passes over a boundary.
--
-- Not modelled: libpng, libwebp, libavif, SQLite and the glue to them (the worker's encoders are a
-- parameter), the tables that src/auth.c keeps of users, sessions and subscriptions, the parsing of
-- JSON bodies in src/server.c (the reader of an upload's JSON options is an argument), its
-- handlers of OAuth and payments, the average times that src/worker.c keeps in floats and its
-- thread pool, logging, the start-up in src/main.c, and the pages under public.
pub mod Auth
pub mod Base64
pub mod Buffer
pub mod Common
pub mod Ferret
pub mod Image
pub mod Json
pub mod Progress
pub mod Quant
pub mod Queue
pub mod Server
pub mod Worker
