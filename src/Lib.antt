-- ===== src/Lib.antt =====
-- ShellClaw: an agent daemon in C. A message comes in from a channel (a terminal, Telegram, Discord,
-- or the web chat of the HTTP gateway), the agent sends it to a model provider, runs the tools that
-- the model asks for inside a sandbox, and replies on the same channel. Other agents reach it at
-- POST /asap, and it signs and numbers what it sends them. The state is in static variables of each
-- source file, mostly behind one mutex per file; here it is a record that every operation takes and
-- returns, and a section under the mutex is one step.
--
-- The parts that are modelled, by file (paths from the repository's root):
--   Gateway/RateLimit: src/gateway/rate_limit.c, the limiter of POST /asap per address. `Table` is
--     `s_table`, and the functions have the names of the source; `probe`, `claim` and `place` are the
--     parts of `find_or_create`, and `roll`, `charge` and `finish` those of `rate_limit_asap`.
--   Gateway/Ws: src/gateway/ws.c, the connections of the web chat and the messages between the thread
--     that serves the sockets and the one that runs the agent. `Ws` holds the static variables; a
--     function `f` here is `ws_f` there. `Ws/Calls` runs sequences of calls.
--   Asap/Ulid: src/asap/ulid.c, the identifiers of envelopes. `UlidState` is `g_last_ms`, `g_rand`.
--   Providers/Response and Providers/Model: src/providers/provider_common.c, the rule that lets the
--     next backend be tried after an error, and the model id that a backend is sent.
--   Providers/Router: src/providers/router.c, the provider that walks the chain of backends, with its
--     status and its return to an earlier backend. `World` holds what it calls: the backends, getenv
--     and the HTTP probes. The router uses the retry rule of Providers/Response.
--   Gateway/Auth: src/gateway/auth.c, pairing and the lockout of addresses. `Lockouts` is the array
--     `lockout` of a context, `AuthState` the rest of it with the tokens' file; a function `f` here is
--     `auth_f` there, or has the same name. cJSON on the file is the parameter `TokensJson`.
--   Tools/Cron: src/tools/cron.c, the schedules and their next times; a function `f` here is `cron_f`
--     there, or has the same name. localtime_r is a parameter. Tools/Cron/Offers is the table of jobs
--     that were offered and are not acknowledged, Tools/Cron/Delivery the poll, the acknowledgement
--     and the creation of jobs, and Tools/Cron/Delivery/Tool the tool of the agent.
--   Core/Jobs: src/core/memory.c, the table of scheduled jobs that Tools/Cron/Delivery works on. A
--     function `job_f` here is `cron_job_f` there.
--   Sandbox/Path: src/sandbox/allowlist_path.c, whether a path of a shell command stays below the
--     workspace. `FileSystem` holds realpath, lstat and dirname.
--   Gateway/Body: src/gateway/asap_http_body.c, the body of POST /asap; a function `f` here is
--     `asap_http_body_f` there. The size of the fixed buffer is an argument.
--   Channels/Chunks: src/channels/channel_common.c, the table of channels and the sending of a long
--     text in pieces; a function `f` here is `channel_f` there.
--   Sandbox/Words, Sandbox/Scanners and Sandbox/Allowlist: src/sandbox/allowlist.c, whether a shell
--     command may run: its words and their expansion, the searches over its whole text for paths and
--     URLs, and the check of it. `Shell` holds getenv, access and the file system; a reason is a
--     `Denial`. A function `block_if_f` there is `f` here, without `_escape(s)`.
--   Core/Session: src/core/agent.c, the session of a conversation as a JSON array, its compaction by
--     the model and its reading into messages. cJSON is the parameter `SessionJson`.
--   Core/Agent: src/core/agent.c, one turn: the prompt, the rounds of chats and tools, the answer and
--     what is stored. `AgentWorld` holds the provider, the tools, the memory and the configuration.
--   Crypto/Jcs: src/crypto/jcs.c, the canonical text of a JSON tree that a manifest is signed by; a
--     function `f` here is `jcs_f` there. A double of the C library is the record `Double`.
--   Asap/Envelope: src/asap/envelope.c, the messages of POST /asap and their answers, as trees of
--     Crypto/Jcs; a function `f` here is `asap_envelope_f` there, or has the same name. Asap/Envelope
--     has the checks of an object, Asap/Envelope/Rpc the requests and responses. cJSON_Parse and
--     cJSON_PrintUnformatted are the parameter `EnvelopeJson`.
--   Asap/Registry: src/asap/registry.c, the registry of agents and the resolution of a URN; a function
--     `f` here is `registry_f` there, or has the same name. `Http` is the GET with the parsed body.
--     Asap/Registry reads a registry and a revocation list, Asap/Registry/Cache keeps and searches it.
--   Channels/Discord: src/channels/discord_helpers.c, which messages are answered, the backoff and the
--     buffer of the gateway's frames; a function `f` here is `discord_helpers_f` there.
--   Core/Dispatch: src/core/dispatch.c, where a message of a channel becomes a command or a turn of
--     Core/Agent, and a job of Tools/Cron/Delivery is acknowledged.
--   Common: what the parts share, with the calls of the C library that the code relies on (strtol,
--     atoi, strchr, strstr, the decimal printing of a number) written for strings as lists of bytes.
--
-- Bounds and fuel. The probe loop of the limiter takes 64 rounds, the size of its table; the loops of
-- the encoder take 26 and 5, and the search of a cron expression 366 * 24 * 60, as in the source. The
-- loop that waits for the clock is recursion on the readings given to it, and an identifier that
-- still waits is an outcome of its own. Printing a number takes as many rounds as the number is large
-- and one more. The loop of a turn takes the iterations that are configured, and that of the digits of
-- a double the 17 precisions of the source. Sending in pieces takes as many rounds as the text has
-- bytes, since each piece has one, and the doubling of a capacity as many as bytes are needed; the
-- theorems on them say that this is enough. Unsigned arithmetic that can wrap in the source wraps
-- here; the queue counters and connection ids are small enough not to.
--
-- Not modelled: the allocation of memory, which is taken to suffice; threads, but for the order of the
-- steps under the mutexes; the text of JSON, TOML, SQLite, HTTP and the other libraries; the file
-- system and system calls. A tree of cJSON is a data type where its members are looked up, and a
-- statement of SQL what it does to the rows of its table. Of the rest of the repository, the
-- configuration, the memory, the clients of the platforms, the tools and the hardware have no model but
-- what a file above names.
pub mod Asap
pub mod Channels
pub mod Common
pub mod Core
pub mod Crypto
pub mod Gateway
pub mod Providers
pub mod Sandbox
pub mod Tools
