-- ===== src/Lib.antt =====
-- token-gate: an HTTP gateway that forwards model requests to a pool of backends.
--
-- A request passes the authentication of clients and reaches handleProxy (internal/app/app.go). It
-- asks the scheduler (internal/scheduler) for candidates, tries them in order through the proxy
-- (internal/proxy), tells the store (internal/store) which one failed or served, and writes usage
-- logs, from which the store keeps hourly statistics.
--
-- The files and what they model:
--   Base            lists, options and tests on the native numbers, shared by all files
--   Text            Go strings as lists of code points, and package strings as the source uses it
--   Time            times in UTC by their civil fields (years 0 to 9999), formatTime of
--                   internal/store/store.go, and the order of its texts (Time/Order)
--   Domain          internal/domain/types.go: records, constants, normalisers
--   JsonText        json.Valid, which the store asks of two columns
--   Store           the tables: rows in the order of their ids; an AUTOINCREMENT id is the counter
--                   beside the table; ORDER BY id DESC is the reverse; a column that holds a list or
--                   a map as JSON holds that list or map
--   Store/Backends  internal/store/store_backend.go: every operation that changes a backend
--   Store/UsageLogs internal/store/store_log.go, AppendUsageLog, and the hourly statistics
--   Store/ClientKeys internal/store/store_client_key.go; the hash of a token is an argument
--   Store/Proxies   internal/store/store_proxy.go
--   Glob            path.Match by its documented grammar
--   Scheduler       internal/scheduler/scheduler.go
--   NetAddress      SplitHostPort, Atoi and ParseIP, which the dialer uses
--   Socks5          internal/proxy/socks5.go
--   HttpHeader      net/http.Header
--   Proxy           internal/proxy/proxy.go: headers, paths and clients of forwarded requests
--   Json            values of encoding/json and the helpers on them of internal/proxy/translate.go
--   Sse             internal/proxy/translate.go, parseSSEStream and marshalSSEStream
--   Streams         internal/proxy/translate.go, what the converters of streams share; Streams/Courses
--                   is how far an upstream has come
--   ToMessages      internal/proxy/translate.go, ConvertResponsesStreamToMessagesStream, with its events
--                   (MessagesEvents), a reader of these events (Grammar), and which upstreams are
--                   orderly (Upstream)
--   ToResponses     internal/proxy/translate.go, ConvertMessagesStreamToResponsesStream, with its events
--                   (ResponsesEvents), a reader and the upstreams in the same way
--   Content         internal/proxy/translate.go, the content of messages and the calls of tools
--   Conversation    internal/proxy/translate.go, messages turned into an input and back
--   Requests        internal/proxy/translate.go, tools, the choice of a tool, and whole requests
--   Replies         internal/proxy/translate.go, responses that are no streams
--   Exchanges       internal/proxy/translate.go, PrepareExchange and the adapters; what may come of a
--                   request, apart from the code (Prepared)
--   Usage           internal/handler/handle_log.go, the usage of tokens and the redaction of headers
--   Transfer        internal/handler/handle_backend.go, export and import of backends
--   Admin           internal/handler/handle_backend.go, creating, updating and deleting a backend
--   Failover        internal/app/app.go, the loop of handleProxy over the candidates
--   Gateway         internal/app/app.go, the rest of handleProxy
--   Auth            internal/app/app.go, clientAuth
--   Tests           runs at concrete inputs, and the theorems at them
--
-- The names are those of the source in snake case: MarkBackendFailure is mark_backend_failure,
-- socks5ConnectRequest is socks5_connect_request. An operation of the store takes the time and the
-- database and returns the database with its result; an operation of the scheduler does too. A run
-- of the dialer takes a connection: the bytes still to be read, those written, and how many writes
-- succeed. handleProxy takes what the outside does in each attempt (Attempt, World).
--
-- The loops are recursions over the candidates, the rows, the events, or the text. Two counts bound a
-- loop: the eight groups of an IPv6 address, and, for the digits of a length (Exchanges), the length
-- plus one, which is more than it has digits.
--
-- What is assumed: strings are valid UTF-8; numbers are unbounded, and cooldowns are not negative; a
-- statement of SQLite fails only as its constraints say (faults of the disk and cancelled contexts
-- of the store are left out); encoding/json is an argument (Codec) of what uses it; to_lower is exact
-- where its result is ASCII, as in every test on it; the checks of an import and of a form take
-- validateURL, and those of an import strings.ToLower, as arguments (Outside).
--
-- What is not modelled: the console (internal/handler, apart from what handleProxy uses and the
-- changes and the import of backends), settings, events and queries of the store, configuration,
-- logging, decompression, and the front end. Deadlines, TLS and the sending of HTTP requests are the
-- library's.
pub mod Base
pub mod Text
pub mod NetAddress
pub mod Socks5
pub mod HttpHeader
pub mod Proxy
pub mod Json
pub mod Sse
pub mod Streams
pub mod MessagesEvents
pub mod ResponsesEvents
pub mod ToMessages
pub mod ToResponses
pub mod Content
pub mod Conversation
pub mod Requests
pub mod Replies
pub mod Exchanges
pub mod Usage
pub mod Transfer
pub mod Admin
pub mod Auth
pub mod Failover
pub mod Gateway
pub mod Time
pub mod Domain
pub mod JsonText
pub mod Store
pub mod Glob
pub mod Scheduler
mod Tests
