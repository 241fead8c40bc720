-- ===== src/Lib.antt =====
-- A model of the relay of internal/relay and of the user service of internal/user: which requests
-- reach an upstream service, which account serves them, and what they are charged.
--
-- The parts. A request comes to `HandleRelay` (internal/relay/handler.go). It looks up the token,
-- reserves a slot in the concurrency limiter (concurrency.go), checks the plan and the balance with
-- the billing service (billing.go), asks the affinity cache (affinity.go) for the channel that served
-- the token and model last, or goes through the channels by priority, picks an account from the
-- channel's pool (pool.go), takes the estimate from the quota, converts the body and dispatches it.
-- The answer is settled, logged and converted back. The user service (internal/user/service.go)
-- writes the tokens, users and codes that the relay reads.
--
-- The files.
--   Prelude: shared names; Int is the integers with Go's wrap-around to 64 bits (`int64`), Text the
--   functions of package strings, Maps Go's maps as association lists, Results Go's error results.
--   Json and Db: the values of encoding/json, the rows of internal/db, the queries of GORM.
--   Crypto: internal/crypto/crypto.go. `init`, `encrypt` and `decrypt` are Init, Encrypt and Decrypt.
--   Limiter: internal/relay/concurrency.go. `acquire` and `release` are Acquire and Release.
--   Affinity: internal/relay/affinity.go. `get` is Get, in two steps `get_read` and `get_delete`.
--   Pool: internal/relay/pool.go. `pick`, `cooldown` and `fire` are Pick, Cooldown and its callback.
--   Billing: internal/relay/billing.go. `check_limit`, `pre_consume`, `refund`, `refund_and_settle`
--   and `check_user_balance` are the methods of those names.
--   Relay: internal/relay/handler.go. `handle_relay` is HandleRelay, with Guards (its tests), Channels
--   (the choice of a channel and account), Buffered (the retries), Handler (streams and dispatch),
--   Settling (slots, refunds, logs) and Errors (the bodies of errors). The state `Relayer` holds the
--   fields of the Go struct and the upstream calls made so far. `serve` is a request with its stream.
--   Auth: internal/auth/jwt.go.
--   Server: internal/server/router.go and server.go with internal/auth/middleware.go. `lookup_route` and
--   `match_path` are Lookup and matchPath, `setup_routes` the table, `handle` is Server.handler.
--   Users: internal/user/service.go. Each method takes the database and gives it back.
--
--   Provider: internal/relay/provider. Internal is types.go, Values the reading and building of
--   `interface{}`, Codec what is taken of encoding/json, Credentials credentials.go, Convert convert.go
--   with the init functions, Chunks a chunk of a stream as it is decoded. OpenAi, Anthropic and Gemini
--   have a module Parse (to_internal.go), Build (from_internal.go), Responses (response_convert.go) and
--   Adaptor (adaptor.go) each; Anthropic and Gemini have Streams and Reverse too, the two directions of
--   streaming.go. `convert_line` and `convert_gemini_line` are the methods convertLine.
--   Streaming: Gather is internal/relay/stream_converter.go, Reader sse_reader.go with its two
--   goroutines as the relation `Step`, and Forward streaming.go: `stream_and_forward` takes the lines
--   of the scanner, the converters with their states, and which calls of Send succeed.
--
-- Bounds and fuel. The retry loop of `handleBuffered` runs on a count of three rounds, as in the
-- source; reading a stream to its end runs on a count of reads, of which as many as there are
-- characters and events left, and one more, are enough; every other loop is by recursion on a list or
-- a text. A counter, a weight and a quota are integers with the wrap-around of 64 bits, which the
-- theorems exclude by naming what has to fit.
--
-- Parameters: the network, the text of a JSON value (`Codec`), random names, the cipher and its
-- nonces, `time.Parse` and `Format`, bcrypt, the JWT package. The relay takes the adaptors, the
-- conversions and the decryption as a record, `Services`, which Provider and Crypto fill. A request
-- reads the clock once. A goroutine that only refunds, settles or logs has run when the step that
-- starts it is over.
--
-- A pointer that is nil where the source follows it, and an index out of range, are errors of the
-- model; the keys of a map stand in the order in which they are written.
--
-- Not modelled: the refresh of OAuth tokens over the network, the handlers of the admin API, the
-- listener, the configuration and the web frontend, which are other components; the recovery from a
-- panic and the response headers; the widths of columns; binary rounding of floats, which stand as
-- counts of millionths, and the range of int64 and float64 in the decoding of JSON numbers; a token
-- without an expiry, which package jwt accepts and the program never makes.
pub mod Prelude
pub mod Json
pub mod Db
pub mod Limiter
pub mod Affinity
pub mod Pool
pub mod Billing
pub mod Crypto
pub mod Relay
pub mod Auth
pub mod Users
pub mod Server
pub mod Provider
pub mod Streaming
