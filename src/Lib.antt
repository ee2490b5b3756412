-- ===== src/Lib.antt =====
-- A model of mtproto-checker, a tool that checks Telegram proxies, with its correctness theorems.
--
-- A run reads links (internal/input), drops the ones that a filter excludes (internal/filter), and
-- checks each of the others (internal/checker): the link is parsed into a target (internal/proxy), and
-- the target is probed up to a number of times (internal/mtproto, and internal/webproxy for the
-- carriers of a WEB proxy). A probe speaks MTProto over one of three framings, through FakeTLS
-- records, a SOCKS5 server or the frames of a WEB proxy where the target asks for it. What a run found
-- is reported and saved (internal/report, cmd/mtproto-checker).
--
-- Common: lists measured by native numbers, tests into Bool, `Result` for Go's value and error,
--   sets of keys, a stable sort, ASCII text as bytes, and exclusive or. A byte is a number below 256.
-- Mtproto.Binary, Mtproto.Errors: encoding/binary, and the errors of internal/mtproto.
-- Mtproto.Tl: internal/mtproto/tl.go. Buf is `buf`; Cursor is `cursor`, with `take` named `read`.
-- Mtproto.Transport: internal/mtproto/transport.go, over any reader. Bounds, RoundTrip.
-- Mtproto.Ige: internal/mtproto/ige.go, over any block cipher.
-- Mtproto.Factorize: internal/mtproto/factorize.go, on words of 64 bits. The loops of `brent` are
--   `search`, `hunt`, `multiply`, `leap` and `retry`. Words, Divisor, Total.
-- Mtproto.FakeTls: internal/mtproto/faketls.go. Builder is `helloBuilder`, Hello `buildClientHello`,
--   Verify `verifyServerHello`, Records `readServerHello` and `splitTLSRecords`, Conn `tlsConn`.
-- Mtproto.Obfuscate: internal/mtproto/obfuscate.go. A key stream is a function of the place.
-- Mtproto.Stream: `stream` of internal/mtproto/auth.go, and `messageID`.
-- Mtproto.Session: internal/mtproto/session.go, without times. Seal, Authentic, Pong, Ping.
-- Mtproto.Auth: the rest of internal/mtproto/auth.go, and rsa.go. Answers is on what the server sends,
--   Params on the check of the Diffie-Hellman values with its cache, Rsa on the choice of a key and
--   the padding, Exchange is `createAuthKey`, with SharedKey on the key of the server. The checks of
--   `quickCheck` (respq.go) are in Answers.
-- Mtproto.Api: internal/mtproto/api.go, with Invoke for the calls and Config for help.getConfig. Answer,
--   Keeps, Container and Returned are on what comes back.
-- Mtproto.Probe: internal/mtproto/probe.go, over one attempt and over the steps of a handshake.
--   Candidates is on the loop. Probe.Quick is one attempt of a quick probe, over what the peer sends:
--   `quickCheck`, `handshake`, `fakeTLSHandshake`, `attemptMTProto` and `directMTProto`. Sound is on an
--   attempt that succeeds, Served on a proxy that lets an attempt without FakeTLS.
-- Mtproto.Probes: `Probe`, `probeTCP` and `Route`, the loop of internal/mtproto/socks5.go, and
--   internal/mtproto/webproxy.go. Rejected is on the latter.
-- Mtproto.Audit: internal/mtproto/audit.go. Decoy is on `decoyTarget` and `CheckOpenSecret`, Hold on
--   `hold`.
-- Mtproto.Socks5: internal/mtproto/socks5.go, up to the answer to CONNECT.
-- Webproxy.Frame: internal/webproxy/frame.go.
-- Webproxy.Websocket: internal/webproxy/websocket.go, from the upgrade on; Webproxy.Upgrade is
--   `dialWebSocket`, with Accepted on an upgrade that succeeds.
-- Webproxy.Http: the requests of internal/webproxy, and package net/http as it uses it.
-- Webproxy.Https: internal/webproxy/https.go. Repeated is on `send`.
-- Webproxy.Steps, Webproxy.Dial: `Dial` of internal/webproxy/carrier.go, with `fetchBridge` and
--   `createSession`. Opened is on a dial that succeeds.
-- Webproxy.Carrier: internal/webproxy/carrier.go, `Carrier` from the dial on; its transport is the
--   bodies that come, each with whether it ended the lane, and the batches that it was handed.
--   Bytestream is on reading, Batches on writing.
-- Proxy.Secret, Proxy.Link: internal/proxy/target.go.
-- Input: internal/input/input.go. Distinct is on `Dedup`.
-- Filter: internal/filter/filter.go. Excluded is on `Links` and `LoadExclusions`,
--   Places on `Results`.
-- Checker: internal/checker/checker.go. Attempts is on the options and the loop of attempts,
--   Summaries on the counts and the hexadecimal of a key; Workers is the pool of `Run`, as steps up to
--   the return of the last worker, with Order on what is reported and Progress on its end; Sorting is
--   `SortByLatency`.
-- Geo: internal/geo/geo.go. Cache is on lookups that run at a time over the client's cache.
-- Report: internal/report/report.go. Best is on `BestOf`, Groups on `GroupBy`.
-- Settings, Run: cmd/mtproto-checker/main.go. Settings is the flags and their guards, with Defaults on
--   what the checker makes of them; Run is `run`, `emit` and the exit code, which Exit is on.
-- The modules named Tests hold runs on small inputs.
--
-- Fuel: the loops over bytes that arrive (`decode_frames_loop`, `split_loop`, `read_server_hello`,
-- `fill`, `receive_loop`) use up at least one byte in a round, so the length of the input is enough.
-- The outer loop of `brent` doubles its steps in each round, so 22 rounds pass the budget of 2^20
-- steps, and `retry` makes a step of the same budget in each round. The loops over blocks and chunks
-- are given as many rounds as the length holds. A container within a message is shorter than the
-- message, so `contains_pong_from` is given the length as its depth. The loop that draws headers has no
-- bound in Go: its draws are a list. `dispatch` has none either, as a packed message may hold another:
-- its depth is an argument, and no theorem depends on it. `hold` makes a round for each of its pings:
-- as a sleep moves the clock on, one more round than its nanoseconds is enough. The rounds of `send_from`
-- are the four of the code.
--
-- Not modelled: sockets, deadlines and the closing of connections; goroutines but for the pool of
-- workers and the lookups of places; the rating and the ping statistics in floating point; the layout of the report, JSON and
-- CSV; the progress on a terminal; the reading of the embedded keys. A full attempt is modelled in its
-- parts: the exchange of keys, the session and the queries are not composed over one connection.
-- What Go's libraries do is a parameter: AES, HMAC, random numbers, URLs, base64, regular
-- expressions, and the text of hosts and ports. Lower case and white space are those of ASCII text,
-- and texts are bytes.
pub mod Common
pub mod Mtproto
pub mod Webproxy
pub mod Proxy
pub mod Input
pub mod Filter
pub mod Checker
pub mod Geo
pub mod Report
pub mod Settings
pub mod Run
