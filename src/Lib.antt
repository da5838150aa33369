-- ===== src/Lib.antt =====
-- Models of gttp, an HTTP client for Go with retries, redirect checks and protection against requests to
-- private addresses, and theorems about them.
--
-- The program. `New` in gttp.go applies the options to a configuration, corrects it and builds an
-- http.Client: a retryTransport (retry.go) over a safetyTransport (safety.go) over a base transport,
-- which is the caller's own or an http.Transport, and a redirectGuard (redirect.go) as its
-- CheckRedirect. With strict protection a direct transport dials through the function of
-- `newIPPolicyDialContext` (ssrf.go); otherwise the safety transport asks the guard first. The guard and
-- the dial function both ask `isBlockedIP`. The safety transport wraps the bodies of requests and
-- responses in the guards of guard.go, whose watchdogs cancel its child context.
--
-- The files.
--   Errors: the sentinels of errors.go. A Go error is the list of the nodes of its tree in pre-order,
--     the order in which errors.Is and errors.As look at them.
--   Ip, Http: the parts of net and net/http that the code reads and writes.
--   Ssrf: `isBlockedIP` and `ipMatchesNetwork`; Ssrf/Ranges: the documented CIDR blocks, and
--     Ssrf/Documented: what they say of each value of net.IP; Ssrf/Dial: the dial function with the list of the addresses that it dialed, Ssrf/Dial/Sequential: the
--     sequential way to dial a list, Ssrf/Dial/Outcome: what that way comes to, Ssrf/Dial/Policy: what
--     can be reached; Ssrf/Dial/Staggered: the staggered `dialApprovedAddresses` as a step relation,
--     with Ends on how long it runs, Counts on what it waits for, Leaks on its connections, Returns and Told
--     on what it returns, Approved on what it dials, and Serial on the sequential way.
--   Redirect: `normalizeURL`, `check`, `checkInitial`, `checkIPPolicy`, `sameOrigin` of redirect.go;
--     Redirect/Query: `canonicalizeQuery`, Redirect/Query/Permuted: what that form keeps of the query,
--     by the escapes of Codec, the pairs of Pairs and Grouped and the text of Written, and
--     Redirect/Query/Classes: that form as a function on the quotient of the queries by it;
--     Redirect/Loops: a URL that is visited again, however it is written; Redirect/Chain: the chains that
--     a client follows.
--   Retry: `shouldRetry` and `isRetryableError` of retry.go; Retry/Hint: the wait hints of a server;
--     Retry/Backoff: `backoff`; Retry/Body: `prepareBody` and `drainAndClose`, Retry/Body/Drain: its
--     reads of a guarded body; Retry/Loop: `RoundTrip` with the trace of what it sends, drains, sleeps
--     and rewinds, Retry/Loop/Trace, Retry/Loop/Attempt, Retry/Loop/Ends and
--     Retry/Loop/Ending: how it ends and what it has done by then.
--   Config: the configuration and the defaults of gttp.go; Config/Options: the options; Config/Client
--     and Config/Build: `New` and what it builds, `configureHTTP2` of http2.go; Config/Waits,
--     Config/Retryable, Config/Transport, Config/Ssrf: the waits, the retried statuses, the transport
--     and the strict protection of a client.
--   Guard: `rateTracker` of guard.go; Guard/Source: `ctxErr` and `countingReader`; Guard/Window,
--     Guard/Tracking and Guard/Observed: the tracker against all reads that it was told of; Guard/Body:
--     `guardedBody.Read`, with Guards on what a read has passed and Limit on a caller that reads to the end; Guard/Body/Life:
--     `newGuardedBody` and `Close`, Guard/Body/Once: what a call of Close does; Guard/Body/Delivers,
--     Guard/Body/Compressed: what a read changes; Guard/Body/Trace: reads and calls of Close in any
--     order; Guard/Writer: `guardedWriter`, Guard/Writer/Calls: its calls in any order; Guard/Watchdog:
--     `idleWatchdog` as a step relation, with Once, Quiet and Alive on when it cancels.
--   Safety: `RoundTrip` of safety.go, with what it does in order; Safety/Policy, Safety/Requests,
--     Safety/Bodies: its errors, its requests and its responses; Safety/Observed: a response's body from
--     its first read to its last Close; Safety/Drained: one that the retry transport drains;
--     Safety/Retried: a retry transport over it; Safety/Rounds: the round trips of the client that `New`
--     builds; Safety/Client: a blocked request of the client that `New` builds; Safety/Connections: what
--     that client can connect to.
--   Tests: runs on concrete inputs and applications of the theorems.
--
-- Conventions. An int64 and a time.Duration is an integer whose arithmetic is wrapped to 64 bits where
-- the code computes; an int is 64 bits wide. A text is the list of its bytes, and the case of letters is
-- that of ASCII. The message of an error is left out: a model keeps what errors.Is and errors.As see of
-- it. A panic is a value of the result. A time of the watchdog is a natural number that does not
-- overflow, and its atomic operations are single steps; the one reader of a body calls its Reset.
--
-- Fuel. The loop of `RoundTrip` runs on fuel maxRetries + 1, which is the most attempts that it makes.
-- The reads of a drain run on fuel 64 Ki + 1, since each but the last takes a byte at least.
-- The other loops are recursions on their lists, and the loop of `dialApprovedAddresses` is a relation,
-- whose runs are bounded.
--
-- Parameters. What the code calls outside the repository is an argument, arbitrary but for the
-- hypotheses that a theorem names: the dial function, the resolver, net.ParseIP, net.SplitHostPort, the
-- clock, http.ParseTime, the next transport, the context and whether it ends before a timer,
-- http2.ConfigureTransports, gzip.NewReader, and the float64 computations of the rate and of the ratio.
-- The scheduler is the choice of the next step. A retry transport sees a guarded response as an arbitrary
-- response, which the argument `view` gives. `IsRandom` is the documented range of rand.Int64N, and
-- `Configures` that http2.ConfigureTransports accepts a new transport.
--
-- Not modelled. In the trace of a round trip the bytes that a guarded response gives to a drain are those
-- of the argument `view`; the drain of a guarded body by its reads is Retry/Body/Drain. Memory orders other
-- than that in which the watchdog's atomic operations come one at a time. The branches
-- of `normalizeURL` and `sameOrigin` for a nil URL. A test of retries by the caller that keeps a state of its
-- own. A wall clock that steps back under `idleWatchdog`, and which error of an ended context
-- `dialApprovedAddresses` returns. A window of a `rateTracker` that is not positive, with which
-- `newGuardedBody` makes none, and a rate that is negative since the count of bytes overflowed.
pub mod Prelude
pub mod Errors
pub mod Ip
pub mod Ssrf
pub mod Http
pub mod Redirect
pub mod Retry
pub mod Guard
pub mod Config
pub mod Safety
pub mod Tests
