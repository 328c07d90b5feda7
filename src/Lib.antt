-- ===== src/Lib.antt =====
-- QUICshot: an HTTP/3 load test rig. `edge` terminates HTTP/3 and forwards each request down a
-- QUIC tunnel to a `connector`, which proxies it to the origin; `blast` sends the load and
-- records what comes back; `ui` is the control panel that starts runs and draws its diagram from
-- the log lines of the others; `quicerr` names the reason of a disconnect for all of them.
--
-- The files, by the code that they model (paths from the root of the repository):
--
-- - Quicerr: internal/quicerr/quicerr.go. An error is its text and the chain of causes that
--   errors.As and errors.Is walk.
-- - Edge.Balance: `pickConnectorIndex` of internal/edge/edge.go. Edge.Registry: the connector
--   table of the same file, `addConnector`, `watchLost`, `serveControl`, `updateConnector`,
--   `live`, `staleAfter`, `registeredLocked`, `pickConnector`; each function is one critical
--   section under `Edge.mu`, and Edge.Registry.Traces interleaves them as the goroutines do.
--   Edge.Proxy: `ServeHTTP` with `classifyOriginFailure` and `isTimeout`.
-- - Tunnelproto: internal/tunnelproto/proto.go, with the loop of `serveControl` that reads the
--   messages. Connector: internal/connector/connector.go, `reconnectLoop`, `runOnce`, `pingLoop`,
--   `serveStream`, and Connector.Options, `Main` and `Start`.
-- - Edge.Options and Edge.Listeners: `Main`, `Start`, `serveTunnel` and `servePublic` of
--   internal/edge/edge.go. Edge.Startup: its waits for its listeners and connectors, and its log
--   of the UDP counters. Edge.Registry.Spec: the connector table as a map from ids.
-- - Blast.Hist: internal/blast/hist.go. Blast.Load: the pacer and the two load loops of
--   internal/blast/load.go, counted by where their goroutines stand. Blast.CfCode,
--   Blast.Recorder, Blast.Request, Blast.Config, Blast.Spec and Blast.Summary:
--   internal/blast/blast.go, in this order `parseCFCode` (with the edge's `writeCFError`), the
--   recorder with its verdict, `doRequest`, the configuration with `loadPayload`, `nextURL` and
--   `percentile`, `newRequest` and `applyHeaders`, and the report (`summary` and the histograms,
--   in Histograms) with the line of `progress`. Blast.ZeroRtt: internal/blast/zerortt.go. Of
--   internal/blast/blast.go, too: Blast.Options, `parseConfig`; Blast.Transport,
--   `makeTransports`, where Sockets interleaves the dials and the ends of connections;
--   Blast.Main, `Main`.
-- - Flags: what the commands use of Go's package flag, the loop over the arguments and the
--   readers of booleans (Values), integers (Values) and durations (Durations). Reads, Numbers and
--   Whole hold its lemmas.
-- - Ui.Flow, Ui.RateLimit, Ui.RunSlot: internal/ui/ui.go, the counters behind the diagram
--   (`observe` and what it calls, `publishFlow`, `resetFlow`), `allow`, and the run slot
--   (`start`, `handleStop`). Ui.Commands: the API handlers of the same file as functions from a
--   request to a command line or a refusal, `stackCommand` (Stack), `buildImpairCommand`
--   (Impair), `safeURL`, `validateRunRequest`, `buildRunArgs` and `planRun` (Run); Values says
--   what the regexps accept. Ui.Udp and Ui.Health: the polls of the same file, `pollUDP`,
--   `pollConnectors`, `updateServiceHealth`, and the message of `publishFlow`. Ui.Streaming:
--   `log`, `scan`, `runStreaming` and `tailLogs`. Ui.Api: the handlers themselves, `handleStack`,
--   `handleImpair`, `handleRun`, `handleReset`, `handleStop`, on the run slot and the counters.
--   Ui.Main: the arguments of `Main` and `warnStaleImage`. Ui.Hub: internal/ui/hub.go.
-- - Origin: internal/origin, the parameters of a request in Origin itself, the handlers in
--   Origin.Handlers and Origin.Mux as lists of what they do to the response, `Listen` in
--   Origin.Listen.
-- - Udpsock: internal/udpsock/udpsock.go, with `Listen` in Udpsock.Listen. Quiccfg:
--   internal/quiccfg/quiccfg.go and internal/qlogtrace/qlogtrace.go. Certs:
--   internal/certs/certs.go, over a directory, with `mintCA` and `mintLeaf` in Certs.Mint. Probe:
--   internal/probe/probe.go, its flags in Probe.Options and `Main` in Probe.Main. Cli:
--   cmd/quicshot/main.go.
-- - Prelude: lists, maps as association lists, bytes, integers and membership. The Tests modules
--   run the theorems on concrete inputs.
--
-- How the parts meet: the handler of Edge.Proxy asks Edge.Registry for a connector, and that asks
-- Edge.Balance; the messages of Connector reach Edge.Registry as Tunnelproto frames them;
-- Edge.Proxy and Blast.Recorder name errors by Quicerr; Blast.CfCode reads what the edge prints;
-- Ui.Flow reads the lines that Edge.Proxy logs and those that Blast.Summary prints; Blast.Spec
-- takes the headers that Ui.Commands lets through; the flags that Ui.Commands.Run writes are read
-- by Blast.Options and Probe.Options, both by Flags; Ui.Api starts what Ui.Commands builds in the
-- slot of Ui.RunSlot, and Ui.Streaming sends the lines of a child through Ui.RateLimit and
-- Ui.Flow; the edge, blast and the panel read the kernel's counters, the first two by Udpsock and
-- the panel by Ui.Udp.
--
-- Numbers. Counts of one run (requests, log lines) are unbounded. The round-robin counter and the
-- ids of connectors wrap at 2^64, the hash at 2^32, the product of connections and workers at
-- 2^63 as an int64, the kernel's UDP counters at 2^64. Times are nanoseconds; a clock is an
-- argument, and a function reads it once, a minted certificate twice. Where the source computes
-- with float64, the rate and the limits are exact fractions, and the scaled index of a percentile
-- is an argument. There is fuel in four places: printing a decimal number, where n + 1 steps are
-- enough for n; reading the control stream, where a round for each message and one for the end
-- are enough; the loop of the origin's `/bytes`, where the number of bytes is enough; and the
-- waits of Edge.Startup, where a round of the loop takes one.
--
-- Parameters. What lies outside the repository and the standard library is an argument: which
-- QUIC errors have a `Timeout` method that says true, the outcome of each network call of a
-- request, the files that a run reads, the JSON codec of a control message and the decoder of an
-- event line, and, for a command line, the parser of URLs, the printer and the reader of floats,
-- the fraction of a duration and the path of the program itself. A system call, a dial and a
-- child process are arguments, too: whether they fail, and what the child writes. The order in
-- which a Go map is ranged over is an argument, too, and so is the length up to which `make` takes
-- a slice. Ui.Flow.EdgeLog assumes of the logger that its line carries the message and the status of
-- the call.
--
-- Not modelled: what the libraries do behind their calls, quic-go, net/http, the crypto packages
-- and the processes of docker; the text of the probe's steps.
pub mod Prelude
pub mod Quicerr
pub mod Edge
pub mod Tunnelproto
pub mod Connector
pub mod Blast
pub mod Quiccfg
pub mod Flags
pub mod Udpsock
pub mod Origin
pub mod Certs
pub mod Probe
pub mod Cli
pub mod Ui
