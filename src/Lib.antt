-- ===== src/Lib.antt =====
-- Verification of benchkit's load generator. The program generates load over HTTP/1.1 or WebSocket
-- from several worker threads. A worker (src/load/shared/load-worker.ts) owns persistent
-- connections (src/load/http1/http1-connection.ts, src/load/websocket/websocket-connection.ts),
-- each with a queue of the send times of its operations in flight
-- (src/load/shared/timestamp-queue.ts); those of HTTP/1.1 have an incremental response parser
-- (src/load/http1/response-parser.ts). What the connections report is counted by the worker's
-- measurement (src/load/shared/load-worker-measurement.ts), whose latencies go to a histogram
-- (src/measurement/bounded-latency-recorder.ts) and whose memory readings to a peak tracker
-- (src/measurement/process-memory-peak-tracker.ts). A coordinator
-- (src/load/shared/load-coordinator.ts) takes the workers through a run's phases, and
-- src/load/shared/aggregate-load-phase.ts adds up their results. Apart from these stand the
-- lifecycle of a managed target, src/control/state-machine.ts, the control stream of a remote
-- target (src/control/ndjson.ts, src/control/protocol.ts) with its client
-- (src/target-provider/control-client.ts), its session and its agent (src/agent/agent.ts), and the
-- order of paired runs, src/orchestration/balanced-schedule.ts. The observations of several runs
-- are summarised by src/statistics/quantile.ts and src/statistics/median.ts.
--
-- Modules:
--   Prelude        shared names, tests on numbers, lists, options and their lemmas
--   Timestamps     TimestampQueue: new, push, shift, peekTimeoutStart, clear. Timestamps.Refine
--                  relates it to a list of operations, Timestamps.History over sequences of calls.
--   Http1.Bytes    the searches and comparisons of bytes of response-parser.ts
--   Http1.Framing  parseContentLength, parseChunkSize, lastTokenEquals, parseHeaders; Blocks has
--                  header blocks as lines, Content what the headers say, Reading what is kept of
--                  it, Responses the framing, Acceptance what is accepted
--   Http1.Parser   Http1ResponseParser: a turn of the loop of push is `step`, the loop is `run`
--   Http1.Connection  the handlers of Http1Connection; a handler returns the connection and its
--                  calls, in order. State has what they share. History has sequences of events,
--                  Neutral and Accounting their balance, Capacity, Filling, Answers, Within and
--                  Room the places of the pipeline, Rated the connection as the fixed rate of the
--                  worker sees it.
--   WebSocket.Connection  WebSocketConnection (src/load/websocket/websocket-connection.ts): its
--                  state and timers; Handlers has the handlers, History sequences of events,
--                  Validity what each step keeps, Sending and Handled that they do, Stopped what
--                  follows `stop`
--   Http1.Measurement  Http1WorkerMeasurement (src/load/http1/http1-worker-measurement.ts)
--   Load.Effects, Load.Backpressure  the calls of a connection and LoadConnection
--   Load.Measurement  LoadWorkerMeasurement; Perform has sequences of recordings, Phases their
--                  result
--   Load.Aggregate    aggregateLoadPhase; Runs relates it to what the workers recorded
--   Load.Rate         #scheduleRate and #nextAvailableRateConnection over an interface of
--                  connections
--   Load.Options      src/load/shared/normalize-common-load-options.ts; Accepted has what its
--                  result gives the coordinator
--   Load.Coordinator  LoadCoordinator: the connections of each worker; Run has the phases and the
--                  messages that each waits for, Hears what the waits get, Awaited what they have
--                  not heard, Order, Progress and Silence the sequences of events
--   Load.Worker       the phases of LoadWorker; Events has the events, Phases and Total sequences
--                  of them; Traffic has the events of its connections, over an interface that
--                  Http1.Worker and WebSocket.Worker fill, Tally and Conservation what they add up
--                  to
--   Latency           BoundedLatencyRecorder; Invariant, Merge and Quantile its properties
--   Memory            ProcessMemoryPeakTracker
--   Control.Protocol  the envelopes of the control protocol and their validation
--   Control.Client    ControlClient; Steps and Settlement follow the promises of its requests
--   Control.Session  ManagedTargetSession (src/target-provider/session.ts); Stops follows its stop
--   Agent             BenchkitAgent, whose handling of a request waits at several places: State has
--                  what waits, Requests the steps up to the first wait; Debts, Steps and Answers
--                  follow the answers that it owes
--   Statistics        the quantiles and the median of src/statistics; Sorting has the sorted lists,
--                  NearestRank and Median what is found in them
--   Orchestration     balancedSchedule (src/orchestration/balanced-schedule.ts); Balance counts its
--                  orders
--   Control           TargetStateMachine; Lifecycle has sequences of transitions
--   Control.Ndjson    NdjsonDecoder and encodeNdjson; Strings decodes the bytes of a chunk, Segments cuts
--                     the input, RoundTrip encodes it
-- The modules named Tests have runs and the theorems at concrete inputs.
--
-- Conventions: state is passed explicitly, and a thrown error is a value: `none`, or a constructor
-- that names the message. Times are whole microseconds, and differences of times that the code
-- takes are written with a subtraction that stops at 0. Numbers that the code keeps as whole are
-- natural numbers; where it checks that they are safe integers the check is there. A socket is
-- named by a number, so that a late event of an old socket is told apart. Counts, bytes and the
-- like are exact.
--
-- Fuel: the loop of the response parser is given the length of its input, and the loop over header
-- lines one more than the length of the block, and the decoder of the control stream the length of
-- its buffer; each turn uses up a byte at least.
--
-- Parameters: the answers of sockets, the clock, the owner's flags while a handler runs, readings
-- of the memory and of the event loop's utilization, and the histogram's logarithm (the bucket of a
-- latency and the number of buckets) and power (the midpoint of a bucket), and for the control
-- stream JSON, the test for blank lines and the callback.
--
-- Not modelled: opening sockets and TLS (the rest of http1-connection.ts); the options of one kind
-- of load, its URL and request; the configuration of target providers and the probe of a target's
-- port; regression guards, profiling and reports. These mostly call the platform or come later.
-- Floating-point rounding is left out: a mean or a rate is the pair of the two numbers that the
-- code divides.
pub mod Prelude
pub mod Timestamps
pub mod Memory
pub mod Orchestration
pub mod Statistics
pub mod Load
pub mod Control
pub mod Agent
pub mod Http1
pub mod WebSocket
pub mod Latency
