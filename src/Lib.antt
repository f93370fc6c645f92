-- ===== src/Lib.antt =====
-- The Homelab dashboard, a Go program that watches the containers, disks and host of one machine and
-- sends alerts. This library models its core and proves what the parts promise.
--
-- The parts and how they interact. The collector (internal/collector) reads statistics from Docker
-- (internal/docker), turns them into samples and gauges, and inserts the samples into SQLite
-- (internal/store), where a maintenance job rolls them up. After each cycle the alert engine
-- (internal/alerts) runs its rules on a snapshot and opens, keeps and resolves alerts, each of which is
-- a row of the table alerts and a notification. The collector also keeps the inventory of containers,
-- follows the events of Docker, and scans the logs of containers for errors; what it finds goes into
-- tables of the store. It reads the processor, memory, network and mounts of the host (internal/host),
-- and the reports of smartctl (internal/disks). A daily check (internal/registry) compares the digests
-- of the images in use with those of their registries. The web interface stands behind sessions and a
-- rate limiter (internal/auth), and the process reads its settings from the environment
-- (internal/config).
--
-- Which file models which part:
--   Prelude          shared names; maps, strings, runes, decimal numbers and floating point as an interface
--   Store/Alerts     internal/store/records.go: the table alerts, with statements that may fail
--   Store/Samples    internal/store/samples.go: samples and their inserts
--   Store/Rollup     internal/store/rollup.go: the statements of Rollup on one pair of tables
--   Store/Maintenance internal/store/rollup.go: the whole transaction of Rollup
--   Store/Images, Store/Containers, Store/Events, Store/Disks  internal/store/records.go: the tables
--                    image_updates, containers, events and log_errors, disks and disk_temps
--   Alerts/Format    internal/alerts/engine.go: key, splitKey, escape, ruleTitle, format
--   Alerts/Engine    internal/alerts/engine.go: Restore, enqueue, the two loops of Evaluate, fire, resolve
--   Alerts/Rules     internal/alerts/rules.go: conditions, containerDown, humanBytes; and Evaluate whole
--   Alerts/Deliver   internal/alerts/engine.go: deliver, the retries of a notification
--   Docker/Stats     internal/docker/stats.go: all of it
--   Docker/Logs      internal/docker/client.go: the two formats of a log and their time stamps
--   Collector/Counters internal/collector/stats.go: collectStats, rates, sparklines, ResetCounters
--   Collector/State, Collector/Stacks  internal/collector/state.go: setSource, summarizeStacks
--   Collector/Bus    internal/collector/bus.go: all of it
--   Collector/Inspect, Collector/Inventory  internal/collector/inventory.go: applyInspect, maskEnv and
--                    refreshInventory; and excluded of collector.go
--   Collector/Events internal/collector/events.go: handleEvent
--   Collector/LogScan internal/collector/logs.go: scanLogs
--   Registry/Reference, Registry/Challenge  internal/registry/reference.go; parseChallenge of checker.go
--   Registry/Manifest, Registry/Tokens, Registry/Checker  internal/registry/checker.go and run.go: the
--                    requests, the cache of tokens, checkOne, Check and RunCheck
--   Config, Config/Credentials, Config/Load  internal/config/config.go: all of it
--   Host, Host/Readers, Collector/HostCycle  internal/host/host.go: the readers; and collectHost of
--                    internal/collector/hostcycle.go, up to the sample
--   Disks/Health, Disks/Smart  internal/disks/mdstat.go: finalizeState and Healthy; smart.go: Healthy,
--                    and ParseSmartctl on the report that encoding/json reads
--   Auth/Limiter, Auth/Session, Auth/Csrf  internal/auth/session.go
-- A function of the source keeps its name in lower case with underscores. The body of a loop is a
-- function of its own (visit, sweep, absorb), and the loop is structural recursion over the list that
-- it ranges over.
--
-- How the state is modelled. A struct is a record, and a method that changes it gives the new record.
-- A mutex makes each method one step. A Go map is an association list, and the order of the list is
-- the order of a range loop, which Go leaves open: the theorems hold for every order. A call of
-- time.Now is an argument; the calls within one operation give one time, but for Authenticated, which
-- has two. Times are ℕ, nanoseconds in
-- the engine, the limiter and the collector, and Unix seconds in tables and expiry times; the zero
-- time.Time is none. An unsigned 64-bit number is a ℕ with its wrap-around written out; an int that
-- the program keeps at 0 or above is a ℕ. Text is a list of bytes; strings.TrimSpace and the change of
-- case are those of ASCII, but for Prelude/Runes, which reads UTF-8.
--
-- What the program does not define is a parameter. Floating point is Prelude/Float, with the laws of
-- IEEE 754 that are used; SQLite's aggregates are Store/Samples.Sql; the signature of a token is an
-- argument of the session functions; the formats of floats and durations are Alerts/Rules.Formats;
-- net/http, JSON and SHA-256 are Registry/Manifest.Net; the parsers of floats and durations, time zones
-- and the reader of files are Config/Load.Library; regular expressions and the answers of Docker are
-- Collector/LogScan.Scanner and Collector/Events.Handler; statMount and ParseFloat are arguments. The
-- environment chooses which statements fail (the list faults of the table alerts, the outcome of a
-- transaction), how an attempt to send ends, and what random reads give.
--
-- Bounds and fuel. The loop of humanBytes is on fuel 6, which a uint64 never uses up. A notification
-- has 6 attempts, the queue holds 256 notifications, a sparkline 120 points. The parser of a multiplexed
-- log has one more round of fuel than the stream has bytes, and each frame takes at least eight bytes.
--
-- Not modelled: the transport of the HTTP clients of Docker, Portainer and Telegram, the HTTP handlers,
-- process start, password hashing, the parser of mdstat, the uptime of the host, collectSmart and
-- mergeStandby, refreshPortainer, the loop of the daily check, the reconnection of the event stream with
-- its backoff, the look-up of a container by a LIKE pattern, and the averages of DiskTemps. A history of
-- Store/Rollup adds a row for each insert, where INSERT OR REPLACE keeps one host or mount row for a
-- second; and time.Unix does not wrap for a second near the largest int64. The clients,
-- handlers and hashing are input and output or third-party code; what the others give to the modelled
-- parts is an argument here.
pub mod Prelude
pub mod Store
pub mod Alerts
pub mod Auth
pub mod Docker
pub mod Disks
pub mod Collector
pub mod Registry
pub mod Config
pub mod Host
