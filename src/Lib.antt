-- ===== src/Lib.antt =====
-- muser-console: the console server of crates/console-server, which serves a dashboard for inference
-- engines, and the sidecar exporters of agents/, whose readings it stores beside the engines' own.
--
-- The parts, and how they interact. A configuration file is validated at the start. A browser pairs with the
-- console and gets a session; with the session it may mutate, and it may buy a short ticket that opens one
-- stream. What it asks of an engine goes through the proxy, under the engine's own key. Once in a sampling
-- interval the sampler fetches two documents from each engine and one from each exporter, turns them into samples whose
-- names stand in the catalog, and hands the batch to the store, whose writer thread owns an SQLite table.
-- An hourly pass of the writer deletes what is too old and collapses what is old.
--
-- The files, and what they model:
--   Auth: crates/console-server/src/auth.rs (constant_time_eq, valid_bearer).
--   State: crates/console-server/src/state.rs. The mutex-guarded maps are the fields of the record AppState;
--     an operation takes the state and the instant at which it reads the clock, and returns the new state
--     with its answer. Tickets, Sessions and Pairings have one function for each method; random bytes are an
--     argument, `none` where the entropy source fails. Maps has the hash map's operations on a list of
--     entries, Headers the reading of `host` and `cookie`.
--   Reply: the responses of crates/console-server/src/auth.rs and its rejections of requests.
--   Config: crates/console-server/src/config.rs. Files reads keys and certificates from a disk, Url checks
--     names and URLs, Tls the certificates, Entries one instance or agent, Parse the whole file in the order
--     of Config::parse; each returns the validated value or the reason of its refusal.
--   Routes: crates/console-server/src/routes.rs. A handler takes the state, the request and the instants of
--     its steps and returns the new state with its response; the proxying ones return what they sent to an
--     engine too. Origin and Peers have the checks on hosts, origins and addresses; Reach joins the
--     configuration's validity to the handlers.
--   Proxy: crates/console-server/src/proxy.rs, the headers in both directions and the exchange.
--   Stream: crates/console-server/src/ws.rs; Bridge is the relay, over the turns of its select, or the close
--     that stands for it where no engine is reached.
--   Catalog: crates/console-server/src/history/catalog.rs, the whole list of series, its tags and lookups.
--   History.Table, History.Bucket, History.Maintain, History.Store: crates/console-server/src/history/store.rs.
--     The table is a list of rows in the order of time; each SQL statement is a function on it; what SQLite
--     answers to a statement comes with the command. Bucket is the aggregation of a range read, Maintain the
--     retention and downsampling pass, Store the writer's loop and the calls that reach it.
--   History.Prom: crates/console-server/src/history/prom.rs, the parser of the text exposition.
--   History.Sampler: crates/console-server/src/history/sampler.rs. Engine and Agents turn documents into
--     samples, Health logs changes, Tick is the body of the sampling loop with the fetched documents as
--     arguments.
--   History.Api: Params::parse of crates/console-server/src/history/api.rs, on the integers of Base.Signed.
--   Exporter.Mac: the lines that agents/mac-exporter/src/expo.rs writes, and in Render its document. Parse is
--     parse.rs beside it, which reads the output of powermetrics, and Scrape the cache of exporter.rs.
--   Exporter.Gx10: the document that agents/gx10-exporter/src/expo.rs renders; its children Document, Lines,
--     Measured and Round follow it through the console's parser.
--   Tests: the theorems at concrete inputs.
--   Base: shared names, lists and texts; Float, Http and History.Json: interfaces.
--
-- What is a parameter. `f64` is the record Float: its operations, its literals and its parser. No law is
-- assumed of it, except that the round trips of the exporters take as hypotheses that a printed number parses
-- back to it. The crates http, base64 and sha2 are the record Http, the HTTP clients the record Wire,
-- serde_json the record Json; the disk, the paths, the TOML reader, IP addresses and rustls are the records
-- Host and Readers; and SQLite's AVG is an argument of the pass. The theorems hold for every such parameter.
--
-- Representation. A text is a list of its characters, a byte string a list of numbers. Timestamps are
-- milliseconds since the epoch and not negative; instants of the state are milliseconds too, those of
-- the mac exporter's cache nanoseconds. The source's saturating arithmetic of the retention is written out with
-- its bound 2 ^ 63 - 1.
--
-- Fuel. `bucket` rounds at most once for a point, and each round consumes one; `evict` removes a pairing in
-- each round and has more fuel than there are pairings; `parse_labels` has more fuel than the text has
-- characters, and each round consumes one at least.
--
-- Not modelled: the table of the routes, the handlers that serve the page and the health check, and the
-- start-up (routes.rs, main.rs); the TLS client configurations themselves; the rest of history/api.rs; in
-- agents/, the process that runs powermetrics, the reader of NVML and the servers; the opening of the
-- database file and its permissions; sockets, fetching, time-outs and clocks.
pub mod Base
pub mod Float
pub mod Catalog
pub mod Auth
pub mod Http
pub mod Config
pub mod State
pub mod History
pub mod Exporter
pub mod Reply
pub mod Proxy
pub mod Routes
pub mod Stream
pub mod Tests
