-- ===== src/Lib.antt =====
-- ArchGraph keeps a graph of a company's software: services, modules, teams and the relationships
-- between them. The program has five zones: ingestion reads repositories, the pipeline turns what
-- was read into entities and relationships, storage keeps them, serving answers questions about
-- them, and interfaces are the command line and the web page. The zones talk over HTTP. This
-- library models the storage zone (storage/), on whose guarantees the other zones rely, the core of
-- the ingestion zone (ingestion/), the records that ingestion emits (nif/), three steps of the
-- pipeline (pipeline/), and from the serving zone (serving/) the way from a question to its answer, two
-- analyses, and how a graph is cut into topics.
--
-- How ingestion works. Ingestors are registered under their ids, each with the ids that it depends
-- on. RunAll finds an order of them (or a cycle), then starts each one as soon as what it depends on
-- has ended well, and skips it where that has failed. A run of one ingestor loads its checkpoint,
-- fetches a batch from there, sends the records that the schema gate refuses to the dead-letter
-- queue, publishes the others to a sink, saves the next checkpoint, and adds a line to the ledger.
--
-- How storage works. One SQLite file holds the tables `entities` and `relationships`, the table
-- `delta_log`, the snapshots and the metrics. The mutation API is the only writer of the graph: a
-- batch runs in one transaction, each mutation looks up the row at its id, compares versions,
-- writes the row and appends a log entry with the states before and after; after the commit the
-- read cache drops what was changed and the changed ids go to the search indexer. Lookups and
-- traversals go through the cache. A snapshot stores the graph with a position in the log, and a
-- restore replays the log from there.
--
-- How serving works. A question is classified by keywords and planned; the plan's action is carried
-- out with what storage answers: the blast radius of an entity, a report of what changed, an audit, or
-- an answer that a language model writes from the pruned graph around an entity. Errors become
-- statuses. The wiki cuts a namespace into topics, by directory, before it has pages written.
--
-- Which file models which part:
--   Common          tests on numbers and texts, lists, maps with text keys, sorting by a text, and
--                   the monad of handlers that keep their state beside an error; Common/Count has
--                   sums over lists and maps, and sorting by a comparison, Common/Entries what holds
--                   of each entry of a map
--   Storage/Schema  storage/schema/entity.go, relationship.go (the records, the enumerations, the
--                   deterministic ids) and validate.go; Schema/Float is float64 as its bit pattern,
--                   Schema/Json what a property map holds, with reflect.DeepEqual
--   Storage/Table   a table as the list of its rows: SELECT by id, UPDATE by id and version
--   Storage/Session the state of one batch: the tables, the clock, the result being filled
--   Storage/Graph   storage/internal/graphdb/store.go, the six writes of a transaction, with the
--                   constraints of schema.sql
--   Storage/DeltaLog  storage/internal/deltalog/log.go, Append and Read
--   Storage/Cache   storage/internal/graphdb/cache.go, the three layers
--   Storage/Metrics storage/internal/metrics/store.go, Ingest and two of its queries
--   Storage/Query   storage/internal/graphdb/query.go, GetEntity, edgesForNode, Neighborhood;
--                   Query/Listing is the two listings by namespace;
--                   Query/Reach says what a traversal may reach, Query/Loads what GetEntity
--                   returns, Query/Walk has the invariants of the loops, Query/Exact,
--                   Query/Edges and Query/Current the results
--   Storage/Mutation  storage/internal/mutation/: Conflict is conflict.go, Handlers the handlers of
--                   api.go, Batch is ApplyBatch with its commit, rollback and hooks. Mutation/Step
--                   is the abstract machine over tables and log, to which the handlers are related;
--                   Projection, Integrity, Fresh and Upsert prove what it keeps
--   Storage/Snapshot  storage/internal/snapshot/store.go: Replay is replayEntry, Store has
--                   CreateSnapshot and RestoreGraph, Restore the results
--   Storage/Search  storage/internal/search/index.go, the worker and the search; Search/Laws the result
--   Storage/SearchWitnesses, Opened, Examples, Witnesses, QueryWitnesses   concrete runs
--   Nif             nif/types.go and validate.go; Nif/Id is id.go, Nif/Laws the results
--   Ingestion/Contract  ingestion/internal/ingestor/contract.go and delivery/sink.go
--   Ingestion/Registry  ingestion/internal/orchestrator/registry.go
--   Ingestion/Plan  topoOrder of ingestion/internal/orchestrator/runner.go; Plan/Order says what an
--                   order is, Plan/Coloring has the invariant of the search, Plan/Visit what each
--                   call leaves, Plan/Outcome and Plan/Acyclic the results
--   Ingestion/Dispatch  RunAll of runner.go: `scan` is one pass over the plan, `Step` a scan or the
--                   end of an ingestor; Dispatch/Steps has the invariant, Dispatch/Progress the
--                   results
--   Ingestion/Stores  ingestion/internal/checkpoint/store.go, ledger/ledger.go and dlq/dlq.go;
--                   Stores/Saves and Stores/Laws the results
--   Ingestion/RunOne  runOne, finishEntry and pushDLQ of runner.go, one function for what follows
--                   each call that may fail; RunOne/Laws says what the parts leave alone,
--                   RunOne/Checkpoints, Complete and Noted the results
--   Ingestion/Opened, Examples, Witnesses, RunWitnesses   concrete runs
--   Pipeline/Merge  deduplicateEntities of pipeline/internal/pipeline/pipeline.go
--   Pipeline/Gate   pipeline/internal/pipeline/stage5_validate.go
--   Pipeline/Delta  pipeline/internal/pipeline/stage6_delta.go; Delta/Twins compares maps of
--                   properties, Delta/Again is the result
--   Serving/Client, Serving/Evolution  serving/internal/storageclient/types.go and
--                   serving/internal/analytics/evolution.go; Evolution/Tally the results
--   Serving/Impact  serving/internal/analytics/impact.go; Impact/Spread says how a failure spreads and
--                   has the invariant of the search, Impact/Outcome the results
--   Serving/Topics  serving/internal/wiki/topics.go; Topics/Names has what it does with texts,
--                   Topics/Merge what merging does to sums over the buckets, Topics/Few and
--                   Topics/Sizes the two bounds, Topics/Contents and Topics/Bounds the results
--   Serving/Intent, Serving/Planner  serving/internal/intent/classifier.go and
--                   serving/internal/planner/planner.go; Planner/Laws the result
--   Serving/Retriever  serving/internal/retriever/retriever.go; Retriever/Paths has the scores,
--                   Retriever/Laws the results
--   Serving/Server  serving/internal/server/handlers.go, from a decoded request to a status and a body;
--                   Server/Laws and Server/Depth the results
--   Pipeline/Witnesses, Serving/Witnesses, Serving/GraphWitnesses   concrete batches, reports, graphs
--                   and questions
--
-- How the code is written down. Go's `int` version is its 64-bit pattern, which wraps where it is
-- incremented; an instant is the number of nanoseconds since the least time.Time; a map is the list
-- of its keys with their values, and the nil map is the empty one; a JSON column keeps the value
-- that was encoded. `time.Now` is a function from the number of the call to an instant, any
-- function at all, so that its calls may come in any time; a lookup in the cache counts as one call
-- whether the key is there or not. A Go map that is ranged over is listed in the order of
-- insertion. The loops are structural recursion over the batch, the rows, the edges and the depth;
-- two searches have fuel, which is proved to be enough: that of topoOrder the number of ingestors and
-- one, and that of the blast radius the number of walks of at most the depth along listed edges, and
-- one. The loop that shrinks the depth of a retrieval is recursion on the depth. In ingestion every
-- call of the clock or of a file has a number, and two functions say, for any number, what the clock
-- says and whether the call fails; counts are natural numbers, since no run comes near 2 ^ 63 records.
--
-- Parameters, where the code calls what is not its own: SHA-256, the random transaction id, the
-- clock, the order of instants as RFC 3339 texts (SQLite compares the texts), the RFC 3339 text of
-- an instant, SQLite's LIKE, the printing of a value that is no text, the digest and the name of a
-- snapshot, whether json.Marshal encodes a node, an edge or a map of properties (it refuses a NaN and a
-- year above 9999), and the outcomes of BEGIN and COMMIT, where a COMMIT that fails leaves the tables as
-- they were (the driver ends the transaction with a ROLLBACK); in ingestion the ingestors and the sink, the failures
-- of files, and the JSON of a dead letter; in the pipeline the registry and the listings of storage, the
-- clock by the record that asks it, and json.Marshal; in serving the product of floats, the answers of
-- storage as functions of what is asked (storage does not change while one question is answered), the
-- report of an audit, and the answer that the reasoner gives for a pruned graph.
--
-- Not modelled in storage: opening and closing the file, failures of the driver inside a statement,
-- requests that overlap (each lookup, each traversal and each batch is one step), the sentences of
-- the errors (their kinds and fields are), SQLite's turn to a REAL where `version + 1` passes the
-- largest int64, gzip and JSON as bytes, GetEntityByName, QueryRelationshipMetrics, the goroutine
-- of the indexer (its steps are), the HTTP server.
--
-- Not modelled in ingestion: the ingestors and the HTTP and file sinks themselves, the server, the cap
-- on how many ingestors run at a time (one that waits for it counts as running), runs of runOne that
-- overlap (each one is a step; the dispatch loop takes any result from it), nil pointers in a batch
-- (the nil batch is the empty one), a file that is written in part, opening and closing the files.
--
-- Not modelled in serving: the report of an audit with Tarjan's components and its square root, the
-- Markdown of the assembler, the reasoner, the pages of the wiki with its links and cache, the HTTP
-- client, routing and decoding, the endpoints of the log and of the wiki, and the messages of errors.
-- A text is a list of characters where the source has bytes. A Go map that is ranged over is listed in
-- one order, and what comes of it is sorted, as in the source; the order of equal scores is left open.
--
-- Not modelled of the other zones: stages 1 to 4 of the pipeline, its registry and its HTTP client and
-- server; the interfaces. A Go map that is ranged over is listed in the order of insertion there too.
pub mod Common
pub mod Storage
pub mod Nif
pub mod Ingestion
pub mod Pipeline
pub mod Serving
