-- ===== src/Lib.antt =====
-- Verification of the PERO-J services: the parts of the repository's JavaScript that keep state,
-- handle money or decide what is trusted, modelled as functions and step relations.
--
-- The program. An indexer (indexer/src) follows the ledger, decodes contract events with ABIs that
-- it caches, routes them to handlers, stores them, retries what failed from a dead letter queue,
-- audits the bond escrow and checks oracle attestations. An oracle daemon (oracle/src) submits the
-- outcomes of expired markets. A status page (backend/status-page/src) probes all services. A
-- script (scripts/verify_invariants.js) audits the accounting rules of the market contracts on an
-- engine of its own. The parts meet in the database: the retry worker re-dispatches the events
-- that the router's handlers could not store, the auditor halts the resolution that the
-- attestations and the daemon feed, and the status page reads the health of the others.
--
-- The files.
--   Base: tests, lists, how calls end (Outcome), BigInt values (Int), Map (Dict), texts and their
--     character codes (Codes), decimal numerals (Decimal).
--   Engine: class InvariantEngine of scripts/verify_invariants.js, one function for each method.
--     Engine/Run composes the calls; Balance, Stakes, Fair, Claims, Solvent and Repeat hold the
--     lemmas and the theorems.
--   Cache: AbiLruCache of indexer/src/cache.js. Cache/Negative is indexer/src/abiCache.js and
--     getAbi of indexer/src/indexer.js, Cache/Update the event path of cache.js; Window and Trace
--     relate the cache to lists and to call sequences.
--   Attestation: indexer/src/oracle.js. Attestation/Values has the JSON values and the property
--     list of JSON.stringify; Accept, Canonical and Replay hold the theorems.
--   Dlq: isPermanentError and retryDlqBatch of indexer/src/dlq-worker.js, SQL statements included.
--     Dlq/Attempts counts the dispatches of one row, and Dlq/Budget those of any number of batches.
--   Escrow: BondEscrowWorker of indexer/src/bond-escrow-worker.js; Escrow/Breaker has the runs.
--   Oracle: determineOutcome and submitExpiredMarket of oracle/src/workers/auto-submitter.js;
--     Oracle/Calls has the step relation over concurrent calls, in which a call to the chain may
--     take effect and still throw, and Oracle/Exclusive its theorem.
--     Oracle/Freshness is oracle/src/adapters/freshness.js.
--   StatusPage: backend/status-page/src/probes.js; StatusPage/Monitor is monitor.js.
--   Router: indexer/src/router/registry.js.
--   Council: indexer/src/monitors/councilInactivity.js.
--   Db: indexer/src/db.js, the statements as functions on the tables. Db/Transaction is a client
--     whose queries may fail, and its connection's open transaction; Db/Ledger has persistLedger
--     and the checkpoint, Db/Migrations the runs of init. Db/Pages has the pages of markets and
--     bets, Db/Leaderboard and Db/Events theirs, on Db/Order for ORDER BY; Db/Search the patterns
--     of a search. Db/Audit has the resolution evidence, Db/Volume the scaled sums, Db/Store the
--     contracts and oracle submissions, Db/Queue the dead letters and the cursor.
--   ScVal: indexer/src/scval.js; ScVal/Words composes wide integers bit by bit.
--   Decoder: indexer/src/decoder.js; Decoder/Sanitise has the redaction, Decoder/Describe the
--     descriptions of known functions, Decoder/Strings the values of which `String` makes no text,
--     Decoder/Addresses the extraction of addresses.
--   Api: the checks of indexer/src/api.js; Api/Redirect the old addresses, Api/Register the
--     registration of contracts, which stores with Db/Store, and Api/Evidence the routes for the
--     evidence of resolutions, which store with Db/Audit.
--   DataProvider: the retry loop of BaseDataProviderClient in indexer/src/dataProvider.js.
--   Sep41: mapWithConcurrency of indexer/src/validateSep41.js as a step relation over its workers.
--   Disputes: formatCountdown and the votes of indexer/src/oracleDisputes.js.
--   Backfill: runBackfill of indexer/src/backfill.js. Reorg: detectReorg of indexer/src/reorg.js.
--     What both read and write through functions that indexer/src/db.js does not have, the stored
--     ledgers and the backfill's checkpoint, is an argument or a field of the state.
-- In each part the module Tests has runs on concrete inputs.
--
-- State and effects. A method that changes its object takes the state and returns the next one.
-- A call that may throw returns an Outcome; where the code has written before it throws, the
-- state that it leaves is returned with it. The clock, the network, the database's answers and the
-- signature library are arguments. Concurrent code is a step relation in which any call may take
-- the next step. A Map is a list of entries in insertion order.
--
-- Numbers. BigInt values are unbounded integers, and a quotient truncates towards zero. Times,
-- counts and retries are natural numbers. The loops of the code that are modelled run over a list
-- or are a recursion on it. Fuel stands in two places: a client that follows `next_cursor` of
-- the markets or the bets reads pages on fuel, where one page more than there are rows is enough,
-- and running out of it is no result; and a number is printed on as much fuel as its own value,
-- which is at least its number of digits.
--
-- The database. A table is a list of rows or a Map by its key, and a statement is a function on it.
-- Whether a query is answered is an argument, a function of the number of queries asked before, so
-- a theorem about all such functions covers every way in which the database can fail. The
-- characters that a search compares up to case, and what is read as a date, are arguments too.
--
-- Not modelled: the HTTP servers and the routes that only pass their parameters on; of db.js the
-- pool, the base64 text of cursors and the refresh of the leaderboard's view; the price adapters,
-- the single calls of the SEP-41 check, the Redis cache, the drift detector, other middleware,
-- timers, logs and messages, the Rust contracts and the web client. What the indexer's main loop
-- does is not modelled either, since indexer/src/index.js does not parse.
pub mod Base
pub mod Engine
pub mod Cache
pub mod Attestation
pub mod Dlq
pub mod Escrow
pub mod Oracle
pub mod StatusPage
pub mod Router
pub mod Council
pub mod Backfill
pub mod Reorg
pub mod Disputes
pub mod Db
pub mod ScVal
pub mod DataProvider
pub mod Sep41
pub mod Decoder
pub mod Api
