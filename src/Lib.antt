-- ===== src/Lib.antt =====
-- CUAC, the Compiled Unified API Connector: a DuckDB extension that turns declarative HTTP and
-- GraphQL connector packages into typed table functions. A scan plans an operation, sends its
-- requests page by page under hard resource budgets, waits on rate limits and retries, decodes the
-- pages and follows the pagination. This library models parts of the runtime that carry that
-- promise, each translated from the source named below (paths from the repository's root).
--
-- Common: the names of the standard library that the modules share, the Boolean tests on the native
--   numbers with their lemmas (Common/Tests), lists (Common/Lists) and signed integers (Common/Int).
-- Accounting: src/runtime/policy/scan_resource_accounting.cpp and its header
--   src/include/cuac/internal/runtime/policy/scan_resource_accounting.hpp. `Accounting` is the class
--   `ScanResourceAccounting`, a state `M` with a result for the error that a method throws; the
--   assignments that a method makes before it throws are kept. State has the profile, the counters,
--   `Fail`, `AddChecked` and the constructor; Steps, Attempts, Commits and Waits have the methods.
--   `Call` in Runs is a call of any method that changes the object. The steady clock is a parameter:
--   each method takes the time it reads, in ticks, and `Clock` gives the range of its duration.
--   Products of the wall budget are exact where the source has checked that they fit.
-- Pagination: src/runtime/pagination/graphql_cursor_pagination.cpp and its header. `GraphqlCursorState`
--   holds the cursors seen as a list, newest first, where the source has an array of 32 and a count. Link
--   has src/runtime/pagination/link_pagination.cpp: Target the check of a continuation's target, State
--   the class, Continuation the URL of a page as a server writes it, Fields `Advance` on the header
--   fields themselves. The port is printed with fuel 5, which its 16 bits need. Uri has
--   src/runtime/pagination/uri_reference.cpp: Text, Address and Reference the validators, Grammar and
--   Literal the rules of RFC 3986, Octets, Groups, Compression, Segments and Hosts the literal addresses, Sound
--   and Complete the two directions between them. Header has
--   src/runtime/pagination/link_header.cpp: Scan and Parser; `none` is a LinkHeaderSyntaxError, and
--   the visitor is the list of what was visited before it. The loops on values and parameters have
--   one turn more than bytes are left, and a turn takes a byte. Render has the header as a server
--   writes it, Fuel, Ends, Values, Parameters, Links, Empty and RoundTrip the proofs.
-- Transport: src/runtime/transport/http_chunk_decoder.cpp. A position is the list of the bytes that
--   remain together with its offset; every check of the execution control has a number, and
--   `ExecutionControl` says what it answers. The loops on chunks, extensions and trailer fields run
--   on fuel: one more than the bytes that remain, which each round shortens.
-- Cache: src/runtime/cache/complete_scan_result_cache.cpp with src/semantics/plan/cache_policy.cpp. Policy
--   has the freshness policy, Keys the comparison of keys, Store the class `CompleteScanResultCache`,
--   with the reading of its clock as an argument of each method. The table is an association list,
--   and the scan for the oldest entry takes it out of the list; the eviction has one turn for each
--   entry. Evict, Newest, Invariant, Runs and Ages have the proofs.
-- Connector: src/connector/model/package_semver.cpp, the versions of connector packages. Version has
--   `PackageSemVer::Parse` and `Compare`, on a list of bytes; Numeral and Grammar have the grammar
--   that Parse is compared with.
-- Planner: src/semantics/planner/operation_selection.cpp. Select has `SelectOperation` with all its
--   helpers; the candidate bindings of src/semantics/predicate/predicate_classifier.cpp are a
--   parameter, which may throw. Choice has the loop's invariant.
-- Resilience: src/runtime/resilience/rate_limit_coordinator.cpp and its header
--   src/include/cuac/internal/runtime/resilience/rate_limit_coordinator.hpp. State has `SharedState`
--   and what is done under its mutex, Calls the calls of many threads, each cut where the mutex is
--   given up: `begin_acquire` and `begin_requeue` queue a caller, and `turn` is one turn of
--   `WaitForTicket`. A `Call` is any of them, so that a list of calls is an interleaving; Waits has
--   the whole loop, with the calls of others between its turns. The clock, the cancellation and the
--   comparison of keys are arguments, and Keys has the comparison of the source, with the identities of
--   src/runtime/executor/http_scan_executor.cpp; SameKeys says when it holds. A bucket is found
--   by its key in a list of pairs (Buckets). Counters keep the wrap-around of their 64 bits; times
--   are integers, and the sums of times are those that the source has checked.
--   Guidance has the whole of src/runtime/resilience/rate_limit_guidance.cpp: Calendar the civil
--   calendar, Dates and Forms the three forms of an HTTP date, Parse `ParseRateLimitGuidance`;
--   Civil, Decimal, Rolling and Latest have proofs. The out-parameters of the source are options there, and
--   its vectors lists.
-- Decoding: src/runtime/decoding/strict_json_reader.cpp and its header. The reader is the list of the
--   bytes from its position on; every check of cancellation and deadline has a number, as in
--   Transport. Loops have a turn for each byte left, and one to end, since a turn that goes on takes a
--   byte; `SkipValue` goes down at most one level more than the nesting budget has. No observer of a
--   string's capacity is given. The source has its scans more than once: Strings, Keys and Numbers have
--   those of `ParseString`, `ParseObjectKey` and `ParseNumberToken`, Skips and SkipNumbers those of
--   `SkipString`, `SkipUtf8` and `SkipNumber`, each copy with definitions of its own, and Copies relates
--   them. Takes and Returns follow the bytes that each reading takes, Agree, Twins and Tokens compare
--   the passes over a string and over a number; Nesting and Utf8 have the nesting budget and the
--   encoding of a code point.
--
-- The components interact through the executors: a request attempt is debited by Accounting before it
-- is sent, its body comes through Transport, the decoded page is debited again, and Pagination says
-- whether a next step begins. The executors themselves, libcurl, DuckDB and the YAML reader are not
-- modelled; allocation is not modelled, so neither is a failure of it.
pub mod Common
pub mod Accounting
pub mod Cache
pub mod Connector
pub mod Decoding
pub mod Pagination
pub mod Planner
pub mod Resilience
pub mod Transport
