-- ===== src/Lib.antt =====
-- A model of kou-router, a router in front of LLM providers, and what holds of it.
--
-- A request names a model and arrives at an endpoint. The router expands the model to candidates
-- (aliases, combos), finds for each candidate the enabled providers that serve it, orders them, and
-- for each provider the accounts to send the request with; every attempt is retried with backoff,
-- and its outcome is classified and reported to the database, which decides what later requests may
-- use. A request is translated to the provider's format first, and the answer back to the client's;
-- the response cache may answer in the place of the provider.
--
--   Prelude, Prelude/Tests, Lists, Sort,  Boolean tests, list functions over the native ℕ, a stable
--   Every                                 sort, properties of all elements; shared by all
--   Text, Json                            the methods of str and serde_json::Value in use
--   Errors, Errors/Body                   src/error.rs, and fallback_error of src/upstream.rs
--   Upstream, Upstream/Stream             src/upstream.rs: responses, watchdog_stream,
--                                         tee_stream_boxerror
--   Upstream/Passthrough, Upstream/Paths  src/upstream.rs: PassthroughHeaders; endpoint_path and
--                                         build_url
--   RateLimit, RateLimit/Headers          src/ratelimit.rs: the tracker; the headers
--   Cost, Cost/Pricing                    src/cost.rs: usage; prices and cost
--   ResponseCache, ResponseCache/Policy   src/response_cache.rs: what a request asks of the cache;
--                                         which requests it may answer
--   Retry                                 src/retry.rs; Retry/Delay on the backoff, Retry/Trace on
--                                         the loop
--   Models, Models/Endpoint               src/models.rs
--   Repository                            src/repository.rs: the tables that routing reads and
--                                         writes; Repository/Health, Updates, Aliases on them
--   Routing/Formats                       src/translate/format.rs and the endpoint tests of
--                                         src/service.rs
--   Routing/Models                        src/service.rs: split_model, the filters and the order of
--                                         the providers in route
--   Routing/Candidates                    src/service.rs: expand_candidates, pick_round_robin,
--                                         order_provider_accounts
--   Routing/Targets                       src/service.rs: execution_targets and
--                                         prepare_provider_account; provider_with_account_auth of
--                                         src/upstream.rs; Admitted on providers without a target
--   ResponseCache/Key, Store              src/response_cache.rs: the canonical JSON and the key; the
--                                         table of src/repository.rs behind it
--   Upstream/Requests                     src/upstream.rs: prepare_upstream_request
--   Adapt/Requests, Adapt/Codex           src/service.rs: normalize_request; the request for Codex
--                                         and the debug rows of its responses
--   Adapt/Sse, Events, Responses, Success src/service.rs: server-sent events, Responses streams for
--                                         chat and messages clients, bodies rebuilt from
--                                         transcripts, successful bodies
--   Translate                             src/translate/registry.rs
--   Auth                                  src/auth/middleware.rs, and the tables api_keys and
--                                         settings of src/repository.rs; no route takes ProxyAuth,
--                                         Identity is on ProxyIdentity, which they take
--   Route, Route/State                    src/service.rs: the state of RouterService::route
--   Route/Tasks, Plan, Answers, Execute,  its parts: the tasks it spawns, the request it sends, the
--   Run                                   branches on the answer, one target, the loops
--   Route/Raw                             src/service.rs: proxy_raw_to_provider; Rows on its logs
--   Route/Laws                            the attempts it leaves behind: Single for one target,
--                                         Trail for the shape, Order for the loop over the targets,
--                                         Failover for all the loops, Whole for route
--
-- Names are those of the code, in snake_case for the functions and constructors; a helper of a long
-- function carries a name for what it does. Mutable state is passed explicitly: the database is the
-- record Repository of its tables, the round-robin counters are a function from keys (Turns), and an
-- instant is a number of nanoseconds that an operation gets as `now`. SQL's ORDER BY is a stable
-- sort. The database is taken to answer, and its RFC 3339 columns to compare as instants.
-- Arithmetic on u32 and u64 is modelled with the wrap-around of a release build.
--
-- `route` is a function of the record World: the database, the table of the cache, the counters, the
-- rate-limit tracker, the number of executions so far and the tasks spawned. Its loops answer with a
-- Flow, which goes on or returns. One instant stands for all readings of the clock in a request. A
-- stream is the list of what its reader receives, a spawned task is a value that says what it waits
-- for, and the polling of a stream's buffer by such a task is left out.
--
-- Parameters, since their code is not part of the repository: the answers of the upstream servers
-- and the random jitter, which the record Env gives for each execution and attempt, the parse of a
-- fractional Retry-After, serde_json's parser and printer, SHA-256, the verification of JSON Web Tokens, the operations of f64 and the
-- parsers of chrono, and the refresh of an OAuth account, which may change the database. The
-- translators of src/translate and the client of src/fingerprint.rs are interfaces of the route, the
-- records Translators and Fingerprint.
--
-- The fuel of execute_with_retry is max_retries + 1, the number of calls after which the loop always
-- returns, if that number is below 2 ^ 32; all other loops are structural.
--
-- Not modelled: the translators themselves, the rewriting of bodies and the
-- headers of the fingerprint, passwords and the creation of tokens, OAuth, search, presets, and the HTTP handlers.
pub mod Prelude
pub mod Text
pub mod Json
pub mod Errors
pub mod Upstream
pub mod Retry
pub mod Models
pub mod Repository
pub mod Routing
pub mod RateLimit
pub mod Cost
pub mod ResponseCache
pub mod Adapt
pub mod Translate
pub mod Route
pub mod Auth
