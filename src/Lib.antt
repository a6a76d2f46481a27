-- ===== src/Lib.antt =====
-- AlphaSwarm (src/alphaswarm) runs a swarm of language-model agents over several rounds, shows the run
-- in a web page and keeps it in a graph database for replays. This library models the parts that
-- decide how much of it may happen at a time and what the page shows of it.
--
-- Prelude: the library names that all modules share, Boolean tests and lists over the native numbers,
--   integers for levels that go into a deficit, and texts as lists of code points.
-- Settings: src/alphaswarm/settings.py, `GovernorSettings`. `construct` is pydantic's check of the field
--   bounds followed by `_check_threshold_ordering`; it gives back the settings or none.
-- Memory: src/alphaswarm/memory_monitor.py, `MemoryReading` and `MemoryMonitor`. What psutil and sysctl
--   return is an argument.
-- Governor: src/alphaswarm/governor.py, `ResourceGovernor`. Limiter has `acquire` (one pass of its
--   loop is `acquire_pass`), `release`, the failure window and the gate; Machine has the five
--   handlers and the state transition; Session has the monitor task, its start and stop, and
--   `step`/`run` over the events that reach a governor in any order. A waiter that is woken runs
--   another pass, so an interleaving of tasks is a list of events with their times.
-- RateLimit: src/alphaswarm/inference/rate_limit.py. Bucket is `TokenBucket`, Controller the parts of
--   `RateLimitController` between two awaits, Callers its tasks: a count of those that stand at each
--   await, and a step `act` for what each of them can do next, a cancellation included.
-- State: src/alphaswarm/state.py, `StateStore` (Store) and `ReplayStore` (Replay), with the values they
--   hold in Types, some of which come from src/alphaswarm/types.py, errors.py and data_audit.py.
-- Sessions: src/alphaswarm/web/simulation_manager.py and src/alphaswarm/web/replay_manager.py. World
--   puts both managers beside one store and interleaves requests, the run's own steps, its end, its
--   done callback and the reads of the graph.
-- Jobs: src/alphaswarm/services/jobs.py, `JobRunner`, over the store of State. The done callbacks of its
--   tasks are events; a cancellation by `shutdown` is one way for a task to end.
-- Budget: src/alphaswarm/inference/budget.py. Pricing resolves a model id to a price, Meter is
--   `BudgetMeter`, Provider is the wrapper's `chat` in its two halves round the inner call.
-- Peers: src/alphaswarm/peers.py. Select is `select_diverse_peers` over its random keys, Context the text
--   of a peer context and of an own prior, Holdout the seeded subsets, Round `build_round_context` with
--   the builders of its three strategies.
-- Dispatch: src/alphaswarm/batch_dispatcher.py. The module itself has the checks of `dispatch_wave` and
--   the calls it makes; Wave has one task for each (`_safe_agent_inference`), cut where it awaits, the
--   steps of the tasks in any order and the end of the wave. It writes to the store of State; the
--   controller that it reports to is an argument with its one operation.
-- Rounds: src/alphaswarm/rounds.py and src/alphaswarm/simulation.py. Run has `run_simulation` and
--   `run_round` as programs of effects (what they await of the database, the model and the page), which
--   may fail or be cancelled one by one; Protocol says what a run may do when, without the
--   code. Summaries is `compute_bracket_summaries`.
-- Retry: src/alphaswarm/inference/retry.py and `_post_with_retry` of
--   src/alphaswarm/inference/openai_provider.py (Post), over any sequence of replies. A 429 moves the
--   cooldown of RateLimit's controller.
-- Broadcast: src/alphaswarm/web/connection_manager.py and src/alphaswarm/web/broadcaster.py. A frame is
--   its key and the time at which it was built. Fresh interleaves ticks with the writers and with clients
--   that come and go.
--
-- How they meet in the program: the governor admits worker calls and reports its metrics to the state
-- store; a round builds the peer context of each agent and dispatches one wave, whose tasks write to the
-- store that the broadcaster shows; each call goes through the rate-limit controller, the budget wrapper
-- and the provider's retries; the simulation manager owns the run that does so and the shock slot that
-- the store mirrors; the replay manager keeps its own store, and the managers look at each other's
-- activity before they start.
--
-- Numbers: times are naturals in milliseconds on a clock that does not go back. Percentages are in
-- hundredths of a percent. A bucket level is an integer in units of 1/60000 token, so a refill is
-- exact. Prices are naturals in a power of ten of a dollar. The program has floats for times and
-- percentages and a `Decimal` for prices, so the roundings of the floats are not modelled.
-- Concurrency: the program is one asyncio loop, so code between two awaits is one step, and an
-- interleaving is a sequence of steps. Two functions run on fuel: `post` has `limit + 2` rounds, since
-- each round but the last retries, at most `limit` times, or drops the strict schema, once; `decimal`
-- has one round more than its number. Every other loop is over a list or is cut into its passes.
-- Random numbers, the lower-casing and sanitising of a text and the two decimals of a confidence are
-- arguments.
--
-- Not modelled: log lines, listeners and the wake-up calls of `asyncio.Condition` (a woken task is an
-- event of its own); graph queries, the rest of the model providers, ingestion, reports, routes and the command line,
-- which are I/O over third-party packages. What `re` takes for a digit, a word character or a blank
-- is an argument of the pricing functions.
pub mod Prelude
pub mod Settings
pub mod Memory
pub mod Governor
pub mod RateLimit
pub mod State
pub mod Sessions
pub mod Budget
pub mod Jobs
pub mod Peers
pub mod Broadcast
pub mod Retry
pub mod Dispatch
pub mod Rounds
