-- ===== src/Lib.antt =====
-- A formal model of inference-forge, a batch pipeline that classifies support tickets.
--
-- The parts and their files:
--   Breaker    inference_forge/pipeline/circuit_breaker.py: the class CircuitBreaker. Breaker.antt
--              has its state and helpers, Breaker/Call.antt its call under interference, and
--              Breaker/Tasks.antt the tasks of an event loop that share one breaker. Breaker/Starts.antt
--              counts the calls that they start.
--   Estimator  inference_forge/pipeline/estimator.py: classify, breakdown, classify_many, and in
--              Estimator/Eta.antt the class ETAEstimator.
--   Batcher    inference_forge/pipeline/batcher.py: the class PriorityBatcher.
--   Cache      inference_forge/pipeline/cache.py: the class DeduplicationCache, over a Redis client.
--   Caller     inference_forge/pipeline/caller.py. Thinking.antt and Extract.antt have the text of a
--              model's answer, Request.antt and Answer.antt _single_api_call before and behind the
--              response, Retry.antt _call_with_retry, Service.antt the class SarvamCaller, and
--              Pool.antt its tasks, which share the cache and the semaphore. Metered.antt is what a run
--              of the retry loop adds to the metrics, and Down.antt has tickets whose calls all fail.
--   Jobs       inference_forge/pipeline/job_store.py (Store.antt) and inference_forge/api/routes.py:
--              Submit.antt has process_tickets, Process.antt _process_job, Results.antt
--              get_results and the stream of events, Stream.antt stream_job over what a job published,
--              Whole.antt a request to its end, and Faults.antt and Intake.antt a job and
--              the end of process_tickets whose Redis fails. These see the keys of one job;
--              Shared.antt has the server that all jobs share, Shared/Requests.antt the calls of a
--              job there, and Shared/Served.antt get_results. Shares.antt and Named.antt say whose
--              each result is.
--   Schemas    inference_forge/api/schemas.py: the validation of a request.
--   Metrics    inference_forge/observability/metrics.py: the window of latencies and the
--              totals, and in Registry.antt the counters and the histogram beside them.
--   Config     inference_forge/config.py: the settings, and the level of observability/logger.py.
--   App        inference_forge/main.py: lifespan, and create_app in Create.antt; App/Health.antt has
--              health_check of api/routes.py, App/Health/Active.antt the count of active jobs that it
--              shows, and App/Logging.antt configure_logging of observability/logger.py.
--   Benchmark  benchmarks/run_benchmark.py: its sizes, tickets, runs and summaries.
--   Scripts    scripts/dump_one_sarvam_roundtrip.py and scripts/debug_parse.py.
--   Json       the values of Python's json module, and dict.
--   Text       the methods of Python's str that these call, over code points.
--   Errors     the exceptions that pass between the parts.
--   Base       shared names, lists, permutations, fractions, and numbered tasks.
--
-- The batcher asks the estimator for the complexity of each ticket, which gives its priority and
-- the size of its batch. The caller looks each ticket up in the cache, and else runs the retry loop,
-- each attempt of which goes through the breaker. A job drains its batcher, gives each batch to the
-- caller and keeps its books in the store, from which the endpoints answer.
--
-- The paths above stand below src/ in the repository.
--
-- Choices. Times are readings of a clock in nanoseconds: `clock i` is the i-th reading, so each
-- call of time.monotonic() is a reading of its own. The floats of the estimator are exact
-- fractions, with no rounding. asyncio.PriorityQueue is an interface with its documented laws,
-- and Batcher/Ordered.antt meets it. Draining runs on fuel, and the length of the queue is enough.
-- Redis, SHA-256, str.lower, float() and json.loads are parameters; the theorems on the cache ask
-- of Redis that GET returns what SET NX stored first. The API is any function of the attempt and
-- the breaker.
--
-- The breaker, the semaphore and the counts are those of one process. The deployment runs two
-- workers, each with its own. No key expires: the time to live that the store sets has no effect
-- here, and the theorems on the cache are about runs in which no key expires. The setting
-- retry_backoff_base, which may be negative, is a fraction of at least 0.
--
-- Where tasks interleave, a step relation has one step for what a task does between two
-- suspensions: the breaker's tasks, those of the caller with its semaphore, and the jobs' tasks.
--
-- Not modelled: the log's entries but for the breaker's transitions, the text that Prometheus is
-- given, the refusal of tokens that are no number, the cancellation of a task that waits for the
-- breaker's lock, the mock mode in the metrics of a run (nothing is recorded there), the reading
-- of the environment, the text of the benchmark's tickets with its cost and tables, and the manual
-- tests among the scripts, which run the caller at fixed inputs.
pub mod Base
pub mod Errors
pub mod Breaker
pub mod Text
pub mod Estimator
pub mod Batcher
pub mod Json
pub mod Cache
pub mod Caller
pub mod Jobs
pub mod Config
pub mod App
pub mod Benchmark
pub mod Schemas
pub mod Metrics
pub mod Scripts
