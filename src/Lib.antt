-- ===== src/Lib.antt =====
-- PipeLens analyses failed GitHub Actions runs. A webhook stores a run and puts a job into a queue;
-- a worker takes the job and runs the analysis over it, which reads the logs, cuts them into chunks,
-- takes secrets out of them, classifies the failure, asks a model for a diagnosis, checks the diffs
-- that the diagnosis suggests, and publishes the result. Each attempt holds a token in the row of
-- its run, and the store refuses what an attempt writes after another one has begun.
--
-- Common: texts as lists of code points, lists, Boolean tests and sets, used by all others.
-- Models: src/pipelens/models.py, and the columns of the table `analyses`.
-- Table: the statements of SQL over a list of rows. Table.Keyed, Table.Rows and Table.Order: lemmas on
--   a primary key, on inserts and deletes, and on an ordered select.
-- Store: src/pipelens/store.py, `AnalysisStore`. A method takes the time that it reads from the
--   clock and the store, and returns its result and the store; an exception is `err`, and undoes the
--   writes of its transaction. `update` is `update_analysis`, `delete` is `delete_analysis`, and the
--   foreign keys are those of a database that enforces them. Store.Fencing and Store.Lifecycle have
--   theorems on attempts, Store.Holding follows the row of the attempt in progress, Store.Lease is
--   the abstract view of a run as a lease, Store.Followup has the runs that resolve a failed one and the feedback,
--   Store.Accounts the users, their sessions and installations. The reads of the store that make
--   pages of records are not modelled.
-- Queue: src/pipelens/queue.py. Queue.Memory is `InMemoryAnalysisQueue` with the count of unfinished
--   tasks of `asyncio.Queue`; Queue.Redis is `RedisAnalysisQueue`, where a Lua script is one step on
--   the lists and sets in Redis. The JSON of pydantic is a parameter, `Codec`, of which the model
--   uses that reading what was written gives it back. Two workers interact through the lists only,
--   so an interleaving of their calls is a sequence of steps (`Step`, `Reach` in the Runs modules).
-- Worker: src/pipelens/worker.py, `process_next`, over any queue of the interface `QueueApi`. The
--   analysis is an argument, which returns or raises and may change the queue and the store.
--   Worker.Maintenance is one round of `_maintain_queue_once`; Worker.Analysis puts the pipeline in
--   as the analysis.
-- Preprocessing: src/pipelens/preprocessing.py.
-- Regex: the engine of Python's `re` on the patterns of the source, by backtracking. It is
--   structural in the pattern, and a repetition runs on as much fuel as there are characters left,
--   which is enough as a round that takes none ends it. The classes of characters outside ASCII are a
--   parameter, `Unicode`.
-- Sanitizer: src/pipelens/sanitizer.py.
-- Classifier: src/pipelens/classifier.py, with the rules in Classifier.Rules.
-- Patching: src/pipelens/patching.py, `apply_unified_diff`. A `PatchError` is a value. The digits of a
--   hunk's header are those of ASCII. Patching.Policy and Patching.Verify are the checks that a
--   suggested diff passes before it is kept; the parsers of YAML, TOML and JSON are a parameter,
--   `Parsers`. Patching.Bumps finds versions to raise in a log, Patching.Propose makes diffs of them;
--   `difflib.unified_diff` and `re.sub` with its template are parameters, and the name of a pin is
--   compared without case in ASCII only.
-- Diagnosis: src/pipelens/diagnosis.py.
-- Llm: src/pipelens/llm.py: the context that is sent to the model, and the reading and validation of
--   its answer. The encoder and the reader of JSON are parameters. The loops that shorten the
--   context run on as much fuel as there are files, and then characters in a text.
-- Relevance, Publication: src/pipelens/relevance.py, and src/pipelens/publication.py with the format
--   of a percentage as a parameter. Scores and confidences are millionths.
-- HttpRetry: src/pipelens/http_retry.py. The replies, the clock, the random numbers and the readers of
--   header values are parameters; the loop is recursion on the attempts that are left.
-- Pipeline: src/pipelens/pipeline.py. `Services` is what the pipeline calls: GitHub, the model, the
--   clock, and `others`, what other workers do to the store between two of its calls. A stage
--   (`with_stage`) is a function on the store and the log of what was sent, which returns or raises.
--   Pipeline.Steps has the parts of the stages, Pipeline.Analyze the stages and `analyze`. The
--   durations of stages, the cost of the model and the counts of redactions are left out.
-- Github: `_trust_level` and `_resolve_external_pull_request` of src/pipelens/github.py; the list of
--   pull requests is a parameter.
-- Auth: src/pipelens/auth.py, `authenticate` over the store of accounts, with Fernet and the hash as
--   parameters; Auth.State is the state of the login.
-- Webhook: `github_webhook` and `reconcile_queued_analyses` of src/pipelens/main.py, and
--   src/pipelens/security.py. HMAC, the reader of the payload and the queue are parameters.
--
-- Times are whole microseconds since the epoch; `duration_seconds` is an integer, which is negative
-- when the clock goes back. A loop of the source over text is recursion on the text, or on fuel that
-- is the length of what is left.
--
-- Not modelled: the other calls of github.py, the other routes of main.py, the login itself in auth.py,
-- bootstrap.py and config.py, the prompt and the request to the model in llm.py, the task loops of
-- worker.py, metrics.py and the scoring scripts (evaluation.py, patch_evaluation.py), the operation
-- scripts, the migrations and the frontend: I/O, glue around frameworks, or another language.
pub mod Common
pub mod Models
pub mod Table
pub mod Store
pub mod Queue
pub mod Worker
pub mod Preprocessing
pub mod Patching
pub mod Diagnosis
pub mod Llm
pub mod Publication
pub mod Relevance
pub mod Pipeline
pub mod Webhook
pub mod Auth
pub mod Github
pub mod HttpRetry
pub mod Regex
pub mod Sanitizer
pub mod Classifier
