-- ===== src/Lib.antt =====
-- ragbench: a verification library for the decision logic of the benchmark.
--
-- The program answers questions over a document corpus by retrieval-augmented generation and
-- measures how well it does. A question goes to a hybrid retriever (dense and lexical branches,
-- fused by reciprocal rank), the hits become a context within a token budget, a metered gateway
-- generates an answer from it, and the answer's citations are resolved against that context. The
-- gateway reserves money before it calls the provider. Rankings are scored against labelled evidence.
--
-- Which file models which part:
--   Money: src/ragbench/core/money.py. `Repository` is `MemoryBudgetRepository`, its methods are state-passing
--     functions of the same names; Money/Sql is `SqlAlchemyBudgetRepository` over the tables of
--     src/ragbench/db/models.py; `guard_reserve` is `BudgetGuard.reserve`. `Step` and `Reach` are the
--     calls that tasks make, in any order: each method runs under a lock, so that calls do not overlap.
--   Retrieval: src/ragbench/retrieval/base.py; Retrieval/Rrf: rrf.py; Retrieval/Hybrid: service.py.
--   Evaluation/Metrics: src/ragbench/evaluation/retrieval.py; Evaluation/Bootstrap: the alignment of
--     bootstrap.py.
--   Evaluation/Judge and Evaluation/Identifiers: src/ragbench/evaluation/judge.py.
--   Rag: the records of src/ragbench/rag/; Rag/Serialize and Rag/Context: context.py; Rag/Citations and
--     Rag/Parsing: citations.py; Rag/Prompts: prompts.py; Rag/Service: service.py.
--   Pricing: src/ragbench/providers/upstage/pricing.py, the estimates that reservations are made for. Rates are
--     not negative; a price of more than 28 digits raises, as `quantize` does.
--   Gateway: the cache in memory and the retries of src/ragbench/providers/upstage/client.py; Gateway/Calls and
--     Gateway/Calls/Metering: `UpstageGateway.generate` there. A call names its awaits, and what other tasks do
--     to the budget and the cache meanwhile is a parameter.
--   Experiments: src/ragbench/experiments/config.py, and the axes and the uniqueness check of
--     planner.py; Experiments/Grid: the grid of planner.py and the validators of config.py; Experiments/Shortlist:
--     `select_retrieval_shortlist` of selection.py; Experiments/TopThree: `select_generation_top_three`
--     and `reconcile_provider_billing` there.
--   Experiments/Runs: runner.py; Runs/Settings the validators of its configs, Runs/Plan the dry run and the
--     gate before paid execution, Runs/Repository `FileExperimentRepository` over a root of directories,
--     Runs/Execution and Runs/Execution/Control `ExperimentRunner`: a run is a schedule of events (a worker
--     is admitted, a question's execution ends), in any order that the semaphore allows.
--   Chunking: src/ragbench/chunking/models.py; Chunking/Tokenizer: tokenizer.py, with Python's UTF-8 codec
--     in Chunking/Utf8; Chunking/Fixed: fixed.py; Chunking/Heading: heading.py. A text is the list of its
--     code points.
--   Benchmark: src/ragbench/benchmark/splits.py, the review records, their adjudication and the gate of
--     the gold split.
--   Prelude: Python's integers, errors, dicts, sorting, strings and numerals, and floats as an interface
--     of the facts of IEEE 754 that the proofs rely on, with an instance that the examples run in.
--   Tests: runs on small inputs, and each result applied to one.
--
-- Documents are cut into chunks before retrieval, and an experiment asks its questions of the service and
-- keeps each answer as a file of its run.
--
-- State is passed explicitly: a method takes the state and returns a result with the state after it.
-- An exception is `err` with the error that the source raises. Loops are recursions on the list that
-- they go through. The fuel of a numeral's digits is the number plus one; each round divides it by ten. The
-- window loop of the tokenizer has as many rounds as the text has tokens: each starts a window later.
--
-- Parameters: what the standard library reads of a `Retry-After` header, the tokenizer's `encode`, the template files, pydantic's validation, and what a
-- service is constructed with (retrievers, evidence source, gateway). Clock readings and fresh
-- identifiers are arguments, and so are the SHA-256 hashes of configurations, chunks and plans.
--
-- Not modelled: ingestion, embeddings, embedding and parsing by the provider, the SQL cache, the database session, the API and
-- the command line, which are I/O; the YAML loader; screening, the rest of benchmark construction, resampling
-- and the analysis.
pub mod Prelude
pub mod Money
pub mod Retrieval
pub mod Tests
pub mod Evaluation
pub mod Rag
pub mod Experiments
pub mod Pricing
pub mod Gateway
pub mod Benchmark
pub mod Chunking
