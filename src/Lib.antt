-- ===== src/Lib.antt =====
-- The scheduling gateway, the output-length predictor and the vLLM port of SmolLM3.
--
-- The program puts a gateway in front of a vLLM server. A chat request reaches
-- `SchedulerGateway.submit_chat` or `submit_chat_stream`, which builds a `ScheduledRequest` and
-- hands it to a scheduler: first come first served, shortest job first by a predicted output
-- length, or the oracle that knows `max_tokens`. Workers acquire requests from the scheduler and
-- forward them to the server; the reply resolves the request's future or feeds its stream. The
-- predictor is trained from datasets by a loop with early stopping and exported for three backends.
-- Benchmarks simulate workers over the schedulers, and reports are made of their results. Apart
-- from these stands the port of the SmolLM3 model to vLLM, with two scripts that enter it into a
-- vLLM checkout.
--
-- Which module models which file:
--   Queue               python/scheduler/priority_queue.py
--   Scheduler.Base, Scheduler.Oracle.Interface
--                       python/scheduler/base_scheduler.py
--   Scheduler.Fcfs      python/scheduler/fcfs_scheduler.py
--   Scheduler.Aging     python/scheduler/aging.py
--   Scheduler.Sjf, Scheduler.Oracle
--                       python/scheduler/sjf_scheduler.py
--   Gateway             python/scheduler/gateway.py
--   Predictor.Features, Predictor.Extractor
--                       python/predictor/features.py, python/predictor/feature_extractor.py
--   Predictor.Result, Predictor.Inference
--                       python/predictor/predictor.py, python/predictor/inference.py
--   Predictor.Model     python/predictor/model.py
--   Predictor.Dataset   python/predictor/dataset.py
--   Predictor.Training  python/predictor/trainer.py
--   Pipeline            python/training/train.py, python/training/evaluate.py,
--                       python/predictor/export.py
--   Benchmark.Metrics   python/benchmark/metrics.py
--   Benchmark.Simulation, Benchmark.Shared
--                       python/benchmark/fcfs.py, python/benchmark/sjf.py
--   Reports             python/benchmark/compare.py, python/evaluation/generate_report.py
--   Vllm                vllm_port/smollm3.py; Vllm.Build has the constructors of Vllm.Modules
--   Patch               scripts/patch_registry.py, scripts/patch_init.py
--   Prelude, Dict, Codes
--                       shared helpers, Python dictionaries and sets as lists, and strings as
--                       lists of code points
--   Floats, Heapq       what the code uses of `float`, `math` and `heapq`, as interfaces
--   Tests               runs on concrete inputs
-- A function keeps the name of the method that it models; a record keeps the names of the fields,
-- without the leading underscore.
--
-- State is passed explicitly. A coroutine that holds its lock is one step; where one waits, the
-- calls of other tasks meanwhile are an argument (`Queue.Runs.Round`), and theorems hold for all of
-- them. The gateway with its clients, workers and server (`Gateway.Dispatch`) and the simulated
-- benchmarks are systems of steps in any order. Request objects that several tables share are
-- references into a memory (`Scheduler.Sjf.SjfScheduler.objects`). Exceptions are `none`, `false`
-- or a constructor of a result type.
--
-- Parameters: `float` is any type with an instance of `Floats`, of which `Floats.Fixed` is one that
-- computes, with its order (`FloatOrder`) and the monotonicity of its operations (`FloatArith`) as
-- named hypotheses; values are finite. `heapq` is any instance of `Heapq`, whose laws are what its
-- documentation says; `Heapq.Sorted` fills it with a sorted list. The clock, the network, regular
-- expressions of the predictor, Unicode's tables and which characters make a word, the hash, random
-- permutations, the step on a batch of training data, how a float is written, the server's answers
-- and tensors are arguments. Request ids are natural numbers, of which only equality is used.
--
-- Fuel: the inner loop of `dequeue` runs on the length of the heap, which is enough since each
-- round pops one item. The digits of a number run on the number and one, more than it has digits.
-- The training loop runs on the number of epochs. All else is structural recursion.
--
-- Not modelled: the neural network and PyTorch, files and downloads, plots, loggers and command
-- lines, the constant, metrics and proxy routes and the configuration of the gateway, the audit
-- scripts, and the Go and C++ parts.
pub mod Prelude
pub mod Floats
pub mod Codes
pub mod Dict
pub mod Heapq
pub mod Queue
pub mod Scheduler
pub mod Predictor
pub mod Gateway
pub mod Vllm
pub mod Benchmark
pub mod Patch
pub mod Pipeline
pub mod Reports
pub mod Tests
