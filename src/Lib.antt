-- ===== src/Lib.antt =====
-- MisakaAssetGene: verification of the local assistant's decision logic.
--
-- The program is a local service (core/main.py) that leads a user from a conversation to generated
-- assets. These parts of it decide what happens, and are modelled:
--
-- - the scheduler (core/scheduler/vram.py, `ModelScheduler`) places models in VRAM, in RAM or on disk,
--   and lends the VRAM to one training job at a time;
-- - the consultant (core/consultant/state_machine.py, engine.py, session_store.py) is a dialog that
--   asks for the slots of a checklist and then goes on to a plan;
-- - the fidelity loop (core/consultant/fidelity_loop.py) repairs an image in rounds: it selects failed
--   checks of a critique, builds a mask for them, and decides after the round whether to go on; its
--   tables (core/consultant/fidelity_store.py) let one caller claim a round, and its service
--   (core/consultant/fidelity_service.py) runs the rounds, one on request or several on its own;
-- - the vision critic (core/llm/vision.py), which the fidelity loop asks for its verdicts, trusts a
--   verdict only behind its gates;
-- - the training executor (core/training/executor.py, service.py) runs queued jobs one at a time, each
--   under the scheduler's exclusive lock;
-- - the mask editor (core/editor/mask.py) turns boxes into the mask of a repaint, for a user's request or
--   for a round of the fidelity loop;
-- - the refine planner (core/generation/refine.py) chooses how a picture is refined and composes the
--   prompt of the result;
-- - the references between projects (core/project/cross_project.py) have a syntax and may run in cycles,
--   which are searched for; a reference resolves to a live file or to a copy;
-- - the network state (core/network/service.py, state.py) says whether a cloud provider may be used,
--   and the origin guard (core/network/origin_guard.py) which requests may change anything.
--
-- The mask of a round is what core/editor/mask.py makes of the boxes that
-- core/consultant/fidelity_loop.py gives, and Editor/Mask/Repaint is about the two together. The
-- rest meets in the service: a job takes its model by `acquire`, the plan of a dialog becomes such
-- a job, a round of the fidelity loop is a refine job, and a training job keeps all models out of
-- VRAM.
--
-- Files, by the code they model:
-- - Prelude, with children: the shared names, lists over the native numbers, results of a call as a
--   value and a state (`Exec`), and integers.
-- - Scheduler: the types and every method of `ModelScheduler`, under the methods' names without a
--   leading underscore (`_record` is `record_transition`, `_free_vram_for` is `free_vram_for`). A
--   call is a function from a `Scheduler` to a result and a `Scheduler`; every public method holds one
--   re-entrant lock, so a call is one atomic step. Table, Steps, Moves: what a write does. Candidates,
--   Bounds, Acquire: eviction. Valid, Calls: invariants over sequences of calls. Tick, Log, Report: the
--   idle rules and the log. Training, Lock: the training lock.
-- - Dialog: state_machine.py; Dialog/Checklist and Dialog/Progress about it. Dialog/Engine: engine.py
--   and session_store.py, with the table of sessions as a list of rows and the planner's result as an
--   argument; Dialog/Engine/Sessions about it.
-- - Fidelity: fidelity_loop.py, with its helpers on boxes in Fidelity/Geometry. Selection, Masks,
--   Outcome and Summary are about one operation each. Fidelity/Planning is the rest of the file (tags,
--   strategy, refine request, `plan_round`), with Tags and Plans about it; `casefold` is an argument
--   there, since Unicode's table of foldings is not part of the program. Fidelity/Store is
--   fidelity_store.py, with Claims about it; the ids that `uuid4` gives are arguments.
-- - Fidelity/Service: core/consultant/fidelity_service.py over the store. A call is a function from a
--   `World` (the tables, the locks that are taken, the number of outside calls so far) to a result and
--   a `World`; the outside is the record `Io`, whose n-th answer may be an exception. Service/Requests
--   has `start_loop`, `advance` and `get`; Posts, Rounds, Auto, Live and Requests/Claimed are about it,
--   with the rules for partial and total correctness in Prelude/Raising.
-- - Training: executor.py over Scheduler. A run is a list of events: the reports of the process and the
--   calls that other threads make meanwhile, each of which is one step, since each holds the lock.
--   Training/Checkpoints is the search for a state to resume from. Table, Stable: updates of a job, and
--   what the steps of a job keep. Frame: the scheduler during a job. Settled, Queue, Drain: the queue.
--   Found, Outcome: what becomes of a job. Training/Service is core/training/service.py, whose table of jobs is
--   the executor's; its Submitted is about a job that is submitted.
-- - Vision: vision.py, where a provider is a function from the number of the call to an answer.
--   Gates, Verdicts and Opinions are about the gates, Sound and Returns about a critique.
-- - Stream: the loop that the two progress streams share, in Training/Service/Stream
--   (`stream_job_progress`) and Fidelity/Service/Progress (`stream_loop_progress`).
-- - Network: service.py and state.py; the probes are arguments. Network/Gate is about it, and
--   Network/Texts about the equality of texts. Network/Origin: core/network/origin_guard.py, where
--   `urlsplit` is a parameter; Network/Origin/Rejects about it.
-- - Project: References is `parse_reference`, whose regular expression is written as a parser of its three
--   parts, with Spans and Parsed about it. Cycles is `detect_cycles`, with the directories and the references of a
--   project as arguments; Walks, Reported and Loops are about it.
--   Resolve is `resolve_reference` and what `materialize_reference` decides, with what is found on disk as
--   an argument; Confined is about it.
-- - Editor: core/editor/mask.py. Image is the size probe and the PNG writer, with zlib as arguments;
--   RoundTrip and Scan are about it. Mask is the rasterizer, whose grid is a function of the index; Pixels
--   and Painted say what the loops leave in a pixel, Covers what the mask is as a set, Bounds where they
--   write, Built what a request gives.
-- - Generation: core/generation/refine.py, with the keyword tables in Keywords and the tables behind
--   `str.lower` and `str.casefold` as arguments; Stages, Plan and Prompt are about it. It shares the tags of
--   Fidelity/Planning, whose Fields and Keys are about texts of tags.
-- - The Examples modules run the definitions on concrete inputs.
--
-- Loops are recursion on the list that the source runs over: the `while` of `_free_vram_for` ends
-- with its list of candidates. Six loops have fuel. The decimal digits of a port have one more
-- than the number, which has fewer digits. `run_auto_continue` has the rounds that its own guard
-- allows. `run_until_idle` has the items that it takes, for which the length of the queue is
-- enough where none is added meanwhile. A stream has the polls that it makes, and one more than
-- the polls before the end is enough. `detect_cycles` has one more than the number of projects,
-- since the projects on a way differ, and the scan of a JPEG the number of its bytes, of which
-- each turn uses one. A time, a VRAM size and a pass count are integers; Python's do not overflow.
-- A float (a confidence, an overlap) is read only through comparisons: a confidence is a number
-- with the order of the floats, and a quotient is compared by its cross products. The values of a
-- mask are exact fractions, where the source's floats are rounded.
--
-- Not modelled: the HTTP routes, the workers and language models behind HTTP, files and SQLite (a
-- table is a list of rows here), the decoding of pictures, texts made by formatting, the copies of
-- assets between projects, the development tools, and the user interface. The planner's keyword
-- heuristics are an argument of the engine.
pub mod Prelude
pub mod Scheduler
pub mod Dialog
pub mod Fidelity
pub mod Network
pub mod Training
pub mod Vision
pub mod Stream
pub mod Project
pub mod Editor
pub mod Generation
