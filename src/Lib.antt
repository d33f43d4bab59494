-- ===== src/Lib.antt =====
-- bilive records live rooms, cuts the recordings into slices and publishes the slices on Bilibili.
-- This library models the parts of it that decide what is published.
--
-- Base holds the lists, tests and texts that all parts share.
--
-- UploadPath and UploadQueue model src/db/conn.py: the SQLite table upload_queue as a list of rows in
-- the order of their ids, and the functions of that file that write the table as functions from the
-- table to the table, under their names. SQLite runs such a function as one transaction
-- (`begin immediate`), so an interleaving of processes is a list of transactions. Files:
--   Table      rows, statuses and lookups (`_fetch_item`)
--   Supply     what the pipeline and the dashboard write: insert, stage, activate, requeue, withdraw,
--              delete, lock
--   Consume    what the consumer writes: peek, claim, complete, publish, fail, retry, defer, recover
--   Read       the counts, pages and selections that only read
-- The others hold proofs: on the well-formedness of the table (Valid, Transactions), on claims
-- (Claims, Held, Resume, Unique), on retries (Retry) and on bytes already sent (Sent, Resend).
--
-- Performance models the table slice_performance of the same file.
--
-- UploadWorker models one cycle of src/upload/worker.py as a function on a World: the database, the
-- files, the calls made so far and the status file. `process_one` is cut into the functions of Process
-- at its calls of the client; what the client (src/upload/bilibili_runtime.py) answers, and what other
-- processes commit to the queue during each call, are fields of the record Client. A write of the
-- status file and a deletion can fail, as fields of World say. Calls of the database do not fail.
-- Protocol, Races, Reopened and Delivery hold proofs, Keeps lemmas on steps that leave the database as it
-- is.
--
-- Bursts models src/autoslice/burst_detector.py, which finds the bursts of comments that become slices:
-- Density the series of comments by second, the baseline and the flags; Segments the flagged stretches
-- and their merging; Events the slice around a peak, the order and the selection; Detect the whole.
-- Times there are milliseconds, and densities are exact fractions where the source has floats.
--
-- ActionJobs models src/server/action_jobs.py, the directory of job files between the dashboard and the
-- Windows worker: Files the directory, Submit the submission, Work claim, recovery, progress and end, Loop
-- the loop of the worker. Setting a damaged file aside can fail, by a parameter; the other renames and
-- writes of job files do not. A payload is its JSON text, so two payloads are the same where their texts
-- are. Resubmit, Claims, Choice, Counts, Drained and Kept hold proofs.
--
-- Lifecycle models src/dashboard/source_lifecycle.py: State the state file of a recording and its
-- mutators, Review the view that offers a recording for the trash, Experience the log of what reviews
-- and failures showed, Streamer the recommendations drawn from it, Technical the failures. Eligible,
-- Repeats and Reviewed hold proofs.
--
-- Trash models src/dashboard/recording_trash.py: Package the files that belong to a recording, Plan the
-- checks before they may go, Run the resumable run that moves them, one file at a time. Safe,
-- Authorized, Untouched, Retry, Retried and Outputs hold proofs. A file is a path below the directory of
-- the videos; what `Path.resolve` makes of a text, the call of the Windows shell and the order of
-- `sorted` are parameters.
--
-- Stages models the two stages of src/burn/pipeline_stages.py that put a slice into the upload queue:
-- Queueing the stages, Staged proofs.
--
-- Edit models src/autoslice/edit_instruction.py and src/autoslice/edit_instruction_builder.py: Json the
-- values of a JSON file, Instruction the classes and their conversions, Build the builder; RoundTrip and
-- Fits hold proofs. Times and scores are integers of thousandths, where the source has floats; what
-- Python's conversions make of unexpected values is a parameter.
--
-- UploadLock models src/upload/lock.py, one file system call at a time; IdleWatchdog models
-- src/server/worker_idle.py; TaskMarkers models the status and the buttons of
-- src/dashboard/task_state.py.
--
-- Elsewhere times are natural numbers, of one unit throughout. Error messages are lists of code points. A
-- decimal number is printed by `digits` with fuel n + 1, and n has at most n + 1 digits.
--
-- Examples applies the theorems to concrete tables and inputs.
--
-- Not modelled: the schema migrations and connections of src/db/conn.py, delete_all_queue, the HTTP
-- client, the edits of profiles of src/dashboard/source_lifecycle.py, the reading of
-- SRT files, the work that an action job dispatches to with its result texts, and the parts of the program
-- that run other programs (recording, rendering, transcription) or serve pages.
pub mod ActionJobs
pub mod Base
pub mod Bursts
pub mod Edit
pub mod Examples
pub mod IdleWatchdog
pub mod Lifecycle
pub mod Performance
pub mod Stages
pub mod TaskMarkers
pub mod Trash
pub mod UploadLock
pub mod UploadPath
pub mod UploadQueue
pub mod UploadWorker
