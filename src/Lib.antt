-- ===== src/Lib.antt =====
-- Impostarr checks that the files which Sonarr imported are the episodes that they claim to be. Its
-- parts hand each other work through the database. Discovery files what Sonarr has imported as rows of
-- `files` and `jobs`; a worker claims a job from the queue and processes it: it extracts assets of the
-- file, asks plugins which episodes the file holds, normalizes their candidates to Sonarr's episode
-- ids, scores and routes them, and stores a verdict; remediation then replaces or remaps the file,
-- keeping a copy in the trash, or the job waits for an operator, who decides through the API. This
-- development models these parts as functions on explicit state:
--
--   Jobs         src/impostarr/jobs.py, the Job table of src/impostarr/models.py: the queue's state
--                machine and its leases. Jobs.Rows has the rows; Jobs.Calls has the calls as the
--                repository makes them, and runs of them.
--   Worker       src/impostarr/worker.py: one pass of a worker task, from the throttle to the claim.
--   Throttle     src/impostarr/throttle.py, as the tasks of src/impostarr/worker.py share it: a
--                task's question for capacity and its token are separate steps.
--   Pipeline     src/impostarr/pipeline.py. Pipeline.Assets has the stages that extract one asset, with
--                the table of assets, and Pipeline.Assets.Fanned and Frames those that extract many;
--                Pipeline.Plugins runs the plugins, with the stored results and the budget;
--                Pipeline.Duplicates compares frame hashes; Pipeline.Process is `process_job`, which
--                puts these together with scoring, the queue and remediation, on the tables of
--                Pipeline.World.
--   Candidates   src/impostarr/plugins/base.py: what a plugin reports, with its validators.
--   Normalize    src/impostarr/normalize.py: candidates as sets of episode ids (IdSet).
--   Scoring      src/impostarr/scoring.py: `aggregate` and `route`, over the floats of Float.
--   Remediate    src/impostarr/remediate.py: Remediate.Replace and Remediate.Remap are the two
--                choreographies; Remediate.Leads, Stages, Checks, Carried and Lease are rules to reason
--                about their stages.
--   Trash        src/impostarr/trash.py and its routes in src/impostarr/api/routes.py.
--   Api          src/impostarr/api/routes.py: the routes that change a job. Api.Review has the verdict,
--                Api.Approve the approval, the rejection and the replacement, and the module itself the
--                transitions.
--   Discovery    src/impostarr/discovery.py: Discovery.History has `poll_once`,
--                Discovery.Backfill the walk over the library, and the module itself the rest.
--   RefSubs      src/impostarr/refsubs.py: RefSubs.Client has the requests to OpenSubtitles with their
--                retries, RefSubs.Fetch the search, the download and `get`, and the module itself the
--                languages, the directories and the daily quota.
--   Text         the texts that the source builds, as lists of code points.
--   Prelude      names and lemmas that the other modules share.
--
-- A function of the model has the name of the function in the source, or of the part of it that it
-- models. A session call is a function on the rows of its tables; a call that raises returns an error
-- with no rows, since its session is rolled back. What other sessions commit between two statements of
-- `claim_next`, between the SELECT of `reap_stale` and its unfenced write, or between the reads and the
-- fenced write of a route, is an argument, as is what other tasks do to the bucket in a pass of Worker,
-- and as are the answers of Sonarr, of OpenSubtitles, of the plugins, of the disk and of `os.link`. `process_job` works on a
-- world of all tables, with what was asked of Sonarr and what was published; how its body ends, by a
-- return, by a lost lease or by another exception, is a value, which the handlers around it take apart.
-- Times are numbers of ticks, paths are lists of parts, or numbers where only their equality matters.
-- Sets of ids are increasing lists.
--
-- Floats are an ordered type with the operations that scoring uses, given with the few laws that it
-- relies on; the tests run on thousandths. It also says where a division, a logarithm or an exponential
-- raises, which fusion by log-odds can do, and with it `aggregate`. `claim_next` runs on a list of what happens in each of its
-- rounds, and returns by the first round in which nothing does; `decimal` has one unit of fuel more
-- than the number it prints, which is enough. The attempts of RefSubs.Client and the rounds of Worker
-- are counted because the source counts them. No other definition has fuel.
--
-- Not modelled: the tasks and sleeps of the worker pool, its heartbeats and its shutdown, which are
-- glue of asyncio around modelled operations; cancellation from outside; the routes that only read; the
-- client of Sonarr, and the extraction and transcription of media, which are input and output; the
-- plugins themselves and the client of the language model, whose answers are arguments here; events,
-- logs, authentication, configuration and start-up; and the texts of log messages.
pub mod Api
pub mod Candidates
pub mod Discovery
pub mod Float
pub mod IdSet
pub mod Jobs
pub mod Normalize
pub mod Pipeline
pub mod Prelude
pub mod RefSubs
pub mod Remediate
pub mod Scoring
pub mod Text
pub mod Throttle
pub mod Trash
pub mod Worker
