-- ===== src/Lib.antt =====
-- Operandi runs OCR workflows on an HPC cluster. A server takes workflows, workspaces and jobs
-- and puts messages into queues; three workers of a broker consume them: the first sends a job
-- and its workspace to the HPC, the second asks for the state of the slurm job, the third fetches
-- the results. All of them share one database. This library models the states, the database, the
-- client of the HPC, the three workers, the handlers of the server around a job, and the converter
-- of OCR-D workflows into the scripts that the HPC runs, and proves what they do to the documents
-- and which scripts are made.
--
-- Files and code:
-- - Common: helpers. Effects has Python's exceptions and methods that change a state; what was
--   written before a raise stays written. Documents has `find_one` and `save` of a collection.
--   Rules has conditions before and after an action, and the rules of their composition.
-- - Constants: src/utils/operandi_utils/constants.py. Slurm and Job have the state enumerations,
--   Images the table of container images.
-- - Database: src/utils/operandi_utils/database. One record for each document (Models,
--   ModelsStats), one module for each `db_*.py`, with a list for each collection. Keyword
--   arguments of an update are a list of the cases of Updates. A date is a number; the clock and
--   fresh ids are arguments.
-- - Hpc: src/utils/operandi_utils/hpc. ExecutorUtils reads a listing of `sacct`, Executor has the
--   status check, the polling and the submission of nhr_executor.py, Transfer has nhr_transfer.py.
--   What the SSH and SFTP clients answer, at each attempt, is a parameter.
-- - Broker: src/broker/operandi_broker. Worker has what the workers share, Status, Download and
--   Submit have the callbacks of job_worker_status.py, job_worker_download.py and
--   job_worker_submit.py. A callback changes a `Site`: the database, the attributes of the
--   worker, the local paths, the acknowledged tags and the published messages. Handover takes a
--   message from the second worker to the third. Processes has the processes of broker.py and
--   broker_utils.py, by the answers to fork and to signals.
-- - Server: src/server/operandi_server. Users has the accounts (user_utils.py,
--   password_utils.py), Resources the look-ups of workflow_utils.py and workspace_utils.py,
--   Submission the handler that queues a job and the one that asks for its state (workflow.py),
--   with what an answer takes in Submission/Accepted, Metadata what the server reads from a
--   script, with the parts that the converter writes in Metadata/Processes and Metadata/Merge. A
--   handler changes a `Server`: the database, the published messages and the directories. An
--   `HTTPException` carries its status.
-- - System: the server and the three workers on one database, as steps; which documents it can
--   reach is in Reachable. Consistency of a component says what its steps keep.
-- - Oton: src/utils/operandi_utils/oton. Shlex has the lexer of Python's `shlex.split`, Arguments,
--   Parser and Validator have process_call_arguments.py, ocrd_parser.py and ocrd_validator.py,
--   ProcessBlock and WorkflowBlock the blocks, Parameters and Executable nf_file_executable.py,
--   Converter the text of a script, oton_converter.py and the command `convert`. The package `ocrd`
--   and the table of tools are a parameter (`Ocrd`), and so are the files (`Files`).
-- - Tests: the theorems at concrete inputs.
--
-- Bounds and fuel: the loops over a number of tries recurse on it. Only the polling loop of the
-- executor has fuel; `poll_terminates` says how much is enough, and for which arguments there is
-- an end at all. Numbers are natural numbers: no count of the program is negative.
--
-- Not modelled: logging, the connections to MongoDB, RabbitMQ and SSH, the command line, the
-- other handlers of the server, the client and the harvester. The command `validate` of the
-- converter is the method `validate`. `int` of a message reads decimal literals without a sign or
-- underscores; for the id of a slurm job it reads both, but no digits outside of ASCII. The
-- quotient of the polling loop is taken as exact, as the float is below 2 ^ 53. A message for the
-- download worker holds the state; Handover takes its text, which depends on the version of
-- Python, as a parameter. An update of the attribute `ocrd_mets`, which no document has, raises;
-- which exception is a parameter.
pub mod Common
pub mod Constants
pub mod Database
pub mod Hpc
pub mod Broker
pub mod Server
pub mod Oton
pub mod System
pub mod Tests
