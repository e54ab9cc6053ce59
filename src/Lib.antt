-- ===== src/Lib.antt =====
-- devops-agent-msk-mcp: a server with diagnostic tools for Kafka clusters on MSK, as a model of its
-- Python code with theorems about it.
--
-- How the program is put together. `build_context` of src/msk_mcp/server.py loads the settings and the
-- registry of clusters, makes the cache of AdminClients, renders one properties file for each cluster,
-- and hands these to the tools. A tool looks its cluster up, asks the cache for a client or the
-- manager for a properties file, calls Kafka or runs a `kafka-*.sh` subprocess, and its decorator
-- turns whatever it raises into an envelope.
--
-- The files:
--   Base and its children: what Python gives the code, over lists of code points: `find`, `split`,
--     `strip`, `int`, `str`, dictionaries in insertion order, stable sorting, with their lemmas.
--     What only Unicode's tables say is a record of functions, `Unicode`.
--   Errors: src/msk_mcp/errors.py. `Result` is a value or what was raised; `handle` is the wrapper's
--     except clauses. Errors/Laws has the theorems.
--   Config: src/msk_mcp/config.py. Registry, settings, allowed hosts.
--   ClientProperties: src/msk_mcp/client_properties.py. The state is the table of paths with the
--     files on disk; `get_path` and `render_all` return the next state or an error. How `mkdir`,
--     `write_text` and `chmod` end is a parameter, `FileSystem`: each ends in the same way
--     whenever it is given the same path and text. A failing write may leave any text.
--   KafkaClients: src/msk_mcp/kafka_clients.py. The state is the table of clients.
--   CliExecutor: src/msk_mcp/cli_executor.py. `Spawn` says how the started process behaves; a run
--     returns the signals that reached the process and the result or error.
--   Tools/ResetPlan: src/msk_mcp/tools/compute_offset_reset_plan.py. Argv has the strategies and the
--     argument list, Parse the reader of the printed table, Quote the shell quoting, and the parent
--     the tool as a whole: from the properties manager to an `Outcome`, which lists the command lines
--     that were executed.
--   Bouncer: src/msk_mcp/concurrency.py. `Server` holds the free slots of the two semaphores and the
--     phase of each call; `Step` is what can happen: a call arrives, does its work, or is cancelled.
--   Tools/Topics: src/msk_mcp/tools/describe_topic.py (Describe) and
--     src/msk_mcp/tools/describe_under_replicated_partitions.py (UnderReplicated); Sets is about
--     Python's sets, Agreement about the two tools together. The calls of the client that they make
--     are the interface `TopicAdmin`.
--   Tools/Group: src/msk_mcp/tools/describe_consumer_group.py. The client's calls are the interface
--     `GroupAdmin`.
--   Tools/GroupList: src/msk_mcp/tools/list_consumer_groups.py.
--   Tools/Configs: src/msk_mcp/tools/describe_topic_configs.py.
--   Tools/Reassignments: src/msk_mcp/tools/describe_partition_reassignments.py.
--   Tools/Times: src/msk_mcp/tools/get_offsets_for_times.py.
--   Tools/Cluster: src/msk_mcp/tools/describe_cluster.py.
--   Tools/Acls: src/msk_mcp/tools/describe_acls.py.
--   Tools/Probe: src/msk_mcp/tools/test_broker_connectivity.py, from the endpoint to the failure stage.
--   Tools/LogDirs: src/msk_mcp/tools/describe_log_dirs.py. Scan has the three loops over the payload, a
--     value of the data type `Json`, with what they raise on values of another kind.
--   Tools/Cli: what the two tools share that run a subprocess.
--   CliExecutor/Deadline: the timeouts of a CLI tool inside that of `run_tool`, in milliseconds.
--   LoggingSetup: src/msk_mcp/logging_setup.py. The context variable is passed explicitly; the processors
--     of a log line are listed in their order, and what those of structlog do is not modelled.
--   Server: src/msk_mcp/server.py. `AppContext` and `build_context`; Dispatch has the tools as
--     `create_mcp` registers them: `perform` runs a tool on a context, `run_tool` adds the timeout, and
--     `Reach` is the contexts that a server passes through whose calls come one after the other. Hosts is
--     about the transport settings, Startup about `build_context`,
--     Correlation about the environment of the subprocesses, ReadOnly about their command lines.
--   Server/Calls: the calls of tools that run at once, over the one context and the two semaphores that
--     they share: a step relation whose steps lie between the `await`s of `run_tool`, of the tool and of
--     the CLI executor, with cancellation in between. A tool's first part, up to its first `await`, is one
--     step, and the only one that touches the context. View maps its states to those of Bouncer, Replies
--     is about answers, Progress and Answers about their end, Orphans about subprocesses of cancelled calls.
--   Server/App: `create_mcp`, `build_app`, src/msk_mcp/http/health.py and `main` of src/msk_mcp/__main__.py, up
--     to the arguments that Starlette and uvicorn get. Server/Service is about all of it together.
--   Tests: runs on concrete inputs, and the theorems at such inputs.
--
-- Fuel: `read_rows` is the while loop of `_parse_plan`, which takes at least one token in each round;
-- `parse_plan` gives it as much fuel as there are tokens, so that it never runs out. Integers are Python's, without bound.
--
-- Not modelled: the texts of the server's own log lines, which are those of Python's `logging`; what
-- FastMCP, Starlette and uvicorn make of their arguments, which includes the context variables that
-- FastMCP runs a tool with; the imports of confluent_kafka under its older names; the processors of
-- structlog. Parameters, since their code is elsewhere: AdminClient and its calls, the enumerations of
-- confluent_kafka, YAML, JSON, pydantic's checks of fields, floats, `repr`, `urlsplit`, paths and the
-- calls on files, sockets, clocks, the levels of `logging`, the subprocess and the bytes it prints.
pub mod Base
pub mod Errors
pub mod Config
pub mod ClientProperties
pub mod KafkaClients
pub mod CliExecutor
pub mod Bouncer
pub mod Tools
pub mod LoggingSetup
pub mod Server
pub mod Tests
