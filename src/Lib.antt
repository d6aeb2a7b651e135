-- ===== src/Lib.antt =====
-- Verification of the opendatahub-tests repository: the code that decides what its test sessions
-- run, how the services under test are created and reached, how the pods behind them are judged,
-- and how pull requests to the repository are labelled.
--
-- Parts, and where they are modelled:
--   * Labeler: the job .github/workflows/scripts/pr_workflow.py with its constants. `Client` has the
--     code host's client as a record of answers, `Size`, `Review` and `Comment` have the handlers,
--     `Run` has the checks, the dispatch and `main`. The state is the history of calls made to the
--     host, newest first; what the host answers may depend on it.
--   * Session: conftest.py. `Collection` and `Markers` have the choice and the marking of the tests,
--     `Setup` the global configuration (with two readers of utilities/infra.py) and the reports,
--     `Gather` the table of start times of utilities/database.py and the window of must-gather,
--     `Operators` the check of the dependent operators.
--   * Serving: utilities/inference_utils.py, with constants of utilities/constants.py and label
--     selectors of utilities/general.py. `Storage` and `Spec` have the manifest that `create_isvc`
--     makes, `Readiness` its waits afterwards, `Exposure`, `Ports` and `Body` how a service is reached
--     and what it is sent, `Running` the command, and `Output` what is made of its output.
--   * Pods: utilities/general.py, utilities/infra.py and utilities/kueue_utils.py. `Images`, `Status`
--     and `Failures` judge pods, `Waiting` has the sampled waits, `Deployed` those for deployments
--     and the pod that downloads a model, `Kueue` the counts of queued pods and `Names` the generated
--     names.
--   * Catalog: tests/model_registry/model_catalog/sorting/utils.py and search/utils.py. `Properties`
--     and `Accuracy` check that an answer is sorted, with `Sorted` and `Split`; `Compared`, `Paging` and
--     `Files` check that it is that of the database, that it is complete, and the files of the pod.
--   * Cluster: utilities/infra.py, utilities/data_science_cluster_utils.py and utilities/general.py.
--     `Components` has the patch of the data science cluster inside a resource editor, which is an
--     interface with the client library's documented laws, `Reconciled` the wait after it,
--     `Namespaces` has `create_ns` and its teardown, `Sanity` the check at the start of a session,
--     `Resources` secrets, roles and config maps, `Lookups`, `Access` and `Downloads` what is read
--     from the cluster, with `Errors`.
--   * Runtime: utilities/serving_runtime.py. `Containers` has the update of a template's containers on
--     the dictionaries of `Values`, `Spec` the rest of the template.
--   * Llm: utilities/llmd_utils.py. `Service` has the service that is created from `Arguments`, `Access`
--     its gateway and its URL.
--   * OpenAi: utilities/plugins/openai_plugin.py. `Requests` has the bodies, and `Responses` the answers
--     and streams.
--   * Grpc: utilities/plugins/tgis_grpc_plugin.py. It has the requests, the channel and the reading of a
--     stream.
--   * Collector: utilities/must_gather_collector.py. `Directories`, `Command` and `Collection` have the
--     paths, the command's text and the calls of the collection.
--   * Logging: utilities/logger.py. `Filter` has the filter of duplicates, `Events` the processors,
--     `Loggers` the handlers as a state with steps, `Banner` the separator.
--   * Support: `Paths` has utilities/path_utils.py, `Issues` utilities/jira.py and
--     utilities/operator_utils.py, `Metrics` utilities/monitoring.py, and `Users`
--     utilities/user_utils.py and utilities/certificates_utils.py.
--   * Shared: operators, lists, dictionaries and texts that the parts use.
--
-- The parts meet in the service: its manifest (Serving.Spec) is what is later read back to find
-- whether it is exposed (Serving.Exposure), and its deployment mode decides which pod failures are
-- tolerated (Pods.Failures). The labels by which its pods are found (Serving.Modes) are those that the
-- look-ups (Cluster.Lookups) use, a namespace's random name is that of Pods.Names, and the image of the
-- collection is one of the installed operator.
--
-- How it is modelled. Numbers are natural numbers: the clock's difference stops at 0, where the
-- source has a negative number that its test treats alike. A missing value is an Option, an
-- exception a constructor of the part's result type, `sys.exit` an outcome with a status. A
-- dictionary is an association list. Loops are structural recursion on what they iterate over, but
-- for the paging of the catalog: its fuel is the number of requests, and the page size that holds
-- everything is enough of it. A sampler of the third-party package, which calls a function until a
-- time is over, is the list of what its calls gave, and the time is up at the end of the list. The
-- search for commands in a comment is a scan of its text with the number of characters that the
-- last match still covers. `sys.maxsize` is that of a 64-bit build. Lower-casing is that of the
-- ASCII letters. Values that the catalog is sorted by have a total order, which is an argument.
--
-- A context manager is the list of its calls, with its body as one of them, or a function from the
-- body's effect to the state at the end. What a retry decorator calls is the list of the calls'
-- results. Paths, quoting and base64 are written for ASCII texts. A path is resolved with the symbolic
-- links of the file system as an argument, and a bound on how many of them are followed, behind which
-- there is a loop of links; a path without links is resolved whatever the bound.
--
-- Not modelled: the rendering of log records, the running of commands, the retry library, the gRPC stub,
-- the templates of request bodies, the connection to the issue tracker, and the generated resource
-- classes; what the cluster's client library does (its names of states are arguments), the catalog's
-- requests and queries, and the test suites, which call this code against a live cluster.
pub mod Shared
pub mod Labeler
pub mod Session
pub mod Serving
pub mod Pods
pub mod Catalog
pub mod Logging
pub mod Cluster
pub mod Runtime
pub mod Llm
pub mod Support
pub mod OpenAi
pub mod Grpc
pub mod Collector
