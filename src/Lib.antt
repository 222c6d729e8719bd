-- ===== src/Lib.antt =====
-- GraphRAG Studio's backend (backend/): documents are parsed into page texts, indexed by workers
-- that take jobs from a queue, linked into a knowledge graph, and queried through one of two
-- engines. The second engine, LightRAG, runs as a service of its own, and the backend signs the
-- requests to it.
--
-- Base holds what the parts share: Base/Tests the Boolean tests on native numbers, Base/Lists
-- lists measured by native numbers with All, keep_if and the like, Base/Int Python's signed
-- integers, Base/Text Python's str as a list of code points with the methods that the program
-- calls, Base/Sort a stable insertion sort with its laws, Base/Dict a dict from texts.
--
-- Security models backend/lightrag_integration/security.py and errors.py. Security/Nonce is
-- NonceReplayCache: its dict with the written expiry of each nonce, the purge, and the two
-- critical sections of consume between which the shared store is asked. Security/Signing is
-- sign_request and verify_request, with a replay cache and without one; Security/Fence, Acceptance
-- and RoundTrip hold the proofs. SHA-256 and HMAC are parameters, and so is what the shared store
-- replies. Times are signed integers.
--
-- Queue models backend/storage/queue_repository.py. Queue/Store is an interface of the Redis
-- commands that the Lua scripts call (a list and a sorted set) with the laws that the proofs use;
-- Queue/Model fills it with lists. Queue/Jobs is enqueue, claim, acknowledgement, renewal and
-- recovery of index jobs; Queue/Locks the locks of LocalThreadQueueRepository and
-- Queue/SharedLocks those over Redis; Queue/Heartbeat the workers' heartbeats. Delivery, Recovery,
-- Attempts and Exclusion hold the proofs. The JSON codec is a parameter. A lock's expiry is not
-- modelled: the statements on shared locks speak of the time in which no key expires. Of the HTTP
-- transport and the profiles nothing is modelled.
--
-- Cooccurrence models backend/pipeline/cooccurrence.py: Cooccurrence/Pairs builds the links
-- between the entities of a page, Cooccurrence/Layout selects the links that are shown. Sets of
-- pairs are lists without duplicates.
--
-- Assembler models backend/pipeline/text_assembler.py: page texts from parsed blocks, with the
-- span of each block. The rows that BeautifulSoup finds in a table are a parameter.
--
-- Perimeter models backend/security.py (Proxy: ProxyAuthMiddleware) and backend/public_access.py
-- (Visibility: which documents a request may see). The environment's variables and the
-- repository's documents are arguments.
--
-- Search models backend/services/search_service.py. Search/Scope is search_entities, search_path
-- and search_graph, with the repository's answers as arguments, and Search/Scoping what they can
-- show. Search/Paths is search_path_for_engine on an exported graph. Its while loop runs on fuel;
-- Search/Termination gives the fuel that is enough: 1 for an entry with no hop left, and otherwise
-- 1 and twice the number of edges times that of one hop less. Search/Walks and Search/Found say
-- what is found.
--
-- Builder models backend/pipeline/kg_builder.py: Builder/Graph is build_kg, on the pages of
-- Assembler and with the links of Cooccurrence, and Builder/Records is extractions_to_records;
-- Nodes and Built hold the proofs. An index out of range, which raises, is an Option that is none.
--
-- Identity models backend/identity.py: Identity/Request the record and its test for an
-- administrator, Identity/Resolve resolve_identity with the checks of _verified_claims behind
-- PyJWT, and require_admin; Admission holds the proof. uuid.UUID, PyJWT and the lower case of a
-- role are parameters; whether Clerk is configured, the allowed origins and whether a local
-- request may go without a visitor's id are arguments.
--
-- Accounts models backend/storage/account_repository.py. Accounts/Tables is the tables as lists of
-- rows and the SQL verbs that the statements use; Repository is sync_identity, claim_visitor_data
-- and record_audit, Exports the two exports, and Erasure the two deletions; Usage is record_usage
-- and usage_summary. Claim, Deletion and Totals hold the proofs. A transaction is one step. The
-- operational events are not modelled.
--
-- Documents models part of backend/services/document_service.py: Documents/Status the two indexes
-- of a document, Documents/Removal delete_document on the state of Indexing, without the uploaded
-- file. Removed, Saving and Races hold the proofs; Races lets the deletion fall into a run of the
-- classic engine.
--
-- Indexing models backend/services/indexing_service.py. Indexing/Jobs is a job's metadata and
-- World, the state that the service works on: the stored jobs and documents, the flags of the
-- process, and the documents whose graph is stored. Start is start_indexing; Cancel is cancel_job,
-- cancel_document_jobs and purge_cancelled_job_artifacts; Engine is _run_legacy_engine, in which
-- what other threads do at each point, the time between the first check and the graph's write and
-- the storing of each artifact included, is a function on World, and the status that _run_pipeline
-- gives the job in the end; Worker is run_queued_job, the heartbeat and process_next_index_job, on
-- the queue and the locks of Queue, and Deletion run_delete_job and delete_or_schedule of
-- lightrag_deletion_service.py. The pipeline is an argument of the worker, and so are LightRAG's
-- answers and the times at which the heartbeat wakes. The flags are those of one process; a
-- theorem that speaks of another process puts any other flags in their place. The proofs stand in
-- Starting, Fences, Cancelled, Swept, Publishing, Renewal and Handling. Texts for display,
-- progress, times, statistics, reports of events, the heartbeat's errors and those of the storage
-- are left out, and so is the row that the source stores when it updates a job that is gone.
--
-- Application models what FileAppRepository of backend/storage/app_repository.py keeps for owners
-- over backend/storage/file_store.py: Application/Rows saves, loads and lists the rows of one kind
-- (sessions, batches), each with an id and an owner, and Isolation holds the proofs.
-- Application/FileGraph is merge_kg and remove_doc_from_kg of file_store.py, and Merge holds the
-- proofs.
--
-- Qa models the batches of backend/services/qa_service.py on those rows. Qa/Start is start_batch
-- up to the thread that it may start, and Qa/Batch the processing: the thread's loop, the poll
-- that answers one question where there are no threads, and cancel_batch. run_query is an
-- argument, with a state that it changes, and so is what others do to the stored batches whenever
-- one is loaded again or a question is answered. The loop runs on fuel; one more than the number
-- of questions is enough, and two for a poll. Progress, Rounds, Completion, Waiting, Polling,
-- Outcome and Cancellation hold the proofs. Times are left out.
--
-- Lightrag models part of backend/lightrag_integration/adapters.py: Lightrag/Instances is the
-- cache of instances of LocalLightRAGAdapter, with one function for each block under the cache
-- guard, and Lightrag/Sharing the workers that share it, as a step relation on the cache and on
-- where each worker stands. Evictions may come at any time, with any limits, which is more than
-- the code does. That a waiting worker's lock is the one in the dict rests on its lease. Leases,
-- Releases, Creation and Reachable hold the proofs. Time is counted in ticks; what the factory
-- makes is an argument. Lightrag/Context is _strictly_filter_query_data and _merge_query_contexts,
-- with parse_source_path and the digest as arguments; the loop runs on fuel, of which one more
-- than the number of admitted chunks is enough. Merging and Evidence hold the proofs.
-- Lightrag/Pages is coerce_pages of types.py, and Numbering holds its proof.
--
-- The theorems at concrete inputs, and tests, stand in the Examples file of each part. Not
-- modelled are the frontend, the routes, calls of language models and databases, and the services
-- and repositories above the parts named here.
pub mod Base
pub mod Security
pub mod Queue
pub mod Cooccurrence
pub mod Assembler
pub mod Perimeter
pub mod Search
pub mod Builder
pub mod Identity
pub mod Accounts
pub mod Documents
pub mod Indexing
pub mod Application
pub mod Qa
pub mod Lightrag
