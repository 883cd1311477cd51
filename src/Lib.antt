-- ===== src/Lib.antt =====
-- AIVA: a backend that chats over a knowledge base, with the library that calls language models.
-- Modelled are parts of backend/ and of llm_service/llm_service/.
--
-- Prelude: numbers and Boolean tests, lists, association lists, and texts as lists of characters.
--
-- Llm is llm_service/llm_service/. `Llm.Errors` is core/exceptions.py. `Llm.Breaker` is
-- transport/circuit_breaker.py: a breaker is a record, its methods take the time, and `Step` is one
-- method of one of the calls that run concurrently, since `call` awaits between its check and its
-- result. `Llm.Router` is routing/router.py: a provider is what it does to a world that is a
-- parameter, and the loops over the providers are structural. `Llm.Strategies` is
-- routing/strategies.py with `HealthAwareBalancer` of routing/load_balancer.py. `Llm.Cache` is
-- cache/in_memory.py and `Llm.Memory` is memory/in_memory.py.
--
-- Auth is the backend's password accounts. `Auth.Db` holds the rows that the handlers read and write,
-- listed newest first, and as parameters what comes from Python and from third parties: lower case,
-- the digits of Unicode, SHA-256, and the hashing of passwords, which may
-- raise, and their verification. `Auth.Login` is the
-- login of backend/routers/auth.py; `Auth.Password` is backend/services/password_policy.py;
-- `Auth.Codes`, `Auth.Signup`, `Auth.Verify` and `Auth.Reset` are backend/services/otp_service.py.
-- The time, the random digits and whether the mail server took a mail are arguments. Each statement
-- of the source commits by itself, so a request that is refused keeps what it wrote; that a statement
-- raises, and the rate limits of the routes, are left out.
--
-- DocIntel.Chunking is backend/doc_intel/chunking.py: `Cleaning`, `Split` for the splitting of long
-- texts, `Header` for the line in front of each chunk, `Builder` for the state machine that pours
-- blocks into drafts (its methods that take blocks in are `Feed`), and `Build` for
-- `build_chunks`. The regular expressions are written out as structural recursions over the text.
-- Loops that do not go down a list have fuel: the length of the text in `hard_loop`, of which each
-- round drops a character, and one more than the number in `decimal_loop`. `append` of the source
-- calls itself on what it splits off; here its depth is two, and a larger one changes nothing.
--
-- DocIntel.Schedule is backend/doc_intel/schedule.py, over a time zone that is a parameter; where the
-- clock is changed between now and an hour, that hour need not lie ahead.
--
-- Queues is the knowledge base's queues. `Queues.Catalog` is backend/services/kb_queue_groups.py: the
-- catalog that a corpus configuration gives, and what active queues let a search see. `Queues.Assign`
-- is backend/doc_intel/queue_config.py, which puts a document's vertical into the configuration that
-- the catalog is read from. The configuration is a tree of dictionaries in insertion order; a JSON value
-- whose inside is not looked at is what `str` shows of it and whether it counts as true.
-- `Queues.Access` is backend/services/agent_queue_access.py with the roles of backend/auth/deps.py, on the
-- rows of its table; the catalog is the same.
--
-- Import is the import of documents into the knowledge base. `Import.Rows` is a row of
-- AIVA_kb_documents and `Import.Repo` the registry, both of backend/doc_intel/kb_repo.py: one function per
-- operation, on the table and the moment of the call. `Import.Repo.Queue` is the claim of the next
-- document. `Import.Repo.Moves` has each transaction as a value, so that a list of them is what several
-- sessions do, and the diagram of the statuses as a relation; `Import.Repo.Moves.Statuses` sets the
-- registry against the machine that a document's status is. `Import.Store` is
-- backend/doc_intel/kb_store.py: a write is one transaction that either commits or leaves everything as it
-- was, with the errors of the database as arguments. `Import.Embedding` is backend/doc_intel/embedding.py,
-- over a provider that is a parameter; its loop over batches has as many steps as there are texts, of
-- which each round takes one at least. `Import.Pipeline` is `process_document` of
-- backend/doc_intel/kb_import.py: a run in a world, which holds the registry, the knowledge base and,
-- for each call of the registry, what other sessions commit before it, its moment, and the exception that
-- it raises instead of writing, if it does. It calls the chunking of `DocIntel`, the
-- embedding and the store, which calls `Queues.Assign`. `Import.Service` is what an administrator does:
-- upload, retry, republish, unpublish, change of queues. `Import.Textutil` is `truncate_utf8` of
-- backend/doc_intel/textutil.py.
--
-- Sync is the synchronisation of SharePoint folders. `Sync.Rows` and `Sync.Tables` are the tables of
-- backend/doc_intel/crm_repo.py, in one value since some transactions write several of them; an
-- UPDATE goes over all rows that fit and its count decides as `rowcount` does. `Sync.Files`,
-- `Sync.Runs` and `Sync.Sources` have one function per operation, with the unique index and the
-- foreign key of migrations/V002__sharepoint_crm.sql where a run is inserted. `Sync.Moves` has each
-- transaction as a value, so that a list of them is what sessions, workers and the scheduler
-- interleave; `Sync.Moves.RunChange` says once what each of them does to the runs. `Sync.Scheduler`
-- is a tick of backend/doc_intel/scheduler.py, with the transactions of other sessions between its
-- own and with failures of the database as arguments; it calls `DocIntel.Schedule`.
--
-- Not modelled: concurrent requests to one account, the texts of the mails, logging, the network, the
-- database driver and the web framework; the providers of language models, the retries and the
-- middleware of llm_service; extraction, the run of a CRM synchronisation (crm_sync.py) and health checks of
-- backend/doc_intel, and the rest of backend/services; crm-document-ingestion, embedding_service,
-- zoho_auth and the chat widget.
pub mod Prelude
pub mod Llm
pub mod Auth
pub mod DocIntel
pub mod Queues
pub mod Import
pub mod Sync
