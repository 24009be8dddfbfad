-- ===== src/Lib.antt =====
-- Expensor reads bank emails, extracts transactions from them by rules, and stores them per tenant.
-- This library models the parts of its backend that decide what runs, what is stored and what a
-- failure means, and proves the properties listed at the end.
--
-- Parts and modules. Errors (backend/pkg/errors/errors.go) are ErrorKind and Errors: an error is a
-- tree, with `app` for *Error, `joined` for errors.Join and `foreign` for an error of another
-- package, of which only the kind, status and OAuth code that it carries are known. `E` is
-- Errors.Build.e, WhatKind, StatusCode and UserMsg are in Errors.Classify, Error() is in Errors.Text.
-- Result is a Go function's value-or-error pair.
-- Scanning models backend/internal/store/postgres/scanning_repository.go: the table
-- tenant_scanning_state is a list of rows, and every statement is a function on it.
-- Scheduler models backend/internal/daemon/scheduler: `New` and `retryDelay` in Scheduler,
-- `failureStateUpdate` and the scan runner's messages in Scheduler.Failure, `runTenant` in
-- Scheduler.Run, and `Reconcile` with its parts in Scheduler.Reconcile. The scheduler calls the
-- repository's functions of Scanning, and classifies errors by Errors and Oauth.
-- Daemon models backend/internal/daemon: the controller of controller.go as a step relation
-- (Daemon.Controller), the sink of transaction_sink.go as a loop over the events of its select
-- statement (Daemon.Sink), and the scan service of scan.go (Daemon.Scan), whose errors are what the
-- scheduler classifies.
-- Rules models backend/pkg/api/api.go and backend/internal/rules: documents (Rules.Raw and
-- Rules.Document), stored rules and the merge (Rules.Store), the matching of emails, and the
-- repository backend/internal/store/postgres/rules_repository.go (Rules.Repository).
-- Thunderbird models the scan of one mailbox by backend/pkg/reader/thunderbird/thunderbird.go, over the
-- turns of its loop, and the processed keys of backend/internal/state/state.go. What it sends is what
-- Daemon.Sink writes, and what the sink acknowledges is what it marks.
-- Ledger models what the repositories transactions_repository.go, label_repository.go and ingestion.go
-- of backend/internal/store/postgres do to a tenant's transactions: Ledger.Edits, Labels, Merchants,
-- Mutes and Taxonomy have one function for each method that writes, Ledger.Upserts, Mappings and
-- Ingestion the statements of Write. A table is a list of rows, a statement one of the functions of
-- Prelude.Tables. Ledger.Operations has all of them as one type, and Ledger.Effects what each does
-- where no call to the database fails.
-- Daemon.Sink's writes are calls of Write.
-- Auth models accounts: auth_repository.go of the same directory (Auth.Accounts, Tokens and Setup),
-- backend/internal/httpapi/auth_middleware.go (Auth.Middleware) and the handlers of handlers_auth.go
-- there (Auth.Sessions and Auth.Admin), with the tokens of backend/internal/auth/tokens.go.
-- Runtime models runtime_repository.go of that directory and the secret box of
-- backend/internal/auth/crypto.go: the secrets of readers and LLM providers, the active provider, the
-- processed messages and the settings.
-- Diagnostics models backend/internal/store/postgres/diagnostics_repository.go: recording an email
-- whose extraction failed, and the change of its status.
-- Plugins models backend/internal/plugins/registry.go, and Llm models
-- backend/internal/llm/registry.go, policy.go and router.go.
-- Prelude holds what they share: tests on numbers and texts, lists as sets of texts, and the
-- functions of Go's strings package that are called.
--
-- Conventions. Times and durations are nanoseconds; a duration that is doubled wraps at 2^64. A
-- caller's fault, cancellation or clock reading is an argument (`Episode`, `Look`, `Outside`,
-- `Flush`), so that a theorem holds for every choice of them. A text is a sequence of characters. A
-- map is a list in the order of insertion. All loops are structural; the rounds of retryDelay are its
-- count minus one, which its own loop bound gives, so no fuel is chosen. In Daemon.Controller a run
-- and the worker interleave freely, one step to each stretch under the lock.
--
-- Parameters. Regular expressions, JSON decoding and validity, quoting by %q, unicode.ToLower,
-- strings.EqualFold, mail.ParseAddress, mail.ParseDate, SHA-256, bcrypt, AES-GCM, the random source, the
-- extraction of a transaction, the OAuth library, LLM clients, and Postgres' ILIKE and lower() come from
-- outside and are arguments. An error of the database is an argument of each operation, one for each
-- call, and so are the ids that it generates; an operation that fails leaves the tables as they were,
-- as a rolled back transaction does. Where one statement can meet a conflict or a fault, the conflict
-- is answered. Each operation of a repository is one step: two of them do not interleave, so that the
-- test and the insertion of the first administrator, which Postgres runs without a lock, are not parted.
-- The
-- laws that are asked of them are that EqualFold holds of a text and itself, and that the cipher opens
-- what it sealed.
--
-- Not modelled: the other HTTP handlers and repositories, queries that only read, the Gmail reader, extraction of amounts
-- (floating point), telemetry, configuration files and process wiring. They are input and output, or
-- stand on libraries that are not part of the repository. The ticker of the scheduler's Start is
-- not modelled either: a pass is a call of `reconcile`.
pub mod Prelude
pub mod ErrorKind
pub mod Errors
pub mod Result
pub mod Scanning
pub mod Oauth
pub mod Scheduler
pub mod Daemon
pub mod Rules
pub mod Plugins
pub mod Llm
pub mod Thunderbird
pub mod Ledger
pub mod Auth
pub mod Runtime
pub mod Diagnostics
