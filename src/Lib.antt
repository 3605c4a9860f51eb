-- ===== src/Lib.antt =====
-- Undelete is a Telegram bot that records the messages of Business chats and alerts their owner when
-- one is deleted. An update reaches the bot for a Business connection, which the business service
-- resolves to a tenant; the quota tracker admits what is captured; a deletion puts alerts into the
-- outbox, from which a worker delivers them; an owner can have the tenant's data erased. The
-- packages of bot/internal that decide these things are modelled by the files here:
--
--   Quotas        quotas/quotas.go: Limits, Ledger (a tenant's counters), Tracker (the map of
--                 ledgers, resync, eviction) and Admit (the admissions).
--   Outbox        outbox/repository.go and payload.go: Row (the table notification_outbox) and
--                 Store (its statements); outbox/worker.go: Delay (backoff) and Worker (ProcessOne).
--   Business      business/cache.go: Cache; business/service.go and the upsert of
--                 users/repository.go: Service.
--   Erasure       erasure/erasure.go: Code and Confirm; erasure/repository.go: Requests.
--   Messages      messages/repository.go: Store (the tables messages and chats) and Deletion
--                 (MarkDeleted); messages/media_alerts.go: Media (the groups and their entries).
--   App           app/transient.go: Transient; app/handler.go: Effects (the updates and the calls that a
--                 handling makes), Commands (the answers to the owner), Save, Control (what
--                 precedes the save) and Handler.
--   Exclusion     tenantexcl/guard.go: Guard, a step relation of calls over one lock for each tenant.
--   Telegram      telegram/alerts.go: Split, Note, Alert (with TruncateCaption of sendmedia.go), Policy
--                 and Privacy;
--                 telegram/sendmedia.go: Upload (the calls that the files of an alert take);
--                 telegram/commands.go: Command; telegram/shard.go: Shard and Dispatch, for which
--                 an update is its position in the batch; telegram/poller.go: Poll (the waits).
--   Users         users/repository.go: Retention.
--   Media         media/path.go: Path and Hash; media/repository.go: Catalogue (the table media_files and
--                 the changes of its rows) and Queries (its reads and batched deletions).
--   Base          what they share: Boolean tests, lists, maps as association lists, int64, tables of rows.
--
-- The other files of a folder hold the theorems on its model, and its Examples runs of it. The worker
-- uses the path rules of Media, and the uploads and the note of Telegram; it reserves its jobs through Store. A deletion
-- in Messages reads the catalogue of Media, builds its texts with Telegram and inserts into the table of
-- Outbox. The handler of App takes what the other packages answer as the fields of a World, and its
-- result lists what it asks of them; the erasure takes their deletions as an argument.
--
-- A function of the source keeps its name in snake case: AdmitCapture is admit_capture. A mutable
-- struct is a record that the operation takes and returns; an error is a constructor or `none` for
-- nil. int64 arithmetic wraps (Base.Int). An instant is a number of nanoseconds, and every reading of
-- a clock is an argument. A critical section is one step: where quotas.go releases its lock, a Gap
-- carries what other goroutines do meanwhile and what the queries answered. A statement of SQL is a
-- function on the list of rows, limited to the rows of its tenant where row level security is on;
-- what the database, the Bot API and the context do to one call are the fields of a World, so that a
-- theorem for all of them covers every failure. The hex digest of SHA-256, the Unicode tables of
-- `strings.ToUpper`, `strings.ToLower` and `strings.TrimSpace`, the layout of a date and
-- the coding of JSON are arguments.
--
-- A loop runs over a list or a number that shrinks, but for three on fuel: the decimal digits of an
-- int64, which twenty steps are enough for; the paragraphs of a document, of which each has a rune;
-- and the rounds that resolve the number of the policy's chunks, of which there are at most one more
-- than runes.
--
-- Not modelled: the media store, fetcher and purge, `KnownPaths` of the catalogue, the forms of
-- an upload with their file names, the retries of the client's own `SendMessage`, the workers of
-- the dispatcher, the loop of the poller, configuration and wiring; log lines, metrics, timeouts and
-- the fixed wordings of answers; HTTP, JSON, SQL and the file system.
pub mod Base
pub mod Quotas
pub mod Media
pub mod Messages
pub mod App
pub mod Exclusion
pub mod Telegram
pub mod Outbox
pub mod Business
pub mod Erasure
pub mod Users
