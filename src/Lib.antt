-- ===== src/Lib.antt =====
-- Go programs of a course: a logger (hw2), a download manager with a shell (hw3), an HTTP mocker
-- (hw4), and a messenger (semestral) with servers for messages and profiles and a terminal client.
-- This library models the parts that hold the programs' own logic.
--
-- Prelude holds what the models share: Boolean tests, lists, maps with text keys (Prelude/Maps),
-- signed 64-bit integers (Prelude/Int), results that panic or fail (Prelude/Outcome), texts
-- (Prelude/Text) and tables of rows (Prelude/Tables).
--
-- Downloader models hw3/pkg/downloader.
--   Downloader/Record: download_record.go and download_view.go. A record with its guarded
--     transitions; the `done` channel is a flag, and a second close panics.
--   Downloader/Event: download_event.go, external_download_event.go, progress_writer.go and the
--     fields of a task. A type assertion on the value of an event panics where the type differs.
--   Downloader/Tasks, Downloader/Downloads: the two stores, a method being one step.
--   Downloader/Task: `Execute` of download_task.go as a function of the answers of the file system,
--     the HTTP client and the context; it returns the events sent and what became of the file.
--     Task/Mixed lets the progress ticker's updates fall anywhere among these events.
--   Downloader/Core: downloader.go. The channels, the started tasks and the cancelled contexts are
--     fields of the state. What one lock covers is a function; a method is their composition.
--     Core/System adds the goroutines that are between two such functions and has the steps of all of
--     them, so that the reachable states are those of any interleaving at the locks. A broadcast is
--     part of the call on the record before it.
--
-- Messaging models semestral/internal/messaging.
--   Messaging/Database: the tables and each SQL text of sqlite_repository.go as a function.
--   Messaging/Repository: the transactions of sqlite_repository.go. A fault is the number of the
--     driver call that fails, so every error path of a method is a value of one argument.
--   Messaging/Handler, Messaging/Service: the unary handlers of service.go, which read and change
--     the database and end with a reply or a status code. The claims of the caller, the clock, the
--     fresh id, the faults and the answer of the profile service are arguments.
--   Messaging/Stream: the `Subscribe` stream of service.go, as the effects of what its `select` sees.
--   Messaging/Broker: broker.go. Sessions live on a heap under their ids. Broker/Session has what
--     publishers, stream and closers do to one session in any interleaving, Broker/Registry who is
--     subscribed. Where two cases of a `select` are ready, the choice is an argument.
--   Messaging/Requests: all handlers behind one type of requests.
--
-- Profiles models semestral/internal/profiles, and the tokens of semestral/internal/auth.
--   Profiles/Tokens: claims.go and tokens.go, with the JWT library as two functions that are arguments.
--   Profiles/Interceptor: server_middleware.go.
--   Profiles/Repository: the table and the statements of sqlite_repository.go. The text of an id and
--     its reading by SQLite are arguments.
--   Profiles/Service: service.go, with its map from JTIs to users.
--
-- Mocker models hw4/pkg/mocker and hw4/internal/handler.
--   Mocker/Spec: request_spec.go, response_spec.go and config_entry.go. A query is a map from keys to
--     counted values, as in the code.
--   Mocker/Engine: http_mocker.go. A method is one step, since each holds its lock. Engine/Runs has
--     the calls in any order.
--   Mocker/Front: management_service.go and mock_http_handler.go, with the URL parser, the upper case
--     of a text and the canonical header name as arguments.
--
-- Shell models hw3/internal/shell.
--   Shell/Formatting: commands/formatting.go. The loop of FormatBytes runs on fuel 8, enough for every
--     int64 (Formatting/Bounds); a path is the list of its bytes (Formatting/Paths).
--   Shell/Pattern: the three regular expressions as tests of a whole text. Pattern/Disjoint compares
--     them, Pattern/Trimmed is on trimmed lines.
--   Shell/Command: commands/command.go. A chain is the list of its commands, the head first.
--   Shell/Commands: the three commands, over a record of the downloader's methods that they call.
--     Shell/Manager fills this record with the model of hw3/pkg/downloader.
--   Shell/Loop: shell.go, with what other goroutines do before a line as a function of the turn.
--
-- Logging models hw2/pkg/logging.
--   Logging/Record, Logging/Sink, Logging/Logger: log_record.go, the appenders, sink.go, logger.go. Which
--     writes of an appender fail is an argument. Each sink has an appender of its own.
--   Logging/Stages: stages_formatter.go and json_formatter.go, with the layout of a time and the JSON
--     encoder as arguments. A property is the text that it prints as.
--
-- Client models semestral/internal/client and the client side of semestral/internal/auth.
--   Client/Session: state/session.go and state/data.go; Client/Storage: the table and the statements
--     of storage/sqlite_repository.go.
--   Client/Credentials: client_middleware.go, with the steps under the read lock and the write lock
--     apart, so that requests can wait together.
--   Client/Requests: tui/requests.go, with the servers' answers as arguments.
--   Client/CreateChat, Client/ChatList, Client/MessagesList: the screens of tui/models as functions of
--     a message and the state. A command of the framework is a value; what it does when it runs is in
--     CreateChat/Submit, MessagesList/Commands and ChatList. MessagesList/Delivery runs a message
--     through its retries on fuel 6, which is enough for the five retries of the code.
--   Client/Chat: chat_model.go, the screen that composes the lists and Client/MessagesInput, with its keys
--     in Chat/Keys. Chat/Commands are its commands, and Chat/Reconnecting runs the ones of the stream
--     for a list of the answers of the server. The text field of the library is an argument.
--
-- Where no fuel is named, a loop is structural recursion. The capacities of channels and the limit
-- of 100 undelivered messages are those of the code. A count of bytes, the version of a session and
-- an unread count wrap around at 64 bits. Faults, fresh ids and answers of other services are
-- universally quantified; a fresh id is unused only where a theorem says so.
--
-- Not modelled: styles and layout on the screen, the other screens of the terminal client (its onboarding, profile and members), the
-- progress and event lines of the shell, servers and flags, generated code, key and configuration
-- files, example programs, and the HTTP, SQL, gRPC and terminal libraries. A time is a number.
pub mod Prelude
pub mod Downloader
pub mod Messaging
pub mod Mocker
pub mod Profiles
pub mod Shell
pub mod Logging
pub mod Client
