-- ===== src/Lib.antt =====
-- A verification library of the GSB Salak backend, a Go service for savings accounts (account),
-- lottery savings certificates (salak), their purchase and settlement (transaction), and savings
-- goals that buy certificates (kapook), with a worker that buys for goals that have been reached.
--
-- Parts, and the code that each models (paths from the repository's root):
--   Apperror          internal/platform/apperror/errors.go, and errors.Is on the sentinel errors
--   Domain            the structs of internal/*/domain
--   Calendar          what the code uses of Go's time: civil dates in UTC, AddDate, the order
--   Store             the tables of migrations/, statements, transactions and savepoints
--   Account           internal/account: lookups, locks, Debit and Credit
--   Salak.Letters     internal/salak/domain/ticket_letters.go, the ticket ids of holding.go
--   Salak.Repository  internal/salak/repository, with ReserveTicketRange
--   Salak.Service     internal/salak/service/salak_service.go
--   Purchase          internal/transaction: BuySalak, BuySalakForKapook, SettleMaturedHolding, the
--                     ledger, and the badge check
--   Kapook.Window     internal/kapook/domain/withdrawal_window.go
--   Kapook.Goals, Kapook.Transactions    internal/kapook/repository
--   Kapook.Service    internal/kapook/service/kapook_service.go, a module for each group of methods
--   Kapook.Worker     internal/kapook/worker/worker.go: RunOnce and its steps
--   Account.Opening   the creation of accounts and their numbers, in internal/account
--   Auth              internal/platform/jwtutil: Sign and Parse of both signers
--   Users             internal/user: Register, Login, GetByID; internal/admin: Login
--   Salak.Catalogue   the repository calls of internal/salak that cmd/seed makes
--   Http              internal/platform/httpserver/response.go, internal/platform/middleware: Auth,
--                     AdminAuth, Recover
--   Http.Kapook, Http.Bank, Http.Access  the handlers and responses of internal/*/http
--   Http.Router       the routes of the handlers and their groups in cmd/api/main.go
--   Config            internal/platform/config/config.go
--   Seed, Seed.Demo   cmd/seed, and cmd/api/draw_date_coverage.go
--
-- Beside a part, its modules Rules say what an action that returns has done, Returns when it does
-- return, Atomic that it commits all of its work or none of it; Account.Totals and
-- Kapook.Service.Totals are about sums of balances, Purchase.Settlement and Purchase.Once about the
-- settlement of a holding, Purchase.Bought and Purchase.Outcome about a purchase, and
-- Kapook.Service.Backing and Kapook.Service.Settlement.Backing about the money behind a goal.
-- Kapook.Worker.Steps says what the worker may do for a goal, Kapook.Worker.Pass what a pass is; Store.Rules,
-- Store.Atomic, Store.Returns, Store.Survives and Store.Frames are the rules by which actions are taken apart.
-- Users.Registration and Users.Login, Auth.Tokens, Http.Kapook.Movements, Http.Router.Guarded,
-- Salak.Letters.Tickets, Salak.Catalogue.Upsert, Seed.Calendars, Seed.Coverage and Config.Secrets are
-- about the parts whose names they carry; Atomicity puts the services' transactions together. Tests
-- holds a small bank, on which the theorems are applied.
--
-- A handler is an action too, from the decoded body and the parsed parameters of a request to a
-- response. Parameters stand for the libraries: Bcrypt, Jwt, the environment and the parsers of the
-- configuration (Config.Platform), and the text of an error that holds no apperror.
--
-- A method is an action `Exec A`: from an environment and a world it returns a value, an error or a
-- panic, and a new world. The environment says which statements fail, which ids uuid.New returns and
-- what the clock reads, so a theorem for all environments covers every failure of a statement. The
-- world has the committed tables and those of the open transaction; db.Transaction commits the second
-- to the first after nil and drops them after an error, and a statement that fails aborts the
-- transaction. A name of the code in camel case is in snake case here; `debit` is Debit.
--
-- Amounts are whole numbers of ten-thousandths of a baht, of either sign (Prelude.Decimal); columns of
-- type numeric(18,2) round half away from zero when they are written. The overflow of numeric(18,2) and
-- of int64 is not modelled. CHECKs and unique indexes of the migrations are tests that a write meets.
-- The ids of rows are numbers that are only compared.
--
-- Loops: WithdrawalWindow runs on fuel, the years between the two times and one, which is enough since
-- each round moves the start into the next year; NextAvailableDate has the code's own bound of 45
-- days; the other loops go along a list.
--
-- Not modelled: other connections that run at the same time, and the waiting for row locks; the decoding
-- of requests, the search of a route for a path, CORS and the request log; the connection to the
-- database, cmd/migrate and cmd/worker with the worker's ticker; logging; the random badge and its
-- chooser, which the server does not call; the API documentation and the frontend.
pub mod Prelude
pub mod Apperror
pub mod Calendar
pub mod Domain
pub mod Store
pub mod Account
pub mod Auth
pub mod Users
pub mod Http
pub mod Config
pub mod Seed
pub mod Atomicity
pub mod Salak
pub mod Purchase
pub mod Kapook
pub mod Tests
