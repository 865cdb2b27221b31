-- ===== src/Lib.antt =====
-- The licence platform's server (apps/license-api): administrators make cards, a client activates a
-- card and so gets a licence with a bound device, devices renew their leases by heartbeats, and
-- renewal cards lengthen licences. Paths below are under apps/license-api/internal.
--
-- Prelude holds the shared names, tests, list functions and the functions on text, which is a list
-- of code points. Domain is domain/domain.go: the states as enumerations, the error values, and in
-- Domain/Roles the permissions of the roles.
--
-- CardCode is crypto/cardcode.go, with the random source as a parameter: a function from a position
-- to an index below 32, or none where reading fails. Its batch loops take fuel; a batch ends as
-- soon as the fuel covers the rounds in which the source gives enough distinct codes. Version is
-- CompareVersion of service/service.go.
--
-- Cache is cache/cache.go over a Redis, which is a record of the commands used with the laws that
-- they are documented to have; Tests/Redis is a Redis of lists that meets them. Cache/Trace runs
-- nonces and sequence numbers, Cache/Online the seats of one licence, and Cache/Window one rate
-- window, each over arbitrary sequences of calls in the order of their times.
--
-- Store is the part of store/licenses.go, store/catalog.go, store/users.go and store/adminstore.go
-- that the modelled services use. Store/Rows has the rows and the database, a record of lists;
-- Store/Tx has transactions, functions from a database to a result and a database, with WithTx,
-- which rolls back on an error; Store/Table has selection and update by key. A unique violation is
-- an error value. Row locks serialize transactions, so a transaction is one step.
--
-- Claims is what the services share: the claims of a lease and the errors of wrong states.
-- Activation is the transaction of Activate in service/service.go, case by case, and Redeem that of
-- Redeem in service/heartbeat.go. Heartbeat is the replay check of that file, where each call of
-- Redis may fail, and Heartbeat/Lease is Heartbeat and Deactivate whole, on a state of Redis and
-- the database; whether a request is signed with a key is a parameter. Activation/Request is the
-- rest of Activate on that state: the checks of the payload, checkActivationReplay, the bans and
-- the seat. Redeem/Request is the rest of Redeem. Admin is CardAction, LicenseAction, UnbindDevice,
-- AdminExtendLicense and SetCardNote of service/adminsvc.go, where the row that is read before the
-- transaction is an argument of the transaction, so that it may be outdated. Billing is
-- CreateCardBatch, ImportCards and AgentAdjustBalance there, where the keyed hash of a code and the
-- success of its encryption are parameters; a sum of money is an amount given or taken, and stays
-- below the bound of a BIGINT as the database checks. Users is service/usersvc.go over the end
-- users of store/users.go: accounts that spend cards without a licence. SignIn is the sign-in of
-- administrators in service/adminauth.go, with SignIn/Totp for crypto/totp.go. Staff is the
-- accounts of administrators and agents, Plans the plans and Bans the bans, all of
-- service/adminsvc.go. Users, SignIn and Staff use Passwords, an interface of what
-- argon2id/argon2id.go promises. Lifecycle runs the transactions in any order.
--
-- Base64, Keys, Token, Envelope and DeviceAuth are the formats that are signed or sealed:
-- crypto/keys.go, crypto/sigtoken.go, crypto/envelope.go and service/httpsig.go. Encodings, JSON,
-- ed25519, X25519 and the AEADs are records of operations with the laws that they are documented to
-- have; for an AEAD that it opens nothing under other additional data. Tests/Codecs has small
-- stand-ins that meet them. Decimal numbers are printed with 19 places, enough for an int64.
--
-- Http is the layer above: Http itself the table of MapError (httpapi/middleware.go); Http/Routes
-- the routes of AdminRouter (httpapi/admin.go) with their methods, permissions and paths, where the
-- router itself, a package of others, is taken to give a request to the route that it matches;
-- Http/Gate the session, CSRF, first-password and permission checks; Http/Commands and
-- Http/Handlers the writing requests whose services are modelled; Http/Login signing in and out;
-- Http/Client the clients' handlers (httpapi/client.go) but for bootstrap; Http/Limits the limits
-- by scope. A body is the decoded value, or none where decoding fails.
--
-- UUIDs are numbers. Times are nanoseconds in the database, with days of 24 hours, and milliseconds
-- in the cache. Not modelled are the columns that are only shown and the lists of rows, the audit
-- and risk records, which no decision reads, cryptographic primitives, the headers and messages of
-- answers, the configuration and the clients. Tests has concrete databases and inputs.
pub mod Prelude
pub mod Domain
pub mod CardCode
pub mod Version
pub mod Cache
pub mod Store
pub mod Claims
pub mod Activation
pub mod Redeem
pub mod Heartbeat
pub mod Admin
pub mod Billing
pub mod Plans
pub mod Bans
pub mod Passwords
pub mod Users
pub mod SignIn
pub mod Staff
pub mod Base64
pub mod Keys
pub mod Token
pub mod Envelope
pub mod DeviceAuth
pub mod Http
pub mod Lifecycle
pub mod Tests
