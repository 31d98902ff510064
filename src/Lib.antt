-- ===== src/Lib.antt =====
-- booth-catalog, the catalog of a Project Booth installation, in a model of its own logic: what it
-- accepts, what it stores, who may do what, and how the events of other modules are applied.
--
-- The program registers datasets and versions of code, and indexes dashboards that other modules
-- publish; one search goes over all three. A request passes the middleware of internal/auth, then a
-- handler calls a service, which validates, and the service calls a store. An event passes a
-- processor, which calls the same services.
--
--   Text, Regexp      what the source uses of Go's strings, unicode/utf8 and regexp: a string is the
--                     list of its runes, and a byte that is no UTF-8 is a number above all runes
--   Asset             internal/asset/asset.go: errors, validation, locations, paging, hits, search terms
--   Search            internal/search/search.go: the search over several types
--   Data.Model        internal/data/model.go: the records; Data.Input and Data.Upsert their Normalize
--   Data.Store        internal/data/memory.go: the store; Events and Queries are the rest of its methods
--   Data.Service      internal/data/service.go, over that store
--   Dashboards        internal/dashboards: model.go, memory.go and service.go
--                     (Store.Register is what an abstract reader sees of one dashboard)
--   Code              internal/code: model.go, memory.go and service.go
--   Auth              internal/auth/auth.go: roles, the middleware, the chain of verifiers; Auth.Verifier
--                     how a token's claims are read
--   Events            internal/events: processor.go, tables.go and database_tables.go, by way of what
--                     they share (a message's reading and the verdict); Events.Transport and its Session
--                     nats.go
--   App               internal/app/app.go: the three services on the in-memory stores, and their search
--   Api               internal/api/server.go: Reading and Writing the handlers, Router the permissions
--   System            the requests and the messages together, as the steps of a run
--   DbWait            internal/dbwait/retry.go
--   Config            internal/config/config.go
--   Tests             the theorems at concrete inputs
--
-- A method that changes state takes the store before and returns the one after, beside its result.
-- Every method holds the lock of its store from beginning to end, so that a run is a sequence of whole
-- calls: Data.Store.Reach and Code.Store.Reach are those sequences. The clock and asset.NewID are
-- arguments. A Go map is an association list; `range` goes through it in an order of its own, for which
-- the order of the list stands. An instant is a number of nanoseconds, and the zero time is one of them.
-- Numbers that Go keeps in an int are unbounded here; none comes near the bound.
-- Every loop is over a list but that of DbWait, which has a number of rounds: two more than there are
-- initial backoffs in the time given are enough, and DbWait.Ending proves it.
--
-- What the surroundings decide is a parameter: the verification of a token's signature (go-oidc), the
-- decoders of encoding/json, the environment, what the NATS client answers, what an attempt to connect
-- answers and how long it takes. Letter case beyond ASCII is that of Unicode's tables, which Go brings
-- along: the interface Casing stands for them. A request comes with its route, since chi matches paths.
--
-- Not modelled: the stores over Postgres, whose work is done by the database; the options and callbacks
-- of the NATS client; HTTP headers; the messages of errors, for which the field or the case stands; the
-- web interface and the deployment.
mod Prelude
pub mod Text
pub mod Regexp
pub mod Asset
pub mod Search
pub mod Data
pub mod Dashboards
pub mod Code
pub mod Auth
pub mod App
pub mod Api
pub mod Config
pub mod DbWait
pub mod Events
pub mod System
mod Tests
