-- ===== src/Lib.antt =====
-- Verification library of libauth (Go): users, roles and permissions (RBAC).
--
-- The program's parts and the files that model them:
--   * model/ (user.go, role.go, permission.go): Model.antt. `Permission`, `User` and `Role` are
--     records, a string is a sequence of bytes (Text.antt). `ParsePermission`, `String`, `Matches`,
--     `MatchesAny`, `Valid`, `HasPermission`, `MarshalText` and `UnmarshalText` are functions of
--     the same names. model/errors.go, store/errors.go, authz/errors.go: Errors.antt.
--   * store/ (store.go, memory*.go): Store.antt. A `MemoryStore` is two maps (Dict.antt); each
--     method takes the store and returns the new one or an error. Store/Contract.antt states the
--     contract `Store` of store.go on two tables, independently of the maps.
--   * authz/authz.go: Authz.antt (the `Enforcer`, its options, the granted set, the indexes and the
--     invalidations) and Authz/Cache.antt (the lookups that fill the caches). authz/resolve.go:
--     Authz/Resolve.antt. authz/validate.go: Authz/Validate.antt. authz/check.go: Authz/Check.antt.
--     authz/users.go: Authz/Users.antt. authz/roles.go: Authz/Roles.antt.
--   * branca/branca.go: Branca/Token.antt. branca/base62.go: Branca/Base62.antt, and
--     Branca/Shared.antt for the variable that its calls share.
--   * middleware/middleware.go, identity.go, context.go: Middleware.antt. middleware/require.go:
--     Middleware/Require.antt. A guard is a function from a handler to a handler; a handler takes a
--     request and the state of an `Authorizer` to a reply and the next state.
--     Middleware/Enforced.antt makes the enforcer an `Authorizer`.
--   * jwt/alg.go: Jwt/Algorithm.antt and Jwt/Base64.antt. jwt/claims.go: Jwt/Claims.antt, on the
--     trees of Jwt/Json.antt, the dates of Jwt/Time.antt and the numbers of Jwt/Decimal.antt.
--     jwt/jwt.go: Jwt/Settings.antt, Jwt/Signer.antt, Jwt/Header.antt and Jwt/Verifier.antt.
--     jwt/symmetric.go: Jwt/Symmetric.antt. jwt/errors.go: Jwt.antt.
--   * middleware.go of the root: Facade.antt. The other files of the root rename.
--   * _examples/customstore/main.go: Demos/FileStore.antt, on the JSON of Demos/Dump.antt.
--     _examples/example01/main.go: Demos/Articles.antt. _examples/jwtauth/main.go: Demos/Login.antt.
--     The seeds of both, and _examples/basic/main.go: Demos/Seeds.antt.
--
-- How they interact. An enforcer owns a store and three caches: granted sets by user, holders by
-- role, direct roles by user. A method is a function from the enforcer to a result and the next
-- enforcer (Authz/Exec.antt): what was written before an error stays written, and each call of the
-- store, each index update and each invalidation is a step in the order of the source. A check
-- resolves the roles of the user in the store, collects their permissions and caches the set;
-- operations on users and roles write the store and then drop cached sets.
-- A guard identifies the user of a request, asks the authorizer, and calls the handler with the user
-- in the context, or replies with a status. A signer fills in claims, encodes them and signs; a
-- verifier cuts a token, checks its header and its signature, and only then reads the claims.
-- The servers of _examples/ put these together: the state of a server (`World`) is the enforcer, the
-- articles and the response that was written; a login encodes a token for a stored user, and the
-- identity of later requests is read from the token that they bear. The store on a file writes all
-- records as JSON after each change, through the store in memory, and fills that store from the file.
--
-- The specification. `Inherits` and `Holds` (Authz/Resolve/Spec.antt) say which roles a user holds
-- effectively; `IsEntitled` (Authz/Fresh.antt) says which permissions follow. `IsCoherent`
-- (Authz/Coherent.antt) says that each cached set covers exactly those. `IsConsistent`
-- (Authz/Invariant.antt) relates both indexes to the store, `IsAcyclic` (Authz/Validate/Spec.antt)
-- says that chains of parents end, and `IsSound` (Authz/Invariant/Sound.antt) is both.
-- Authz/History.antt runs sequences of operations; Examples.antt and its children hold concrete
-- runs.
--
-- Bounds and fuel. The walk of `resolveRoles` runs on fuel: one round for each role of the user,
-- one for each stored role, and one more. A round takes a name that was not seen before, which is
-- a role of the user or the parent of a stored role, so the fuel does not run out. The loop of
-- `validateInheritance` is bounded by the depth limit of the source itself. The digits of a number
-- in base 62, and its bytes, are made on that number as fuel: each round divides it. The integers
-- of authz/ are lengths, indexes and the depth, which stay far below the bounds of a machine word;
-- the timestamp of a token is checked against its 32 bits, and its four bytes are written out. Seconds
-- and durations of jwt/ are 64-bit integers with their wrap-around (Prelude/Int.antt); `Time.Add`
-- stops at the bounds as Go's does. Decimal digits are made on the number as fuel, and spaces are
-- trimmed on the length of the text. The ids of articles are 64-bit integers that wrap around.
--
-- Not modelled. Locks: each method runs alone. Of the interleavings there are that of a cache fill
-- with other calls between its reads and its write (Authz/Race.antt), and that of two decodes of
-- branca tokens, which share a digit (Branca/Shared.antt). Stores other than
-- the in-memory one, and errors that only such stores return. Slices are values: the copies that
-- the store takes make aliasing unobservable. The order in which Go iterates over maps is that of
-- insertion here; no statement depends on it. An enforcer over a store that was filled before
-- (`WithStore`) does not know the holders in it, so statements on sequences start from the store
-- that `New` makes. The text of JSON (encoding/json) is a parameter, `JsonCodec`, and so are the
-- primitives of crypto/ (`Crypto`) and of golang.org/x/crypto (`Aead`). Of net/http there are the
-- header and the context of a request, its body and the id in its path where a handler reads them, and
-- the reply; the matching of paths is left out, and so is the text of errors. A disk is an unknown
-- state with a read and a write (`FileSystem`). encoding/json is taken to replace a slice by an array,
-- as documented, also where a member stands twice in an object. What the programs of _examples/ print
-- is a value (basic/main.go) or left out (customstore/main.go).
pub mod Prelude
pub mod Text
pub mod Dict
pub mod Model
pub mod Errors
pub mod Store
pub mod Authz
pub mod Branca
pub mod Middleware
pub mod Jwt
pub mod Facade
pub mod Demos
pub mod Examples
