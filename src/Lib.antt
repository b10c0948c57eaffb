-- ===== src/Lib.antt =====
-- A platform for services that are operated over the web: users and their logins, single sign-on,
-- provisioning of users by an identity provider, licenses, and the storage below all of them.
--
-- The parts and where they stand:
--
-- - Storage.antt and Storage/: storage/iface.go as a record of operations, with the laws that the
--   other parts rely on; storage/memory in Storage/Memory.antt, with cells behind pointers that open
--   writers share with the map of names, and storage/local in Storage/Local.antt, over the operating
--   system as a parameter. Storage/Memory/View.antt has the map from names to contents that the memory
--   storage implements.
-- - Users.antt and Users/: users/. The state is `World`, a user store with the disk behind its storage
--   and a count of the draws from the random source. An operation is a function from a world to a
--   result and a world: what was changed before an error stays changed. UUIDs, bcrypt, JSON and os/user
--   are the parameter `Env`.
-- - Login.antt and Login/: rest/login. The limit on attempts, and the login with second factors over
--   any source of users.
-- - Totp.antt: mfa/totp/verify.go, the one-time passwords of the second factors.
-- - Oidc.antt and Oidc/: auth/oidc/types.go and auth/oidc/store, with its caches, its cleanup and the
--   renewal of tokens, and in Oidc/Token.antt auth/oidc/token.go, redirect.go and rand.go.
--   The loops over a Go map take the order of the keys as an argument. HTTP and JSON
--   are the parameter `Http`; where a loop makes several requests each step has its own, since answers
--   and times differ.
-- - Scim.antt and Scim/: auth/provisioning/scim, the handlers over the user store, with the hooks of
--   the program that is built on the platform as a parameter.
-- - Saml.antt and Saml/: auth/saml. The state is `Saml`, with the loaded service providers, whose
--   entries may be nil, and the sessions; Saml/Sessions.antt has its runs as a relation. A panic is a
--   result. The SAML library is a parameter, and the network is the parameter `Network`, whose client
--   gives the URLs that it requested as well.
-- - Licensing.antt and Licensing/: licensing and utils/random/rand.go. The network, JSON, crypto/rand,
--   crypto/sha256 and encoding/base64 are the parameter `Host`.
-- - Rest.antt and Rest/: of rest, the handlers of logins, of users, of a user's own profile, of the
--   first setup (Rest/Setup.antt), of the settings (Rest/Settings.antt) and of single sign-on
--   (Rest/SignOn.antt), over the parts above, and the middleware with the chains in which the router
--   puts it (Rest/Middleware.antt), the keys of the tokens
--   (Rest/Keys.antt) and the list of users (Rest/UserList.antt), and the
--   start that reads the configuration (Rest/Start.antt). A handler is a function from the part of `Context` that it
--   reads, and a request with its body decoded, to an answer and that part of `Context`.
-- - Base.antt and Base/: lists, maps, texts, results and integers, shared by all parts.
-- - Tests.antt and Tests/: each theorem that has conditions at a concrete input, and runs of the code.
--
-- The handlers and the renewal work on the users through the operations of Users, and these save
-- through the record of Storage, which the memory storage and the local one both provide.
--
-- Times are natural numbers, of nanoseconds or, where the code divides by seconds, of seconds, and do
-- not lie before 1970. An int that may be negative is an integer; the one product that may pass 64 bits
-- (the number of users on Azure) wraps around. No function runs on fuel: every loop of the code is over
-- a list, a text or a count, and the worker of the renewal, which never ends, is modelled by its
-- round.
--
-- Locks do not show: each operation is one step. What is logged is left out, and error texts keep their
-- first part alone where the rest is only shown. What a name resolves to is taken to be the same at the
-- check of a URL and at the request for it. A key function of the JWT library is called at most once
-- for a token. Not modelled: S3 (calls of a library); of rest TLS, signals and the HTTP server; the XML types of auth/saml/types.go; and
-- the dates of utils/date.
pub mod Base
pub mod Storage
pub mod Users
pub mod Login
pub mod Totp
pub mod Oidc
pub mod Scim
pub mod Licensing
pub mod Rest
pub mod Saml
pub mod Tests
