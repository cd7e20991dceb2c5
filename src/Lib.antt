-- ===== src/Lib.antt =====
-- The Lehen Hub: a service in Python that lets the users of an organisation connect their accounts
-- at other systems (mailboxes, say) under the control of its admins. This library models its
-- services over an abstract database and proves what makes them correct.
--
-- Parts, and where they are modelled (paths from the repository's root, of which hub/src/lehen_hub/
-- is left out below):
-- * Connections, user/connections_service.py: Connections/Rows has the queries and gates
--   (`_fetch_instance`, `_is_siam_authorized`, `_next_seq`, `_record_consent`), Connections/Grant
--   `grant` and `revoke`, Connections/Flow `initiate_grant` and `complete_grant`,
--   Connections/Cascade `revoke_all_for_instance` and `revoke_for_users_no_longer_authorized`, and
--   Connections/Tokens `get_valid_access_token`. Connections/History has sequences of these calls. The other files there have proofs; Loops and Prelude/Marked the lemmas on a loop of
--   UPDATE statements, FlowFrame what the two steps of a flow leave alone.
-- * The OAuth flow, auth/oauth.py: Oauth/State has the state that travels through the browser, PKCE
--   and the URL, Oauth/Tokens the calls of the token endpoint and the stored form of the tokens.
--   `complete_grant` uses both. Expiry, Storage and Frame have the proofs.
-- * Source adapters, integrations/source_adapter.py: Integrations/Adapter, which gives the flow its
--   endpoints and the identity at the other system.
-- * Local admin, admin/local_admin_service.py: LocalAdmin/Window has the sliding-window limiter,
--   LocalAdmin/Service the login, the lock, the automatic disabling and the bootstrap; Login,
--   Lockout and Rotation have the proofs.
-- * SIAM mapping, admin/siam_service.py: Siam/Mapping has `_normalize` and `get`, Siam/Replace
--   `replace`. The gates of the connections read the mapping, and its replacement causes the
--   cascade of Connections/Cascade. Normal and Cascading have the proofs.
-- * Integration instances, integrations/registry.py and admin/integrations_service.py:
--   Integrations/Registry, Integrations/Config (the split of public fields and secrets, and what
--   the API shows) and Integrations/Service (`create`, `update`, `delete`). Disabling or deleting
--   an instance causes `revoke_all_for_instance`. Stopping has the proofs. The hooks that main.py
--   sets are arguments.
-- * LLM configuration, llm/providers.py and admin/llm_service.py: Llm/Providers has the catalog,
--   Llm/Service the one row of the configuration, as a JSON document, with `get` and `update`. The
--   other files there have the proofs.
-- * Audit log, admin/audit_service.py and crypto/audit_fingerprint.py: Audit; Audit/Masking has the
--   proofs.
-- * Secrets, crypto/secrets.py: Crypto/Envelope, with `encrypt`, `decrypt` and the laws of the
--   packages that the round trip needs; Crypto/Keys has the decoders of the two keys.
-- * What a user sees, user/me_service.py: Me; Me/Listing has the proofs.
-- * Who may call, auth/dependencies.py and auth/local_jwt.py: Auth/Surfaces, over an argument for
--   the verification of an identity provider's token. Auth/Jwks has `JWKSCache` of auth/jwks.py,
--   Auth/Jwt `decode_and_verify` of auth/jwt.py, and Auth/Providers the two providers of
--   auth/identity_provider.py; together they make that argument. Entry, Serving, Caching,
--   Verifying and Disabling have the proofs.
-- * Configuration, config.py: Config/Settings has the validators; Config/Startup relates them to
--   what main.py does with the settings.
-- * Endpoints, api/me_connections.py and api/admin/local_login.py: Api/Connections puts the user
--   surface before the services and maps their exceptions to statuses, Api/LocalLogin answers a
--   login. Api/Answers and Api/Refusals have the proofs.
-- * The start, storage/bootstrap.py: Storage/Bootstrap has `ensure_admin_schema`; Storage/Started
--   has the proofs.
-- * The database, storage/arcade.py: Arcade. The engine is not in the repository; it is a record of
--   tables with INSERT, UPDATE, DELETE and SELECT and the laws that the services rely on. Hub/Toy
--   is an instance. Hub/Documents has the document types and Hub/State the state: one table for
--   each type, the limiter's windows, the cache of the keys, and the number of readings of the
--   clock and of the random source. What the machine and the packages answer is the record `Host`;
--   the answers of other servers are the record `Network` and the endpoint of Auth/Jwks, the
--   commands of the database server and its catalog the record `Server`, and jose the record
--   `Jose`. Hub/Values has JSON values, Hub/ToyJson an instance of the JSON package.
--
-- How the code is translated: a method is a function from the state to a result or an exception and
-- the new state, so that what was written before a raise stays written. Each method runs without
-- interleaving; an `await` is one statement. Times are natural numbers of microseconds, and of
-- seconds where the code uses `int(time.time())`. Loops are structural recursion over the rows of a
-- query or the fields of a provider, and no fuel is needed but in the decimal notation of a number,
-- whose fuel is one more than the number.
--
-- Not modelled: logging; the other HTTP endpoints and the wiring; the reading of the environment;
-- failures of the database, also of a statement after another one of the same method has written;
-- exceptions of argon2 that the Hub does not catch; callers that wait for the lock of `JWKSCache`;
-- the set-up script for Keycloak, which only talks to its admin API; the web interfaces and the
-- edge client, which are in other languages.
pub mod Api
pub mod Arcade
pub mod Audit
pub mod Auth
pub mod Config
pub mod Connections
pub mod Crypto
pub mod Hub
pub mod Integrations
pub mod Llm
pub mod LocalAdmin
pub mod Me
pub mod Oauth
pub mod Prelude
pub mod Siam
pub mod Storage
pub mod Tests
