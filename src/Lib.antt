-- ===== src/Lib.antt =====
-- Verification of the account, entitlement and payment core of the Nuvien research copilot.
--
-- The program is a web service on PostgreSQL and Redis. A user registers, logs in and refreshes
-- sessions (services/auth). A login asks the rate limiter (services/auth_rate_limiter.py), gives a
-- new user an organization, and asks for the organization's subscription of the entitlement
-- service (services/entitlement_service.py), which also decides and counts the quota of each chat
-- call (services/quota_guard.py, web/quota_guard.py). Organizations have members with roles
-- (services/rbac_service.py); each request resolves the membership of its user (web/deps_rbac.py,
-- web/middleware/rbac.py), and admins change memberships over web/routers/orgs.py.
--
-- A checkout (web/routers/payments.py) records an order and its context in two JSON files, and its
-- payment arrives as a Toss webhook: a delivery is recognised by its key in a third file
-- (services/payments/toss_webhook_store.py), and its order id names the plan tier. A paid order upgrades
-- the settings of the installation (services/plan_service.py), which stand on the plan config
-- (services/plan_config_store.py), both in JSON files with a copy in memory. It also means to write the
-- organization's subscription, in a statement that the database refuses. A logged webhook can be
-- replayed by hand (services/payments/toss_webhook_replay.py).
--
-- The chat keeps the summaries of a session's topics in a store of its own
-- (services/memory/session_store.py). Apart from these, the chunks of a filing are embedded in batches
-- and handed to the vector store (services/vector_service.py).
--
-- Files, with the source that each models:
--   Common              shared names, lists, texts as code points, integers, dicts, JSON values, and
--                       the answers of routes
--   PlanTiers           core/plan_constants.py
--   Auth                services/auth/common.py, services/auth_tokens.py, core/auth/constants.py and
--                       ensure_first_login_metadata of services/onboarding_service.py
--     Auth/Model        the rows of users, auth_tokens, session_tokens, audit_events and the like
--     Auth/Settings     what comes from outside: hashing, JWT, digests, patterns, the environment
--     Auth/Exec         a call as a state monad with exceptions over database, Redis and mails
--     Auth/Tokens       issue_magic_token, consume_magic_token, JWTs, _record_audit_event
--     Auth/Guards       validation, rate limits, failed attempts, default organization
--     Auth/Login        LoginUserUseCase and _issue_login_result
--     Auth/Accounts     registration, verification, password reset, unlock
--     Auth/Sessions     refresh_session and logout_session
--     Auth/Access, Admits, Register, Reset, SessionUse, TokenUse, Policy, Rollback    the theorems
--   RateLimit           services/auth_rate_limiter.py, services/guest_rate_limiter.py
--     RateLimit/Window  the theorem on one window
--   Entitlement         limits, caches and plan lookup of services/entitlement_service.py
--     Entitlement/Billing   sync_subscription_from_billing and _ensure_plan
--     Entitlement/Usage     _evaluate and the usage counters
--     Entitlement/Quota     services/quota_guard.py, services/id_utils.py, web/quota_guard.py
--     Entitlement/Decision      the theorems
--   JsonStore           services/json_state_store.py
--   Payments            services/payments/toss_webhook_store.py and toss_webhook_utils.py, and
--                       _generate_order_id of web/routers/payments.py
--     Payments/Contexts     services/payments/order_context_store.py
--     Payments/Orders, OrderStatus     services/payments/toss_order_store.py
--     Payments/OrderItems, OrderStore, Merged, OrderUse     what is stored of an order, and the theorems
--     Payments/Events, Dedupe, ContextItems, ContextUse, Tier     what is stored, and the theorems
--   PlanConfig          services/plan_config_store.py: tier entries, their defaults and fields
--     PlanConfig/Entries    how tier entries are normalized and merged
--     PlanConfig/Store      its operations, on services/json_store.py
--     PlanConfig/Normal, Merge, Readback, Updates     lemmas on the entries, and the theorems
--   PlanSettings        services/plan_service.py: settings and trials, and how they are read
--     PlanSettings/Exec, Disk     a call as a state monad with exceptions, loading and storing
--     PlanSettings/Context, Changes     contexts, and the operations that change the settings
--     PlanSettings/Hoare, Spent, Held, Updating, Readback, Sorted     what the theorems stand on
--     PlanSettings/Trial, Checkout, Cancel, Restart     the theorems
--   Webhook             _event_metadata, _extract_org_id, _parse_period_end and the tables of
--                       web/routers/payments.py, and verify_toss_webhook_signature of
--                       services/payments/toss_payments.py
--     Webhook/Payment       a payment event as the handler reads it
--     Webhook/Handler       handle_toss_webhook and _sync_entitlement_subscription
--     Webhook/Requests, Routes     create_toss_checkout, read_toss_order, confirm_toss_payment
--     Webhook/Replay        services/payments/toss_webhook_replay.py
--     Webhook/Recognised, Duplicates, Later, Settling, Paid, Journey, Confirmed,
--     Replayed, Unbilled    the theorems
--   Rbac                tables, roles and reads of services/rbac_service.py
--     Rbac/Service          its calls that write, and `evaluate`
--     Rbac/Access           web/deps_rbac.py and web/middleware/rbac.py
--     Rbac/Routes           web/routers/orgs.py
--     Rbac/Sound, Calls     the tables over any calls of the service
--     Rbac/Guarded, Revoked     who is let in
--   Embedding           store_chunk_vectors of services/vector_service.py
--     Embedding/Ends, Complete     the theorems
--   SessionMemory       services/memory/session_store.py, the fallback in memory
--     SessionMemory/Topics  the theorems
--
-- How code becomes definitions. A function keeps its name; a table is a list of rows in the order of
-- their insertion, or a dict on its primary key, and an UPDATE or a SELECT is a function on it. A
-- transaction that raises leaves the database as it was. What may fail outside (a query, a Redis
-- command, a write of a file) is an input that says whether it succeeds. Ids, secrets and digests
-- are only compared, so they are numbers; a fresh one is an input of the call. Instants are whole
-- seconds. Python integers are unbounded. `strip` knows Python's white space; `lower`, `upper` and
-- `title` change the letters a to z only.
--
-- Code that is not in the repository is a parameter: Argon2, PyJWT, SHA-256, the e-mail and password
-- patterns, the ip parser (Auth/Settings), the Redis server (Redis, UsageServer), HMAC and base64
-- (Outside of Webhook), and the embedding service, which answers each call as it likes. So are
-- functions of Python's library: the texts of UUIDs and dates, `str` on JSON values that are no texts
-- (`show`), and `fromisoformat`, `fromtimestamp`, `isoformat`, `uuid` and `urlencode` (`parse_iso`,
-- Library of PlanSettings, Outside of Webhook, Webhook/Routes). The answer of the payment provider to a
-- confirmation and the tiers of the plan catalog (services/plan_catalog_service.py) are inputs. What a
-- theorem needs of them is a named hypothesis, and its witness instantiates the parameter by a concrete
-- function.
--
-- One statement is refused whatever the database answers: the upsert of `org_subscriptions` writes
-- `:metadata::jsonb` in SQLAlchemy's `text()`, which binds no name that a colon follows.
--
-- A call happens at one instant. An instant carries its time zone, and dates have no last year. The
-- files of the plan config and of the settings have fixed paths, and reading a file fails only by what
-- the file holds. The reads of services/rbac_service.py do not fail.
--
-- Every recursion is on a list, a text or a number, but for the embedding loop, which has fuel: one for
-- each character of the jobs, one and the batch size for each job, the batch size once more, and one.
-- Each round lowers that sum, so it is enough. The bounds of 200 stored webhooks, of 300 contexts and of
-- 400 orders are the source's.
--
-- Not modelled: mails, logs, metrics and audit trails beyond the fact that they are sent, which is taken
-- not to raise; concurrent transactions (each call runs alone, and so the caches of a service are those
-- of one process); list_plan_presets, the feature flags and the normalization of the plan catalog; the
-- rows of the webhook audit log and the routes that list them; single sign-on and SCIM; the ids of points
-- and the client of the vector store, which is taken to be there; retrieval, ingestion, market data,
-- reports and the dashboard.
pub mod Common
pub mod PlanTiers
pub mod Auth
pub mod RateLimit
pub mod Entitlement
pub mod JsonStore
pub mod Payments
pub mod SessionMemory
pub mod PlanConfig
pub mod PlanSettings
pub mod Webhook
pub mod Embedding
pub mod Rbac
