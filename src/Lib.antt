-- ===== src/Lib.antt =====
-- DADI Runtime: a runtime that runs pipelines of document stages on stored artifacts, audits what it
-- does, and delivers the results. Artifacts are immutable and addressed by the SHA-256 of their bytes.
--
-- The parts and their files:
--   * Tables: the rows of services/gateway/sql/*.sql, and the database as one record. SQL statements are
--     the functions of Base/Sql on lists of rows; Base/Actions has code that may raise and keeps what
--     it wrote, since each `with tx()` block commits on its own.
--   * Store, with Store/*: services/gateway/dadi_gateway/store.py. Pack, with Pack/Tenanted:
--     services/artifact-store/dadi_store/store.py, the store without tenants. Adapter, with
--     Adapter/Refines: services/orchestrator/dadi_orchestrator/store_adapter.py.
--   * Registry, with Registry/Verdicts: services/orchestrator/dadi_orchestrator/schema_registry.py.
--     Validator: tools/validator/validator.py.
--   * Orchestrator, with Orchestrator/*: services/orchestrator/dadi_orchestrator/orchestrator.py, which
--     calls Adapter and Registry. The loop of `run` is `run_stages`, one round of it `run_stage`.
--   * Audit, with Audit/*: services/gateway/dadi_gateway/audit.py.
--   * Planner/Query, Planner/Items and Planner/Gateway: services/gateway/dadi_gateway/planner.py;
--     Planner/Regen: services/regen-planner/dadi_regen/planner.py. The parameters of a query are bound
--     to its placeholders by position.
--   * Closure, with Closure/Laws: services/gateway/dadi_gateway/closure_verify.py.
--   * Requests, with Requests/Idempotency: services/gateway/dadi_gateway/idempotency.py and what a
--     route reads of a request. Deliverables, with Deliverables/*: deliverables_routes.py beside it.
--     Bundles, with Bundles/*: revocation_routes.py, bundle_download_routes.py, streaming_utils.py.
--     RunDiff, with RunDiff/*: diff_routes.py. These routes call Store and Audit.
--   * LlmAdapter, with LlmAdapter/Capture: services/llm-adapter/dadi_llm_adapter/adapter.py,
--     artifact_store.py and models.py, on the tables of Pack.
--   * Signing, with Signing/KeyRing, Signing/Laws and Signing/Tamper: services/gateway/dadi_gateway/bundle_utils.py.
--     Signing/Provider: signing_provider.py, bundle_signing_adapter.py and dev_ed25519_signing.py
--     beside it. Signing/Kms, with Signing/Kms/*: kms_public_key_cache.py, aws_kms_signing.py.
--   * Auth, with Auth/Token, Auth/Accepted and Auth/Passed: services/gateway/dadi_gateway/jwt_auth.py. Auth/Oidc: auth_oidc.py.
--   * Limits, with Limits/Buckets and Limits/Sizes: services/gateway/dadi_gateway/rate_limit.py and
--     request_size_limit.py. Limits/Redis, with Limits/Redis/Same: rate_limit_redis.py.
--   * Gateway, with Gateway/*: services/gateway/dadi_gateway/app.py, whose routes call Store and
--     Planner/Gateway and whose middlewares are Limits and Auth, in the order in which a request meets
--     them. A middleware is a function from a request to the request that goes on or to an answer.
--   * BundleVerify, with BundleVerify/*: tools/bundle-verify/bundle_verify.py, with the packages of
--     Signing and the sets of Closure.
--   * Regress, with Regress/Recorded: tools/regress/dadi_regress/record.py, fixture.py and verify.py, on
--     the rows of Pack. Regress/Drift: diff.py beside them.
--   * Tests and Tests/*: concrete runs.
--
-- Fuel: `iter_bytes` has the number of bytes for fuel, and each step takes one byte at least where the
-- chunk size is positive. The loop of the limiter in Redis runs over the list of the stores that its
-- rounds meet, and has no result while the list ends in failures. All other loops are recursion on
-- lists and texts.
--
-- Parameters, since they are packages: SHA-256, JSON printing and reading, UUIDs, the jsonschema
-- validators, the LLM provider, the casts of the database and how it reads a UUID, the handlers of the stages, base64, HMAC,
-- Ed25519, the key management service, PyJWT, the environment, and floats (`Limits.Floats`).
--
-- Not modelled: foreign keys and uniqueness constraints (a statement that breaks one does not raise
-- here), row level security, `isoformat`, the change of a value by a JSON column, transactions that
-- run at the same time, the spelling of a UUID in the condition of a query (a request's ids are taken
-- to be canonical there), handlers that change the list of earlier outputs in place, the routes of
-- bundles_routes.py and evidence_routes.py (the files do not parse), the health and development routes,
-- letters and white space beyond ASCII in `lower` and `strip`, NaN, the schemas of fixtures, files on
-- disk, and the tools but the validator, the regress tool and the bundle verifier.
pub mod Base
pub mod Tables
pub mod Store
pub mod Registry
pub mod Validator
pub mod Adapter
pub mod Orchestrator
pub mod Audit
pub mod Planner
pub mod Closure
pub mod Requests
pub mod Deliverables
pub mod Bundles
pub mod RunDiff
pub mod Pack
pub mod LlmAdapter
pub mod Signing
pub mod Auth
pub mod Limits
pub mod Gateway
pub mod BundleVerify
pub mod Regress
pub mod Tests
