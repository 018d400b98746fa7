-- ===== src/Lib.antt =====
-- A model of the core packages of himitsu, a self-hosted manager of secrets, and what the model
-- shows of them.
--
-- The parts and how they interact. Every service method runs in one database transaction of one
-- organization (Tenant), asks the resolver for the actor's roles and the decision for a permission
-- (Authz), changes rows of the tables (Database), and appends an audit event whose metadata is
-- validated first (Audit). Environments and Projects are such services; deleting a project marks
-- its environments and secrets, deleting an environment marks its secrets, and the marks decide
-- what a restoration brings back. Crypto encrypts secret values under data keys that are wrapped by
-- a master key and cached, over the table of wrapped keys. Secrets stores each value as a new
-- version, encrypted in the context of its secret and version, reads versions back, rolls back to
-- them, writes batches, and moves values between environments and files; what it exports as dotenv,
-- Imports parses. Login counts failed logins in memory.
--
-- Files, with the code they model:
--   Prelude, Prelude/*       lists, options and tests on numbers that the others share
--   Evaluation, Evaluation/* what the tests evaluate, and the small organization they run on
--   Text, Text/Slug, Text/Fields
--                            strings as lists of UTF-16 units: trim, toLowerCase, the slug pattern
--                            (normalizeOrganizationSlug of packages/tenancy/src/index.ts and its
--                            copies in packages/environments and packages/projects)
--   Errors, Exec             the error codes of the packages, and a method in a transaction: a
--                            function from the tables to a result or an error, and the tables
--   Database                 the tables of packages/database/migrations that the services use
--   Authz, Authz/Decision, Authz/Interface
--                            packages/authz/src/index.ts: the permission matrix, effectiveRole,
--                            authorize and the two snapshots
--   Audit, Audit/*           packages/audit/src/index.ts: validateEvent, validateMetadata, metadataFor
--                            with the size of the encoded text
--   Tenant, Tenant/*         withOrg of packages/tenancy/src/index.ts; the resolver and the override
--                            service of packages/authz/src/index.ts; recordInTransaction
--   Environments, and below  EnvironmentService of packages/environments/src/index.ts
--   Projects, and below      ProjectService of packages/projects/src/index.ts, with the trigger of
--                            packages/database/migrations/0008_environments.sql
--   Login, Login/Counting    LoginAttemptLimiter of packages/auth/src/index.ts
--   Crypto, and below        packages/crypto/src/index.ts: LocalMasterKey, the key stores and
--                            EnvelopeEncryptionService
--   Imports, and below       parseDotenv and buildDotenvPreview of packages/imports/src/index.ts
--   Secrets, and below       packages/secrets/src/index.ts: the validation of keys, values and notes
--                            here, the statements on its tables in Store, #create, #writeVersion and
--                            #writeMetadata in Writing, update, rollback and delete in Changes, get,
--                            listVersions and compareVersions in Reading, bulkSet and importBatch in
--                            Batches, previewPromotion and promote in Promotion,
--                            serializeSecretExport and exportConfig in Export and below
--   Secrets/Utf8             the texts and bytes of values
--   Secrets/Sealing, Secrets/Versions, Secrets/History, Secrets/Lasting, Secrets/Conflicts,
--   Secrets/Limits           proofs on what is stored, what a call leaves, and what reads return
-- In each, Tests holds runs at given inputs.
--
-- Readings. Ids and UUIDs are numbers, except in Crypto, where they are texts (Secrets writes the
-- context of an encryption with the text of each UUID); instants are milliseconds. A table is a
-- list of rows, and a statement is a function on it; `RETURNING` and row counts are read from the
-- same list. Keys are tested where a row is written, and a violation is the error that the driver
-- reports. The random bytes, the clock and the ids that the database draws are arguments. The
-- cipher of node:crypto is a parameter, with the law that it unseals what it sealed. Functions
-- recurse on their data, so no fuel is needed; the one bound taken over from the code is the depth
-- of audit metadata. Numbers in the modelled code stay far below 2 ^ 53 and are natural. A service
-- of Secrets makes an envelope service for each transaction, whose cache keeps nothing (TTL 0), so
-- it starts with an empty cache. The order of `localeCompare` is a parameter of the export. Bytes
-- and texts are turned into each other by the UTF-8 of the WHATWG standard, lone surrogates
-- included. Tags and rows are listed in the order of their tables.
--
-- Not modelled: of the secrets service the listing (its search is the ILIKE of the database) and
-- the runtime configuration (its version is kept by a trigger), the rest of the tenancy and
-- authentication packages, the audit queries, API keys and consistency checks;
-- the HTTP API, the command line, the web interface, the GitHub action and the Go programs, which
-- are I/O around the services. Calls of the envelope service run one at a time here. Columns that
-- no modelled decision reads are left out, also where an answer carries them: createdAt and
-- updatedAt of environments, projects and secrets, and of the tags of a project or a secret their
-- names and colours (answers have the ids of tags), and so are the address and user agent of an
-- audit event.
pub mod Audit
pub mod Authz
pub mod Crypto
pub mod Database
pub mod Environments
pub mod Errors
pub mod Evaluation
pub mod Exec
pub mod Imports
pub mod Login
pub mod Prelude
pub mod Projects
pub mod Secrets
pub mod Tenant
pub mod Text
