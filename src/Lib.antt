-- ===== src/Lib.antt =====
-- A verification library of the multi-tenant smart factory platform: the gateway's token checks
-- (apps/gateway-service), the tenant service (apps/tenant-service), the identity service
-- (apps/auth-iam-service), the warehouse service (apps/wms-service) and the relay of their outboxes
-- (apps/outbox-relay-service).
--
-- The program. The gateway checks the access token, which the identity service signed, and passes
-- the request on. It reaches a service with the headers X-Tenant-Id, X-User-Id and
-- X-Request-Id. The warehouse service asks tenant-service whether the tenant has the module, and
-- auth-iam-service whether the user has the permission, then works in one database transaction:
-- it writes its own tables, moves stock, and inserts one row into its outbox. The outbox relay
-- polls that table and publishes the events.
--
-- The files.
-- + Base (Base/Tests, Base/Lists, Base/Int): shared names, Boolean tests on numbers, tables as
--   lists, integers. Json: the values in event payloads. Uuid: texts of identifiers,
--   requireUuid of apps/wms-service/src/wms/wms-utils.ts and its copies, and how they compare with columns.
-- + Outbox: apps/wms-service/src/outbox/outbox-event.service.ts and its copy in auth-iam-service,
--   the row and envelope that `record` inserts.
-- + Effects: a transaction is a function from a database to an error or a result with the new
--   database; an error rolls back. Its children Keeps, Achieves and Requires are rules for what
--   every run keeps, what it has achieved, and what it must have passed. Wms/Effects and
--   Auth/Effects are its instances, with the exceptions of each service.
-- + Wms/Types: the tables, as in apps/wms-service/prisma/schema.prisma. A uuid is the number that
--   it denotes (its spelling is kept in the tenant of an event, see Uuid), an instant is in milliseconds, a business date counts days, a quantity is a whole
--   number of thousandths (three decimal places, as the columns have).
-- + The other modules of Wms follow apps/wms-service/src/wms/wms.service.ts: Access (authorize,
--   ensureTenantWmsEnabled), Inventory (applyInventoryMovement, applyAllocation, applyShipment,
--   applyQuantityChange, ensureCorrectedLedgerReference), Calendar (businessDateFromDate,
--   readRequiredBusinessDate), References (ensureStockReferences, ensureWarehouse), Events (the
--   outbox call), Stock (adjustInventory, confirmInbound), Outbound (allocateOutbound,
--   findOrCreateOutboundOrder, refreshOutboundOrderStatus), Packing (createOutboundPacking,
--   addOutboundPackage, confirmOutboundPacking, assertPackableAllocations,
--   assertPackingQuantitiesMatch), Shipping (shipOutbound with its two branches), Snapshot
--   (generateInventorySnapshots, findSnapshotSourceRows), MasterData (createWarehouse,
--   createLocation, createItem). Wms/Service puts the writing methods together as requests, and a
--   history is a list of calls.
-- + Auth follows apps/auth-iam-service: Types (prisma/schema.prisma), Input (the validation in
--   src/auth/auth.service.ts), Store (queries and statements with the keys of the schema), Sessions
--   (login, refresh and revoke of src/auth/auth.service.ts), Users (create, update, updateStatus and
--   remove of src/users/users.service.ts), Access (check of src/permissions/rbac.service.ts), Rbac
--   (createRole, updateRole, replaceRolePermissions, assignUserRole and removeUserRole there, create
--   of permissions.service.ts). Auth/Service puts the writing methods together as requests;
--   Auth/Service/Writes, Tokens and Accounts reduce what a history keeps to its statements.
-- + Tenant follows apps/tenant-service: Types (prisma/schema.prisma), Store (statements with the keys
--   of the schema), and of src/tenants/tenants.service.ts Code (generateUniqueTenantCode), Domains
--   (addDomain, deleteDomain), Modules (replaceModules, getModules), Tenants (create, update,
--   updateStatus).
-- + Gateway/Signer: apps/auth-iam-service/src/auth/jwt-signer.ts. Gateway/Verifier and
--   Gateway/Guard: apps/gateway-service/src/auth/jwt-verifier.ts and gateway-auth.guard.ts.
-- + Wms/Client: the retries of apps/wms-service/src/internal-clients/internal-http-client.ts.
--   Platform: the warehouse service's clients, answered by the models of the other two services.
-- + Relay/Source: apps/outbox-relay-service/src/sources/postgres-outbox-source.adapter.ts, the
--   statements that claim and mark rows. Relay/Envelope: relay/event-envelope.validator.ts.
--   Relay/Worker: relay/relay-worker.service.ts with the counters of relay-status.service.ts, one
--   run over one source.
-- + Pipeline: the service's calls followed by a run of the relay on the outbox that they leave.
-- + Wms/Tests, Auth/Tests, Tenant/Tests, Gateway/Tests, Platform/Tests, Relay/Tests, Pipeline/Tests: concrete data.
--
-- Identifiers. The services keep the text of an identifier as it came, and the database gives lower
-- case. The model keeps the spelling of the tenant in an event, which the relay compares with the
-- column, and of the warehouse in a permission check, which `check` compares with the assignment's.
-- Other identifiers are compared as numbers, as the code does for texts in lower case.
--
-- What is a parameter. `Clients` are the answers of the other services, which may be errors;
-- `Env` is the clock and the ids that the database generates; `seen` is the database that the
-- reads before a transaction saw, of which nothing is assumed; `is_short` is the comparison of
-- `applyAllocation`, which the code makes on an unrounded difference of doubles; `is_date` is
-- `Date.parse`; `Text`, `Crypto` and `Platform` are the operations on texts, the password hasher,
-- the hash of refresh tokens, the signer of access tokens and the configuration; `Jose` and `HttpText` are the encoding and the
-- cryptography of tokens and the operations on the texts of a request; a `Round` is what the publisher and the database answer for one event; and
-- `SKIP LOCKED` passes over an arbitrary set of rows.
--
-- Bounds. Quantities are exact, as the doubles of the code are for quantities far below 2 ^ 53
-- thousandths, where `roundQuantity` is the identity on sums; the comparison of `applyAllocation`
-- is taken up to 10 ^ 12 thousandths. No function needs fuel: the loops are over lists.
--
-- What is not modelled: the parsing of request bodies but for the session commands, the methods
-- that only list or show rows, the shape of responses; the headers and addresses of the HTTP
-- clients, controllers, configuration, health checks and logging; columns that no operation reads
-- (createdAt, updatedAt); the base of a tenant's code, which is made of its domain or name. Calls of
-- one history take effect one after the other, and so do the relay's runs. Of the audit log, the
-- rate limits and the proxy of the gateway, the two BFFs, the web applications and the
-- infrastructure nothing is modelled.
pub mod Auth
pub mod Base
pub mod Effects
pub mod Gateway
pub mod Json
pub mod Outbox
pub mod Pipeline
pub mod Platform
pub mod Relay
pub mod Tenant
pub mod Uuid
pub mod Wms
