-- ===== src/Lib.antt =====
-- Verification of the agent module (pilot-module/src): its money, the requests and messages of its
-- peers, its files, and its settings.
--
-- The agent keeps one SQLite database. Its owner speaks to it over a channel, other agents over A2A
-- messages; it pays through the wallet module, sends through the delivery module and keeps files in the
-- storage module. The parts that are modelled, and their files:
--   * Prelude, Text, Table: Booleans, integers, byte texts with their decimal form, and a table of the
--     database as its rows in rowid order with one function for each form of SQL statement. A JSON value
--     is the record of the fields that the code reads of it.
--   * Agent: class PilotImpl (pilot-module/src/pilot_impl.h) and the rows of initDatabase
--     (pilot-module/src/pilot_impl.cpp) as records. The calls on other modules are a log, newest first.
--     Agent/World holds what comes from outside while one operation runs: the clock, the generated id,
--     the replies of wallet and delivery, signatures and the JSON parser. A definition takes a World,
--     and `later n` is that world after n readings of the clock.
--   * Spending: pilot-module/src/pilot_spending.cpp, one file for each group of its functions;
--     executeSpend is execute_spend, walletSend wallet_send, and so on. Spending/Balance has the number
--     formats of pilot-module/src/pilot_identity.cpp.
--   * Owner: sendToOwner (pilot-module/src/pilot_owner.cpp) and verifyOwnerMessage
--     (pilot-module/src/pilot_impl.cpp), with the proofs on its pin and its nonces.
--   * Cards: verifyCardStatus, a2aCacheDiscoveredCard, matchedCardLogos and its readers,
--     handleDiscoveryCard and agentImportCard (pilot-module/src/pilot_a2a.cpp).
--   * Tasks/Linked: the task rows that a spend moves. Tasks/Settle: settleOutboundReply and
--     verifyAndSettleReply; Tasks/Outbound: agentTask, agentSubscribe, agentCancel and handleA2AReply
--     (pilot-module/src/pilot_a2a.cpp). Tasks/Inbound: handleInboundA2A, verifyInboundRequest and
--     processInboundRequest (pilot-module/src/pilot_a2a_inbox.cpp), with a record Env for the skill
--     registry and for what other handlers do while a skill is dispatched.
--     Tasks/Recover: outboundTasksRecover, inboundTasksRecover and a2aEvictDiscoveryCache.
--   * Money: the proofs about spends and tasks. Money/Rows says how a row may change and Money/Runs which
--     operations a run is made of (those on spend requests, tasks, cards and requests of peers); the files between them prove each operation's step.
--   * Crypto: the formats and compositions of pilot-module/src/pilot_crypto.cpp. OpenSSL is the record
--     Cipher, and IsAead what is asked of it; random draws are arguments.
--   * Messaging: pilot-module/src/pilot_messaging.cpp. Its state is the record Mailbox; Qt's JSON and
--     base64 are the record Wire.
--   * Storage: pilot-module/src/pilot_storage.cpp over a record Node, which is what the storage module
--     and its disk answer while one operation runs.
--   * Settings: metaConfigure (pilot-module/src/pilot_meta.cpp), and loadIdentity, persistSecretConfig and
--     the rows of config that createIdentity writes (pilot-module/src/pilot_identity.cpp). A record Vault
--     holds the passphrase and the random draws of one start.
--   * Hire: agentOpenForHire and agentCloseForHire (pilot-module/src/pilot_a2a.cpp) with identityTopics and
--     subscribeIdentityTopics (pilot-module/src/pilot_impl.cpp), and agentPollTopics.
--   * Registry: pilot-module/src/pilot_skill_registry.cpp, with what a plugin library answers as data.
--   * Examples: the properties at a small agent, with a cipher and a wire that satisfy what is asked.
--
-- Amounts are integers; the additions of int64_t in the limit tests wrap round (Prelude/Int64), the SUM of
-- periodSpent fails where it overflows, as SQLite documents it, and a text is read as an int64_t with its
-- bounds. Times are natural numbers. Loops are recursion over the rows, characters or attempts; the only count is the twenty
-- looks at the disk of an upload, which is the code's own. An INSERT on a taken key leaves the table as it
-- is, and the code does not notice; theorems that need a generated id to be new say so.
--
-- Not modelled: opening and migrating the database, the polling of the store, the signing of messages
-- and the sealing of tasks (functions of the World), the progress rows of agentTask in delivery_events,
-- key generation, the start of the wallet and the funding of the agent's account (which hands the wallet a
-- transfer without a spend request), the status report, the lists of
-- storage, program calls, the builtin skills, language-model providers, the owner's client, and failures of SQLite itself. The
-- registry is walked in the order of registration, where the code has the order of an unordered_map.
pub mod Prelude
pub mod Text
pub mod Table
pub mod Agent
pub mod Cards
pub mod Crypto
pub mod Hire
pub mod Registry
pub mod Messaging
pub mod Storage
pub mod Settings
pub mod Owner
pub mod Tasks
pub mod Spending
pub mod Money
pub mod Examples
