-- ===== src/Lib.antt =====
-- Acra, a database security suite: its key store of version 2, its crypto containers, tokenization,
-- the SQL firewall, searchable encryption, and the packets of the database proxies.
--
-- The parts and the files that model them
-- - Keyring: a key ring of the key store (keystore/v2/keystore). Keyring/State is the life cycle
--   of a key (`KeyStateTransitionValid` of api/key.go); Keyring/Data the data of a ring
--   (asn1/asn1.go); Keyring/Tx the transactions and `applyPendingTX` (filesystem/keyRingTX.go,
--   keyRing.go); Keyring/Disk the back end (filesystem/backend/memory.go); Keyring/Sync the reading
--   and writing of rings (filesystem/keyStoreLoad.go); Keyring/Ring the operations
--   (filesystem/keyRing.go, key.go, export.go), with the accessors in Ring/Access and new and
--   imported keys in Ring/NewKey.
-- - Crypto: the errors of the containers, and the cryptography they take from libraries.
-- - Acrablock and Acrastruct: the containers acrablock/acrablock.go and acrastruct/utils.go.
-- - Envelope: the serialized containers around both, and the registry of the handlers that open
--   them (crypto/registry.go, registry_handler.go), with the two handlers in Envelope/Handlers
--   (crypto/acrablock.go, acrastruct.go), and in Envelope/Detect the search of a column for them
--   and the encryptors of columns (crypto/envelope_detector.go, decryptor.go, poison_detector.go,
--   encryptor.go, reencryptor.go).
-- - Scan: the search of a buffer for AcraStructs (ProcessAcraStructs of acrastruct/utils.go), and
--   the loop that Envelope/Detect shares with it.
-- - Mysql: length-encoded integers and strings (decryptor/mysql/base/utils.go), and in Mysql/Packet
--   packets and their fragments (decryptor/mysql/packet.go).
-- - Postgres: the proxy of PostgreSQL (decryptor/postgresql). Postgres/Packet is the packets of
--   the client (packet_handler.go), Postgres/Rows the rows of data (packet_handler.go,
--   handleQueryDataPacket of pg_decryptor.go), Postgres/Messages the messages Parse, Bind and
--   Execute (utils.go), Postgres/Bound the values of parameters (utils.go), Postgres/Registry the
--   prepared statements and cursors, which are shared by pointers (prepared_statements.go),
--   Postgres/Pending the pending queries (pending_packets.go), and Postgres/Session what the
--   packets of both sides do to them (protocol.go, pg_decryptor.go).
-- - Wire: what packets of both databases are read and written with.
-- - Escape: the escape format of PostgreSQL's bytea (utils/dbByteArrayEncoders.go).
-- - Tokens: tokenization (pseudonymization). Tokens/Value is the data and its encoding (utils.go,
--   common); Tokens/Random the random values (random.go); Tokens/Storage the contract of a token
--   storage (common/common.go), under which Tokens/Pseudo models the pseudoanonymizer
--   (tokenizer.go) and Tokens/Columns the tokenization of columns (dataTokenizer.go);
--   Tokens/Memory is the storage in memory (storage/memory.go), which keeps that contract, and
--   Tokens/Secure the storage that encrypts tokens, around any other (encryptedStorageWrapper.go,
--   storageTokenEncryptor.go).
-- - Censor: AcraCensor, the SQL firewall (acra-censor). Censor/Tables is the matching of tables
--   (common/common.go), Censor/Handlers the rules of the handlers (handlers), Censor/Chain
--   HandleQuery and the loading of handlers (acra-censor_implementation.go,
--   acra-censor_configuration_provider.go).
-- - Search: the hash in front of searchable data (hmac), with the processor of columns in
--   Search/Column.
-- - Base: names, tests, lists, outcomes, machine words, and Go maps; Tests: concrete inputs.
--
-- How the code is modelled. A function that may fail returns an `Outcome`: a value, an error, or a
-- panic of the Go runtime (a slice out of range, a nil dereference). State is passed explicitly: an
-- operation of a ring takes the disk, the snapshot and the failures of its run (`Faults`), and
-- returns a `Run`. A Go `int` is its 64-bit pattern, a byte a number; the tests on signs are
-- written out. A call of a library is a field of a record that the definitions take (`Codec`,
-- `KeyEncryptor`, `Cell`, `Messenger`), with the laws that the library documents. A ring that was
-- signed comes back with its times in whole seconds and the data of each key sorted, as the tags of
-- its ASN.1 type say.
--
-- Fuel: `decimal` has 20 digits, enough for every 64-bit number. The search of a buffer takes fuel
-- for the turns of its loop; Scan/Terminates says how much it needs. So does the search of a
-- column for containers (Envelope/Detect), and the reading of the fragments of a packet, of which
-- there are no more than bytes (Mysql/Packet). The tries of the tokenizer are the code's own. All
-- else is structural recursion.
--
-- Not modelled: concurrency inside one process (the mutexes are taken to work, and processes
-- are interleaved operation by operation, which the lock of the back end ensures), zeroing of
-- memory but for the values of a portal, logging and counters, the wrapper of the detector for
-- old containers, buffers that overlap in memory and with them ProcessAcraBlocks
-- (acrablock/utils.go), the start of a connection and TLS, the prepared statements and result
-- sets of MySQL, the encoding of parameters by a setting, the parser of SQL, the rewriting of
-- queries and the matching of patterns on its syntax trees, and the key store of version 1.
pub mod Base
pub mod Keyring
pub mod Crypto
pub mod Acrablock
pub mod Acrastruct
pub mod Mysql
pub mod Envelope
pub mod Escape
pub mod Scan
pub mod Tokens
pub mod Censor
pub mod Search
pub mod Wire
pub mod Postgres
pub mod Tests
