-- ===== src/Keyring.antt =====
-- The key store of version 2: keystore/v2/keystore/{api/key.go, asn1/asn1.go,
-- filesystem/{keyRing.go, keyRingTX.go, key.go, keyStoreLoad.go, export.go}}.
pub mod Errors
pub mod State
pub mod Data
pub mod Tx
pub mod Disk
pub mod Sync
pub mod Ring
