-- ===== src/Keyring/Errors.antt =====
-- The errors of the key rings: keystore/v2/keystore/api/key.go, keyRing.go, keyRingTX.go and the
-- back end's. `external` is an error of the operating system or of a library.
use acra.Base.{ℕ}

pub data KeyError : Type 0 where
  format_duplicated format_missing key_not_exist key_destroyed no_key_data : KeyError
  invalid_format invalid_state invalid_cryptoperiod no_current_key no_public_data : KeyError
  tx_concurrent_modification tx_key_not_found tx_key_exists : KeyError
  path_not_exist path_exist : KeyError
  external : ℕ → KeyError
