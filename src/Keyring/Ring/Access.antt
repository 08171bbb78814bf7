-- ===== src/Keyring/Ring/Access.antt =====
-- Key data in a ring: `keyDataByFormat`, the accessors and the encryption contexts of
-- keystore/v2/keystore/filesystem/key.go, keyRing.go and keyStore.go.
use acra.Base.{ℕ, ◌≡◌, none, some, List, [], ◌∷◌, ◌++◌, ◌==◌, Bytes, text, if◌then◌else◌, map}
use acra.Base.Decimal.{decimal}
use acra.Base.Outcome.{Outcome, ok, err, ◌>>=◌}
use acra.Keyring.Errors.{
  KeyError, key_not_exist, key_destroyed, format_missing, invalid_format, no_key_data,
}
use acra.Keyring.State.{KeyState, destroyed}
use acra.Keyring.Data.{Key, KeyData, key_with_seqnum}
use acra.Keyring.Sync.{Ring}

-- `crypto.KeyEncryptor`, at a context. What was encrypted is not empty, and decrypts in the same
-- context.
pub record KeyEncryptor : Type 0 where
  pub encrypt : Bytes → Bytes → Outcome KeyError Bytes
  pub decrypt : Bytes → Bytes → Outcome KeyError Bytes
  pub decrypt-encrypt :
      (context data_bytes sealed : Bytes)
      → encrypt context data_bytes ≡ ok sealed
      → decrypt context sealed ≡ ok data_bytes
  pub encrypt-ne-nil : (context data_bytes : Bytes) → encrypt context data_bytes ≡ ok [] → ⊥

abbrev pub private_key_context : Bytes → ℕ → Bytes
private_key_context path seqnum =
    text "AKSv2 keystore: "
    ++ (text "key ring " ++ (path ++ (text ": " ++ (text "private key " ++ decimal seqnum))))

abbrev pub symmetric_key_context : Bytes → ℕ → Bytes
symmetric_key_context path seqnum =
    text "AKSv2 keystore: "
    ++ (text "key ring " ++ (path ++ (text ": " ++ (text "symmetric key " ++ decimal seqnum))))

unfoldable pub find_format : ℕ → List KeyData → Outcome KeyError KeyData
find_format format [] = err format_missing
find_format format (d ∷ ds) = if d.format == format then ok d else find_format format ds

-- `keyDataBySeqnum` and its nil test
abbrev pub key_at : ℕ → Ring → Outcome KeyError Key
key_at seqnum ring = elim (key_with_seqnum seqnum ring.ring_data.keys) [
  | none ↦ err key_not_exist
  | some key ↦ ok key
]

unfoldable pub key_data_by_format : ℕ → ℕ → Ring → Outcome KeyError KeyData
unfolding find_format
key_data_by_format seqnum format ring = do
  key ← key_at seqnum ring
  if key.state == destroyed then err key_destroyed else find_format format key.key_data

-- `State`
unfoldable pub state : ℕ → Ring → Outcome KeyError KeyState
state seqnum ring = do key ← key_at seqnum ring; ok key.state

-- `ValidSince`
unfoldable pub valid_since : ℕ → Ring → Outcome KeyError ℕ
valid_since seqnum ring = do key ← key_at seqnum ring; ok key.valid_since

-- `ValidUntil`
unfoldable pub valid_until : ℕ → Ring → Outcome KeyError ℕ
valid_until seqnum ring = do key ← key_at seqnum ring; ok key.valid_until

-- `Formats`
unfoldable pub formats : ℕ → Ring → Outcome KeyError (List ℕ)
formats seqnum ring = do key ← key_at seqnum ring; ok (map (λ d. d.format) key.key_data)

-- `PublicKey`
unfoldable pub public_key : ℕ → ℕ → Ring → Outcome KeyError Bytes
unfolding key_data_by_format
public_key seqnum format ring = do
  d ← key_data_by_format seqnum format ring
  elim d.public_key [ [] ↦ err invalid_format | b ∷ bs ↦ ok (b ∷ bs) ]

module _ (enc : KeyEncryptor) where
  -- `PrivateKey`
  unfoldable pub private_key : ℕ → ℕ → Ring → Outcome KeyError Bytes
  unfolding key_data_by_format
  private_key seqnum format ring = do
    d ← key_data_by_format seqnum format ring
    elim d.private_key [
      | [] ↦ err no_key_data
      | b ∷ bs ↦ enc.decrypt (private_key_context ring.path seqnum) (b ∷ bs)
    ]

  -- `SymmetricKey`
  unfoldable pub symmetric_key : ℕ → ℕ → Ring → Outcome KeyError Bytes
  unfolding key_data_by_format
  symmetric_key seqnum format ring = do
    d ← key_data_by_format seqnum format ring
    elim d.symmetric_key [
      | [] ↦ err invalid_format
      | b ∷ bs ↦ enc.decrypt (symmetric_key_context ring.path seqnum) (b ∷ bs)
    ]
