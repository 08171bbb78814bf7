-- ===== src/Keyring/Ring/NewKey.antt =====
-- New keys and imported ones: `newKey`, `copyKey` and `addKeyData` of keystore/v2/keystore/
-- filesystem/key.go, `AddKey` of keyRing.go, `importASN1` and `exportASN1` of export.go.
use acra.Base.{ℕ, Bool, true, false, ◌||◌, List, [], ◌∷◌, ◌++◌, ◌==◌, Bytes, if◌then◌else◌, ltb}
use acra.Base.Outcome.{Outcome, ok, err, panic, ◌>>=◌}
use acra.Keyring.Errors.{
  KeyError, format_duplicated, invalid_format, no_key_data, invalid_cryptoperiod,
}
use acra.Keyring.State.{pre_active}
use acra.Keyring.Data.{
  Key, KeyData, RingData, themis_key_pair_format, themis_symmetric_key_format, no_key,
}
use acra.Keyring.Disk.{Disk, Faults}
use acra.Keyring.Tx.{set_keys}
use acra.Keyring.Sync.{Codec, Ring, Run, sync_key_ring}
use acra.Keyring.Ring.{next_seqnum, add_new_key, push_tx, pop_tx, pop_on_error}
use acra.Keyring.Ring.Access.{KeyEncryptor, private_key_context, symmetric_key_context}

-- `api.KeyDescription`
pub record KeyDescription : Type 0 where
  pub valid_since : ℕ
  pub valid_until : ℕ
  pub key_data : List KeyData

unfoldable pub has_format : ℕ → List KeyData → Bool
has_format format [] = false
has_format format (d ∷ ds) = d.format == format || has_format format ds

abbrev pub is_empty : Bytes → Bool
is_empty [] = true
is_empty (b ∷ bs) = false

module _ (enc : KeyEncryptor) (path : Bytes) where
  -- The data as it is stored: the private parts encrypted for the key.
  unfoldable pub sealed_data : ℕ → KeyData → Outcome KeyError KeyData
  sealed_data seqnum d =
      if d.format == themis_key_pair_format
      then if is_empty d.public_key
        then err no_key_data
        else if is_empty d.private_key
        then ok (record {
          format = d.format;
          public_key = d.public_key;
          private_key = [];
          symmetric_key = [];
        })
        else (do
          sealed ← enc.encrypt (private_key_context path seqnum) d.private_key
          ok (record {
            format = d.format;
            public_key = d.public_key;
            private_key = sealed;
            symmetric_key = [];
          }))
      else if d.format == themis_symmetric_key_format
      then if is_empty d.symmetric_key then err no_key_data else (do
        sealed ← enc.encrypt (symmetric_key_context path seqnum) d.symmetric_key
        ok (record {
          format = d.format;
          public_key = [];
          private_key = [];
          symmetric_key = sealed;
        }))
      else err invalid_format

  -- `addKeyData`
  unfoldable pub add_key_data : KeyData → Key → Outcome KeyError Key
  unfolding has_format sealed_data
  add_key_data d key = if has_format d.format key.key_data then err format_duplicated else do
    new_data ← sealed_data key.seqnum d
    ok (record key { key_data = key.key_data ++ new_data ∷ [] })

  unfoldable pub add_all_key_data : List KeyData → Key → Outcome KeyError Key
  unfolding add_key_data
  add_all_key_data [] key = ok key
  add_all_key_data (d ∷ ds) key = do key' ← add_key_data d key; add_all_key_data ds key'

  -- `newKey`, from the keys that the snapshot holds
  unfoldable pub new_key : List Key → KeyDescription → Outcome KeyError Key
  unfolding add_all_key_data next_seqnum
  new_key keys k =
      if ltb k.valid_until k.valid_since then err invalid_cryptoperiod else elim k.key_data [
        | [] ↦ err no_key_data
        | d ∷ ds ↦ add_all_key_data (d ∷ ds) (record {
          seqnum = next_seqnum keys;
          state = pre_active;
          valid_since = k.valid_since;
          valid_until = k.valid_until;
          key_data = [];
        })
      ]

  -- `copyKey`
  unfoldable pub copy_key : Key → Outcome KeyError Key
  unfolding add_all_key_data
  copy_key other =
      if ltb other.valid_until other.valid_since
      then err invalid_cryptoperiod
      else elim other.key_data [
        | [] ↦ err no_key_data
        | d ∷ ds ↦ add_all_key_data (d ∷ ds) (record other { key_data = [] })
      ]

  -- the loop of `importASN1`
  unfoldable pub copy_keys : List Key → Outcome KeyError (List Key)
  unfolding copy_key
  copy_keys [] = ok []
  copy_keys (k ∷ ks) = do k' ← copy_key k; ks' ← copy_keys ks; ok (k' ∷ ks')

-- what `AddKey` returns beside the run of `addKey`
unfoldable pub with_seqnum : Key → Run → Run × ℕ
with_seqnum new run = elim run.result [
  | ok _ ↦ (run, new.seqnum)
  | err e ↦ (run, no_key)
  | panic ↦ (run, no_key)
]

module _ (enc : KeyEncryptor) (c : Codec) (f : Faults) (now : ℕ) (disk : Disk) where
  -- `AddKey`: the run, and the seqnum of the new key or `NoKey`
  unfoldable pub add_key : KeyDescription → Ring → Run × ℕ
  unfolding new_key with_seqnum
  add_key k ring = elim (new_key enc ring.path ring.ring_data.keys k) [
    | err e ↦ (record { disk = disk; ring = ring; result = err e }, no_key)
    | panic ↦ (record { disk = disk; ring = ring; result = panic }, no_key)
    | ok new ↦ with_seqnum new (add_new_key c f now disk new ring)
  ]

  -- `importASN1`
  unfoldable pub import_asn1 : RingData → Ring → Run
  unfolding copy_keys pop_on_error
  import_asn1 imported ring = elim (copy_keys enc ring.path imported.keys) [
    | err e ↦ record { disk = disk; ring = ring; result = err e }
    | panic ↦ record { disk = disk; ring = ring; result = panic }
    | ok new_keys ↦
        pop_on_error pop_tx
          (sync_key_ring c f now disk (push_tx (set_keys new_keys imported.current [] 0) ring))
  ]
