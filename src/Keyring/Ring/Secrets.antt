-- ===== src/Keyring/Ring/Secrets.antt =====
-- Key data that `AddKey` took in comes back from the accessors.
use acra.Base.{
  ℕ, ◌≡◌, refl, ap, ◌∙◌, false, some, List, [], ◌∷◌, ◌++◌, ◌==◌, arith, Bytes, Bool-cases, inl, inr,
  ==_iff,
}
use acra.Base.Outcome.{ok, Outcome-cases, >>=-eq_ok}
use acra.Keyring.State.{pre_active}
use acra.Keyring.Data.{Key, KeyData, RingData, key_with_seqnum, themis_symmetric_key_format}
use acra.Keyring.Disk.{Disk, Faults}
use acra.Keyring.Sync.{Codec, Ring, Run, idle}
use acra.Keyring.Ring.{add_new_key, next_seqnum, pop_tx}
use acra.Keyring.Ring.Access.{KeyEncryptor, find_format, symmetric_key, symmetric_key_context}
use acra.Keyring.Ring.NewKey.{
  KeyDescription, has_format, sealed_data, add_key_data, add_all_key_data, new_key, add_key,
  with_seqnum,
}
use acra.Keyring.Ring.Keep.{
  key_with_seqnum-concat, apply_from-cons, apply_from-nil, sync-IsCommitted,
}
use acra.Keyring.Ring.Advance.{add_key-keys}
use acra.Keyring.Tx.{Tx}
use acra.Keyring.Tx as Transaction

find_format-append :
    (format : ℕ) (ds : List KeyData) (d e : KeyData)
    → find_format format ds ≡ ok e
    → find_format format (ds ++ d ∷ []) ≡ ok e
unfolding find_format
find_format-append format [] d e h = cc
find_format-append format (x ∷ ds) d e h = ground (arith, find_format-append format ds d e)

find_format-concat :
    (ds : List KeyData) (d : KeyData)
    → has_format d.format ds ≡ false
    → find_format d.format (ds ++ d ∷ []) ≡ ok d
unfolding find_format has_format
find_format-concat [] d h = ground arith
find_format-concat (x ∷ ds) d h = ground (arith, find_format-concat ds d)

module _ (enc : KeyEncryptor) (path : Bytes) where
  add_key_data-grows :
      (d : KeyData) (key key' : Key)
      → add_key_data enc path d key ≡ ok key'
      → (new : KeyData) × (has_format d.format key.key_data ≡ false)
        × (sealed_data enc path key.seqnum d ≡ ok new)
        × (key' ≡ record key { key_data = key.key_data ++ new ∷ [] })
  unfolding add_key_data
  add_key_data-grows d key key' h = elim (Outcome-cases (sealed_data enc path key.seqnum d)) [
    | inl (new, e) ↦ (new, ground arith, e, ground arith)
    | inr (inl (e', e)) ↦ absurd (ground arith)
    | inr (inr e) ↦ absurd (ground arith)
  ]

  sealed_data-format :
      (s : ℕ) (d new : KeyData) → sealed_data enc path s d ≡ ok new → new.format ≡ d.format
  unfolding sealed_data
  sealed_data-format s d new h = ground arith

  sealed_data-symmetric :
      (s : ℕ) (d new : KeyData)
      → d.format ≡ themis_symmetric_key_format
      → sealed_data enc path s d ≡ ok new
      → enc.encrypt (symmetric_key_context path s) d.symmetric_key ≡ ok new.symmetric_key
  unfolding sealed_data
  sealed_data-symmetric s d new e h = ground arith

  -- What is in a key stays where it is found when more data is added.
  add_all_key_data-keeps :
      (ds : List KeyData) (key key' : Key) (format : ℕ) (e : KeyData)
      → add_all_key_data enc path ds key ≡ ok key'
      → find_format format key.key_data ≡ ok e
      → find_format format key'.key_data ≡ ok e
  unfolding add_all_key_data
  add_all_key_data-keeps [] key key' format e h at = ground arith
  add_all_key_data-keeps (d ∷ ds) key key' format e h at =
      let (mid, first, rest) = >>=-eq_ok (add_key_data enc path d key) _ h in
      let (new, fresh, made, grown) = add_key_data-grows d key mid first in
      let still = find_format-append format key.key_data new e at in
      add_all_key_data-keeps ds mid key' format e rest
        (ap (λ (k : Key). find_format format k.key_data) grown ∙ still)

  add_all_key_data-same :
      (ds : List KeyData) (key key' : Key)
      → add_all_key_data enc path ds key ≡ ok key'
      → (key'.seqnum ≡ key.seqnum) × (key'.state ≡ key.state)
  unfolding add_all_key_data
  add_all_key_data-same [] key key' h = ground arith
  add_all_key_data-same (d ∷ ds) key key' h =
      let (mid, first, rest) = >>=-eq_ok (add_key_data enc path d key) _ h in
      let (new, fresh, made, grown) = add_key_data-grows d key mid first in
      let (s, t) = add_all_key_data-same ds mid key' rest in
      (s ∙ ap (λ (k : Key). k.seqnum) grown, t ∙ ap (λ (k : Key). k.state) grown)

  add_all_key_data-symmetric :
      (ds : List KeyData) (key key' : Key) (d : KeyData)
      → add_all_key_data enc path ds key ≡ ok key'
      → find_format themis_symmetric_key_format ds ≡ ok d
      → (new : KeyData) × (find_format themis_symmetric_key_format key'.key_data ≡ ok new)
        × (enc.encrypt (symmetric_key_context path key.seqnum) d.symmetric_key
            ≡ ok new.symmetric_key)
  unfolding add_all_key_data find_format
  add_all_key_data-symmetric [] key key' d h at = absurd (ground arith)
  add_all_key_data-symmetric (x ∷ ds) key key' d h at =
      let (mid, first, rest) = >>=-eq_ok (add_key_data enc path x key) _ h in
      let (new, fresh, made, grown) = add_key_data-grows x key mid first in
      elim (Bool-cases (x.format == themis_symmetric_key_format)) [
        | inl is_it ↦
            let format : x.format ≡ themis_symmetric_key_format = (==_iff _ _).0 is_it in
            let same : x ≡ d = ground arith in
            let kind : new.format ≡ themis_symmetric_key_format =
              sealed_data-format key.seqnum x new made ∙ format in
            let found = find_format-concat key.key_data new (ground arith) in
            (
              new,
              add_all_key_data-keeps ds mid key' themis_symmetric_key_format new rest (
                  ap (λ (k : Key). find_format themis_symmetric_key_format k.key_data) grown
                  ∙ rw kind at found),
              rw (← same) (sealed_data-symmetric key.seqnum x new format made),
            )
        | inr other ↦
            let (new', at', sealed) =
              add_all_key_data-symmetric ds mid key' d rest (ground arith) in
            (new', at', rw grown at sealed)
      ]

abbrev blank : List Key → KeyDescription → Key
blank keys k = record {
  seqnum = next_seqnum keys;
  state = pre_active;
  valid_since = k.valid_since;
  valid_until = k.valid_until;
  key_data = [];
}

new_key-fills :
    (enc : KeyEncryptor) (path : Bytes) (keys : List Key) (k : KeyDescription)
    (entries : List KeyData) (new : Key)
    → k.key_data ≡ entries
    → new_key enc path keys k ≡ ok new
    → add_all_key_data enc path entries (blank keys k) ≡ ok new
unfolding new_key
new_key-fills enc path keys k [] new e h = absurd (ground arith)
new_key-fills enc path keys k (d ∷ ds) new e h = ground arith

-- A ring that holds a live key with this data gives its symmetric key back.
symmetric_key-found :
    (enc : KeyEncryptor) (s : ℕ) (ring : Ring) (key : Key) (d : KeyData) (plain : Bytes)
    → key_with_seqnum s ring.ring_data.keys ≡ some key
    → key.state ≡ pre_active
    → find_format themis_symmetric_key_format key.key_data ≡ ok d
    → enc.encrypt (symmetric_key_context ring.path s) plain ≡ ok d.symmetric_key
    → symmetric_key enc s themis_symmetric_key_format ring ≡ ok plain
unfolding symmetric_key
symmetric_key-found enc s ring key d plain at live found sealed = ground (
  arith,
  enc.decrypt-encrypt (symmetric_key_context ring.path s) plain d.symmetric_key,
  enc.encrypt-ne-nil (symmetric_key_context ring.path s) plain,
)

with_seqnum-ok :
    (new : Key) (run : Run)
    → (with_seqnum new run).0.result ≡ ok tt
    → (run.result ≡ ok tt) × (with_seqnum new run ≡ (run, new.seqnum))
unfolding with_seqnum
with_seqnum-ok new run h = ground arith

module _ (enc : KeyEncryptor) (c : Codec) (f : Faults) (now : ℕ) (disk : Disk) where
  added :
      (path : Bytes) (snapshot : RingData) (new : Key)
      → (add_new_key c f now disk new (idle path snapshot)).result ≡ ok tt
      → (after : RingData) × (key_with_seqnum new.seqnum after.keys ≡ some new)
        × ((add_new_key c f now disk new (idle path snapshot)).ring
            ≡ record { path = path; ring_data = after; tx_log = [] })
  unfolding add_new_key
  added path snapshot new h =
      let (st, same) =
        sync-IsCommitted c f now disk path snapshot (Transaction.add_key new) [] pop_tx h in
      let (tx1, r1, e1, h1) =
        apply_from-cons [] [] (Transaction.add_key new) st.before st.applies in
      let (fresh, keys) = add_key-keys new st.before e1 in
      (
        st.after,
        ap (λ (r : RingData). key_with_seqnum new.seqnum r.keys) (apply_from-nil _ r1 h1)
            ∙ (ap (key_with_seqnum new.seqnum) keys ∙ key_with_seqnum-concat st.before.keys new),
        same,
      )

  -- After `AddKey` has returned a seqnum and no error, `SymmetricKey` at that seqnum gives back the
  -- symmetric key of the description.
  pub symmetric_key-add_key :
      (path : Bytes) (snapshot : RingData) (k : KeyDescription) (d : KeyData)
      → find_format themis_symmetric_key_format k.key_data ≡ ok d
      → (add_key enc c f now disk k (idle path snapshot)).0.result ≡ ok tt
      → symmetric_key enc
          (add_key enc c f now disk k (idle path snapshot)).1
          themis_symmetric_key_format
          (add_key enc c f now disk k (idle path snapshot)).0.ring
        ≡ ok d.symmetric_key
  unfolding add_key
  symmetric_key-add_key path snapshot k d at h =
      elim (Outcome-cases (new_key enc path snapshot.keys k)) [
        | inl (new, e) ↦
            let ring : Ring = record { path = path; ring_data = snapshot; tx_log = [] } in
            let (fine, same) =
              with_seqnum-ok new (add_new_key c f now disk new ring) (rw (e, add_key) at h) in
            let filled = new_key-fills enc path snapshot.keys k k.key_data new refl e in
            let (s, live) =
              add_all_key_data-same enc path k.key_data (blank snapshot.keys k) new filled in
            let (d', found, sealed) =
              add_all_key_data-symmetric enc path k.key_data (blank snapshot.keys k) new d filled
                at in
            let (after, there, left) = added path snapshot new fine in
            rw (e, add_key)
              (rw same (
                rw left (
                  symmetric_key-found enc new.seqnum _ new d' d.symmetric_key there live found
                    (rw s (sealed)))))
        | inr (inl (e', e)) ↦ absurd (ground arith)
        | inr (inr e) ↦ absurd (ground arith)
      ]
