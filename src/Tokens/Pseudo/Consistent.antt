-- ===== src/Tokens/Pseudo/Consistent.antt =====
-- `AnonymizeConsistently` gives one token for one value.
use acra.Base.{ℕ, zero, suc, ◌≡◌, sym, ◌∙◌, some, Bytes, inl, inr}
use acra.Base.Outcome.{Outcome, ok, Outcome-cases}
use acra.Tokens.Value.{
  TokenError, TokenType, TokenContext, TokenValueCodec, Value, IsValid, encode_to_bytes,
  bytes_to_golang_value,
}
use acra.Tokens.Storage.{TokenStorage, Extends}
use acra.Tokens.Pseudo.{Pass, fresh_token, hash_key, anonymize, try_get, anonymize_consistently}
use acra.Tokens.Pseudo.Kept.{after_save-ok, anonymize-IsKept, bytes_to_golang_value-encode_to_bytes}

module _ (sha256 : Bytes → Bytes) (codec : TokenValueCodec) (st : TokenStorage) where
  open st use {Store, save, get, view, save-some, get-some, some-get, get-Keeps}

  -- The storage has this token under the key.
  record IsHeld (key : Bytes) (token : Value) (c : TokenContext) (t : TokenType) (s : Store)
      : Type 0 where
    encoded : Bytes
    is_stored : view s key c ≡ some encoded
    is_decoded : bytes_to_golang_value encoded t ≡ ok token

  -- With no token under the key, a fresh one comes there, or another pass decides.
  fresh-IsHeld :
      (passes : ℕ → Pass) (k : ℕ) (again : Store → Store × Outcome TokenError Value) (v : Value)
      (c : TokenContext) (t : TokenType) (key : Bytes) (s : Store) (token : Value)
      (others : Store → Store)
      → ((s3 : Store) → (again s3).1 ≡ ok token → IsHeld key token c t (again s3).0)
      → IsValid v
      → (fresh_token sha256 codec st others (passes k) again v c t key s).1 ≡ ok token
      → IsHeld key token c t (fresh_token sha256 codec st others (passes k) again v c t key s).0
  unfolding fresh_token
  fresh-IsHeld passes k again v c t key s token others held valid h =
      let a = anonymize sha256 codec st (passes k).tries v c t s in
      let e = (passes k).save_entropy in
      elim (Outcome-cases a.1) [
        | inr (inl (_, g)) ↦ absurd (let f = rw (g, fresh_token) at h in cc)
        | inr (inr g) ↦ absurd (let f = rw (g, fresh_token) at h in cc)
        | inl (w, g) ↦
            let kept = anonymize-IsKept sha256 codec st (passes k).tries v c t s w valid g in
            let encoded = kept.encoded in
            let step = kept.is_encoded in
            rw (g, fresh_token)
              (rw (step, fresh_token)
                (elim (after_save-ok w again (save e key c encoded (others a.0)) token
                  (rw (step, fresh_token) at (rw (g, fresh_token) at h))) [
                    | inr (more, f) ↦ rw f (held _ more)
                    | inl (saved, same, f) ↦
                        rw (f, sym same)
                          (record {
                            encoded = encoded;
                            is_stored = save-some e key c encoded (others a.0) saved;
                            is_decoded =
                                bytes_to_golang_value-encode_to_bytes w t encoded kept.is_valid
                                  step;
                          })
                  ]))
      ]

  try_get-IsHeld :
      (others : Store → Store) (k : ℕ) (passes : ℕ → Pass) (v : Value) (c : TokenContext)
      (t : TokenType) (key : Bytes) (s : Store) (token : Value)
      → IsValid v
      → (try_get sha256 codec st others k passes v c t key s).1 ≡ ok token
      → IsHeld key token c t (try_get sha256 codec st others k passes v c t key s).0
  unfolding try_get
  try_get-IsHeld others zero passes v c t key s token valid h = absurd cc
  try_get-IsHeld others (suc k) passes v c t key s token valid h =
      let r = get (passes k).get_entropy key c (others s) in
      let a = anonymize sha256 codec st (passes k).tries v c t (others r.0) in
      elim (Outcome-cases r.1) [
        | inl (value, e) ↦
            rw (e, try_get)
              (record {
                encoded = value;
                is_stored =
                    get-Keeps (passes k).get_entropy key c (others s) key c
                    ∙ some-get (passes k).get_entropy key c (others s) value e;
                is_decoded = rw (e, try_get) at h;
              })
        | inr (inr e) ↦ absurd (let f = rw (e, try_get) at h in cc)
        | inr (inl (e', e)) ↦
            rw (e, try_get)
              (fresh-IsHeld passes k (λ s3. try_get sha256 codec st others k passes v c t key s3) v
                c t key (others r.0) token others
                (λ s3 again. try_get-IsHeld others k passes v c t key s3 token valid again) valid
                (rw (e, try_get) at h))
      ]

  -- Where `AnonymizeConsistently` returned a token, it returns that token for the value from then
  -- on, whatever else is added to the storage before and meanwhile: also where another instance of
  -- the server saved a token for the value between its `Get` and its `Save`. An integer is one of
  -- the machine.
  pub anonymize_consistently-again :
      (others others' : Store → Store) (passes passes' : ℕ → Pass) (v : Value) (c : TokenContext)
      (t : TokenType) (s s' : Store) (token : Value)
      → IsValid v
      → (anonymize_consistently sha256 codec st others passes v c t s).1 ≡ ok token
      → Extends st (anonymize_consistently sha256 codec st others passes v c t s).0 s'
      → Extends st s' (others' s')
      → (anonymize_consistently sha256 codec st others' passes' v c t s').1 ≡ ok token
  unfolding anonymize_consistently try_get
  anonymize_consistently-again others others' passes passes' v c t s s' token valid h more more' =
      elim (Outcome-cases (encode_to_bytes v t)) [
        | inr (inl (_, e)) ↦ absurd (let f = rw (e, anonymize_consistently) at h in cc)
        | inr (inr e) ↦ absurd (let f = rw (e, anonymize_consistently) at h in cc)
        | inl (encoded, e) ↦
            let key = hash_key sha256 encoded c t in
            let held =
              try_get-IsHeld others 2 passes v c t key s token valid
                (rw (e, anonymize_consistently) at h) in
            let more1 = rw (e, anonymize_consistently) at more in
            let there = more' key c held.encoded (more1 key c held.encoded held.is_stored) in
            rw (e, anonymize_consistently)
              (rw (get-some (passes' 1).get_entropy key c (others' s') held.encoded there, try_get)
                held.is_decoded)
      ]
