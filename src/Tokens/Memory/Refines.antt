-- ===== src/Tokens/Memory/Refines.antt =====
-- The nested maps of the memory storage behave as one flat map from pairs of keys.
use acra.Base.{
  ℕ, ◌≡◌, refl, ap, ◌∙◌, ◌&&◌, Option, none, some, [], Bytes, if◌then◌else◌, inl, inr, Option-cases,
  Bool-cases, bytes_eq, bytes_eq_iff, bytes_eq_refl, arith,
}
use acra.Base.Dict.{Dict, lookup, insert, lookup-insert}
use acra.Base.Outcome.{Outcome, ok, err}
use acra.Tokens.Value.{TokenError, token_not_found, token_exists, token_disabled}
use acra.Tokens.Memory.{
  TokenData, TokenMetadata, Tokens, new_token_metadata, touched, is_disabled, context_map,
  save_token, get_token, stat_token,
}

-- The specification: tokens by the digest of a context and an ID.
abbrev pub Flat : Type 0
Flat = Bytes → Bytes → Option TokenData

abbrev pub update : Bytes → Bytes → TokenData → Flat → Flat
update ctx id t f = λ ctx' id'. if bytes_eq ctx ctx' && bytes_eq id id' then some t else f ctx' id'

abbrev pub flat_save : ℕ → Bytes → Bytes → Bytes → Flat → Flat × Outcome TokenError (Unit {0})
flat_save now id ctx content f = elim (f ctx id) [
  | some _ ↦ (f, err token_exists)
  | none ↦
      (update ctx id (record { content = content; metadata = new_token_metadata now }) f, ok tt)
]

abbrev pub flat_get : ℕ → ℕ → Bytes → Bytes → Flat → Flat × Outcome TokenError Bytes
flat_get now granularity id ctx f = elim (f ctx id) [
  | none ↦ (f, err token_not_found)
  | some t ↦
      if is_disabled t
      then (f, err token_disabled)
      else (update ctx id (touched now granularity t) f, ok t.content)
]

abbrev pub flat_stat : Bytes → Bytes → Flat → Outcome TokenError TokenMetadata
flat_stat id ctx f = elim (f ctx id) [ none ↦ err token_not_found | some t ↦ ok t.metadata ]

-- what the nested maps say
unfoldable pub token_at : Tokens → Flat
token_at m ctx id = elim (lookup ctx m) [ none ↦ none | some tokens ↦ lookup id tokens ]

token_at-insert :
    (m : Tokens) (ctx ctx' id' : Bytes) (tokens : Dict TokenData)
    → token_at (insert ctx tokens m) ctx' id'
      ≡ (if bytes_eq ctx ctx' then lookup id' tokens else token_at m ctx' id')
unfolding token_at
token_at-insert m ctx ctx' id' tokens = ground (arith, lookup-insert ctx ctx' tokens m)

-- a token put into the map of its context
token_at-put :
    (m : Tokens) (ctx id ctx' id' : Bytes) (t : TokenData) (tokens : Dict TokenData)
    → lookup ctx m ≡ some tokens
    → token_at (insert ctx (insert id t tokens) m) ctx' id' ≡ update ctx id t (token_at m) ctx' id'
unfolding token_at
token_at-put m ctx id ctx' id' t tokens h = ground (
  arith,
  lookup-insert ctx ctx' (insert id t tokens) m,
  lookup-insert id id' t tokens,
  bytes_eq_iff ctx ctx',
)

lookup-nil : (k : Bytes) → ◌≡◌ {A = Option TokenData} (lookup k []) none
unfolding lookup
lookup-nil k = refl

-- the map of a context says of it what all maps say
context_map-token_at :
    (ctx id : Bytes) (m : Tokens) → lookup id (context_map ctx m).0 ≡ token_at m ctx id
unfolding context_map token_at
context_map-token_at ctx id m = ground (arith, lookup-nil id)

context_map-Same :
    (ctx ctx' id' : Bytes) (m : Tokens)
    → token_at (context_map ctx m).1 ctx' id' ≡ token_at m ctx' id'
unfolding context_map token_at
context_map-Same ctx ctx' id' m =
    ground (arith, lookup-insert ctx ctx' [] m, bytes_eq_iff ctx ctx', lookup-nil id')

context_map-lookup :
    (ctx : Bytes) (m : Tokens) → lookup ctx (context_map ctx m).1 ≡ some (context_map ctx m).0
unfolding context_map
context_map-lookup ctx m = ground (arith, lookup-insert ctx ctx [] m, bytes_eq_refl ctx)

module _ (m : Tokens) (now granularity : ℕ) (id ctx content : Bytes) where
  abbrev fresh : TokenData
  fresh = record { content = content; metadata = new_token_metadata now }

  save_token-Refines :
      ((save_token now id ctx content m).1 ≡ (flat_save now id ctx content (token_at m)).1)
      × ((ctx' id' : Bytes)
          → token_at (save_token now id ctx content m).0 ctx' id'
            ≡ (flat_save now id ctx content (token_at m)).0 ctx' id')
  unfolding save_token
  save_token-Refines =
      let same = context_map-token_at ctx id m in
      elim (Option-cases (token_at m ctx id)) [
        | inl (t, e) ↦
            rw (e, flat_save)
              (rw (same ∙ e, save_token) (refl, λ ctx' id'. context_map-Same ctx ctx' id' m))
        | inr e ↦
            rw (e, flat_save)
              (rw (same ∙ e, save_token)
                (
                  refl,
                  λ ctx' id'.
                      token_at-put (context_map ctx m).1 ctx id ctx' id' fresh (context_map ctx m).0
                        (context_map-lookup ctx m)
                      ∙ ap
                          (λ (o : Option TokenData).
                            if bytes_eq ctx ctx' && bytes_eq id id' then some fresh else o)
                          (context_map-Same ctx ctx' id' m),
                ))
      ]

  get_token-Refines :
      ((get_token now granularity id ctx m).1 ≡ (flat_get now granularity id ctx (token_at m)).1)
      × ((ctx' id' : Bytes)
          → token_at (get_token now granularity id ctx m).0 ctx' id'
            ≡ (flat_get now granularity id ctx (token_at m)).0 ctx' id')
  unfolding get_token token_at
  get_token-Refines = elim (Option-cases (lookup ctx m)) [
    | inr e ↦ rw (e, get_token, token_at, flat_get) (refl, λ ctx' id'. refl)
    | inl (tokens, e) ↦
        rw (e, get_token, token_at, flat_get)
          (elim (Option-cases (lookup id tokens)) [
            | inr f ↦ rw (f, get_token, token_at, flat_get) (refl, λ ctx' id'. refl)
            | inl (t, f) ↦
                rw (f, get_token, token_at, flat_get)
                  (elim (Bool-cases (is_disabled t)) [
                    | inl g ↦ rw (g, get_token, token_at, flat_get) (refl, λ ctx' id'. refl)
                    | inr g ↦
                        rw (g, get_token, token_at, flat_get)
                          (
                            refl,
                            λ ctx' id'.
                                token_at-put m ctx id ctx' id' (touched now granularity t) tokens e,
                          )
                  ])
          ])
  ]

  stat_token-Refines : stat_token id ctx m ≡ flat_stat id ctx (token_at m)
  unfolding stat_token token_at
  stat_token-Refines = ground arith

-- `Save`, `Get` and `Stat` of the memory storage implement those of one flat map from pairs of a
-- context and an ID to tokens, in results and in what is there afterwards: a token that is there is
-- never replaced, a disabled token answers with an error, and a read moves only the time of access.
pub memory-refines_flat :
    (m : Tokens) (now granularity : ℕ) (id ctx content : Bytes)
    → (((save_token now id ctx content m).1 ≡ (flat_save now id ctx content (token_at m)).1)
        × ((ctx' id' : Bytes)
            → token_at (save_token now id ctx content m).0 ctx' id'
              ≡ (flat_save now id ctx content (token_at m)).0 ctx' id'))
      × (((get_token now granularity id ctx m).1 ≡ (flat_get now granularity id ctx (token_at m)).1)
          × ((ctx' id' : Bytes)
              → token_at (get_token now granularity id ctx m).0 ctx' id'
                ≡ (flat_get now granularity id ctx (token_at m)).0 ctx' id'))
      × (stat_token id ctx m ≡ flat_stat id ctx (token_at m))
memory-refines_flat m now granularity id ctx content = (
  save_token-Refines m now granularity id ctx content,
  get_token-Refines m now granularity id ctx content,
  stat_token-Refines m now granularity id ctx content,
)
