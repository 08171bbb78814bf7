-- ===== src/Tokens/Memory.antt =====
-- The token storage in the memory of the process: pseudonymization/storage/memory.go and
-- common/metadata.go. The keys of its maps are the strings whose hexadecimal digits the code uses,
-- one for one; times and durations are counted from an instant before all of them.
pub mod Refines
pub mod Laws
use acra.Base.{
  ℕ, ◌+◌, ◌*◌, ◌≡◌, Bool, true, false, Option, none, some, List, [], ◌∷◌, Bytes, if◌then◌else◌, ltb,
  length,
}
use acra.Base.Dict.{Dict, lookup, insert}
use acra.Base.Outcome.{Outcome, ok, err, panic}
use acra.Tokens.Value.{
  TokenError, TokenContext, aggregate_token_context_to_bytes, token_not_found, token_exists,
  token_disabled,
}

pub record TokenMetadata : Type 0 where
  pub created : ℕ
  pub accessed : ℕ
  pub disabled : Bool

abbrev pub new_token_metadata : ℕ → TokenMetadata
new_token_metadata now = record { created = now; accessed = now; disabled = false }

-- `AccessedBefore`
abbrev pub accessed_before : TokenMetadata → ℕ → ℕ → Bool
accessed_before m instant granularity = ltb (m.accessed + granularity) instant

pub record TokenData : Type 0 where
  pub content : Bytes
  pub metadata : TokenMetadata

-- by context, then by ID
abbrev pub Tokens : Type 0
Tokens = Dict (Dict TokenData)

pub record MemoryTokenStorage : Type 0 where
  pub tokens : Tokens
  pub access_granularity : ℕ

abbrev default_access_time_granularity : ℕ
default_access_time_granularity = 24 * 3600 * 1000000000

-- `NewMemoryTokenStorage`
abbrev pub new_memory_token_storage : MemoryTokenStorage
new_memory_token_storage = record {
  tokens = [];
  access_granularity = default_access_time_granularity;
}

pub data TokenAction : Type 0 where
  token_continue token_enable token_disable token_remove : TokenAction

abbrev pub with_tokens : Tokens → MemoryTokenStorage → MemoryTokenStorage
with_tokens tokens m = record m { tokens = tokens }

-- the map of a context, made where there is none
unfoldable pub context_map : Bytes → Tokens → Dict TokenData × Tokens
context_map ctx m = elim (lookup ctx m) [ some tokens ↦ (tokens, m) | none ↦ ([], insert ctx [] m) ]

-- `Save`, for the digest of a context
unfoldable pub save_token :
    ℕ → Bytes → Bytes → Bytes → Tokens → Tokens × Outcome TokenError (Unit {0})
save_token now id ctx content m =
    let (tokens, m1) = context_map ctx m in
    elim (lookup id tokens) [
      | some _ ↦ (m1, err token_exists)
      | none ↦
          let fresh : TokenData = record { content = content; metadata = new_token_metadata now } in
          (insert ctx (insert id fresh tokens) m1, ok tt)
    ]

-- the time of the last access, where it is old enough
unfoldable pub touched : ℕ → ℕ → TokenData → TokenData
touched now granularity t =
    if accessed_before t.metadata now granularity
    then record t { metadata = record t.metadata { accessed = now } }
    else t

unfoldable pub is_disabled : TokenData → Bool
is_disabled t = t.metadata.disabled

-- `Get`, for the digest of a context
unfoldable pub get_token : ℕ → ℕ → Bytes → Bytes → Tokens → Tokens × Outcome TokenError Bytes
get_token now granularity id ctx m = elim (lookup ctx m) [
  | none ↦ (m, err token_not_found)
  | some tokens ↦ elim (lookup id tokens) [
    | none ↦ (m, err token_not_found)
    | some t ↦
        if is_disabled t
        then (m, err token_disabled)
        else (insert ctx (insert id (touched now granularity t) tokens) m, ok t.content)
  ]
]

unfoldable pub stat_token : Bytes → Bytes → Tokens → Outcome TokenError TokenMetadata
stat_token id ctx m = elim (lookup ctx m) [
  | none ↦ err token_not_found
  | some tokens ↦ elim (lookup id tokens) [ none ↦ err token_not_found | some t ↦ ok t.metadata ]
]

-- what an action does to an entry
abbrev pub acted : TokenAction → TokenData → Option TokenData
acted token_continue t = some t
acted token_enable t = some (record t { metadata = record t.metadata { disabled = false } })
acted token_disable t = some (record t { metadata = record t.metadata { disabled = true } })
acted token_remove t = none

-- `VisitMetadata`, in some order of the entries; an error stops it where it is.
module _ (callback : ℕ → TokenMetadata → Outcome TokenError TokenAction) where
  abbrev pub keep_entry :
      Bytes
      → Option TokenData
      → Dict TokenData × Outcome TokenError (Unit {0})
      → Dict TokenData × Outcome TokenError (Unit {0})
  keep_entry id none r = r
  keep_entry id (some t) (rest, r) = ((id, t) ∷ rest, r)

  unfoldable pub visit_context : Dict TokenData → Dict TokenData × Outcome TokenError (Unit {0})
  visit_context [] = ([], ok tt)
  visit_context ((id, t) ∷ rest) = elim (callback (length t.content) t.metadata) [
    | err e ↦ ((id, t) ∷ rest, err e)
    | panic ↦ ((id, t) ∷ rest, panic)
    | ok action ↦ keep_entry id (acted action t) (visit_context rest)
  ]

  unfoldable pub visit_tokens : Tokens → Tokens × Outcome TokenError (Unit {0})
  unfolding visit_context
  visit_tokens [] = ([], ok tt)
  visit_tokens ((ctx, tokens) ∷ rest) =
      let (tokens1, r) = visit_context tokens in
      elim r [
        | err e ↦ ((ctx, tokens1) ∷ rest, err e)
        | panic ↦ ((ctx, tokens1) ∷ rest, panic)
        | ok _ ↦ let (rest1, r1) = visit_tokens rest in ((ctx, tokens1) ∷ rest1, r1)
      ]

  unfoldable pub visit_metadata :
      MemoryTokenStorage → MemoryTokenStorage × Outcome TokenError (Unit {0})
  unfolding visit_tokens
  visit_metadata m = let (tokens, r) = visit_tokens m.tokens in (with_tokens tokens m, r)

-- `SetAccessTimeGranularity`
abbrev pub set_access_time_granularity : ℕ → MemoryTokenStorage → MemoryTokenStorage
set_access_time_granularity granularity m = record m { access_granularity = granularity }

-- The methods, which take the digest of the context.
module _ (sha256 : Bytes → Bytes) where
  unfoldable pub save :
      ℕ
      → Bytes
      → TokenContext
      → Bytes
      → MemoryTokenStorage
      → MemoryTokenStorage × Outcome TokenError (Unit {0})
  save now id c content m =
      let (tokens, r) =
        save_token now id (aggregate_token_context_to_bytes sha256 c) content m.tokens in
      (with_tokens tokens m, r)

  unfoldable pub get :
      ℕ → Bytes → TokenContext → MemoryTokenStorage → MemoryTokenStorage × Outcome TokenError Bytes
  get now id c m =
      let (tokens, r) =
        get_token now m.access_granularity id (aggregate_token_context_to_bytes sha256 c)
          m.tokens in
      (with_tokens tokens m, r)

  unfoldable pub stat : Bytes → TokenContext → MemoryTokenStorage → Outcome TokenError TokenMetadata
  stat id c m = stat_token id (aggregate_token_context_to_bytes sha256 c) m.tokens
