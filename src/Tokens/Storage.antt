-- ===== src/Tokens/Storage.antt =====
-- What the tokenizer relies on in a token storage: the interface TokenStorage of
-- pseudonymization/common/common.go, with its contract.
use acra.Base.{ℕ, ◌≡◌, Option, some, Bytes}
use acra.Base.Outcome.{Outcome, ok}
use acra.Crypto.{Error}
use acra.Tokens.Value.{TokenError, TokenContext}

-- What one call takes from the clock and from the random sources.
pub record Entropy : Type 0 where
  pub now : ℕ
  pub random : Outcome Error Bytes
  pub seed1 : ℕ
  pub seed2 : ℕ

-- `TokenStorage`: `Save` and `Get`, and what `Get` would find. `Get` finds exactly what is there
-- and takes nothing away; `Save` never overwrites, and what it saved is there.
pub record TokenStorage : Type 1 where
  pub Store : Type 0
  pub save : Entropy → Bytes → TokenContext → Bytes → Store → Store × Outcome TokenError (Unit {0})
  pub get : Entropy → Bytes → TokenContext → Store → Store × Outcome TokenError Bytes
  pub view : Store → Bytes → TokenContext → Option Bytes
  pub get-some :
      (e : Entropy) (id : Bytes) (c : TokenContext) (s : Store) (d : Bytes)
      → view s id c ≡ some d
      → (get e id c s).1 ≡ ok d
  pub some-get :
      (e : Entropy) (id : Bytes) (c : TokenContext) (s : Store) (d : Bytes)
      → (get e id c s).1 ≡ ok d
      → view s id c ≡ some d
  pub get-Keeps :
      (e : Entropy) (id : Bytes) (c : TokenContext) (s : Store) (j : Bytes) (c' : TokenContext)
      → view (get e id c s).0 j c' ≡ view s j c'
  pub save-some :
      (e : Entropy) (id : Bytes) (c : TokenContext) (d : Bytes) (s : Store)
      → (save e id c d s).1 ≡ ok tt
      → view (save e id c d s).0 id c ≡ some d
  pub save-Keeps :
      (e : Entropy) (id : Bytes) (c : TokenContext) (d : Bytes) (s : Store) (j : Bytes)
      (c' : TokenContext) (kept : Bytes)
      → view s j c' ≡ some kept
      → view (save e id c d s).0 j c' ≡ some kept

module _ (st : TokenStorage) where
  open st use {Store, view}

  -- everything that is in `s` is in `s'`, too
  abbrev pub Extends : Store → Store → Type 0
  Extends s s' =
      (id : Bytes) (c : TokenContext) (d : Bytes) → view s id c ≡ some d → view s' id c ≡ some d
