-- ===== src/Tokens/Memory/Laws.antt =====
-- The memory storage keeps the contract of a token storage.
use acra.Base.{
  ℕ, ◌≡◌, refl, sym, ap, ◌∙◌, true, ◌&&◌, &&-eq_true, Option, none, some, [], Bytes, if◌then◌else◌,
  inl, inr, Option-cases, Bool-cases, bytes_eq, bytes_eq_iff, bytes_eq_refl, arith,
}
use acra.Base.Outcome.{ok}
use acra.Tokens.Value.{TokenContext, aggregate_token_context_to_bytes}
use acra.Tokens.Storage.{TokenStorage}
use acra.Tokens.Memory.{TokenData, MemoryTokenStorage, touched, is_disabled, save, get}
use acra.Tokens.Memory.Refines.{update, Flat, flat_save, flat_get, token_at, memory-refines_flat}

-- what `Get` answers with
unfoldable pub visible : Option TokenData → Option Bytes
visible none = none
visible (some t) = if is_disabled t then none else some t.content

visible-touched :
    (now granularity : ℕ) (t : TokenData)
    → visible (some (touched now granularity t)) ≡ visible (some t)
unfolding visible touched is_disabled
visible-touched now granularity t = ground arith

same_place :
    (f : Flat) (ctx id ctx' id' : Bytes)
    → (bytes_eq ctx ctx' && bytes_eq id id') ≡ true
    → f ctx id ≡ f ctx' id'
same_place f ctx id ctx' id' h =
    let (p, q) = &&-eq_true (bytes_eq ctx ctx') (bytes_eq id id') h in
    rw ((bytes_eq_iff ctx ctx').0 p, (bytes_eq_iff id id').0 q) refl

visible-update :
    (f : Flat) (ctx id ctx' id' : Bytes) (t : TokenData)
    → visible (some t) ≡ visible (f ctx id)
    → visible (update ctx id t f ctx' id') ≡ visible (f ctx' id')
visible-update f ctx id ctx' id' t h = elim (Bool-cases (bytes_eq ctx ctx' && bytes_eq id id')) [
  | inl b ↦ rw b (h ∙ ap visible (same_place f ctx id ctx' id' b))
  | inr b ↦ rw b refl
]

module _ (f : Flat) (now granularity : ℕ) (id ctx : Bytes) where
  pub flat_get-visible :
      (d : Bytes) → visible (f ctx id) ≡ some d → (flat_get now granularity id ctx f).1 ≡ ok d
  unfolding visible
  flat_get-visible d h = ground arith

  pub visible-flat_get :
      (d : Bytes) → (flat_get now granularity id ctx f).1 ≡ ok d → visible (f ctx id) ≡ some d
  unfolding visible
  visible-flat_get d h = ground arith

  pub flat_get-Keeps :
      (ctx' id' : Bytes)
      → visible ((flat_get now granularity id ctx f).0 ctx' id') ≡ visible (f ctx' id')
  unfolding visible
  flat_get-Keeps ctx' id' = elim (Option-cases (f ctx id)) [
    | inr e ↦ rw (e, flat_get) refl
    | inl (t, e) ↦
        rw (e, flat_get)
          (elim (Bool-cases (is_disabled t)) [
            | inl g ↦ rw (g, flat_get) refl
            | inr g ↦
                rw (g, flat_get)
                  (visible-update f ctx id ctx' id' (touched now granularity t)
                    (visible-touched now granularity t ∙ sym (ap visible e)))
          ])
  ]

  pub flat_save-visible :
      (content : Bytes)
      → (flat_save now id ctx content f).1 ≡ ok tt
      → visible ((flat_save now id ctx content f).0 ctx id) ≡ some content
  unfolding visible is_disabled
  flat_save-visible content h = ground (arith, bytes_eq_refl ctx, bytes_eq_refl id)

  pub flat_save-Keeps :
      (content ctx' id' d : Bytes)
      → visible (f ctx' id') ≡ some d
      → visible ((flat_save now id ctx content f).0 ctx' id') ≡ some d
  unfolding visible is_disabled
  flat_save-Keeps content ctx' id' d h = elim (Option-cases (f ctx id)) [
    | inl (t, e) ↦ rw (e, flat_save) h
    | inr e ↦
        rw (e, flat_save)
          (elim (Bool-cases (bytes_eq ctx ctx' && bytes_eq id id')) [
            | inl b ↦
                let empty : visible (f ctx' id') ≡ none =
                  ap visible (sym (same_place f ctx id ctx' id' b) ∙ e) in
                absurd cc
            | inr b ↦ rw b h
          ])
  ]

-- the memory storage, under `crypto/sha256`
module _ (sha256 : Bytes → Bytes) where
  unfoldable pub digest : TokenContext → Bytes
  digest c = aggregate_token_context_to_bytes sha256 c

  abbrev pub memory_view : MemoryTokenStorage → Bytes → TokenContext → Option Bytes
  memory_view m id c = visible (token_at m.tokens (digest c) id)

  pub save_refined :
      (now : ℕ) (id : Bytes) (c : TokenContext) (content : Bytes) (m : MemoryTokenStorage)
      → ((save sha256 now id c content m).1
          ≡ (flat_save now id (digest c) content (token_at m.tokens)).1)
        × ((ctx' id' : Bytes)
            → token_at (save sha256 now id c content m).0.tokens ctx' id'
              ≡ (flat_save now id (digest c) content (token_at m.tokens)).0 ctx' id')
  unfolding save digest
  save_refined now id c content m =
      (memory-refines_flat m.tokens now m.access_granularity id (digest c) content).0

  pub get_refined :
      (now : ℕ) (id : Bytes) (c : TokenContext) (m : MemoryTokenStorage)
      → ((get sha256 now id c m).1
          ≡ (flat_get now m.access_granularity id (digest c) (token_at m.tokens)).1)
        × ((ctx' id' : Bytes)
            → token_at (get sha256 now id c m).0.tokens ctx' id'
              ≡ (flat_get now m.access_granularity id (digest c) (token_at m.tokens)).0 ctx' id')
  unfolding get digest
  get_refined now id c m =
      (memory-refines_flat m.tokens now m.access_granularity id (digest c) []).1

  abbrev pub memory_storage : TokenStorage
  memory_storage = record {
    Store = MemoryTokenStorage;
    save = λ e id c content m. save sha256 e.now id c content m;
    get = λ e id c m. get sha256 e.now id c m;
    view = memory_view;
    get-some = λ e id c m d h.
        (get_refined e.now id c m).0
        ∙ flat_get-visible (token_at m.tokens) e.now m.access_granularity id (digest c) d h;
    some-get = λ e id c m d h.
        visible-flat_get (token_at m.tokens) e.now m.access_granularity id (digest c) d
          (sym (get_refined e.now id c m).0 ∙ h);
    get-Keeps = λ e id c m j c'.
        ap visible ((get_refined e.now id c m).1 (digest c') j)
        ∙ flat_get-Keeps (token_at m.tokens) e.now m.access_granularity id (digest c) (digest c') j;
    save-some = λ e id c d m h.
        ap visible ((save_refined e.now id c d m).1 (digest c) id)
        ∙ flat_save-visible (token_at m.tokens) e.now m.access_granularity id (digest c) d
            (sym (save_refined e.now id c d m).0 ∙ h);
    save-Keeps = λ e id c d m j c' kept h.
        ap visible ((save_refined e.now id c d m).1 (digest c') j)
        ∙ flat_save-Keeps (token_at m.tokens) e.now m.access_granularity id (digest c) d (digest c')
            j kept h;
  }
