-- ===== src/Tokens/Random/Shape.antt =====
-- A new value has the type and the size of the value that it stands for.
use acra.Base.{
  ℕ, List, zero, suc, ◌+◌, ◌-◌, ◌/◌, ◌≤◌, ◌<◌, ◌≡◌, refl, sym, ap, ◌∙◌, ◌⊎◌, true, false, [], ◌∷◌,
  ◌++◌, Bytes, ◌==◌, inl, inr, Bool-cases, ==_iff, arith, ltb, le→ltb, lt→ltb, ltb→lt, length, drop,
  get_or, replicate, copy_at, length-append,
}
use acra.Base.Words.{IsBytes}
use acra.Base.Outcome.{ok, panic, ok_injective, >>=-eq_ok}
use acra.Tokens.Value.{Value, int32, int64, str, bytes, email, other}
use acra.Tokens.Random.{
  Draws, random_read, random_string, random_email, new_value, cc_tlds, all_tlds, tld_for,
  filled_email,
}

length-copy_at : (p : ℕ) (src b : Bytes) → length (copy_at p src b) ≡ length b
length-copy_at zero [] b = refl
length-copy_at zero (y ∷ src) [] = refl
length-copy_at zero (y ∷ src) (x ∷ b) = ap suc (length-copy_at zero src b)
length-copy_at (suc p) src [] = refl
length-copy_at (suc p) src (x ∷ b) = ap suc (length-copy_at p src b)

-- what was copied to the end stands there
drop-copy_at : (p : ℕ) (src b : Bytes) → length b ≡ p + length src → drop p (copy_at p src b) ≡ src
drop-copy_at zero [] [] h = refl
drop-copy_at zero [] (x ∷ b) h = absurd (omega (arith, h))
drop-copy_at zero (y ∷ src) [] h = absurd (omega (arith, h))
drop-copy_at zero (y ∷ src) (x ∷ b) h = ap (◌∷◌ y) (drop-copy_at zero src b (omega (arith, h)))
drop-copy_at (suc p) src [] h = absurd (omega (arith, h))
drop-copy_at (suc p) src (x ∷ b) h = drop-copy_at p src b (omega (arith, h))

get_or-copy_at-before :
    (p i : ℕ) (src b : Bytes) → i < p → get_or (copy_at p src b) i 0 ≡ get_or b i 0
get_or-copy_at-before zero i src b h = absurd (omega arith)
get_or-copy_at-before (suc p) i src [] h = refl
get_or-copy_at-before (suc p) zero src (x ∷ b) h = refl
get_or-copy_at-before (suc p) (suc i) src (x ∷ b) h = get_or-copy_at-before p i src b (omega arith)

get_or-copy_at : (p c : ℕ) (b : Bytes) → p < length b → get_or (copy_at p (c ∷ []) b) p 0 ≡ c
get_or-copy_at zero c [] h = absurd (omega arith)
get_or-copy_at zero c (x ∷ b) h = refl
get_or-copy_at (suc p) c [] h = absurd (omega arith)
get_or-copy_at (suc p) c (x ∷ b) h = get_or-copy_at p c b (omega arith)

length-random_string : (draws : Draws) (i n : ℕ) → length (random_string draws i n) ≡ n
unfolding random_string
length-random_string draws i zero = refl
length-random_string draws i (suc n) = ap suc (length-random_string draws (suc i) n)

length-replicate_zero : (n : ℕ) → length (replicate n 0) ≡ n
length-replicate_zero zero = refl
length-replicate_zero (suc n) = ap suc (length-replicate_zero n)

-- the lengths of all of them lie between two bounds
abbrev Within : ℕ → ℕ → List Bytes → Type 0
Within lo hi [] = Unit
Within lo hi (x ∷ xs) = (lo ≤ length x) × (length x ≤ hi) × Within lo hi xs

get_or-Within :
    (lo hi k : ℕ) (xs : List Bytes)
    → k < length xs
    → Within lo hi xs
    → (lo ≤ length (get_or xs k [])) × (length (get_or xs k []) ≤ hi)
get_or-Within lo hi k [] h w = absurd (omega arith)
get_or-Within lo hi zero (x ∷ xs) h (a, b, w) = (a, b)
get_or-Within lo hi (suc k) (x ∷ xs) h (a, b, w) = get_or-Within lo hi k xs (omega arith) w

cc_tlds-Within : Within 3 3 cc_tlds
cc_tlds-Within = ground arith

all_tlds-Within : Within 3 5 all_tlds
all_tlds-Within = ground arith

module _ (draws : Draws) (n : ℕ) where
  short_tld : ltb n 8 ≡ true → length (tld_for draws n) ≡ 3
  short_tld h = rw h (
      let (a, b) =
        get_or-Within 3 3 (draws.intn 0 6) cc_tlds (draws.intn_bound 0 6 (omega arith))
          cc_tlds-Within in
      omega (arith, a, b))

  long_tld : ltb n 8 ≡ false → (3 ≤ length (tld_for draws n)) × (length (tld_for draws n) ≤ 5)
  long_tld h = rw h (
      get_or-Within 3 5 (draws.intn 0 11) all_tlds (draws.intn_bound 0 11 (omega arith))
        all_tlds-Within)

  tld-fits : 3 ≤ n → (3 ≤ length (tld_for draws n)) × (length (tld_for draws n) ≤ n)
  tld-fits h = elim (Bool-cases (ltb n 8)) [
    | inl e ↦ (omega (arith, short_tld e), omega (arith, short_tld e))
    | inr e ↦ let (a, b) = long_tld e in let big : 8 ≤ n = ground arith in (a, omega (arith, b))
  ]

filled_email-length :
    (draws : Draws) (m : ℕ) (tld : Bytes) → length (filled_email draws m tld) ≡ m + length tld
filled_email-length draws m tld =
    let base = random_string draws 1 m ++ replicate (length tld) 0 in
    length-copy_at m tld (copy_at (m / 2) (b'@' ∷ []) base)
    ∙ length-copy_at (m / 2) (b'@' ∷ []) base
    ∙ length-append (random_string draws 1 m) (replicate (length tld) 0)
    ∙ omega (arith, length-random_string draws 1 m, length-replicate_zero (length tld))

filled_email-end : (draws : Draws) (m : ℕ) (tld : Bytes) → drop m (filled_email draws m tld) ≡ tld
filled_email-end draws m tld =
    drop-copy_at m tld _ (sym (length-copy_at m tld _) ∙ filled_email-length draws m tld)

filled_email-at :
    (draws : Draws) (m : ℕ) (tld : Bytes)
    → 0 < m
    → get_or (filled_email draws m tld) (m / 2) 0 ≡ b'@'
filled_email-at draws m tld h =
    let base = random_string draws 1 m ++ replicate (length tld) 0 in
    let size : length base ≡ m + length tld =
      length-append (random_string draws 1 m) (replicate (length tld) 0)
      ∙ omega (arith, length-random_string draws 1 m, length-replicate_zero (length tld)) in
    get_or-copy_at-before m (m / 2) tld (copy_at (m / 2) (b'@' ∷ []) base) (omega arith)
    ∙ get_or-copy_at (m / 2) b'@' base (omega (arith, size))

module _ (draws : Draws) (n : ℕ) where
  random_email-ok :
      3 ≤ n
      → random_email draws n
        ≡ ok (filled_email draws (n - length (tld_for draws n)) (tld_for draws n))
  unfolding random_email
  random_email-ok h =
      let (_, fits) = tld-fits draws n h in rw (le→ltb n (length (tld_for draws n)) fits) refl

  -- On a buffer of 3 bytes or more, `randomEmail` gives an address of that size, which ends with the
  -- top-level domain that was drawn, and has `@` in the middle of what is in front of it if the
  -- buffer has 4 bytes or more. On a shorter buffer it panics, whatever is drawn.
  pub random_email-Shaped :
      ((n < 3) × (random_email draws n ≡ panic))
      ⊎ ((b : Bytes) × (3 ≤ n)
          × (random_email draws n ≡ ok b)
          × (length b ≡ n)
          × (drop (n - length (tld_for draws n)) b ≡ tld_for draws n)
          × ((n ≡ 3) ⊎ (get_or b ((n - length (tld_for draws n)) / 2) 0 ≡ b'@')))
  unfolding random_email
  random_email-Shaped =
      let tld = tld_for draws n in
      elim (Bool-cases (ltb n 3)) [
        | inl e ↦
            let three = short_tld draws n (lt→ltb n 8 (ground arith)) in
            let small : n < length tld = ground (arith, three) in
            inl (ltb→lt n 3 e, rw (lt→ltb n (length tld) small) refl)
        | inr e ↦
            let h : 3 ≤ n = ground arith in
            let (low, fits) = tld-fits draws n h in
            inr (
              filled_email draws (n - length tld) tld,
              h,
              random_email-ok h,
              filled_email-length draws (n - length tld) tld ∙ omega (arith, fits),
              filled_email-end draws (n - length tld) tld,
              elim (Bool-cases (n == 3)) [
                | inl three ↦ inl ((==_iff n 3).0 three)
                | inr more ↦ inr (
                    filled_email-at draws (n - length tld) tld (elim (Bool-cases (ltb n 8)) [
                      | inl short ↦
                          let size = short_tld draws n short in
                          let big : 3 < n = ground arith in omega (arith, size)
                      | inr long ↦
                          let (a, b) = long_tld draws n long in
                          let big : 8 ≤ n = ground arith in omega (arith, b)
                    ]))
              ],
            )
      ]

pub random_read-ok :
    (draws : Draws) (n : ℕ) (b : Bytes) → random_read draws n ≡ ok b → (length b ≡ n) × IsBytes b
unfolding random_read
random_read-ok draws n b h =
    let (b', e, k) = >>=-eq_ok (draws.read n) _ h in
    elim (Bool-cases (length b' == n)) [
      | inl p ↦
          let same = ok_injective (rw p at k) in
          rw (sym same) ((==_iff (length b') n).0 p, draws.IsBytes-read n b' e)
      | inr p ↦ absurd (let f = rw p at k in cc)
    ]

random_email-short : (draws : Draws) (n : ℕ) → n < 3 → (b : Bytes) → random_email draws n ≡ ok b → ⊥
random_email-short draws n h b e = elim (random_email-Shaped draws n) [
  | inl (_, p) ↦ absurd (let f : panic ≡ ok b = sym p ∙ e in cc)
  | inr (b', long, _, _, _, _) ↦ absurd (omega (arith, long))
]

-- of the same Go type, and of the same size where it is a string
abbrev pub SameShape : Value → Value → Type 0
SameShape (int32 _) (int32 _) = Unit
SameShape (int64 _) (int64 _) = Unit
SameShape (bytes a) (bytes b) = length a ≡ length b
SameShape (str a) (str b) = length a ≡ length b
SameShape (email a) (email b) = length a ≡ length b
SameShape _ _ = ⊥

-- A new value has the type and the size of the value that it stands for.
pub new_value-SameShape : (draws : Draws) (v w : Value) → new_value draws v ≡ ok w → SameShape v w
unfolding new_value
new_value-SameShape draws (int32 n) w h =
    let (b, e, k) = >>=-eq_ok (random_read draws 4) _ h in rw (sym (ok_injective k)) tt
new_value-SameShape draws (int64 n) w h =
    let (b, e, k) = >>=-eq_ok (random_read draws 8) _ h in rw (sym (ok_injective k)) tt
new_value-SameShape draws (bytes v) w h =
    let (b, e, k) = >>=-eq_ok (random_read draws (length v)) _ h in
    rw (sym (ok_injective k)) (sym (random_read-ok draws (length v) b e).0)
new_value-SameShape draws (str v) w h =
    rw (sym (ok_injective h)) (sym (length-random_string draws 0 (length v)))
new_value-SameShape draws (email v) w h =
    let (b, e, k) = >>=-eq_ok (random_email draws (length v)) _ h in
    rw (sym (ok_injective k)) (elim (Bool-cases (ltb (length v) 3)) [
      | inl small ↦ absurd (random_email-short draws (length v) (ltb→lt (length v) 3 small) b e)
      | inr big ↦
          let long : 3 ≤ length v = ground arith in
          let f = ok_injective (sym (random_email-ok draws (length v) long) ∙ e) in
          rw (sym f) (
            sym (
              filled_email-length draws (length v - length (tld_for draws (length v)))
                (tld_for draws (length v))
              ∙ omega (arith, (tld-fits draws (length v) long).1)))
    ])
new_value-SameShape draws other w h = absurd cc
