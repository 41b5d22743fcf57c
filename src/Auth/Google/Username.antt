-- ===== src/Auth/Google/Username.antt =====
-- src/auth/google-oauth.service.ts: the name of a new account.
use Prim.Native.Char.{Char, code}
use Prim.Native.String
use Prim.Native.String.{[], ◌∷◌}
use text.Mathlib.TextLemmas.{cons-append, nil-append}
use minepanel_backend.Common.{
  ℕ, zero, suc, ◌≤◌, String, ◌≡◌, refl, ap, ◌∙◌, Bool, true, false, ◌&&◌, leb, Bool-cases, inl, inr,
  ◌==◌, nat_eq, string_eq, arith,
}
use minepanel_backend.Text.{all_chars, count_chars, classes, slice}
use minepanel_backend.Auth.Identity.{is_name_char, is_canonical_username}
use minepanel_backend.Auth.Google.{
  replace_others, drop_underscores, drop_last_underscores, or_user, pad_end, normalized_username,
}

abbrev Named : String → Type 0
Named s = all_chars is_name_char s ≡ true

underscore : (s : String) → String.◌++◌ "_" s ≡ "_" ∷ s
underscore s = cons-append "_" [] s ∙ ap (λ t. "_" ∷ t) (nil-append s)

Named-cons : (c : Char) (s : String) → is_name_char (code c) ≡ true → Named s → Named (c ∷ s)
unfolding classes
Named-cons c s h k = rw (h, k) refl

Named-head : (c : Char) (s : String) → Named (c ∷ s) → is_name_char (code c) ≡ true
unfolding classes
Named-head c s h = ground (arith, h)

Named-tail : (c : Char) (s : String) → Named (c ∷ s) → Named s
unfolding classes
Named-tail c s h = ground (arith, h)

Named-underscore : (s : String) → Named s → Named (String.◌++◌ "_" s)
unfolding classes
Named-underscore s h = rw (underscore s) h

Named-replace_others : (replaced : Bool) (s : String) → Named (replace_others replaced s)
unfolding classes replace_others
Named-replace_others replaced [] = refl
Named-replace_others replaced (c ∷ s) = elim (Bool-cases (is_name_char (code c))) [
  | inl kept ↦ rw kept (Named-cons c (replace_others false s) kept (Named-replace_others false s))
  | inr other ↦ elim (Bool-cases replaced) [
    | inl again ↦ rw (other, again) (Named-replace_others true s)
    | inr once ↦
        rw (other, once) (Named-underscore (replace_others true s) (Named-replace_others true s))
  ]
]

Named-drop_underscores : (s : String) → Named s → Named (drop_underscores s)
unfolding drop_underscores
Named-drop_underscores [] h = h
Named-drop_underscores (c ∷ s) h = elim (Bool-cases (code c == b'_')) [
  | inl dropped ↦ rw dropped (Named-drop_underscores s (Named-tail c s h))
  | inr kept ↦ rw kept h
]

Named-drop_last_underscores : (s : String) → Named s → Named (drop_last_underscores s)
unfolding drop_last_underscores classes
Named-drop_last_underscores [] h = h
Named-drop_last_underscores (c ∷ s) h =
    elim (Bool-cases (code c == b'_' && drop_last_underscores s == "")) [
      | inl dropped ↦ rw dropped refl
      | inr kept ↦ rw kept (
          Named-cons c (drop_last_underscores s) (Named-head c s h)
            (Named-drop_last_underscores s (Named-tail c s h)))
    ]

Named-slice : (n : ℕ) (s : String) → Named s → Named (slice n s)
unfolding slice classes
Named-slice zero s h = refl
Named-slice (suc n) [] h = refl
Named-slice (suc n) (c ∷ s) h =
    Named-cons c (slice n s) (Named-head c s h) (Named-slice n s (Named-tail c s h))

count-slice-le : (n : ℕ) (s : String) → count_chars (slice n s) ≤ n
unfolding slice classes
count-slice-le zero s = omega arith
count-slice-le (suc n) [] = omega arith
count-slice-le (suc n) (c ∷ s) = let rest = count-slice-le n s in omega (arith, rest)

-- a text of name characters, of `n` at most
record IsShortName (n : ℕ) (s : String) : Type 0 where
  named : Named s
  short : count_chars s ≤ n

or_user-IsShortName : (n : ℕ) (s : String) → 4 ≤ n → IsShortName n s → IsShortName n (or_user s)
unfolding classes
or_user-IsShortName n s wide h = elim (Bool-cases (s == "")) [
  | inl empty ↦ rw empty (record { named = refl; short = wide })
  | inr full ↦ rw full h
]

Named-pad_end : (n : ℕ) (s : String) → Named s → Named (pad_end n s)
unfolding pad_end classes
Named-pad_end zero s h = h
Named-pad_end (suc n) [] h = Named-underscore (pad_end n []) (Named-pad_end n [] refl)
Named-pad_end (suc n) (c ∷ s) h =
    Named-cons c (pad_end n s) (Named-head c s h) (Named-pad_end n s (Named-tail c s h))

pad_end-long : (n : ℕ) (s : String) → n ≤ count_chars (pad_end n s)
unfolding classes pad_end
pad_end-long zero s = omega arith
pad_end-long (suc n) [] =
    let rest = pad_end-long n [] in rw (underscore (pad_end n [])) (omega (arith, rest))
pad_end-long (suc n) (c ∷ s) = let rest = pad_end-long n s in omega (arith, rest)

pad_end-short : (n k : ℕ) (s : String) → n ≤ k → count_chars s ≤ k → count_chars (pad_end n s) ≤ k
unfolding classes pad_end
pad_end-short zero k s fits h = h
pad_end-short (suc n) zero s fits h = absurd (omega (arith, fits))
pad_end-short (suc n) (suc k) [] fits h =
    let rest = pad_end-short n k [] (omega (arith, fits)) (omega arith) in
    rw (underscore (pad_end n [])) (omega (arith, rest))
pad_end-short (suc n) (suc k) (c ∷ s) fits h =
    let rest = pad_end-short n k s (omega (arith, fits)) (omega (arith, h)) in omega (arith, rest)

canonical :
    (s : String) → Named s → 3 ≤ count_chars s → count_chars s ≤ 32 → is_canonical_username s ≡ true
unfolding is_canonical_username
canonical s named long short =
    let at_least : leb 3 (count_chars s) ≡ true = ground (arith, long) in
    let at_most : leb (count_chars s) 32 ≡ true = ground (arith, short) in
    rw (at_least, at_most) named

-- Whatever name and address Google gives, and whatever lower case is: the name for a new account
-- is one that the identity service takes, of 3 to 32 small letters, digits and underscores.
pub normalized_username-canonical :
    (lower : String → String) (source : String)
    → is_canonical_username (normalized_username lower source) ≡ true
unfolding normalized_username
normalized_username-canonical lower source =
    let trimmed =
      Named-drop_last_underscores _
        (Named-drop_underscores _ (Named-replace_others false (lower source))) in
    let name =
      or_user-IsShortName 32 _ (omega arith)
        (record { named = Named-slice 32 _ trimmed; short = count-slice-le 32 _ }) in
    canonical _ (Named-pad_end 3 _ name.named) (pad_end-long 3 _)
      (pad_end-short 3 32 _ (omega arith) name.short)
