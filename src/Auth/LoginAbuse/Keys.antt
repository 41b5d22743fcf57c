-- ===== src/Auth/LoginAbuse/Keys.antt =====
-- src/auth/login-abuse.service.ts: the keys of the two maps tell accounts and sources apart.
use Prim.Native.String
use minepanel_backend.Common.{
  ◌+◌, String, ◌≡◌, refl, sym, ap, ◌∙◌, Bool, true, false, ◌&&◌, ◌==◌, ==-true, ==-refl, and_true,
  string_eq,
}
use minepanel_backend.Text.{trim, slice, count_chars}
use minepanel_backend.Text.Suffix.{count_chars-append, cancel_suffix}
use minepanel_backend.Auth.LoginAbuse.{LoginAttemptContext, pair_key, normalize}

Bool_ext : (a b : Bool) → (a ≡ true → b ≡ true) → (b ≡ true → a ≡ true) → a ≡ b
Bool_ext true true to from = refl
Bool_ext true false to from = sym (to refl)
Bool_ext false true to from = from refl
Bool_ext false false to from = refl

same_true : {a b : String} → a ≡ b → (a == b) ≡ true
same_true {b = b} e = ap (λ x. x == b) e ∙ ==-refl b

module _ (lower digest : String → String) where
  -- the account that an attempt names, and the mark of where it comes from
  abbrev pub account_of : LoginAttemptContext → String
  account_of context = slice 254 (lower (trim context.identifier))

  abbrev pub source_of : LoginAttemptContext → String
  source_of context = digest (slice 256 context.source)

  pair_key_iff :
      ((a b : String) → count_chars (digest a) ≡ count_chars (digest b))
      → (c context : LoginAttemptContext) → pair_key lower digest c ≡ pair_key lower digest context
      → (account_of c ≡ account_of context) × (source_of c ≡ source_of context)
  unfolding normalize
  pair_key_iff sizes c context same =
      let size : count_chars (String.◌++◌ "\0" (source_of c))
          ≡ count_chars (String.◌++◌ "\0" (source_of context)) =
        count_chars-append "\0" (source_of c)
        ∙ ap (λ n. count_chars "\0" + n) (sizes _ _)
        ∙ sym (count_chars-append "\0" (source_of context)) in
      let (accounts, marks) = cancel_suffix _ _ _ _ size same in
      (accounts, (cancel_suffix _ _ _ _ (sizes _ _) marks).1)

  -- the keys of the pairs tell accounts and sources apart
  pub pair_key-== :
      ((a b : String) → count_chars (digest a) ≡ count_chars (digest b))
      → (c context : LoginAttemptContext)
      → (pair_key lower digest c == pair_key lower digest context)
        ≡ (account_of c == account_of context && source_of c == source_of context)
  unfolding normalize
  pair_key-== sizes c context =
      Bool_ext _ _
        (λ same.
          let (accounts, sources) = pair_key_iff sizes c context (==-true same) in
          let left = same_true accounts in let right = same_true sources in rw (left, right) refl)
        (λ both.
          let (left, right) = and_true (account_of c == account_of context) _ both in
          same_true (
            ap (λ a. String.◌++◌ a (String.◌++◌ "\0" (source_of c))) (==-true left)
            ∙ ap (λ m. String.◌++◌ (account_of context) (String.◌++◌ "\0" m)) (==-true right)))
