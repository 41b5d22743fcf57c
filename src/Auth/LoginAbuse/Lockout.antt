-- ===== src/Auth/LoginAbuse/Lockout.antt =====
-- src/auth/login-abuse.service.ts: which attempts are refused and which are delayed.
use minepanel_backend.Common.{
  ℕ, ◌+◌, ◌-◌, ◌*◌, ◌≤◌, ◌<◌, min, String, ◌≡◌, refl, ap, ◌∙◌, Bool, true, false, ◌&&◌, Option,
  none, some, List, [], ◌∷◌, find, All, length, leb, ◌==◌, if◌then◌else◌, string_eq, arith,
}
use minepanel_backend.Text.{count_chars}
use minepanel_backend.Http.{Result, ok, err, too_many_requests}
use minepanel_backend.Auth.LoginAbuse.{
  FailureEntry, LoginAttemptContext, Abuse, failure_window_ms, max_pair_entries,
  max_account_entries, has_key, bump, pair_key, delay_of, locked_out, normalize, assert_allowed,
  record_failure,
}
use minepanel_backend.Auth.LoginAbuse.Window.{
  failures_of, failures_at, one_if, InWindow, prune-Recent, IsFresh, bump-IsFresh,
}
use minepanel_backend.Auth.LoginAbuse.Keys.{account_of, source_of, pair_key-==}

abbrev pub no_failures : Abuse
no_failures = record { pair_failures = []; account_failures = [] }

-- a failed attempt and its time
abbrev pub Attempt : Type 0
Attempt = LoginAttemptContext × ℕ

abbrev pub count : (Attempt → Bool) → List Attempt → ℕ
count p [] = 0
count p (a ∷ attempts) = count p attempts + one_if (p a)

-- what an attempt is answered after so many failures of its account from its source, and so many
-- of its account
abbrev pub answer : ℕ → ℕ → Result ℕ
answer from_source of_any =
    if leb 5 from_source
    then err (too_many_requests "LoginRateLimited")
    else ok (min 100 ((of_any - 5) * 10))

module _ (lower digest : String → String) where
  abbrev pub record_attempts : List Attempt → Abuse → Abuse
  record_attempts [] s = s
  record_attempts (a ∷ attempts) s =
      record_attempts attempts (record_failure lower digest a.0 a.1 s)

  abbrev pub of_account : LoginAttemptContext → Attempt → Bool
  of_account context a = account_of lower digest a.0 == account_of lower digest context

  abbrev pub of_account_and_source : LoginAttemptContext → Attempt → Bool
  of_account_and_source context a =
      of_account context a && source_of lower digest a.0 == source_of lower digest context

  abbrev pair_count : LoginAttemptContext → List Attempt → ℕ
  pair_count context = count (λ a. pair_key lower digest a.0 == pair_key lower digest context)

  abbrev account_count : LoginAttemptContext → List Attempt → ℕ
  account_count context =
      count
        (λ a. normalize lower digest a.0.identifier == normalize lower digest context.identifier)

  abbrev pair_failures_at : LoginAttemptContext → Abuse → ℕ
  pair_failures_at context s = failures_at (pair_key lower digest context) s.pair_failures

  abbrev account_failures_at : LoginAttemptContext → Abuse → ℕ
  account_failures_at context s =
      failures_at (normalize lower digest context.identifier) s.account_failures

  -- both maps are within the window, with room
  record AreFresh (first left : ℕ) (s : Abuse) : Type 0 where
    pairs : IsFresh first max_pair_entries left s.pair_failures
    accounts : IsFresh first max_account_entries left s.account_failures

  -- the maps after further failures
  record Counted (first : ℕ) (s s' : Abuse) (attempts : List Attempt) : Type 0 where
    fresh : AreFresh first 0 s'
    pair :
        (context : LoginAttemptContext)
        → pair_failures_at context s' ≡ pair_failures_at context s + pair_count context attempts
    account :
        (context : LoginAttemptContext)
        → account_failures_at context s'
          ≡ account_failures_at context s + account_count context attempts

  record_failure-bump :
      (first left now : ℕ) (c : LoginAttemptContext) (s : Abuse)
      → InWindow first now
      → AreFresh first left s
      → record_failure lower digest c now s ≡ record {
        pair_failures = bump (pair_key lower digest c) now max_pair_entries s.pair_failures;
        account_failures =
            bump (normalize lower digest c.identifier) now max_account_entries s.account_failures;
      }
  unfolding record_failure
  record_failure-bump first left now c s soon h =
      rw
        (
          prune-Recent first now s.pair_failures soon.1 h.pairs.recent,
          prune-Recent first now s.account_failures soon.1 h.accounts.recent,
        )
        refl

  add_zero : (n : ℕ) → n ≡ n + 0
  add_zero n = omega arith

  zero_add : (n : ℕ) → 0 + n ≡ n
  zero_add n = omega arith

  moved_one : (n m k : ℕ) → n + m + k ≡ n + (k + m)
  moved_one n m k = omega arith

  record_attempts-Counted :
      (first : ℕ) (attempts : List Attempt) (s : Abuse)
      → All (λ a. InWindow first a.1) attempts
      → AreFresh first (length attempts) s
      → Counted first s (record_attempts attempts s) attempts
  record_attempts-Counted first [] s soon h = record {
    fresh = h;
    pair = λ context. add_zero _;
    account = λ context. add_zero _;
  }
  record_attempts-Counted first ((c, now) ∷ attempts) s soon h =
      let (pairs, one_pair) =
        bump-IsFresh first max_pair_entries (length attempts) now (pair_key lower digest c)
          s.pair_failures soon.0 h.pairs in
      let (accounts, one_account) =
        bump-IsFresh first max_account_entries (length attempts) now
          (normalize lower digest c.identifier) s.account_failures soon.0 h.accounts in
      let rest =
        record_attempts-Counted first attempts _ soon.1
          (record { pairs = pairs; accounts = accounts }) in
      rw (record_failure-bump first _ now c s soon.0 h) (record {
        fresh = rest.fresh;
        pair = λ context.
            rest.pair context
            ∙ ap (λ n. n + pair_count context attempts) (one_pair _)
            ∙ moved_one _ _ _;
        account = λ context.
            rest.account context
            ∙ ap (λ n. n + account_count context attempts) (one_account _)
            ∙ moved_one _ _ _;
      })

  first_of :
      (b : Bool) (x y : Result ℕ) (s : Abuse)
      → (if◌then◌else◌ {A = Result ℕ × Abuse} b (x, s) (y, s)).0 ≡ (if b then x else y)
  first_of true x y s = refl
  first_of false x y s = refl

  locked_out-failures :
      (o : Option FailureEntry) → locked_out lower digest o ≡ leb 5 (failures_of o)
  locked_out-failures none = refl
  locked_out-failures (some e) = refl

  delay_of-failures :
      (o : Option FailureEntry) → delay_of lower digest o ≡ min 100 ((failures_of o - 5) * 10)
  delay_of-failures none = refl
  delay_of-failures (some e) = refl

  assert_allowed-answer :
      (first now : ℕ) (context : LoginAttemptContext) (s : Abuse)
      → now < first + failure_window_ms
      → AreFresh first 0 s
      → (assert_allowed lower digest context now s).0
        ≡ answer (pair_failures_at context s) (account_failures_at context s)
  unfolding assert_allowed
  assert_allowed-answer first now context s soon h =
      rw
        (
          prune-Recent first now s.pair_failures soon h.pairs.recent,
          prune-Recent first now s.account_failures soon h.accounts.recent,
          locked_out-failures (find (has_key (pair_key lower digest context)) s.pair_failures),
          delay_of-failures
              (find (has_key (normalize lower digest context.identifier)) s.account_failures),
        )
        (first_of (leb 5 (pair_failures_at context s)) (err (too_many_requests "LoginRateLimited"))
          (ok (min 100 ((account_failures_at context s - 5) * 10))) s)

  count-same :
      (p q : Attempt → Bool) (attempts : List Attempt)
      → ((a : Attempt) → p a ≡ q a)
      → count p attempts ≡ count q attempts
  count-same p q [] h = refl
  count-same p q (a ∷ attempts) h =
      ap (λ n. n + one_if (p a)) (count-same p q attempts h)
      ∙ ap (λ b. count q attempts + one_if b) (h a)

  after_attempts :
      ((a b : String) → count_chars (digest a) ≡ count_chars (digest b))
      → (first now : ℕ) (context : LoginAttemptContext) (attempts : List Attempt)
      → length attempts ≤ 5000
      → All (λ a. InWindow first a.1) attempts
      → now < first + failure_window_ms
      → (assert_allowed lower digest context now (record_attempts attempts no_failures)).0
        ≡ answer
            (count (of_account_and_source context) attempts)
            (count (of_account context) attempts)
  unfolding normalize
  after_attempts sizes first now context attempts few recent soon =
      let after = record_attempts-Counted first attempts no_failures recent (record {
        pairs = record { recent = tt; room = omega (arith, few) };
        accounts = record { recent = tt; room = omega (arith, few) };
      }) in
      assert_allowed-answer first now context _ soon after.fresh
      ∙ ap (λ n. answer n (account_failures_at context (record_attempts attempts no_failures)))
          (after.pair context
            ∙ zero_add _
            ∙ count-same _ _ attempts (λ a. pair_key-== lower digest sizes a.0 context))
      ∙ ap (answer _) (after.account context ∙ zero_add _)

-- After any failures of any accounts from any sources, at most 5000 of them and all within one span
-- of fifteen minutes, starting with empty maps, an attempt before the end of the span is refused
-- exactly if five failures or more were of its account from its source; otherwise it is delayed by
-- ten milliseconds for each failure of its account after the fifth, from whatever source, but by no
-- more than a hundred. An account is its identifier trimmed, in lower case and cut to 254
-- characters, a source the digest of its first 256 characters; all digests have one length.
pub record_attempts-assert_allowed :
    (lower digest : String → String)
    → ((a b : String) → count_chars (digest a) ≡ count_chars (digest b))
    → (first now : ℕ) (context : LoginAttemptContext) (attempts : List Attempt)
    → length attempts ≤ 5000
    → All (λ a. first ≤ a.1 × a.1 < first + 15 * 60 * 1000) attempts
    → now < first + 15 * 60 * 1000
    → (assert_allowed lower digest context now
        (record_attempts lower digest attempts no_failures)).0
      ≡ answer
          (count (of_account_and_source lower digest context) attempts)
          (count (of_account lower digest context) attempts)
record_attempts-assert_allowed lower digest sizes first now context attempts few recent soon =
    after_attempts lower digest sizes first now context attempts few recent soon
