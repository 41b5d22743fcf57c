-- ===== src/Auth/LoginAbuse/Window.antt =====
-- src/auth/login-abuse.service.ts: one of the two maps while all failures fall into one window.
use minepanel_backend.Common.{
  ℕ, suc, ◌+◌, ◌-◌, ◌≤◌, ◌<◌, String, ◌≡◌, refl, sym, ap, Bool, true, false, Option, none, some,
  List, [], ◌∷◌, ◌++◌, any, find, update, All, All-append, length, length-append, ltb, ◌==◌,
  Bool-cases, true-false, if◌then◌else◌, inl, inr, string_eq, arith, eq_iff,
}
use minepanel_backend.Auth.LoginAbuse.{
  FailureEntry, failure_window_ms, has_key, is_stale, prune_entries, bumped, put, evict, bump,
}

-- the failures that the map counts for a key
abbrev pub failures_of : Option FailureEntry → ℕ
failures_of none = 0
failures_of (some e) = e.failures

abbrev pub failures_at : String → List FailureEntry → ℕ
failures_at key entries = failures_of (find (has_key key) entries)

abbrev pub one_if : Bool → ℕ
one_if b = if b then 1 else 0

module _ (first : ℕ) where
  abbrev pub InWindow : ℕ → Type 0
  InWindow t = first ≤ t × t < first + failure_window_ms

  -- every failure that an entry speaks of is in the window
  abbrev pub Recent : FailureEntry → Type 0
  Recent e = first ≤ e.first_failure_at × first ≤ e.last_failure_at

  pub prune-Recent :
      (now : ℕ) (entries : List FailureEntry)
      → now < first + failure_window_ms
      → All Recent entries
      → prune_entries now entries ≡ entries
  prune-Recent now [] soon h = refl
  prune-Recent now (e ∷ entries) soon h =
      let live : is_stale now e ≡ false = ground (arith, soon, (h.0).1) in
      rw live (ap (λ es. e ∷ es) (prune-Recent now entries soon h.1))

  bumped-step :
      (now : ℕ) (e : FailureEntry)
      → InWindow now
      → Recent e
      → bumped now e ≡ record e { failures = suc e.failures; last_failure_at = now }
  bumped-step now e soon h =
      let within : ltb (now - e.first_failure_at) failure_window_ms ≡ true =
        ground (arith, soon.1, h.0) in
      rw within refl

  update-Recent :
      (key : String) (now : ℕ) (entries : List FailureEntry)
      → InWindow now
      → All Recent entries
      → All Recent (update (has_key key) (bumped now) entries)
  update-Recent key now [] soon h = tt
  update-Recent key now (e ∷ entries) soon h = elim (Bool-cases (has_key key e)) [
    | inl hit ↦
        rw (hit, bumped-step now e soon h.0)
          (((h.0).0, soon.0), update-Recent key now entries soon h.1)
    | inr miss ↦ rw miss (h.0, update-Recent key now entries soon h.1)
  ]

  put-Recent :
      (key : String) (now : ℕ) (entries : List FailureEntry)
      → InWindow now
      → All Recent entries
      → All Recent (put key now entries)
  put-Recent key now entries soon h = elim (Bool-cases (any (has_key key) entries)) [
    | inl there ↦ rw there (update-Recent key now entries soon h)
    | inr new ↦ rw new (All-append Recent entries _ h ((soon.0, soon.0), tt))
  ]

  update-failures_other :
      (key k : String) (now : ℕ) (entries : List FailureEntry)
      → InWindow now
      → All Recent entries
      → (key == k) ≡ false
      → failures_at k (update (has_key key) (bumped now) entries) ≡ failures_at k entries
  update-failures_other key k now [] soon h other = refl
  update-failures_other key k now (e ∷ entries) soon h other = rw (bumped-step now e soon h.0) (
      ground (
        arith,
        eq_iff e.key key,
        eq_iff e.key k,
        eq_iff key k,
        update-failures_other key k now entries soon h.1 other,
      ))

  -- the count of a key after one more failure of another or the same
  update-failures_at :
      (key k : String) (now : ℕ) (entries : List FailureEntry)
      → InWindow now
      → All Recent entries
      → any (has_key key) entries ≡ true
      → failures_at k (update (has_key key) (bumped now) entries)
        ≡ failures_at k entries + one_if (key == k)
  update-failures_at key k now [] soon h there = absurd (true-false (sym there))
  update-failures_at key k now (e ∷ entries) soon h there = rw (bumped-step now e soon h.0) (
      ground (
        arith,
        eq_iff e.key key,
        eq_iff e.key k,
        eq_iff key k,
        update-failures_at key k now entries soon h.1,
        update-failures_other key k now entries soon h.1,
      ))

  append-failures_at :
      (key k : String) (now : ℕ) (entries : List FailureEntry)
      → any (has_key key) entries ≡ false
      → failures_at k (
          entries
          ++ record { key = key; failures = 1; first_failure_at = now; last_failure_at = now } ∷ [])
        ≡ failures_at k entries + one_if (key == k)
  append-failures_at key k now [] new = elim (Bool-cases (key == k)) [
    | inl e ↦ rw e refl
    | inr e ↦ rw e refl
  ]
  append-failures_at key k now (e ∷ entries) new =
      ground (
        arith,
        eq_iff e.key key,
        eq_iff e.key k,
        eq_iff key k,
        append-failures_at key k now entries,
      )

  put-failures_at :
      (key k : String) (now : ℕ) (entries : List FailureEntry)
      → InWindow now
      → All Recent entries
      → failures_at k (put key now entries) ≡ failures_at k entries + one_if (key == k)
  put-failures_at key k now entries soon h = elim (Bool-cases (any (has_key key) entries)) [
    | inl there ↦ rw there (update-failures_at key k now entries soon h there)
    | inr new ↦ rw new (append-failures_at key k now entries new)
  ]

length-update :
    (p : FailureEntry → Bool) (f : FailureEntry → FailureEntry) (entries : List FailureEntry)
    → length (update p f entries) ≡ length entries
length-update p f [] = refl
length-update p f (e ∷ entries) = ap suc (length-update p f entries)

length-put :
    (key : String) (now : ℕ) (entries : List FailureEntry)
    → length (put key now entries) ≤ suc (length entries)
length-put key now entries = elim (Bool-cases (any (has_key key) entries)) [
  | inl there ↦
      let same = length-update (has_key key) (bumped now) entries in rw there (omega (arith, same))
  | inr new ↦
      let longer =
        length-append entries (
          record { key = key; failures = 1; first_failure_at = now; last_failure_at = now } ∷ []) in
      rw new (omega (arith, longer))
]

evict-fits :
    (limit : ℕ) (entries : List FailureEntry)
    → length entries ≤ limit
    → evict limit entries ≡ entries
unfolding evict
evict-fits limit [] room = refl
evict-fits limit (e ∷ entries) room =
    let fits : ltb limit (suc (length entries)) ≡ false = ground arith in rw fits refl

-- a map within the window, with room for `left` more keys
pub record IsFresh (first limit left : ℕ) (entries : List FailureEntry) : Type 0 where
  pub recent : All (Recent first) entries
  pub room : length entries + left ≤ limit

pub bump-IsFresh :
    (first limit left now : ℕ) (key : String) (entries : List FailureEntry)
    → InWindow first now
    → IsFresh first limit (suc left) entries
    → IsFresh first limit left (bump key now limit entries)
      × ((k : String)
          → failures_at k (bump key now limit entries) ≡ failures_at k entries + one_if (key == k))
unfolding bump
bump-IsFresh first limit left now key entries soon h =
    let longer = length-put key now entries in
    let fits : length (put key now entries) + left ≤ limit = omega (arith, longer, h.room) in
    rw (evict-fits limit (put key now entries) (omega (arith, fits))) (
      record { recent = put-Recent first key now entries soon h.recent; room = fits },
      λ k. put-failures_at first key k now entries soon h.recent,
    )
