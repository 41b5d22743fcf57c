-- ===== src/Auth/LoginAbuse/Bounds.antt =====
-- The maps of failed sign-ins stay bounded.
use minepanel_backend.Common.{
  ℕ, ◌≤◌, String, List, [], ◌∷◌, length, ltb, arith, inl, inr, Bool-cases,
}
use minepanel_backend.Auth.LoginAbuse.{
  FailureEntry, LoginAttemptContext, Abuse, max_pair_entries, max_account_entries, put, evict, bump,
  record_failure, prune,
}

length-evict : (limit : ℕ) (entries : List FailureEntry) → length (evict limit entries) ≤ limit
unfolding evict
length-evict limit [] = omega arith
length-evict limit (e ∷ entries) = elim (Bool-cases (ltb limit (length (e ∷ entries)))) [
  | inl over ↦ rw over (length-evict limit entries)
  | inr fits ↦ rw fits (ground (arith, fits))
]

length-bump :
    (key : String) (now limit : ℕ) (entries : List FailureEntry)
    → length (bump key now limit entries) ≤ limit
unfolding bump
length-bump key now limit entries = length-evict limit (put key now entries)

-- However many failures were recorded before, after one more the map of account and source has at
-- most 20000 entries and the map of accounts at most 5000.
pub record_failure-bounded :
    (lower digest : String → String) (context : LoginAttemptContext) (now : ℕ) (s : Abuse)
    → (length (record_failure lower digest context now s).pair_failures ≤ max_pair_entries)
      × (length (record_failure lower digest context now s).account_failures ≤ max_account_entries)
unfolding record_failure
record_failure-bounded lower digest context now s = (
  length-bump _ now max_pair_entries (prune now s).pair_failures,
  length-bump _ now max_account_entries (prune now s).account_failures,
)
