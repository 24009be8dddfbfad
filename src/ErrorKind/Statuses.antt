-- ===== src/ErrorKind/Statuses.antt =====
-- The two directions between kinds and HTTP statuses agree.
use expensor.Prelude.{ℕ, ◌≤◌, ◌≡◌, ◌↔◌, ◌⊎◌, true, arith, eq_iff}
use expensor.ErrorKind.{Kind, kind_eq, kind_from_status, unknown, internal}

pub kind_eq_iff : (a b : Kind) → (kind_eq a b ≡ true) ↔ (a ≡ b)
unfolding kind_eq
kind_eq_iff a b = ground (arith, eq_iff a.code b.code)

-- The kind of a status has that status, unless it is `Internal` for an unlisted status from 500
-- up, or `Unknown` for an unlisted status below 500.
pub kind_from_status-status :
    (s : ℕ)
    → ((kind_from_status s).status ≡ s)
      ⊎ ((kind_from_status s ≡ internal) × (500 ≤ s))
      ⊎ ((kind_from_status s ≡ unknown) × (s ≤ 499))
unfolding kind_from_status
kind_from_status-status s = ground arith
