-- ===== src/ErrorKind/Samples.antt =====
-- Kinds of concrete statuses.
use expensor.Prelude.{◌≡◌, refl}
use expensor.ErrorKind.{kind_from_status, not_found, internal}

kind_of_404 : kind_from_status 404 ≡ not_found
unfolding kind_from_status
kind_of_404 = refl

kind_of_505 : kind_from_status 505 ≡ internal
unfolding kind_from_status
kind_of_505 = refl
