-- ===== src/Database/Tests.antt =====
-- Tests and witnesses of the serializers.
use autopatch.Common.{ℕ, ◌+◌, ◌*◌, ◌/◌, ◌%◌, ◌^◌, ◌≡◌, refl, true, false, some, List, arith}
use autopatch.Common.Int.{ℤ, pos, negsuc}
use autopatch.Database.U256.{
  DbValue, numeric, stored, failed, serialized, refused, below_overflow, scan, value_of,
}
use autopatch.Database.U256.RoundTrip.{value_of-scan}

value_of-scan_example :
    (s : DbValue) × ((value_of true (some (pos 1024)) ≡ serialized s)
      × (scan true s ≡ stored (pos 1024)))
value_of-scan_example = value_of-scan 1024 (omega arith)

negative_refused : value_of true (some (negsuc 0)) ≡ refused
unfolding value_of
negative_refused = refl

-- What is never written can be read.
negative_scanned : scan true (numeric (negsuc 0) (pos 0)) ≡ stored (negsuc 0)
unfolding scan below_overflow autopatch.Common.Int.◌*ℤ◌
negative_scanned = refl

too_large : scan true (numeric (pos (2 ^ 255)) (pos 1)) ≡ failed
unfolding scan below_overflow autopatch.Common.Int.◌*ℤ◌
too_large = refl
