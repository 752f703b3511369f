-- ===== src/Tests/Partitions.antt =====
-- The seed partition of src/north_standard/evaluation_protocol.py that the program uses.
use north_standard.Base.{◌≡◌, ◌↔◌, arith, true, false, ok, refl}
use north_standard.Base.Int.{◌+ℤ◌}
use north_standard.Experiments.{marginal_healthy, telemetry_gap}
use north_standard.Partition.{
  default_partition, check_partition, assert_disjoint, all_seeds, seeds_for,
}
use north_standard.Partition.Disjoint.{
  AllApart, assert_disjoint_iff, assert_disjoint_returns, seeds_for-AllApart,
}

default_partition-constructed : check_partition default_partition ≡ ok default_partition
unfolding check_partition
default_partition-constructed = refl

assert_disjoint_returns_example : assert_disjoint default_partition ≡ ok tt
unfolding ◌+ℤ◌
assert_disjoint_returns_example = assert_disjoint_returns default_partition (omega arith)

assert_disjoint_iff_example :
    (assert_disjoint default_partition ≡ ok tt)
    ↔ AllApart (all_seeds default_partition false) (all_seeds default_partition true)
assert_disjoint_iff_example = assert_disjoint_iff default_partition

seeds_for-AllApart_example :
    AllApart
      (seeds_for default_partition marginal_healthy true)
      (seeds_for default_partition telemetry_gap true)
seeds_for-AllApart_example =
    seeds_for-AllApart default_partition true marginal_healthy telemetry_gap (omega arith)
      (omega arith)
