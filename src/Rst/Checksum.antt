-- ===== src/Rst/Checksum.antt =====
-- The checksum loop csum of net-policy.cpp.
use net_policy.Common.{nat_eq}
