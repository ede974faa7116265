-- ===== src/Alerting/Refines.antt =====
-- A round of the alerting, against the episode that the rows of a pair stand for.
use argus_sbomguard.Common.{pair_eq}
use argus_sbomguard.Alerting.Episode.{Episode}
