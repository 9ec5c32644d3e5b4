-- ===== src/Workers/Recovered.antt =====
-- A run whose worker has died is taken up again.
use marcus.Prelude.{List, nat_eq, string_eq, Option}
use marcus.Run.Status.{status_eq, tier_eq}
