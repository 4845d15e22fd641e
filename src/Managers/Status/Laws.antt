-- ===== src/Managers/Status/Laws.antt =====
-- What a status says of the replica counts.
use kube_bundler.Prelude.{ℕ, ◌*◌, ◌<◌, String, ◌≡◌, ◌≢◌, true, Bool}

-- What the counts are where the status is stopped, down, up, impacted or degraded.
pub data Verdict (available total : ℕ) (needs_quorum : Bool) : String → Type 0 where
  stopped : total ≡ 0 → Verdict available total needs_quorum "stopped"
  down : 0 < total → available ≡ 0 → Verdict available total needs_quorum "down"
  up : 0 < total → available ≡ total → Verdict available total needs_quorum "up"
  impacted :
      0 < available
      → available ≢ total
      → needs_quorum ≡ true
      → 2 * available < total
      → Verdict available total needs_quorum "impacted"
  degraded :
      0 < available
      → 0 < total
      → available ≢ total
      → Verdict available total needs_quorum "degraded"
