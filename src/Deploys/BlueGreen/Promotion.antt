-- ===== src/Deploys/BlueGreen/Promotion.antt =====
-- A whole promotion.
use releasea_worker.Prelude.{String, none, [], ◌∷◌}
use releasea_worker.Deploys.BlueGreen.{
  Log, await_ready, await_rollout, fetch_service, point_service, entry,
}
use releasea_worker.Deploys.BlueGreen.Order.{IsPrepared}

module _ (active candidate active_slot candidate_slot : String) where
  abbrev Prepared : Log → Type 0
  Prepared = IsPrepared active candidate active_slot candidate_slot

  abbrev waited : Log
  waited = entry (await_rollout candidate) none ∷ entry (await_ready candidate) none ∷ []

  abbrev moved : Log
  moved = entry (point_service candidate) none ∷ entry fetch_service none ∷ waited
