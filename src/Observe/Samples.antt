-- ===== src/Observe/Samples.antt =====
-- Witnesses for controllers/observe: two live clusters and a standby one.
use picchu.Base.{true, false, ◌&&◌, [], ◌∷◌, count_if, ltb, leb, ◌≡◌}
use picchu.Observe.{Observation, update_observed}
use picchu.Observe.Updates.{is_live_of, sum_of, all_running, update_observed_lem}
use picchu.Fixtures.{new_revision}

abbrev observed : Observation
observed =
    record { desired = 4; current = 3; tag = "new"; cluster = record { name = "a"; live = true } }
    ∷ record { desired = 4; current = 4; tag = "new"; cluster = record { name = "b"; live = true } }
    ∷ record {
      desired = 2;
      current = 0;
      tag = "new";
      cluster = record { name = "c"; live = false };
    }
    ∷ []

update_observed_lem_example :
    let i' = update_observed 5000 2 observed new_revision in
    let p = is_live_of "new" in
    (i'.deployed
      ≡ (leb 2 (count_if p observed) && (ltb 0 (count_if p observed) && all_running p observed)))
    × (i'.status.scale.current ≡ sum_of (λ rs. rs.current) p observed)
    × (i'.status.scale.desired ≡ sum_of (λ rs. rs.desired) p observed)
update_observed_lem_example = update_observed_lem 5000 2 observed new_revision
