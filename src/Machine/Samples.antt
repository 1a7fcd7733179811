-- ===== src/Machine/Samples.antt =====
-- Tests and witnesses for controllers/state.go: a deployment whose world is the recorded state,
-- whose calls succeed, and whose queries are constants.
use Prim.Native.String.{String}
use text.Mathlib.Text.{◌==◌ as str_eq}
use picchu.Base.{ℕ, Bool, true, false, Option, none, some, ◌≡◌, ◌≢◌, arith, ap, refl, finished}
use picchu.Deployment.{State, name, lookup_handler, ExternalTestStatus, Deployment}
use picchu.Machine.{handle, tick}
use picchu.Machine.Guards.{Warrant, handle_warranted}
use picchu.Machine.Runs.{IsLawful, here, ticked, release_gate}
use picchu.Machine.Progress.{Quiet, ticks}
use picchu.Machine.Ending.{gone_deleted}

abbrev still : String → Option String × String
still w = (none, w)

abbrev constant : Bool → Bool → ℕ → Deployment String String
constant revision failed peak = record {
  sync = still;
  retire = still;
  del = still;
  sync_canary_rules = still;
  delete_canary_rules = still;
  delete_tagged_service_levels = still;
  has_revision = λ w. revision;
  schedule_permits_release = λ w. finished true;
  marked_as_failed = λ w. failed;
  is_release_eligible = λ w. true;
  current_state = λ w. w;
  set_state = λ s w. s;
  is_deployed = λ w. true;
  external_test_status = λ w. ExternalTestStatus.disabled;
  current_percent = λ w. 0;
  peak_percent = λ w. peak;
  is_canary_pending = λ w. false;
  is_timing_out = λ w. false;
  is_expired = λ w. finished false;
  now = λ w. 1000;
  nil_dereference = "nil dereference";
}

constant-IsLawful : (revision failed : Bool) (peak : ℕ) → IsLawful (constant revision failed peak)
constant-IsLawful revision failed peak = record {
  state_set = λ s w. refl;
  calls_keep = record {
    sync_keeps = λ w. refl;
    retire_keeps = λ w. refl;
    del_keeps = λ w. refl;
    sync_canary_keeps = λ w. refl;
    delete_canary_keeps = λ w. refl;
    delete_tagged_keeps = λ w. refl;
  };
}

abbrev Every : String → Type 0
Every w = Unit

constant-Quiet : (revision failed : Bool) (peak : ℕ) → Quiet (constant revision failed peak) Every
constant-Quiet revision failed peak = record {
  sync_quiet = λ w p. (refl, tt);
  retire_quiet = λ w p. (refl, tt);
  del_quiet = λ w p. (refl, tt);
  sync_canary_quiet = λ w p. (refl, tt);
  delete_canary_quiet = λ w p. (refl, tt);
  delete_tagged_quiet = λ w p. (refl, tt);
  set_state_quiet = λ s w p. tt;
}

abbrev recently : String → Option ℕ
recently w = some 990

-- A pending release that is eligible and permitted begins.
handle_warranted_example :
    Warrant
      (constant true false 40)
      (some 990)
      State.pendingrelease
      State.releasing
      "pendingrelease"
      "pendingrelease"
unfolding handle
handle_warranted_example =
    handle_warranted (constant true false 40) (some 990) State.pendingrelease "pendingrelease" refl
      (ground arith)

-- A created revision is deployed next.
created_ticks : tick (constant true false 40) (some 990) "created" ≡ finished (none, "deploying")
unfolding tick lookup_handler name
created_ticks = refl

release_gate_example : ("deploying" ≢ name State.releasing) × ("deploying" ≢ name State.released)
unfolding name
release_gate_example =
    release_gate (constant true false 40) (constant-IsLawful true false 40) {start = "created"} refl
      (ticked (some 990) none here created_ticks (λ e. ground (arith, ap (str_eq "deploying") e)))

gone_deleted_example :
    (w' : String) × (ticks (constant false false 40) recently 2 "released" ≡ finished (none, w'))
    × (w' ≡ name State.deleted)
unfolding name
gone_deleted_example =
    gone_deleted (constant false false 40) (constant-IsLawful false false 40) recently Every
      (constant-Quiet false false 40) (λ w p. record { no_revision = refl; no_traffic = refl })
      State.released "released" tt refl
