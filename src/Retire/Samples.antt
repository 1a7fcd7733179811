-- ===== src/Retire/Samples.antt =====
-- Witness for the retirement of a revision (controllers/plan/retireRevision.go): a cluster that is
-- the number of replicas of the one ReplicaSet that it has. And a test on names.
use Prim.Native.String.{String}
use text.Mathlib.Text.{◌==◌ as str_eq}
use picchu.Base.{ℕ, false, none, some, ◌≡◌, refl, sym, ap}
use picchu.Retire.{
  Fetched, Outside, retire, delete_keda_then_stop, delete_auth_then_stop, stop_replica_set,
}
use picchu.Retire.Stopped.{IsStopped, retire-IsStopped}
use picchu.Autoscale.{hpa_name, Library}

abbrev api : Outside ℕ String
api = record {
  delete_wpa = λ name w. (none, w);
  delete_scaled_object = λ name w. (none, w);
  delete_trigger_authentication = λ name w. (none, w);
  is_no_match = λ e. false;
  is_not_found = λ e. false;
  get_replica_set = λ name w. Fetched.fetched (some w);
  update_replicas = λ name n w. (none, n);
}

retire-IsStopped_example : IsStopped api "v1" 0
unfolding retire delete_keda_then_stop delete_auth_then_stop stop_replica_set
retire-IsStopped_example =
    retire-IsStopped api "v1" (λ n w w' h. sym (ap (λ o. Fetched.fetched (some o.1)) h)) 4 0 refl

abbrev lib : Library ℕ
lib = record { parse_float = λ s. none; trim_dashes = λ s. s; zero_factor = 0; scaled = λ n f. n }

-- The ScaledObject of a longer tag has another name than the tag, at which it is deleted.
hpa_name_test :
    str_eq
      (hpa_name lib "feature-0123456789-0123456789-0123456789-0123456789-0123456789")
      "feature-0123456789-0123456789-0123456789-0123456789-0123456789"
    ≡ false
unfolding hpa_name
hpa_name_test = refl
