-- ===== src/Objects/Samples.antt =====
-- Witnesses for `CreateOrUpdate` (plan/common.go): a cluster that keeps one object under each name.
use Prim.Native.String.{String}
use picchu.Base.{ℕ, none, some, [], ◌∷◌, finished, ◌≡◌, refl, ◌⊎◌, ◌↔◌}
use picchu.Objects.{Object, Kind, lookup, has_key, is_ignored, insert}
use picchu.Objects.Kinds.{unless_ignored, replica_set_case}
use picchu.Objects.ReplicaSets.{
  sync_replica_set, sync_replicas, sync_template, is_worker, or_zero, annotation_do_not_disrupt,
}
use picchu.Objects.Memory
use picchu.Objects.Memory.{blank_object}
use picchu.Objects.Store.{Client, IsClient, create_or_update, case_of}
use picchu.Objects.Counts.{create_or_update-replicas}
use picchu.Objects.Waits.{create_or_update-min_ready_seconds}

abbrev Cluster : Type 0
Cluster = Memory.Cluster ℕ

abbrev client : Client ℕ Cluster String
client = Memory.client ℕ

client-IsClient : IsClient client
client-IsClient = Memory.client-IsClient ℕ

abbrev blank : Object ℕ
blank = blank_object ℕ 0

abbrev wanted_count : ℕ
wanted_count = 2

abbrev wanted : Object ℕ
wanted = record blank {
  name = "web";
  labels = some (("app", "web") ∷ []);
  annotations = some (("autoscaling.keda.sh/paused-replicas", "3") ∷ []);
  spec = 7;
  selector = 5;
  contents = 9;
  replicas = some wanted_count;
  template = 4;
  template_annotations = some ((annotation_do_not_disrupt, "true") ∷ []);
}

abbrev running : Object ℕ
running = record wanted {
  labels = none;
  selector = 0;
  replicas = some 6;
  template = 1;
  template_labels = some (("tag", "old") ∷ []);
  template_annotations = some (("note", "x") ∷ []);
}

abbrev synced : Object ℕ
synced = record running {
  labels = wanted.labels;
  selector = 5;
  template_annotations = some (("note", "x") ∷ (annotation_do_not_disrupt, "true") ∷ []);
}

abbrev empty : Cluster
empty name = none

abbrev kept : Object ℕ
kept = record wanted {
  selector = 0;
  spec = 0;
  replicas = none;
  min_ready_seconds = 0;
  template = 0;
  template_annotations = none;
}

abbrev occupied : Cluster
occupied = Memory.written ℕ running running empty

updated :
    (c : Cluster) × (create_or_update client blank Kind.replica_set wanted occupied
      ≡ finished (none, c))
unfolding create_or_update case_of replica_set_case unless_ignored is_ignored has_key
    sync_replica_set sync_replicas sync_template is_worker lookup insert
updated = (_, refl)

create_or_update-replicas_example :
    (o : Object ℕ) × (n : ℕ) × (client.read Kind.replica_set
        (replica_set_case blank wanted).start
        updated.0
      ≡ some o)
    × (o.replicas ≡ some n)
    × ((n ≡ 0) ↔ (wanted_count ≡ 0))
    × ((n ≡ wanted_count) ⊎ (n ≡ or_zero running.replicas))
unfolding replica_set_case is_ignored is_worker lookup has_key
create_or_update-replicas_example =
    create_or_update-replicas client blank client-IsClient (λ e. refl) wanted running occupied
      updated.0 wanted_count refl refl refl refl updated.1

abbrev wanted_ready : Object ℕ
wanted_ready = record wanted { min_ready_seconds = 30 }

created :
    (c : Cluster) × (create_or_update client blank Kind.replica_set wanted_ready empty
      ≡ finished (none, c))
unfolding create_or_update case_of replica_set_case unless_ignored is_ignored has_key
    sync_replica_set sync_replicas sync_template is_worker lookup
created = (_, refl)

create_or_update-min_ready_seconds_example :
    (o : Object ℕ) × (client.read Kind.replica_set
        (replica_set_case blank wanted_ready).start
        created.0
      ≡ some o)
    × (o.min_ready_seconds ≡ 0)
create_or_update-min_ready_seconds_example =
    create_or_update-min_ready_seconds client blank client-IsClient (λ e. refl) wanted_ready empty
      created.0 refl created.1
