-- ===== src/Scenarios/Rolling.antt =====
-- A rolling update of two pods, in an environment that renews the pods that are deleted.
use infra_devops.Base.{
  ℕ, zero, suc, String, Bool, true, false, [], ◌∷◌, ok, ◌≡◌, ◌≢◌, refl, arith, not, ◌<◌,
}
use infra_devops.Base.Int.{pos}
use infra_devops.Base.Dict.{lookup}
use infra_devops.Cluster.{NamespacedName, Env, History, delete_pod, get_pod}
use infra_devops.Cluster.Runs.{Runs}
use infra_devops.Common.Names.{ready}
use infra_devops.Control.Pods.{pod_name, is_pod_ready, is_outdated, update_stateful_set_pods}
use infra_devops.Control.Statefulset.{default_manager}
use infra_devops.Control.Progress.{Outdated, Renews}
use infra_devops.Control.Progress.Ends.{again, update_stateful_set_pods-ends}
use infra_devops.Scenarios.World.{world, splunk_pod, indexers, begin}

-- A pod was deleted.
deleted : History → Bool
deleted [] = false
deleted (delete_pod uid version ∷ h) = true
deleted (c ∷ h) = deleted h

revision_after : Bool → String
revision_after true = "b"
revision_after false = "a"

-- The one pod gets the new revision when it is deleted.
renewing : Env
renewing = record (world "a") { pod_at = λ h id. ok (splunk_pod (revision_after (deleted h))) }

abbrev one_pod : Outdated
one_pod zero h = not (deleted h)
one_pod (suc n) h = false

shown : (b : Bool) → is_outdated (indexers (pos 1)) (splunk_pod (revision_after b)) ≡ not b
unfolding is_outdated revision_after lookup
shown true = refl
shown false = refl

renews : Renews renewing (indexers (pos 1)) 1 one_pod
unfolding renewing deleted is_pod_ready
renews = record {
  pod = λ n h. splunk_pod (revision_after (deleted h));
  reads = λ n h lt. refl;
  stays_ready = λ n h lt. refl;
  shows = shows_it;
  deletes = λ h p. refl;
  quiet = quiet_reads;
  renewed = renewed_it;
  others = others_same;
}
  where
    shows_it :
        (n : ℕ) (h : History)
        → n < 1
        → is_outdated (indexers (pos 1)) (splunk_pod (revision_after (deleted h))) ≡ one_pod n h
    shows_it zero h lt = shown (deleted h)
    shows_it (suc n) h lt = absurd (omega (arith, lt))

    quiet_reads :
        (n : ℕ) (id : NamespacedName) (h : History) → one_pod n (get_pod id ∷ h) ≡ one_pod n h
    quiet_reads zero id h = refl
    quiet_reads (suc n) id h = refl

    renewed_it :
        (n : ℕ) (h : History)
        → n < 1
        → one_pod n (
            delete_pod "uid" "7"
            ∷ get_pod (record { namespace = "ns"; name = pod_name (indexers (pos 1)) (pos n) })
            ∷ h)
          ≡ false
    renewed_it zero h lt = refl
    renewed_it (suc n) h lt = refl

    others_same :
        (n m : ℕ) (h : History)
        → n < 1
        → m ≢ n
        → one_pod m (
            delete_pod "uid" "7"
            ∷ get_pod (record { namespace = "ns"; name = pod_name (indexers (pos 1)) (pos n) })
            ∷ h)
          ≡ one_pod m h
    others_same n (suc m) h lt ne = refl
    others_same zero zero h lt ne = absurd (ne refl)
    others_same (suc n) zero h lt ne = absurd (omega (arith, lt))

update_stateful_set_pods-ends_example :
    Runs
      (again 1 (
        update_stateful_set_pods {S = Unit {0}} renewing default_manager
          (indexers (pos 1))
          (pos 1)))
      (begin tt)
      (λ o s'. o.phase ≡ ready)
unfolding deleted
update_stateful_set_pods-ends_example =
    update_stateful_set_pods-ends renewing (indexers (pos 1)) 1 one_pod renews (pos 1) 1 (begin tt)
      (refl, refl, refl) refl
