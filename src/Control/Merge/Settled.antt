-- ===== src/Control/Merge/Settled.antt =====
-- Containers that were merged need no further update.
use infra_devops.Base.{Bool, true, false, List, [], ◌∷◌, ◌≡◌, refl}
use infra_devops.Cluster.{Container}
use infra_devops.Common.Slices.Orders.{str_eq_refl, compare_by_key-merged, compare_ports-merged}
use infra_devops.Control.Merge.{merge_container, merge_containers}

merge_container-settled :
    (skip_for_mc : Bool) (current revised : Container)
    → (merge_container skip_for_mc
        (merge_container skip_for_mc current revised).current
        revised).result
      ≡ false
unfolding merge_container
merge_container-settled true current revised =
    rw
      (
        str_eq_refl revised.image,
        compare_ports-merged current.ports revised.ports,
        compare_by_key-merged current.volume_mounts revised.volume_mounts,
        str_eq_refl revised.resources,
      )
      refl
merge_container-settled false current revised =
    rw
      (
        str_eq_refl revised.image,
        compare_ports-merged current.ports revised.ports,
        compare_by_key-merged current.volume_mounts revised.volume_mounts,
        str_eq_refl revised.resources,
        compare_by_key-merged current.env revised.env,
      )
      refl

-- After the loop of MergePodSpecUpdates over the containers, a second one with the same revised
-- containers reports no change, for the monitoring console and for other instances.
pub merge_containers-settled :
    (skip_for_mc : Bool) (current revised : List Container)
    → (merge_containers skip_for_mc
        (merge_containers skip_for_mc current revised).current
        revised).result
      ≡ false
unfolding merge_containers
merge_containers-settled skip [] revised = refl
merge_containers-settled skip (c ∷ cs) [] = refl
merge_containers-settled skip (c ∷ cs) (r ∷ rs) =
    rw (merge_container-settled skip c r, merge_containers-settled skip cs rs) refl
