-- ===== src/Control/Apply/Settled.antt =====
-- A service that was merged needs no further update.
use infra_devops.Base.{false, ◌≡◌, refl}
use infra_devops.Cluster.{ServiceSpec}
use infra_devops.Common.Slices.Orders.{str_eq_refl, compare_ports-merged, strings-merged}
use infra_devops.Control.Apply.{compare_sorted_strings, merge_service_spec_updates}

-- After MergeServiceSpecUpdates a second merge of the same revised spec reports no change.
pub merge_service_spec_updates-settled :
    (current revised : ServiceSpec)
    → (merge_service_spec_updates (merge_service_spec_updates current revised).1 revised).0 ≡ false
unfolding merge_service_spec_updates compare_sorted_strings
merge_service_spec_updates-settled current revised =
    rw
      (
        str_eq_refl revised.kind,
        str_eq_refl revised.external_name,
        str_eq_refl revised.external_traffic_policy,
        strings-merged current.external_ips revised.external_ips,
        compare_ports-merged current.ports revised.ports,
      )
      refl
