-- ===== src/Common/Slices/Orders.antt =====
-- The orders and equalities by which slices are compared.
use infra_devops.Base.{true, false, String, str_eq, eq_iff, ◌≡◌, refl, arith}
use infra_devops.Base.Int.{ℤ, pos, negsuc, ltb_ℤ, eqb_ℤ}
use infra_devops.Base.Text.{str_lt, str_lt_asymm}
use infra_devops.Cluster.{Slice, Keyed}
use infra_devops.Common.Slices.{
  keyed_less, keyed_eq, port_less, port_eq, compare_by_key, compare_ports, merged_left,
  sort_and_compare_slices,
}
use infra_devops.Common.Slices.Sorting.{compare-merged_left}

pub str_eq_refl : (s : String) → str_eq s s ≡ true
str_eq_refl s = (eq_iff s s).1 refl

ltb_ℤ_asymm : (a b : ℤ) → ltb_ℤ a b ≡ true → ltb_ℤ b a ≡ false
ltb_ℤ_asymm (pos a) (pos b) h = ground arith
ltb_ℤ_asymm (pos a) (negsuc b) h = absurd (cc)
ltb_ℤ_asymm (negsuc a) (pos b) h = refl
ltb_ℤ_asymm (negsuc a) (negsuc b) h = ground arith

eqb_ℤ_refl : (a : ℤ) → eqb_ℤ a a ≡ true
eqb_ℤ_refl (pos a) = ground arith
eqb_ℤ_refl (negsuc a) = ground arith

pub compare_by_key-merged :
    (a b : Slice (Keyed String))
    → (compare_by_key (merged_left (compare_by_key a b)) b).differs ≡ false
unfolding compare_by_key
compare_by_key-merged =
    compare-merged_left keyed_less keyed_eq
      (λ a b h. unfold keyed_less in str_lt_asymm a.key b.key (unfold keyed_less in h))
      (λ a. unfold keyed_eq in rw (str_eq_refl a.key, str_eq_refl a.rest) refl)

pub compare_ports-merged :
    (a b : Slice (Keyed ℤ)) → (compare_ports (merged_left (compare_ports a b)) b).differs ≡ false
unfolding compare_ports
compare_ports-merged =
    compare-merged_left port_less port_eq
      (λ a b h. unfold port_less in ltb_ℤ_asymm a.key b.key (unfold port_less in h))
      (λ a. unfold port_eq in rw (eqb_ℤ_refl a.key, str_eq_refl a.rest) refl)

pub strings-merged :
    (a b : Slice String)
    → (sort_and_compare_slices str_lt str_eq
        (merged_left (sort_and_compare_slices str_lt str_eq a b))
        b).differs
      ≡ false
strings-merged = compare-merged_left str_lt str_eq str_lt_asymm str_eq_refl
