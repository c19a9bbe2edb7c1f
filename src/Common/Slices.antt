-- ===== src/Common/Slices.antt =====
-- SortSlice, sortAndCompareSlices and the comparers on them of pkg/splunk/common/util.go. sort.Slice
-- is modelled by insertion from the right; where keys are equal Go may keep another order.
pub mod Sorting
pub mod Orders
use infra_devops.Base.{
  String, Bool, true, false, not, ◌&&◌, if◌then◌else◌, str_eq, none, some, List, [], ◌∷◌, ℕ, ◌==◌,
  length,
}
use infra_devops.Base.Int.{ℤ, ltb_ℤ, eqb_ℤ}
use infra_devops.Base.Text.{str_lt}
use infra_devops.Cluster.{Slice, Keyed}

module _ {A : Type 0} (less : A → A → Bool) where
  unfoldable pub insert_sorted : A → List A → List A
  insert_sorted x [] = x ∷ []
  insert_sorted x (y ∷ ys) = if less y x then y ∷ insert_sorted x ys else x ∷ y ∷ ys

  unfoldable pub sort : List A → List A
  unfolding insert_sorted
  sort [] = []
  sort (x ∷ xs) = insert_sorted x (sort xs)

  unfoldable pub sort_slice : Slice A → Slice A
  unfolding sort
  sort_slice none = none
  sort_slice (some l) = some (sort l)

module _ {A : Type 0} (same : A → A → Bool) where
  unfoldable pub list_eq : List A → List A → Bool
  list_eq [] [] = true
  list_eq [] (y ∷ ys) = false
  list_eq (x ∷ xs) [] = false
  list_eq (x ∷ xs) (y ∷ ys) = same x y && list_eq xs ys

  -- reflect.DeepEqual, which tells a nil slice from an empty one
  unfoldable pub slice_eq : Slice A → Slice A → Bool
  unfolding list_eq
  slice_eq none none = true
  slice_eq none (some l) = false
  slice_eq (some l) none = false
  slice_eq (some l) (some m) = list_eq l m

-- A comparison sorts both slices in place, unless their lengths differ.
pub record Compared (A : Type 0) : Type 0 where
  pub differs : Bool
  pub left : Slice A
  pub right : Slice A

-- The slice that the current value has after a comparison: the revised one where they differ.
abbrev pub merged_left : {A : Type 0} → Compared A → Slice A
merged_left c = if c.differs then c.right else c.left

abbrev pub slice_length : {A : Type 0} → Slice A → ℕ
slice_length none = 0
slice_length (some l) = length l

module _ {A : Type 0} (less same : A → A → Bool) where
  unfoldable pub sort_and_compare_slices : Slice A → Slice A → Compared A
  unfolding sort_slice slice_eq
  sort_and_compare_slices a b =
      if slice_length a == slice_length b
      then (record {
        differs = not (slice_eq same (sort_slice less a) (sort_slice less b));
        left = sort_slice less a;
        right = sort_slice less b;
      })
      else record { differs = true; left = a; right = b }

unfoldable pub keyed_less : Keyed String → Keyed String → Bool
keyed_less a b = str_lt a.key b.key

unfoldable pub keyed_eq : Keyed String → Keyed String → Bool
keyed_eq a b = str_eq a.key b.key && str_eq a.rest b.rest

unfoldable pub port_less : Keyed ℤ → Keyed ℤ → Bool
port_less a b = ltb_ℤ a.key b.key

unfoldable pub port_eq : Keyed ℤ → Keyed ℤ → Bool
port_eq a b = eqb_ℤ a.key b.key && str_eq a.rest b.rest

-- CompareTolerations by Key; CompareVolumes, CompareVolumeMounts and CompareEnvs by Name
unfoldable pub compare_by_key :
    Slice (Keyed String) → Slice (Keyed String) → Compared (Keyed String)
unfolding sort_and_compare_slices keyed_less keyed_eq
compare_by_key = sort_and_compare_slices keyed_less keyed_eq

-- CompareContainerPorts
unfoldable pub compare_ports : Slice (Keyed ℤ) → Slice (Keyed ℤ) → Compared (Keyed ℤ)
unfolding sort_and_compare_slices port_less port_eq
compare_ports = sort_and_compare_slices port_less port_eq
