-- ===== src/Common/Slices/Sorting.antt =====
-- The sort leaves a sorted slice as it is.
use infra_devops.Base.{
  suc, length, ◌==◌, arith, Bool, true, false, if◌then◌else◌, Bool-cases, List, [], ◌∷◌, none, some,
  ◌≡◌, refl, ap, ◌∙◌, inl, inr,
}
use infra_devops.Cluster.{Slice}
use infra_devops.Common.Slices.{
  insert_sorted, sort, sort_slice, list_eq, slice_eq, slice_length, merged_left,
  sort_and_compare_slices,
}

module _ {A : Type 0} (less : A → A → Bool)
    (asymm : (a b : A) → less a b ≡ true → less b a ≡ false) where
  -- No element is less than the one before it.
  abbrev Ordered : List A → Type 0
  Ordered [] = Unit
  Ordered (x ∷ []) = Unit
  Ordered (x ∷ y ∷ l) = (less y x ≡ false) × Ordered (y ∷ l)

  insert-Ordered : (x : A) (l : List A) → Ordered l → Ordered (insert_sorted less x l)
  unfolding insert_sorted
  insert-Ordered x [] h = tt
  insert-Ordered x (y ∷ []) h = elim (Bool-cases (less y x)) [
    | inl b ↦ rw b (asymm y x b, tt)
    | inr b ↦ rw b (b, tt)
  ]
  insert-Ordered x (y ∷ z ∷ l) (h, t) =
      let rest = insert-Ordered x (z ∷ l) t in
      elim (Bool-cases (less y x)) [
        | inr b ↦ rw b (b, (h, t))
        | inl b ↦ rw b (elim (Bool-cases (less z x)) [
          | inl c ↦ rw c (h, rw c at rest)
          | inr c ↦ rw c (asymm y x b, (c, t))
        ])
      ]

  sort-Ordered : (l : List A) → Ordered (sort less l)
  unfolding sort
  sort-Ordered [] = tt
  sort-Ordered (x ∷ l) = insert-Ordered x (sort less l) (sort-Ordered l)

  sort-of_Ordered : (l : List A) → Ordered l → sort less l ≡ l
  unfolding sort insert_sorted
  sort-of_Ordered [] h = refl
  sort-of_Ordered (x ∷ []) h = refl
  sort-of_Ordered (x ∷ y ∷ l) (h, t) =
      ap (insert_sorted less x) (sort-of_Ordered (y ∷ l) t) ∙ rw h refl

  pub sort_slice-again : (l : Slice A) → sort_slice less (sort_slice less l) ≡ sort_slice less l
  unfolding sort_slice
  sort_slice-again none = refl
  sort_slice-again (some l) = ap some (sort-of_Ordered (sort less l) (sort-Ordered l))

module _ {A : Type 0} (less : A → A → Bool) where
  length-insert : (x : A) (l : List A) → length (insert_sorted less x l) ≡ suc (length l)
  unfolding insert_sorted
  length-insert x [] = refl
  length-insert x (y ∷ l) = elim (Bool-cases (less y x)) [
    | inl b ↦ rw b (ap suc (length-insert x l))
    | inr b ↦ rw b refl
  ]

  length-sort : (l : List A) → length (sort less l) ≡ length l
  unfolding sort
  length-sort [] = refl
  length-sort (x ∷ l) = length-insert x (sort less l) ∙ ap suc (length-sort l)

  slice_length-sort : (l : Slice A) → slice_length (sort_slice less l) ≡ slice_length l
  unfolding sort_slice
  slice_length-sort none = refl
  slice_length-sort (some l) = length-sort l

module _ {A : Type 0} (same : A → A → Bool) (reflexive : (a : A) → same a a ≡ true) where
  list_eq_refl : (l : List A) → list_eq same l l ≡ true
  unfolding list_eq
  list_eq_refl [] = refl
  list_eq_refl (x ∷ l) = rw (reflexive x) (list_eq_refl l)

  pub slice_eq_refl : (l : Slice A) → slice_eq same l l ≡ true
  unfolding slice_eq
  slice_eq_refl none = refl
  slice_eq_refl (some l) = list_eq_refl l

module _ {A : Type 0} (less same : A → A → Bool)
    (asymm : (a b : A) → less a b ≡ true → less b a ≡ false)
    (reflexive : (a : A) → same a a ≡ true) where
  -- Slices that are equal after sorting do not differ.
  equal-differs :
      (a b : Slice A)
      → (slice_length a == slice_length b) ≡ true
      → slice_eq same (sort_slice less a) (sort_slice less b) ≡ true
      → (sort_and_compare_slices less same a b).differs ≡ false
  unfolding sort_and_compare_slices
  equal-differs a b h k = rw h (rw k refl)

  sorted-differs :
      (a b : Slice A)
      → (slice_length a == slice_length b) ≡ true
      → slice_eq same (sort_slice less a) (sort_slice less b) ≡ true
      → (sort_and_compare_slices less same (sort_slice less a) b).differs ≡ false
  sorted-differs a b h k =
      equal-differs (sort_slice less a) b (rw (slice_length-sort less a) h)
        (rw (sort_slice-again less asymm a) k)

  same_length : (a : Slice A) → (slice_length a == slice_length a) ≡ true
  same_length a = ground arith

  self_equal : (a : Slice A) → slice_eq same (sort_slice less a) (sort_slice less a) ≡ true
  self_equal a = slice_eq_refl same reflexive (sort_slice less a)

  merged : Slice A → Slice A → Slice A
  merged a b = merged_left (sort_and_compare_slices less same a b)

  merged-revised : (a b : Slice A) → (slice_length a == slice_length b) ≡ false → merged a b ≡ b
  unfolding sort_and_compare_slices merged
  merged-revised a b h = rw h refl

  merged-sorted :
      (a b : Slice A) (e : Bool)
      → (slice_length a == slice_length b) ≡ true
      → slice_eq same (sort_slice less a) (sort_slice less b) ≡ e
      → merged a b ≡ (if e then sort_slice less a else sort_slice less b)
  unfolding sort_and_compare_slices merged
  merged-sorted a b true h k = rw h (rw k refl)
  merged-sorted a b false h k = rw h (rw k refl)

  -- The slice that is taken over after a comparison does not differ from the revised one when they are
  -- compared again, where the order is asymmetric and the equality reflexive.
  pub compare-merged_left :
      (a b : Slice A)
      → (sort_and_compare_slices less same
          (merged_left (sort_and_compare_slices less same a b))
          b).differs
        ≡ false
  unfolding merged
  compare-merged_left a b =
      by_length (slice_length a == slice_length b) refl
        (slice_eq same (sort_slice less a) (sort_slice less b)) refl
    where
      by_length :
          (l : Bool)
          → (slice_length a == slice_length b) ≡ l
          → (e : Bool) → slice_eq same (sort_slice less a) (sort_slice less b) ≡ e
          → (sort_and_compare_slices less same
              (merged_left (sort_and_compare_slices less same a b))
              b).differs
            ≡ false
      by_length false h e k =
          rw (merged-revised a b h) (equal-differs b b (same_length b) (self_equal b))
      by_length true h true k = rw (merged-sorted a b true h k) (sorted-differs a b h k)
      by_length true h false k =
          rw (merged-sorted a b false h k) (sorted-differs b b (same_length b) (self_equal b))
