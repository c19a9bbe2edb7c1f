-- ===== src/Enterprise/SmartStore/Distinct.antt =====
-- The duplicate check of a loop: a map of the names seen so far.
use infra_devops.Base.{
  String, Bool, true, none, List, [], ◌∷◌, ◌≡◌, ◌≢◌, ◌↔◌, refl, All, arith, eq_iff,
}
use infra_devops.Base.Dict.{Dict, lookup, insert, lookup-insert}

-- The elements differ from each other.
abbrev pub Distinct : List String → Type 0
Distinct [] = Unit
Distinct (x ∷ xs) = All (λ y. y ≢ x) xs × Distinct xs

-- No name is there before it is inserted.
abbrev pub NewIn : Dict Bool → List String → Type 0
NewIn seen [] = Unit
NewIn seen (x ∷ xs) = (lookup x seen ≡ none) × NewIn (insert x true seen) xs

abbrev Absent : Dict Bool → List String → Type 0
Absent seen xs = All (λ y. lookup y seen ≡ none) xs

-- A name is absent after an insert where it was before and is another one.
absent_after :
    (x y : String) (seen : Dict Bool)
    → lookup y (insert x true seen) ≡ none
    → (lookup y seen ≡ none) × (y ≢ x)
absent_after x y seen h =
    let here = lookup-insert x y true seen in
    let same = eq_iff x y in (ground (arith, here, same), λ e. ground (arith, here, same))

still_absent :
    (x y : String) (seen : Dict Bool)
    → lookup y seen ≡ none
    → y ≢ x
    → lookup y (insert x true seen) ≡ none
still_absent x y seen h n =
    let here = lookup-insert x y true seen in let same = eq_iff x y in ground (arith, here, same)

Absent-insert :
    (x : String) (seen : Dict Bool) (xs : List String)
    → Absent (insert x true seen) xs ↔ (Absent seen xs × All (λ y. y ≢ x) xs)
Absent-insert x seen [] = (λ h. (tt, tt), λ h. tt)
Absent-insert x seen (y ∷ ys) =
    let ih = Absent-insert x seen ys in
    (
      λ h.
          let head = absent_after x y seen h.0 in
          let tail = ih.0 h.1 in ((head.0, tail.0), (head.1, tail.1)),
      λ h. (still_absent x y seen h.0.0 h.1.0, ih.1 (h.0.1, h.1.1)),
    )

NewIn-Absent :
    (seen : Dict Bool) (xs : List String) → NewIn seen xs ↔ (Absent seen xs × Distinct xs)
NewIn-Absent seen [] = (λ h. (tt, tt), λ h. tt)
NewIn-Absent seen (x ∷ xs) =
    let ih = NewIn-Absent (insert x true seen) xs in
    let later = Absent-insert x seen xs in
    (
      λ h. let tail = ih.0 h.1 in let apart = later.0 tail.0 in ((h.0, apart.0), (apart.1, tail.1)),
      λ h. (h.0.0, ih.1 (later.1 (h.0.1, h.1.0), h.1.1)),
    )

empty-Absent : (xs : List String) → Absent [] xs
unfolding lookup
empty-Absent [] = tt
empty-Absent (x ∷ xs) = (refl, empty-Absent xs)

-- From the empty map, each name is new just where the names differ.
pub NewIn-Distinct : (xs : List String) → NewIn [] xs ↔ Distinct xs
NewIn-Distinct xs =
    let parts = NewIn-Absent [] xs in (λ h. (parts.0 h).1, λ h. parts.1 (empty-Absent xs, h))
