-- ===== src/Enterprise/Slots.antt =====
-- Lists that a loop fills from the front with put_at, and then cuts.
use infra_devops.Base.{
  ℕ, zero, suc, ◌<◌, ◌≤◌, if◌then◌else◌, Bool-cases, List, [], ◌∷◌, ◌++◌, some, length, length-set,
  length-append, length-take, get_elem?, set, take, ltb, ◌≡◌, refl, arith, inl, inr,
}
use infra_devops.Enterprise.SearchHeads.{put_at}

module _ {A : Type 0} where
  get-set : (xs : List A) (n : ℕ) (v : A) → n < length xs → get_elem? (set xs n v) n ≡ some v
  get-set [] n v h = absurd (omega (arith, h))
  get-set (x ∷ xs) zero v h = refl
  get-set (x ∷ xs) (suc n) v h = get-set xs n v (omega (arith, h))

  get-set_before :
      (xs : List A) (n i : ℕ) (v : A) → i < n → get_elem? (set xs n v) i ≡ get_elem? xs i
  get-set_before [] n i v h = refl
  get-set_before (x ∷ xs) zero i v h = absurd (omega (arith, h))
  get-set_before (x ∷ xs) (suc n) zero v h = refl
  get-set_before (x ∷ xs) (suc n) (suc i) v h = get-set_before xs n i v (omega (arith, h))

  get-append_end : (xs : List A) (v : A) → get_elem? (xs ++ v ∷ []) (length xs) ≡ some v
  get-append_end [] v = refl
  get-append_end (x ∷ xs) v = get-append_end xs v

  get-append_before :
      (xs : List A) (v : A) (i : ℕ) → i < length xs → get_elem? (xs ++ v ∷ []) i ≡ get_elem? xs i
  get-append_before [] v i h = absurd (omega (arith, h))
  get-append_before (x ∷ xs) v zero h = refl
  get-append_before (x ∷ xs) v (suc i) h = get-append_before xs v i (omega (arith, h))

  pub get-put_at :
      (n : ℕ) (v : A) (xs : List A) → n ≤ length xs → get_elem? (put_at n v xs) n ≡ some v
  unfolding put_at
  get-put_at n v xs h = elim (Bool-cases (ltb n (length xs))) [
    | inl b ↦ rw b (get-set xs n v (ground arith))
    | inr b ↦ rw b (let e : n ≡ length xs = ground arith in rw e (get-append_end xs v))
  ]

  pub get-put_at_before :
      (n : ℕ) (v : A) (xs : List A) (i : ℕ)
      → n ≤ length xs
      → i < n
      → get_elem? (put_at n v xs) i ≡ get_elem? xs i
  unfolding put_at
  get-put_at_before n v xs i h k = elim (Bool-cases (ltb n (length xs))) [
    | inl b ↦ rw b (get-set_before xs n i v k)
    | inr b ↦ rw b (get-append_before xs v i (omega arith))
  ]

  pub length-put_at : (n : ℕ) (v : A) (xs : List A) → n ≤ length xs → n < length (put_at n v xs)
  unfolding put_at
  length-put_at n v xs h = elim (Bool-cases (ltb n (length xs))) [
    | inl b ↦ rw b (let e = length-set xs n v in ground arith)
    | inr b ↦ rw b (let e = length-append xs (v ∷ []) in omega arith)
  ]

  pub get-take : (n : ℕ) (xs : List A) (i : ℕ) → i < n → get_elem? (take n xs) i ≡ get_elem? xs i
  get-take zero xs i h = absurd (omega (arith, h))
  get-take (suc n) [] i h = refl
  get-take (suc n) (x ∷ xs) zero h = refl
  get-take (suc n) (x ∷ xs) (suc i) h = get-take n xs i (omega (arith, h))

  -- The list cut to `n` elements, where it has more.
  pub length-cut :
      (n : ℕ) (xs : List A)
      → n ≤ length xs
      → length (if ltb n (length xs) then take n xs else xs) ≡ n
  length-cut n xs h = elim (Bool-cases (ltb n (length xs))) [
    | inl b ↦ rw b (let e = length-take n xs in ground arith)
    | inr b ↦ rw b (ground arith)
  ]

  pub get-cut :
      (n : ℕ) (xs : List A) (i : ℕ)
      → i < n
      → get_elem? (if ltb n (length xs) then take n xs else xs) i ≡ get_elem? xs i
  get-cut n xs i h = elim (Bool-cases (ltb n (length xs))) [
    | inl b ↦ rw b (get-take n xs i h)
    | inr b ↦ rw b refl
  ]
