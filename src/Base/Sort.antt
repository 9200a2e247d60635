-- ===== src/Base/Sort.antt =====
-- Go's `sort.Slice` and `sort.Strings` as insertion sorts over a strict order: the sorted list holds
-- the same elements, and no element precedes its predecessor.
use mathlib.Core.Path.{◌≡◌, refl}
use mathlib.Core.Bool.{Bool, true, false}
use mathlib.Core.List.{List, [], ◌∷◌, Perm, Permᴰ, Perm-prop, map}
use mathlib.Core.List.Permᴰ
use mathlib.Core.Logic.{∥∥₁_elim, ∥∥₁_map}
use mathlib.Core.List.Perm
use native.Mathlib.Omega.{arith}
use irods_go_drs.Base.Lists.{All, filter}
use irods_go_drs.Base.Tests.{if◌then◌else◌, Bool-cases}
use mathlib.Core.Logic.{inl, inr}

module _ {A : Type 0} (before : A → A → Bool) where
  unfoldable pub insert_sorted : A → List A → List A
  insert_sorted x [] = x ∷ []
  insert_sorted x (y ∷ ys) = if before x y then x ∷ y ∷ ys else y ∷ insert_sorted x ys

  unfoldable pub sort : List A → List A
  unfolding insert_sorted
  sort [] = []
  sort (x ∷ xs) = insert_sorted x (sort xs)

  -- No element comes before the one in front of it.
  abbrev pub IsSorted : List A → Type 0
  IsSorted [] = Unit
  IsSorted (x ∷ []) = Unit
  IsSorted (x ∷ y ∷ ys) = (before y x ≡ false) × IsSorted (y ∷ ys)

  insert_sorted-perm : (x : A) (xs : List A) → Perm (insert_sorted x xs) (x ∷ xs)
  unfolding insert_sorted
  insert_sorted-perm x [] = Perm.refl _
  insert_sorted-perm x (y ∷ ys) = elim (Bool-cases (before x y)) [
    | inl b ↦ rw b (Perm.refl _)
    | inr b ↦ rw b (Perm.trans (Perm.cons y (insert_sorted-perm x ys)) (Perm.swap x y ys))
  ]

  pub sort-perm : (xs : List A) → Perm (sort xs) xs
  unfolding sort
  sort-perm [] = Perm.refl _
  sort-perm (x ∷ xs) = Perm.trans (insert_sorted-perm x (sort xs)) (Perm.cons x (sort-perm xs))

  module _ (asym : (x y : A) → before x y ≡ true → before y x ≡ false) where
    insert_sorted-IsSorted : (x : A) (xs : List A) → IsSorted xs → IsSorted (insert_sorted x xs)
    unfolding insert_sorted
    insert_sorted-IsSorted x [] h = tt
    insert_sorted-IsSorted x (y ∷ []) h = ground (arith, asym x y)
    insert_sorted-IsSorted x (y ∷ z ∷ zs) h =
        let ih : IsSorted (insert_sorted x (z ∷ zs)) = insert_sorted-IsSorted x (z ∷ zs) h.1 in
        elim (Bool-cases (before x y)) [
          | inl b ↦ rw b (asym x y b, h)
          | inr b ↦ rw b (elim (Bool-cases (before x z)) [
            | inl c ↦ rw c (b, rw c at ih)
            | inr c ↦ rw c (h.0, rw c at ih)
          ])
        ]

    pub sort-IsSorted : (xs : List A) → IsSorted (sort xs)
    unfolding sort
    sort-IsSorted [] = tt
    sort-IsSorted (x ∷ xs) = insert_sorted-IsSorted x (sort xs) (sort-IsSorted xs)

module _ {A : Type 0} (before : A → A → Bool) (P : A → Type 0) where
  insert_sorted-All : (x : A) (xs : List A) → P x → All P xs → All P (insert_sorted before x xs)
  unfolding insert_sorted
  insert_sorted-All x [] p ps = (p, tt)
  insert_sorted-All x (y ∷ ys) p ps = elim (Bool-cases (before x y)) [
    | inl b ↦ rw b (p, ps)
    | inr b ↦ rw b (ps.0, insert_sorted-All x ys p ps.1)
  ]

  -- What holds of all elements holds of all sorted ones.
  pub sort-All : (xs : List A) → All P xs → All P (sort before xs)
  unfolding sort
  sort-All [] ps = tt
  sort-All (x ∷ xs) ps = insert_sorted-All x (sort before xs) ps.0 (sort-All xs ps.1)

module _ {A : Type 0} (p : A → Bool) where
  filter-cons :
      (a b : A) (xs ys : List A) (t : Bool)
      → a ≡ b
      → p a ≡ t
      → Perm (filter p xs) (filter p ys)
      → Perm (filter p (a ∷ xs)) (filter p (b ∷ ys))
  filter-cons a b xs ys true e k h = rw (← e, k) (Perm.cons a h)
  filter-cons a b xs ys false e k h = rw (← e, k) h

  filter-swap :
      (a b : A) (xs : List A) (t u : Bool)
      → p a ≡ t
      → p b ≡ u
      → Perm (filter p (a ∷ b ∷ xs)) (filter p (b ∷ a ∷ xs))
  filter-swap a b xs true true k m = rw (k, m) (Perm.swap b a (filter p xs))
  filter-swap a b xs true false k m = rw (k, m) (Perm.refl _)
  filter-swap a b xs false true k m = rw (k, m) (Perm.refl _)
  filter-swap a b xs false false k m = rw (k, m) (Perm.refl _)

  filter-permᴰ : {xs ys : List A} → Permᴰ xs ys → Perm (filter p xs) (filter p ys)
  filter-permᴰ Permᴰ.nil = Perm.refl _
  filter-permᴰ (Permᴰ.cons {a} {b} {l₁} {l₂} e h) =
      filter-cons a b l₁ l₂ (p a) e refl (filter-permᴰ h)
  filter-permᴰ (Permᴰ.swap {a} {b} {a'} {b'} {l} e f) =
      rw (← e, ← f) (filter-swap a b l (p a) (p b) refl refl)
  filter-permᴰ (Permᴰ.trans h k) = Perm.trans (filter-permᴰ h) (filter-permᴰ k)

  -- The elements that pass a test are the same in every order of a list.
  pub filter-perm : {xs ys : List A} → Perm xs ys → Perm (filter p xs) (filter p ys)
  filter-perm {xs} {ys} h =
      ∥∥₁_elim h (Perm-prop {l₁ = filter p xs} {l₂ = filter p ys}) filter-permᴰ

pub map-perm : {A B : Type 0} (f : A → B) {xs ys : List A} → Perm xs ys → Perm (map f xs) (map f ys)
map-perm f h = ∥∥₁_map h (Permᴰ.map f)
