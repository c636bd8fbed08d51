-- ===== src/Prelude/Sort.antt =====
-- A stable sort by a Boolean strict order, as Rust's `sort_by` and SQL's ORDER BY are used here.
use mathlib.Core.Path.{◌≡◌}
use mathlib.Core.Bool.{Bool, true, false}
use mathlib.Core.Logic.{inl, inr}
use mathlib.Core.List.{List, [], ◌∷◌, Perm}
use mathlib.Core.List.Perm
use kou_router.Prelude.Tests.{if◌then◌else◌, Bool-cases}
use kou_router.Prelude.Lists.{All}

module _ {ℓ} {A : Type ℓ} (less : A → A → Bool) where
  -- In front of the first element that is not less.
  unfoldable pub insert_sorted : A → List A → List A
  insert_sorted x [] = x ∷ []
  insert_sorted x (y ∷ ys) = if less y x then y ∷ insert_sorted x ys else x ∷ y ∷ ys

  unfoldable pub sort_by : List A → List A
  unfolding insert_sorted
  sort_by [] = []
  sort_by (x ∷ xs) = insert_sorted x (sort_by xs)

  -- No element is less than one in front of it.
  abbrev pub IsSorted : List A → Type ℓ
  IsSorted [] = Unit
  IsSorted (x ∷ xs) = All (λ y. less y x ≡ false) xs × IsSorted xs

  insert_sorted-perm : (x : A) (ys : List A) → Perm (insert_sorted x ys) (x ∷ ys)
  unfolding insert_sorted
  insert_sorted-perm x [] = Perm.refl _
  insert_sorted-perm x (y ∷ ys) = elim (Bool-cases (less y x)) [
    | inl e ↦ rw e (Perm.trans (Perm.cons y (insert_sorted-perm x ys)) (Perm.swap _ _ _))
    | inr e ↦ rw e (Perm.refl _)
  ]

  pub sort_by-perm : (xs : List A) → Perm (sort_by xs) xs
  unfolding sort_by
  sort_by-perm [] = Perm.refl []
  sort_by-perm (x ∷ xs) =
      Perm.trans (insert_sorted-perm x (sort_by xs)) (Perm.cons x (sort_by-perm xs))

  -- The two laws of a strict weak order that sorting needs.
  pub record IsStrict : Type ℓ where
    pub asym : (x y : A) → less x y ≡ true → less y x ≡ false
    pub trans : (x y z : A) → less y x ≡ false → less z y ≡ false → less z x ≡ false

  module _ (strict : IsStrict) where
    All-insert_sorted :
        (w x : A) (ys : List A)
        → less x w ≡ false
        → All (λ y. less y w ≡ false) ys
        → All (λ y. less y w ≡ false) (insert_sorted x ys)
    unfolding insert_sorted
    All-insert_sorted w x [] h _ = (h, tt)
    All-insert_sorted w x (y ∷ ys) h (k, ks) = elim (Bool-cases (less y x)) [
      | inl e ↦ rw e (k, All-insert_sorted w x ys h ks)
      | inr e ↦ rw e (h, (k, ks))
    ]

    All-trans :
        (w x : A) (ys : List A)
        → less x w ≡ false
        → All (λ y. less y x ≡ false) ys
        → All (λ y. less y w ≡ false) ys
    All-trans w x [] h _ = tt
    All-trans w x (y ∷ ys) h (k, ks) = (strict.trans w x y h k, All-trans w x ys h ks)

    insert_sorted-IsSorted : (x : A) (ys : List A) → IsSorted ys → IsSorted (insert_sorted x ys)
    unfolding insert_sorted
    insert_sorted-IsSorted x [] _ = (tt, tt)
    insert_sorted-IsSorted x (y ∷ ys) (h, s) = elim (Bool-cases (less y x)) [
      | inl e ↦ rw e (All-insert_sorted y x ys (strict.asym y x e) h, insert_sorted-IsSorted x ys s)
      | inr e ↦ rw e ((e, All-trans x y ys e h), (h, s))
    ]

    pub sort_by-IsSorted : (xs : List A) → IsSorted (sort_by xs)
    unfolding sort_by
    sort_by-IsSorted [] = tt
    sort_by-IsSorted (x ∷ xs) = insert_sorted-IsSorted x (sort_by xs) (sort_by-IsSorted xs)
