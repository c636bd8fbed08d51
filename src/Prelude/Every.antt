-- ===== src/Prelude/Every.antt =====
-- What every element of a list satisfies, through the operations on lists.
use mathlib.Core.Path.{◌≡◌, refl}
use mathlib.Core.Bool.{Bool, true, false}
use mathlib.Core.Logic.{inl, inr}
use mathlib.Core.List.{List, [], ◌∷◌, ◌++◌, Memᴰ}
use native.Mathlib.Omega.{arith}
use kou_router.Prelude.Tests.{if◌then◌else◌, Bool-cases}
use kou_router.Prelude.Lists.{All, keep, is_empty}
use kou_router.Prelude.Sort.{insert_sorted, sort_by}

pub All-append :
    {A : Type 0} (P : A → Type 0) (xs ys : List A) → All P xs → All P ys → All P (xs ++ ys)
All-append P [] ys _ k = k
All-append P (x ∷ xs) ys (h, hs) k = (h, All-append P xs ys hs k)

pub All-keep :
    {A : Type 0} (Q : A → Type 0) (f : A → Bool) (xs : List A) → All Q xs → All Q (keep f xs)
All-keep Q f [] _ = tt
All-keep Q f (x ∷ xs) (h, hs) = elim (Bool-cases (f x)) [
  | inl e ↦ rw e (h, All-keep Q f xs hs)
  | inr e ↦ rw e (All-keep Q f xs hs)
]

pub All-if :
    {A : Type 0} (Q : A → Type 0) (b : Bool) (xs ys : List A)
    → All Q xs
    → All Q ys
    → All Q (if b then xs else ys)
All-if Q true xs ys h k = h
All-if Q false xs ys h k = k

All-insert_sorted :
    {A : Type 0} (Q : A → Type 0) (less : A → A → Bool) (x : A) (ys : List A)
    → Q x
    → All Q ys
    → All Q (insert_sorted less x ys)
unfolding insert_sorted
All-insert_sorted Q less x [] h _ = (h, tt)
All-insert_sorted Q less x (y ∷ ys) h (k, ks) = elim (Bool-cases (less y x)) [
  | inl e ↦ rw e (k, All-insert_sorted Q less x ys h ks)
  | inr e ↦ rw e (h, (k, ks))
]

pub All-sort_by :
    {A : Type 0} (Q : A → Type 0) (less : A → A → Bool) (xs : List A)
    → All Q xs
    → All Q (sort_by less xs)
unfolding sort_by
All-sort_by Q less [] _ = tt
All-sort_by Q less (x ∷ xs) (h, hs) =
    All-insert_sorted Q less x (sort_by less xs) h (All-sort_by Q less xs hs)

pub All-map_of :
    {A : Type 0} (P Q : A → Type 0) (xs : List A) → ((x : A) → P x → Q x) → All P xs → All Q xs
All-map_of P Q [] f _ = tt
All-map_of P Q (x ∷ xs) f (h, hs) = (f x h, All-map_of P Q xs f hs)

pub All-all : {A : Type 0} (P : A → Type 0) (xs : List A) → ((x : A) → P x) → All P xs
All-all P [] f = tt
All-all P (x ∷ xs) f = (f x, All-all P xs f)

-- What is kept stands in the list and passes the test.
pub All-kept :
    {A : Type 0} (f : A → Bool) (xs : List A) → All (λ x. Memᴰ x xs × (f x ≡ true)) (keep f xs)
All-kept f [] = tt
All-kept f (x ∷ xs) =
    let later =
      All-map_of (λ y. Memᴰ y xs × (f y ≡ true)) (λ y. Memᴰ y (x ∷ xs) × (f y ≡ true)) (keep f xs)
        (λ y h. (Memᴰ.tail h.0, h.1)) (All-kept f xs) in
    elim (Bool-cases (f x)) [ inl e ↦ rw e ((Memᴰ.head refl, e), later) | inr e ↦ rw e later ]

pub All-self : {A : Type 0} (xs : List A) → All (λ x. Memᴰ x xs) xs
All-self [] = tt
All-self (x ∷ xs) = (
  Memᴰ.head refl,
  All-map_of (λ y. Memᴰ y xs) (λ y. Memᴰ y (x ∷ xs)) xs (λ y h. Memᴰ.tail h) (All-self xs),
)

-- Sorting loses no element of a list.
insert_sorted-not_empty :
    {A : Type 0} (less : A → A → Bool) (x : A) (ys : List A)
    → is_empty (insert_sorted less x ys) ≡ false
unfolding insert_sorted
insert_sorted-not_empty less x [] = refl
insert_sorted-not_empty less x (y ∷ ys) = ground arith

pub sort_by-none :
    {A : Type 0} (less : A → A → Bool) (xs : List A) → is_empty (sort_by less xs) ≡ true → xs ≡ []
unfolding sort_by
sort_by-none less [] h = refl
sort_by-none less (x ∷ xs) h = ground (arith, insert_sorted-not_empty less x (sort_by less xs))

pub All-both :
    {A : Type 0} (P Q : A → Type 0) (xs : List A) → All P xs → All Q xs → All (λ x. P x × Q x) xs
All-both P Q [] _ _ = tt
All-both P Q (x ∷ xs) (h, hs) (k, ks) = ((h, k), All-both P Q xs hs ks)
