-- ===== src/Prelude/Lists.antt =====
-- Lists measured and indexed by native numbers, and predicates on lists by recursion.
use Prim.Native.Nat.{ℕ, zero, suc, ◌+◌}
use mathlib.Core.Path.{◌≡◌, refl, sym, subst}
use mathlib.Core.Logic.{◌⊎◌, inl, inr}
use mathlib.Core.Bool.{Bool, false, ◌||◌}
use mathlib.Core.List.{List, [], ◌∷◌, ◌++◌, map}
use mathlib.Core.Option.{Option, none, some}
use native.Mathlib.Omega.{arith}
use near_sffl.Prelude.Tests.{◌==◌}

module _ {ℓ} {A : Type ℓ} where
  abbrev pub length : List A → ℕ
  length [] = 0
  length (x ∷ xs) = suc (length xs)

  abbrev pub get_elem? : List A → ℕ → Option A
  get_elem? [] i = none
  get_elem? (x ∷ xs) zero = some x
  get_elem? (x ∷ xs) (suc i) = get_elem? xs i

  -- A write out of bounds changes nothing.
  abbrev pub set : List A → ℕ → A → List A
  set [] i v = []
  set (x ∷ xs) zero v = v ∷ xs
  set (x ∷ xs) (suc i) v = x ∷ set xs i v

  abbrev pub take : ℕ → List A → List A
  take zero xs = []
  take (suc n) [] = []
  take (suc n) (x ∷ xs) = x ∷ take n xs

  abbrev pub drop : ℕ → List A → List A
  drop zero xs = xs
  drop (suc n) [] = []
  drop (suc n) (x ∷ xs) = drop n xs

  abbrev pub replicate : ℕ → A → List A
  replicate zero a = []
  replicate (suc n) a = a ∷ replicate n a

  pub length-append : (xs ys : List A) → length (xs ++ ys) ≡ length xs + length ys
  length-append [] ys = omega arith
  length-append (x ∷ xs) ys = omega (arith, length-append xs ys)

-- Every item of the list satisfies the predicate.
abbrev pub All {ℓ κ} : {Item : Type ℓ} → (Item → Type κ) → List Item → Type κ
All Holds [] = Unit
All Holds (item ∷ items) = Holds item × All Holds items

pub All-append {ℓ κ} :
    {Item : Type ℓ} (Holds : Item → Type κ) (front back : List Item)
    → All Holds front
    → All Holds back
    → All Holds (front ++ back)
All-append Holds [] back f b = b
All-append Holds (item ∷ front) back (first, f) b = (first, All-append Holds front back f b)

-- Membership of a number, as a test.
abbrev pub elem : ℕ → List ℕ → Bool
elem a [] = false
elem a (x ∷ xs) = a == x || elem a xs

-- To split on a computed list and keep the equation.
pub List-cases {ℓ} : {A : Type ℓ} (l : List A) → (l ≡ []) ⊎ ((a : A) × (r : List A) × (l ≡ a ∷ r))
List-cases [] = inl refl
List-cases (a ∷ r) = inr (a, r, refl)

-- The list has the item, by recursion, with its place.
abbrev pub Among : {Item : Type 0} → Item → List Item → Type 0
Among item [] = ⊥
Among item (first ∷ items) = (item ≡ first) ⊎ Among item items

-- A property of the items that are among them is one of all.
pub All-Among {κ} :
    {Item : Type 0} (Holds : Item → Type κ) (items : List Item)
    → ((item : Item) → Among item items → Holds item)
    → All Holds items
All-Among Holds [] h = tt
All-Among Holds (item ∷ items) h = (h item (inl refl), All-Among Holds items (λ i a. h i (inr a)))

pub All-mono {ℓ κ μ} :
    {Item : Type ℓ} (Holds : Item → Type κ) (Follows : Item → Type μ)
    (imply : (item : Item) → Holds item → Follows item) (items : List Item)
    → All Holds items
    → All Follows items
All-mono Holds Follows imply [] h = tt
All-mono Holds Follows imply (item ∷ items) (p, ps) =
    (imply item p, All-mono Holds Follows imply items ps)

pub among-All {κ} :
    {Item : Type 0} (Holds : Item → Type κ) (item : Item) (items : List Item)
    → All Holds items
    → Among item items
    → Holds item
among-All Holds item [] h a = absurd a
among-All Holds item (first ∷ items) (p, ps) (inl e) = subst Holds (sym e) p
among-All Holds item (first ∷ items) (p, ps) (inr a) = among-All Holds item items ps a

pub All-map :
    {E F : Type 0} (Holds : E → Type 0) (Follows : F → Type 0) (f : E → F)
    (imply : (x : E) → Holds x → Follows (f x)) (items : List E)
    → All Holds items
    → All Follows (map f items)
All-map Holds Follows f imply [] h = tt
All-map Holds Follows f imply (item ∷ items) (p, ps) =
    (imply item p, All-map Holds Follows f imply items ps)
