-- ===== src/Prelude/Lists.antt =====
-- Lists over the native numbers: the library's names, and what a table of rows needs.
use Prim.Native.Nat.{ℕ, zero, suc}
use mathlib.Core.Bool.{Bool, true}
use mathlib.Core.Path.{◌≡◌, ap}
use mathlib.Core.Logic.{inl, inr}
use mathlib.Core.Option
use mathlib.Core.Option.{Option, none, some}
use mathlib.Core.List.{List, [], ◌∷◌}
use gsb_salak_backend.Prelude.Tests.{if◌then◌else◌, Bool-cases}

module _ {ℓ} {A : Type ℓ} where
  abbrev pub length : List A → ℕ
  length [] = 0
  length (x ∷ xs) = suc (length xs)

  abbrev pub take : ℕ → List A → List A
  take zero xs = []
  take (suc n) [] = []
  take (suc n) (x ∷ xs) = x ∷ take n xs

  abbrev pub drop : ℕ → List A → List A
  drop zero xs = xs
  drop (suc n) [] = []
  drop (suc n) (x ∷ xs) = drop n xs

  -- The first row that passes a test.
  abbrev pub find : (A → Bool) → List A → Option A
  find p [] = none
  find p (x ∷ xs) = if p x then some x else find p xs

  -- All rows that pass a test, in order.
  abbrev pub select : (A → Bool) → List A → List A
  select p [] = []
  select p (x ∷ xs) = let rest = select p xs in if p x then x ∷ rest else rest

  -- The first row that passes a test is replaced.
  abbrev pub update : (A → Bool) → (A → A) → List A → List A
  update p f [] = []
  update p f (x ∷ xs) = if p x then f x ∷ xs else x ∷ update p f xs

  -- Insertion sort by a Boolean order, stable.
  abbrev pub insert_by : (A → A → Bool) → A → List A → List A
  insert_by le x [] = x ∷ []
  insert_by le x (y ∷ ys) = if le x y then x ∷ y ∷ ys else y ∷ insert_by le x ys

  abbrev pub sort_by : (A → A → Bool) → List A → List A
  sort_by le [] = []
  sort_by le (x ∷ xs) = insert_by le x (sort_by le xs)

-- The row that an update has replaced is the one that is found.
pub find-update {ℓ} :
    {A : Type ℓ} (p : A → Bool) (f : A → A)
    → ((x : A) → p x ≡ true → p (f x) ≡ true)
    → (xs : List A) (a : A) → find p xs ≡ some a
    → find p (update p f xs) ≡ some (f a)
find-update {A} p f keeps [] a found = cc
find-update {A} p f keeps (x ∷ xs) a found = elim (Bool-cases (p x)) [
  | inl here ↦
      let same : some x ≡ some a = rw here at found in
      rw here (rw (keeps x here) (ap {B = Option A} (Option.map f) same))
  | inr later ↦ rw later (rw later (find-update p f keeps xs a (rw later at found)))
]

-- A row that is found passes the test.
pub find-passes {ℓ} :
    {A : Type ℓ} (p : A → Bool) (xs : List A) (a : A) → find p xs ≡ some a → p a ≡ true
find-passes p [] a found = cc
find-passes p (x ∷ xs) a found = elim (Bool-cases (p x)) [
  | inl here ↦
      let same : some x ≡ some a = rw here at found in let same' : x ≡ a = cc in rw same' at here
  | inr later ↦ find-passes p xs a (rw later at found)
]
