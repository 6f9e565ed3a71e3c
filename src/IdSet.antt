-- ===== src/IdSet.antt =====
-- Python's sets of episode ids, `set[int]` and `frozenset[int]`: strictly increasing lists, so that
-- two sets with the same elements are equal.
use impostarr.Prelude.{
  ℕ, ◌≤◌, ◌<◌, ◌≡◌, refl, inl, inr, Bool, true, false, ◌&&◌, ◌||◌, List, [], ◌∷◌, arith, ltb, ◌==◌,
  if◌then◌else◌, Bool-cases, any,
}

abbrev pub IdSet : Type 0
IdSet = List ℕ

-- `s.add(n)`
unfoldable pub add : ℕ → IdSet → IdSet
add n [] = n ∷ []
add n (x ∷ xs) =
    let rest = add n xs in if ltb n x then n ∷ x ∷ xs else if n == x then x ∷ xs else x ∷ rest

-- `frozenset(l)`
unfoldable pub of_list : List ℕ → IdSet
of_list [] = []
of_list (x ∷ xs) = add x (of_list xs)

-- `n in s`
abbrev pub member : ℕ → List ℕ → Bool
member n s = any (λ x. x == n) s

abbrev pub same : IdSet → IdSet → Bool
same [] [] = true
same (x ∷ xs) (y ∷ ys) = x == y && same xs ys
same _ _ = false

pub same-eq : (s t : IdSet) → same s t ≡ true → s ≡ t
same-eq [] [] h = refl
same-eq [] (y ∷ ys) h = ground arith
same-eq (x ∷ xs) [] h = ground arith
same-eq (x ∷ xs) (y ∷ ys) h = ground (arith, same-eq xs ys)

pub same_refl : (s : IdSet) → same s s ≡ true
same_refl [] = refl
same_refl (x ∷ xs) = ground (arith, same_refl xs)

pub member-add : (m n : ℕ) (s : IdSet) → member m (add n s) ≡ (n == m || member m s)
unfolding add
member-add m n [] = ground arith
member-add m n (x ∷ xs) = ground (arith, member-add m n xs)

pub member-of_list : (m : ℕ) (l : List ℕ) → member m (of_list l) ≡ member m l
unfolding of_list
member-of_list m [] = refl
member-of_list m (x ∷ xs) = ground (arith, member-add m x (of_list xs), member-of_list m xs)

-- Every element is above `n`, and they increase.
abbrev pub Above : ℕ → IdSet → Type 0
Above n [] = Unit
Above n (x ∷ xs) = (n < x) × Above x xs

abbrev pub IsIncreasing : IdSet → Type 0
IsIncreasing [] = Unit
IsIncreasing (x ∷ xs) = Above x xs

add-Above : (n m : ℕ) (s : IdSet) → m < n → Above m s → Above m (add n s)
unfolding add
add-Above n m [] h a = (h, tt)
add-Above n m (x ∷ xs) h a = ground (arith, add-Above n x xs)

pub add-IsIncreasing : (n : ℕ) (s : IdSet) → IsIncreasing s → IsIncreasing (add n s)
unfolding add
add-IsIncreasing n [] h = tt
add-IsIncreasing n (x ∷ xs) h = ground (arith, add-Above n x xs)

pub of_list-IsIncreasing : (l : List ℕ) → IsIncreasing (of_list l)
unfolding of_list
of_list-IsIncreasing [] = tt
of_list-IsIncreasing (x ∷ xs) = add-IsIncreasing x (of_list xs) (of_list-IsIncreasing xs)

below_none : (n x : ℕ) (s : IdSet) → n ≤ x → Above x s → member n s ≡ false
below_none n x [] h a = refl
below_none n x (y ∷ ys) h a = ground (arith, below_none n y ys)

tail-IsIncreasing : (x : ℕ) (s : IdSet) → Above x s → IsIncreasing s
tail-IsIncreasing x [] a = tt
tail-IsIncreasing x (y ∷ ys) a = a.1

tails_agree :
    (x n : ℕ) (s t : IdSet)
    → Above x s
    → Above x t
    → member n (x ∷ s) ≡ member n (x ∷ t)
    → member n s ≡ member n t
tails_agree x n s t a b h = elim (Bool-cases (x == n)) [
  | inl e ↦ ground (arith, below_none n x s, below_none n x t)
  | inr e ↦ ground arith
]

-- Two increasing lists with the same elements are equal.
pub increasing_ext :
    (s t : IdSet) → IsIncreasing s → IsIncreasing t → ((n : ℕ) → member n s ≡ member n t) → s ≡ t
increasing_ext [] [] a b h = refl
increasing_ext [] (y ∷ ys) a b h = ground (arith, h y)
increasing_ext (x ∷ xs) [] a b h = ground (arith, h x)
increasing_ext (x ∷ xs) (y ∷ ys) a b h = elim (Bool-cases (x == y)) [
  | inl e ↦
      let p : x ≡ y = ground arith in
      let b' : Above x ys = rw p b in
      let heads : (n : ℕ) → member n (x ∷ xs) ≡ member n (x ∷ ys) = λ n. rw p (rw p at (h n)) in
      rw (
        p,
        increasing_ext xs ys (tail-IsIncreasing x xs a) (tail-IsIncreasing x ys b')
            (λ n. tails_agree x n xs ys a b' (heads n)),
      )
  | inr e ↦ ground (arith, h x, h y, below_none x y ys, below_none y x xs)
]
