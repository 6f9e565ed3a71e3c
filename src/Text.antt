-- ===== src/Text.antt =====
-- Texts as lists of code points, as the f-strings of the source build them.
use Prim.Native.Char.{code}
use impostarr.Prelude.{
  ℕ, zero, suc, ◌+◌, ◌/◌, ◌%◌, ◌<◌, String, ◌≡◌, refl, Bool, List, [], ◌∷◌, ◌++◌, arith, ltb, ◌==◌,
  ◌&&◌, true, false, if◌then◌else◌,
}

-- The code points of a text.
unfoldable pub codes : String → List ℕ
codes String.[] = []
codes (String.◌∷◌ c s) = code c ∷ codes s

-- `str(n)`, in front of `rest`; a number has no more digits than its successor says.
unfoldable pub decimal : ℕ → ℕ → List ℕ → List ℕ
decimal zero n rest = rest
decimal (suc fuel) n rest =
    let digit = 48 + n % 10 in
    let more = decimal fuel (n / 10) (digit ∷ rest) in if ltb n 10 then digit ∷ rest else more

-- More fuel than `n + 1` changes nothing.
decimal_enough :
    (fuel n : ℕ) (rest : List ℕ) → n < fuel → decimal fuel n rest ≡ decimal (suc fuel) n rest
unfolding decimal
decimal_enough zero n rest h = elim h [ ]
decimal_enough (suc fuel) n rest h =
    ground (arith, decimal_enough fuel (n / 10) ((48 + n % 10) ∷ rest))

-- `sep.join(...)`, for a separator of one character.
unfoldable pub join_with : ℕ → List (List ℕ) → List ℕ
join_with sep [] = []
join_with sep (x ∷ []) = x
join_with sep (x ∷ y ∷ ys) = x ++ sep ∷ join_with sep (y ∷ ys)

abbrev comma : ℕ
comma = 44

unfoldable pub join_comma : List (List ℕ) → List ℕ
unfolding join_with
join_comma = join_with comma

-- `f"{n:02d}"`
unfoldable pub pad2 : ℕ → List ℕ
unfolding decimal
pad2 n = if ltb n 10 then 48 ∷ decimal (suc n) n [] else decimal (suc n) n []

unfoldable pub same_codes : List ℕ → List ℕ → Bool
same_codes [] [] = true
same_codes (x ∷ xs) (y ∷ ys) = x == y && same_codes xs ys
same_codes _ _ = false

pub same_codes-eq : (x y : List ℕ) → same_codes x y ≡ true → x ≡ y
unfolding same_codes
same_codes-eq [] [] h = refl
same_codes-eq [] (y ∷ ys) h = ground arith
same_codes-eq (x ∷ xs) [] h = ground arith
same_codes-eq (x ∷ xs) (y ∷ ys) h = ground (arith, same_codes-eq xs ys)
