-- ===== src/RefSubs/Imdb.antt =====
-- src/impostarr/refsubs.py: ids of IMDb as texts and as numbers.
use impostarr.Prelude.{
  ℕ, zero, suc, ◌+◌, ◌/◌, ◌%◌, ◌<◌, ◌≡◌, refl, true, some, List, [], ◌∷◌, arith, ltb, all,
  Bool-cases, inl, inr, ap, ◌∙◌,
}
use impostarr.Text.{decimal}
use impostarr.RefSubs.Fetch.{remove_tt, is_digit, digits_only, read_int, numeric_imdb_id}

-- Reading the digits of a number goes on from the number.
read_int-decimal :
    (fuel n : ℕ) (rest : List ℕ) → n < fuel → read_int 0 (decimal fuel n rest) ≡ read_int n rest
unfolding decimal read_int
read_int-decimal zero n rest h = absurd (omega arith)
read_int-decimal (suc fuel) n rest h = elim (Bool-cases (ltb n 10)) [
  | inl e ↦ rw e (ap (λ k. read_int k rest) (ground arith))
  | inr e ↦ rw e (
      read_int-decimal fuel (n / 10) ((48 + n % 10) ∷ rest) (ground arith)
      ∙ ap (λ k. read_int k rest) (omega arith))
]

digits_only-decimal :
    (fuel n : ℕ) (rest : List ℕ)
    → n < fuel
    → all is_digit rest ≡ true
    → digits_only (decimal fuel n rest) ≡ true
unfolding decimal
digits_only-decimal zero n rest h d = absurd (omega arith)
digits_only-decimal (suc fuel) n rest h d = elim (Bool-cases (ltb n 10)) [
  | inl e ↦ rw e (ground arith)
  | inr e ↦
      rw e (digits_only-decimal fuel (n / 10) ((48 + n % 10) ∷ rest) (ground arith) (ground arith))
]

-- Digits do not begin with "tt".
remove_tt-digits : (text : List ℕ) → digits_only text ≡ true → remove_tt text ≡ text
remove_tt-digits [] h = refl
remove_tt-digits (t ∷ []) h = refl
remove_tt-digits (t ∷ u ∷ rest) h = ground arith

-- `str(n)`
abbrev pub printed : ℕ → List ℕ
printed n = decimal (suc n) n []

-- A number that is printed as an id of IMDb, with "tt" in front or without, is read back.
pub numeric_imdb_id-printed :
    (n : ℕ)
    → (numeric_imdb_id (some (116 ∷ 116 ∷ printed n)) ≡ some n)
      × (numeric_imdb_id (some (printed n)) ≡ some n)
unfolding numeric_imdb_id
numeric_imdb_id-printed n =
    let digits = digits_only-decimal (suc n) n [] (omega arith) refl in
    let value = read_int-decimal (suc n) n [] (omega arith) in
    (
      rw (digits, value) (unfold read_int in refl),
      rw (remove_tt-digits (printed n) digits, digits, value) (unfold read_int in refl),
    )
