-- ===== src/Prelude/Decimal.antt =====
-- Decimal numerals as `fmt`'s `%d` and `strconv` print them, and that they determine the number.
use tgdownloader.Prelude.{
  ℕ, zero, suc, ◌+◌, ◌-◌, ◌*◌, ◌/◌, ◌%◌, ◌<◌, ◌≡◌, refl, ap, sym, ◌∙◌, [], ◌∷◌, ◌++◌, Text, arith,
  ltb, if◌then◌else◌,
}

-- With more fuel than digits, which `n + 1` is, the fuel does not show.
digits : ℕ → ℕ → Text
digits zero n = []
digits (suc fuel) n =
    let front = digits fuel (n / 10) in
    if ltb n 10 then (48 + n) ∷ [] else front ++ (48 + n % 10) ∷ []

unfoldable pub decimal : ℕ → Text
unfolding digits
decimal n = digits (suc n) n

value_from : ℕ → Text → ℕ
value_from acc [] = acc
value_from acc (c ∷ cs) = value_from (acc * 10 + (c - 48)) cs

value_from-append :
    (acc c : ℕ) (s : Text) → value_from acc (s ++ c ∷ []) ≡ value_from acc s * 10 + (c - 48)
unfolding value_from
value_from-append acc c [] = refl
value_from-append acc c (d ∷ s) = value_from-append (acc * 10 + (d - 48)) c s

value_from-digit : (n : ℕ) → value_from 0 ((48 + n) ∷ []) ≡ n
unfolding value_from
value_from-digit n = omega arith

value_from-digits : (fuel n : ℕ) → n < fuel → value_from 0 (digits fuel n) ≡ n
unfolding digits
value_from-digits zero n h = absurd (omega arith)
value_from-digits (suc fuel) n h = ground (
  arith,
  value_from-digit n,
  value_from-append 0 (48 + n % 10) (digits fuel (n / 10)),
  value_from-digits fuel (n / 10),
)

-- Different numbers have different numerals.
pub decimal_inj : (n m : ℕ) → decimal n ≡ decimal m → n ≡ m
unfolding decimal
decimal_inj n m e =
    sym (value_from-digits (suc n) n (omega arith))
    ∙ ap (value_from 0) e
    ∙ value_from-digits (suc m) m (omega arith)
