-- ===== src/Procedures/Decimal.antt =====
-- `str` of an identifier from a sequence, as it stands in `debtor.reservation_id`.
use Prim.Native.Char.{Char}
use Prim.Native.String.{◌∷◌}
use swpt_debtors.Prelude.{
  ℕ, zero, suc, ◌/◌, ◌%◌, ltb, String, Option, none, some, ◌==◌, nat_Eq, if◌then◌else◌,
}

unfoldable pub digit : ℕ → Char
digit n =
    if n == 0
    then "0"
    else if n == 1
    then "1"
    else if n == 2
    then "2"
    else if n == 3
    then "3"
    else if n == 4
    then "4"
    else if n == 5
    then "5"
    else if n == 6
    then "6"
    else if n == 7
    then "7"
    else if n == 8
    then "8"
    else "9"

-- The digits of `n` in front of `text`; a number below the fuel has fewer digits than it.
unfoldable pub decimal : ℕ → ℕ → String → String
unfolding digit
decimal zero n text = text
decimal (suc fuel) n text =
    let rest = decimal fuel (n / 10) (digit (n % 10) ∷ text) in
    if ltb n 10 then digit n ∷ text else rest

-- `str(reservation_id)`; a row older than the column has no identifier.
unfoldable pub str_of_id : Option ℕ → String
unfolding decimal
str_of_id none = "None"
str_of_id (some n) = decimal (suc n) n ""
