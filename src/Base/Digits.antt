-- ===== src/Base/Digits.antt =====
-- JavaScript's decimal text of whole numbers: `toString`, `BigInt(text)`, `padStart` and `padEnd`.
use Prim.Native.Nat.{ℕ, zero, suc, ◌+◌, ◌-◌, ◌*◌, ◌/◌, ◌%◌, ◌^◌, ◌<◌}
use mathlib.Core.Path.{◌≡◌, refl}
use mathlib.Core.Bool.{Bool, true, ◌&&◌}
use mathlib.Core.List.{[], ◌∷◌, ◌++◌}
use mathlib.Core.Logic.{inl, inr}
use native.Mathlib.Omega.{arith}
use amc_system.Base.Tests.{leb, ltb, if◌then◌else◌, Bool-cases}
use amc_system.Base.Lists.{length, push, replicate, All, All-append}
use amc_system.Base.Text.{Text}

-- `\d`
abbrev pub is_digit : ℕ → Bool
is_digit c = leb 48 c && leb c 57

abbrev pub IsDigit : ℕ → Type 0
IsDigit c = is_digit c ≡ true

-- `n.toString()`, with room for `suc more` digits.
unfoldable pub decimal : ℕ → ℕ → Text
decimal zero n = (48 + n % 10) ∷ []
decimal (suc more) n =
    let front = decimal more (n / 10) in
    if ltb n 10 then (48 + n) ∷ [] else push front (48 + n % 10)

-- The number that digits stand for, behind what was read.
abbrev value_from : ℕ → Text → ℕ
value_from read [] = read
value_from read (c ∷ s) = value_from (read * 10 + (c - 48)) s

-- `BigInt(text)`, of a row of digits.
abbrev pub value : Text → ℕ
value s = value_from 0 s

-- `text.padStart(n, '0')`
abbrev pub pad_start : ℕ → Text → Text
pad_start n s = replicate (n - length s) 48 ++ s

-- `text.padEnd(n, '0')`
abbrev pub pad_end : ℕ → Text → Text
pad_end n s = s ++ replicate (n - length s) 48

value_from-push :
    (read : ℕ) (s : Text) (c : ℕ) → value_from read (push s c) ≡ value_from read s * 10 + (c - 48)
value_from-push read [] c = refl
value_from-push read (d ∷ s) c = value_from-push (read * 10 + (d - 48)) s c

value-zeros : (n : ℕ) (s : Text) → value (replicate n 48 ++ s) ≡ value s
value-zeros zero s = refl
value-zeros (suc n) s = value-zeros n s

-- Noughts in front change no number.
pub value-pad_start : (n : ℕ) (s : Text) → value (pad_start n s) ≡ value s
value-pad_start n s = value-zeros (n - length s) s

pub value-decimal : (more n : ℕ) → n < 10 ^ suc more → value (decimal more n) ≡ n
unfolding decimal
value-decimal zero n h = omega arith
value-decimal (suc more) n h = elim (Bool-cases (ltb n 10)) [
  | inl small ↦ rw small (omega arith)
  | inr large ↦ rw (large, value_from-push, value-decimal more (n / 10) (omega arith)) (omega arith)
]

pub decimal-IsDigit : (more n : ℕ) → All IsDigit (decimal more n)
unfolding decimal
decimal-IsDigit zero n = (ground arith, tt)
decimal-IsDigit (suc more) n = elim (Bool-cases (ltb n 10)) [
  | inl small ↦ rw small (ground arith, tt)
  | inr large ↦ rw large (
      All-append IsDigit (decimal more (n / 10)) _ (decimal-IsDigit more (n / 10))
        (ground arith, tt))
]
