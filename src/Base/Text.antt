-- ===== src/Base/Text.antt =====
-- Texts as lists of code points, and the conversions of `printf` that the source uses.
use Prim.Native.Char.{code}
use Prim.Native.String.{String}
use Prim.Native.Nat.{ℕ, zero, suc, ◌+◌, ◌-◌, ◌*◌, ◌/◌, ◌%◌, ◌^◌, ◌≤◌, ◌<◌}
use mathlib.Core.Path.{◌≡◌, ap, ◌∙◌}
use mathlib.Core.Bool.{Bool, true, false, ◌&&◌}
use mathlib.Core.List.{List, [], ◌∷◌, ◌++◌}
use native.Mathlib.Nat.{pow-succ'}
use native.Mathlib.Omega.{arith}
use dplane_plugin.Base.Tests.{◌==◌, if◌then◌else◌, Bool-cases}
use dplane_plugin.Base.Lists.{length, take, replicate, length-append}
use mathlib.Core.Logic.{inl, inr}

abbrev pub text : String → List ℕ
text String.[] = []
text (String.◌∷◌ c s) = code c ∷ text s

-- `strcmp(a, b) == 0`
pub text_eq : List ℕ → List ℕ → Bool
text_eq [] [] = true
text_eq (a ∷ as') (b ∷ bs) = a == b && text_eq as' bs
text_eq _ _ = false

-- The digits of a number in front of `rest`; a 64-bit number has 20 at most.
unfoldable pub digits : ℕ → ℕ → List ℕ → List ℕ
digits zero n rest = rest
digits (suc f) n rest =
    let out = (48 + n % 10) ∷ rest in
    let more = digits f (n / 10) out in if n / 10 == 0 then out else more

-- `%llu`
unfoldable pub decimal : ℕ → List ℕ
decimal n = digits 20 n []

-- `%ws` and `%-ws`: padding with blanks to the left, and to the right.
abbrev pub right : ℕ → List ℕ → List ℕ
right w s = replicate (w - length s) 32 ++ s

abbrev pub left : ℕ → List ℕ → List ℕ
left w s = s ++ replicate (w - length s) 32

-- `%w.ws`: at most the first w characters.
abbrev pub fit_right : ℕ → List ℕ → List ℕ
fit_right w s = right w (take w s)

abbrev pub fit_left : ℕ → List ℕ → List ℕ
fit_left w s = left w (take w s)

pub length-replicate : (n c : ℕ) → length (replicate n c) ≡ n
length-replicate zero c = omega arith
length-replicate (suc n) c = omega (arith, length-replicate n c)

pub length-take_le : (n : ℕ) (s : List ℕ) → length (take n s) ≤ n
length-take_le zero s = omega arith
length-take_le (suc n) [] = omega arith
length-take_le (suc n) (c ∷ s) = omega (arith, length-take_le n s)

pub length-right : (w : ℕ) (s : List ℕ) → length s ≤ w → length (right w s) ≡ w
length-right w s h =
    omega
      (arith, h, length-append (replicate (w - length s) 32) s, length-replicate (w - length s) 32)

pub length-left : (w : ℕ) (s : List ℕ) → length s ≤ w → length (left w s) ≡ w
length-left w s h =
    omega
      (arith, h, length-append s (replicate (w - length s) 32), length-replicate (w - length s) 32)

ten_pow : (d : ℕ) → 10 ^ suc d ≡ 10 * 10 ^ d
ten_pow d = pow-succ' 10 d

-- A number below 10 ^ d has d digits at most, d being at least 1.
pub length-digits :
    (f d n : ℕ) (rest : List ℕ) → n < 10 ^ suc d → length (digits f n rest) ≤ suc d + length rest
unfolding digits
length-digits zero d n rest h = omega arith
length-digits (suc f) zero n rest h = ground (arith, h)
length-digits (suc f) (suc d) n rest h = elim (Bool-cases (n / 10 == 0)) [
  | inl last ↦ rw last (omega arith)
  | inr more ↦ rw more (
      omega (
        arith,
        length-digits f d (n / 10) ((48 + n % 10) ∷ rest) (omega (arith, h, ten_pow (suc d))),
      ))
]

-- What the digits say, behind a number that was read already.
abbrev pub value : ℕ → List ℕ → ℕ
value n [] = n
value n (c ∷ cs) = value (n * 10 + (c - 48)) cs

value-digits : (f n : ℕ) (rest : List ℕ) → n < 10 ^ f → value 0 (digits f n rest) ≡ value n rest
unfolding digits
value-digits zero n rest h = ap (λ m. value m rest) (omega (arith, h))
value-digits (suc f) n rest h = elim (Bool-cases (n / 10 == 0)) [
  | inl last ↦ rw last (ap (λ m. value m rest) (ground (arith, last)))
  | inr more ↦ rw more (
      value-digits f (n / 10) ((48 + n % 10) ∷ rest) (omega (arith, h, ten_pow f))
      ∙ ap (λ m. value m rest) (omega arith))
]

-- A number of 64 bits is printed whole.
pub value-decimal : (n : ℕ) → n < 2 ^ 64 → value 0 (decimal n) ≡ n
unfolding decimal
value-decimal n h = value-digits 20 n [] (omega (arith, h))
