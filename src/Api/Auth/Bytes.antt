-- ===== src/Api/Auth/Bytes.antt =====
-- The comparison in constant time is equality.
use Prim.Native.Nat.{bit_or, bit_xor, bit_or-bitwise, bit_xor-bitwise, digits, differ, max, ◌*◌}
use z8run.Base.{
  ℕ, zero, suc, ◌+◌, ◌/◌, ◌%◌, ◌≤◌, true, List, [], ◌∷◌, length, ◌≡◌, ◌↔◌, refl, sym, ap, ◌∙◌,
  arith,
}
use z8run.Api.Auth.{differences, ct_eq}

differ_zero : (x y : ℕ) → differ x y ≡ 0 → x ≡ y
differ_zero zero y e = sym e
differ_zero (suc x) zero e = e
differ_zero (suc x) (suc y) e = ap suc (differ_zero x y e)

-- Numbers whose digits do not differ are the same.
xor_digits : (n a b : ℕ) → a ≤ n → digits (λ d. d) differ n a b ≡ 0 → a ≡ b
xor_digits zero a b h e = let last : b ≡ 0 = e in omega arith
xor_digits (suc n) zero b h e = sym e
xor_digits (suc n) (suc a) b h e =
    let rest = digits (λ d. d) differ n (suc a / 2) (b / 2) in
    let digit = differ (suc a % 2) (b % 2) in
    let sum : rest * 2 + digit ≡ 0 = e in
    let none_left : rest ≡ 0 = omega arith in
    let same : digit ≡ 0 = omega arith in
    omega (
      arith,
      xor_digits n (suc a / 2) (b / 2) (omega arith) none_left,
      differ_zero (suc a % 2) (b % 2) same,
    )

max_zero : (x y : ℕ) → max x y ≡ 0 → (x ≡ 0) × (y ≡ 0)
max_zero x y e = (omega arith, omega arith)

or_digits : (n a b : ℕ) → a ≤ n → digits (λ d. d) max n a b ≡ 0 → (a ≡ 0) × (b ≡ 0)
or_digits zero a b h e = (omega arith, e)
or_digits (suc n) zero b h e = (refl, e)
or_digits (suc n) (suc a) b h e =
    let rest = digits (λ d. d) max n (suc a / 2) (b / 2) in
    let digit = max (suc a % 2) (b % 2) in
    let sum : rest * 2 + digit ≡ 0 = e in
    let none_left : rest ≡ 0 = omega arith in
    let same : digit ≡ 0 = omega arith in
    let (x, y) = or_digits n (suc a / 2) (b / 2) (omega arith) none_left in
    let (u, v) = max_zero (suc a % 2) (b % 2) same in (omega arith, omega arith)

xor_zero : (a b : ℕ) → bit_xor a b ≡ 0 → a ≡ b
xor_zero a b e = xor_digits a a b (omega arith) (sym (λ i. bit_xor-bitwise a b i) ∙ e)

or_zero : (a b : ℕ) → bit_or a b ≡ 0 → (a ≡ 0) × (b ≡ 0)
or_zero a b e = or_digits a a b (omega arith) (sym (λ i. bit_or-bitwise a b i) ∙ e)

differences_zero :
    (acc : ℕ) (a b : List ℕ) → length a ≡ length b → differences acc a b ≡ 0 → (acc ≡ 0) × (a ≡ b)
unfolding differences
differences_zero acc [] [] h e = (e, refl)
differences_zero acc [] (y ∷ b) h e = absurd (omega arith)
differences_zero acc (x ∷ a) [] h e = absurd (omega arith)
differences_zero acc (x ∷ a) (y ∷ b) h e =
    let (o, same) = differences_zero (bit_or acc (bit_xor x y)) a b (omega arith) e in
    let (z, d) = or_zero acc (bit_xor x y) o in (z, λ i. xor_zero x y d i ∷ same i)

differ_self : (x : ℕ) → differ x x ≡ 0
differ_self zero = refl
differ_self (suc x) = differ_self x

xor_same : (n a : ℕ) → a ≤ n → digits (λ d. d) differ n a a ≡ 0
xor_same zero a h = omega arith
xor_same (suc n) zero h = refl
xor_same (suc n) (suc a) h =
    let rest = xor_same n (suc a / 2) (omega arith) in
    let digit = differ_self (suc a % 2) in rw (rest, digit) refl

xor_self : (a : ℕ) → bit_xor a a ≡ 0
xor_self a = (λ i. bit_xor-bitwise a a i) ∙ xor_same a a (omega arith)

differences_self : (a : List ℕ) → differences 0 a a ≡ 0
unfolding differences
differences_self [] = refl
differences_self (x ∷ a) = rw (xor_self x) (differences_self a)

-- The comparison accepts just the texts that are the same.
pub ct_eq_iff : (a b : List ℕ) → (ct_eq a b ≡ true) ↔ (a ≡ b)
unfolding ct_eq
ct_eq_iff a b = (
  λ h.
      let len : length a ≡ length b = ground arith in
      let diff : differences 0 a b ≡ 0 = ground arith in (differences_zero 0 a b len diff).1,
  λ e. rw e (rw (differences_self b) (ground arith)),
)
