-- ===== src/Text.antt =====
-- Texts as lists of the codes of their characters, and numbers in decimal, as Rust's `Display` prints
-- them.
use Prim.Native.Char.{code}
use Prim.Native.String.{[] as end_of_text, ◌∷◌ as ◌then◌}
use js_sidecar.Prelude.{
  ℕ, zero, suc, ◌+◌, ◌-◌, ◌*◌, ◌/◌, ◌%◌, ◌≤◌, ◌<◌, ◌≡◌, refl, sym, ap, ◌∙◌, String, List, [], ◌∷◌,
  ◌++◌, All, All-append, length, length-append, ltb, if◌then◌else◌, arith, Bool-cases, inl, inr,
  ltb→lt, ltb_false→le,
}

abbrev pub text : String → List ℕ
text end_of_text = []
text (c then s) = code c ∷ text s

-- The digits of a number, which is below `10 ^ fuel`.
unfoldable pub decimal_on : ℕ → ℕ → List ℕ
decimal_on zero n = []
decimal_on (suc fuel) n =
    let front = decimal_on fuel (n / 10) in (if ltb n 10 then [] else front) ++ (48 + n % 10) ∷ []

unfoldable pub decimal : ℕ → List ℕ
decimal n = decimal_on (suc n) n

-- The number that digits stand for, behind those read so far.
unfoldable pub value : ℕ → List ℕ → ℕ
value n [] = n
value n (c ∷ cs) = value (n * 10 + (c - 48)) cs

value-append : (n : ℕ) (cs ds : List ℕ) → value n (cs ++ ds) ≡ value (value n cs) ds
unfolding value
value-append n [] ds = refl
value-append n (c ∷ cs) ds = value-append (n * 10 + (c - 48)) cs ds

value-decimal_on : (fuel n : ℕ) → n < fuel → value 0 (decimal_on fuel n) ≡ n
unfolding decimal_on value
value-decimal_on zero n h = elim h [ ]
value-decimal_on (suc fuel) n h = elim (Bool-cases (ltb n 10)) [
  | inl e ↦ rw e (omega (arith, ltb→lt n 10 e))
  | inr e ↦
      rw
        (
          e,
          value-append 0 (decimal_on fuel (n / 10)),
          value-decimal_on fuel (n / 10) (omega (arith, ltb_false→le n 10 e)),
        )
        (omega arith)
]

pub value-decimal : (n : ℕ) → value 0 (decimal n) ≡ n
unfolding decimal
value-decimal n = value-decimal_on (suc n) n (omega arith)

-- A number has a digit.
pub decimal_nonempty : (n : ℕ) → 0 < length (decimal n)
unfolding decimal decimal_on
decimal_nonempty n =
    let front = if ltb n 10 then [] else decimal_on n (n / 10) in
    omega (arith, length-append front ((48 + n % 10) ∷ []))

-- No two numbers have the same digits.
pub decimal-injective : (m n : ℕ) → decimal m ≡ decimal n → m ≡ n
decimal-injective m n e = sym (value-decimal m) ∙ ap (value 0) e ∙ value-decimal n

abbrev pub IsDigit : ℕ → Type 0
IsDigit c = (48 ≤ c) × (c < 58)

decimal_on-IsDigit : (fuel n : ℕ) → All IsDigit (decimal_on fuel n)
unfolding decimal_on
decimal_on-IsDigit zero n = tt
decimal_on-IsDigit (suc fuel) n = elim (Bool-cases (ltb n 10)) [
  | inl e ↦ rw e (omega arith)
  | inr e ↦ rw e (
      All-append IsDigit (decimal_on fuel (n / 10)) _ (decimal_on-IsDigit fuel (n / 10))
        (omega arith))
]

pub decimal-IsDigit : (n : ℕ) → All IsDigit (decimal n)
unfolding decimal
decimal-IsDigit n = decimal_on-IsDigit (suc n) n

head : {x y : ℕ} {xs ys : List ℕ} → x ∷ xs ≡ y ∷ ys → x ≡ y
head e = cc e

-- Digits end where another character follows.
pub digits-end :
    (xs ys : List ℕ) (c : ℕ) (us vs : List ℕ)
    → All IsDigit xs
    → All IsDigit ys
    → c < 48
    → xs ++ c ∷ us ≡ ys ++ c ∷ vs
    → (xs ≡ ys) × (us ≡ vs)
digits-end [] [] c us vs p q h e = (refl, cc e)
digits-end [] (y ∷ ys) c us vs p q h e = absurd (omega (arith, head e))
digits-end (x ∷ xs) [] c us vs p q h e = absurd (omega (arith, head e))
digits-end (x ∷ xs) (y ∷ ys) c us vs p q h e =
    let (same, rest) = digits-end xs ys c us vs p.1 q.1 h (cc e) in (cc (same, head e), rest)
