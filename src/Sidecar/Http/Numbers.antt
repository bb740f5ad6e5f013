-- ===== src/Sidecar/Http/Numbers.antt =====
-- Numbers printed by `strconv.Itoa` and read by `strconv.ParseInt(raw, 10, 32)`.
use Prim.Native.Char.{Char, code}
use rate_cap.Prelude.{
  ℕ, zero, suc, ◌+◌, ◌*◌, ◌-◌, ◌/◌, ◌%◌, ◌^◌, ◌≤◌, ◌<◌, String, none, some, Option, ◌≡◌, refl, ap,
  ◌∙◌, ltb, eqb, false, if◌then◌else◌, ◌&&◌, ◌==◌, eq_iff, Bool-cases, inl, inr, arith,
}
use rate_cap.Prelude.Int.{ℤ, pos, negsuc, leb_ℤ}
use rate_cap.Prelude.Itoa.{itoa, format_digits, digit, code-digit}
use rate_cap.Sidecar.Http.{parse_digits, parse_unsigned, negated, plain, parse_int, parse_int32}

parse_digits-digit :
    (a d : ℕ) (acc : String)
    → d < 10
    → parse_digits a (String.◌∷◌ (digit d) acc) ≡ parse_digits (a * 10 + d) acc
unfolding parse_digits
parse_digits-digit a d acc h =
    let e : code (digit d) - 48 ≡ d = omega (arith, code-digit d h) in
    rw (e) (ground (arith, code-digit d h))

parse_digits-format_digits :
    (fuel n : ℕ) (acc : String)
    → n < fuel
    → parse_digits 0 (format_digits fuel n acc) ≡ parse_digits n acc
unfolding format_digits
parse_digits-format_digits zero n acc h = absurd (omega arith)
parse_digits-format_digits (suc fuel) n acc h = elim (Bool-cases (ltb n 10)) [
  | inl e ↦
      rw e (parse_digits-digit 0 n acc (ground arith) ∙ ap (λ k. parse_digits k acc) (omega arith))
  | inr e ↦ rw e (
      parse_digits-format_digits fuel (n / 10) (String.◌∷◌ (digit (n % 10)) acc) (ground arith)
      ∙ parse_digits-digit (n / 10) (n % 10) acc (omega arith)
      ∙ ap (λ k. parse_digits k acc) (omega arith))
]

-- The text begins with a digit.
abbrev StartsDigit : String → Type 0
StartsDigit String.[] = ⊥
StartsDigit (String.◌∷◌ c s) = 48 ≤ code c

format_digits-StartsDigit :
    (fuel n : ℕ) (acc : String) → n < fuel → StartsDigit (format_digits fuel n acc)
unfolding format_digits
format_digits-StartsDigit zero n acc h = absurd (omega arith)
format_digits-StartsDigit (suc fuel) n acc h = elim (Bool-cases (ltb n 10)) [
  | inl e ↦ rw e (let lt : n < 10 = ground arith in omega (arith, code-digit n lt))
  | inr e ↦
      rw e
        (format_digits-StartsDigit fuel (n / 10) (String.◌∷◌ (digit (n % 10)) acc) (ground arith))
]

cons-ne-empty : (c : Char) (s : String) → (String.◌∷◌ c s == "") ≡ false
cons-ne-empty c s = elim (Bool-cases (String.◌∷◌ c s == "")) [
  | inl e ↦ let same = (eq_iff (String.◌∷◌ c s) "").0 e in absurd (cc)
  | inr e ↦ e
]

parse_unsigned-StartsDigit : (s : String) → StartsDigit s → parse_unsigned s ≡ parse_digits 0 s
unfolding parse_unsigned
parse_unsigned-StartsDigit String.[] d = absurd d
parse_unsigned-StartsDigit (String.◌∷◌ c s) d = rw (cons-ne-empty c s)

parse_int32-StartsDigit :
    (s : String) → StartsDigit s → parse_int32 s ≡ plain (2 ^ 31) (parse_digits 0 s)
unfolding parse_int32
parse_int32-StartsDigit String.[] d = absurd d
parse_int32-StartsDigit (String.◌∷◌ c s) d =
    let minus : eqb (code c) 45 ≡ false = ground arith in
    let plus : eqb (code c) 43 ≡ false = ground arith in
    rw (minus, plus) (ap (plain (2 ^ 31)) (parse_unsigned-StartsDigit (String.◌∷◌ c s) d))

parse_int32-minus :
    (s : String) → parse_int32 (String.◌∷◌ "-" s) ≡ negated (2 ^ 31) (parse_unsigned s)
unfolding parse_int32
parse_int32-minus s = refl

parse_digits-itoa : (n : ℕ) → parse_digits 0 (format_digits (suc n) n "") ≡ some n
parse_digits-itoa n =
    parse_digits-format_digits (suc n) n "" (omega arith) ∙ (unfold parse_digits in refl)

-- What is printed is read back, exactly if it is an int32.
pub parse_int32-itoa :
    (x : ℤ)
    → parse_int32 (itoa x)
      ≡ (if leb_ℤ (negsuc (2 ^ 31 - 1)) x && leb_ℤ x (pos (2 ^ 31 - 1)) then some x else none)
unfolding itoa
parse_int32-itoa (pos n) =
    parse_int32-StartsDigit (format_digits (suc n) n "")
      (format_digits-StartsDigit (suc n) n "" (omega arith))
    ∙ ap (plain (2 ^ 31)) (parse_digits-itoa n)
    ∙ (unfold plain in ground arith)
parse_int32-itoa (negsuc n) =
    let text = format_digits (suc (suc n)) (suc n) "" in
    parse_int32-minus text
    ∙ ap (negated (2 ^ 31)) (
        parse_unsigned-StartsDigit text
          (format_digits-StartsDigit (suc (suc n)) (suc n) "" (omega arith)))
    ∙ ap (negated (2 ^ 31)) (parse_digits-itoa (suc n))
    ∙ (unfold negated in ground arith)

-- What fits the range with this half.
abbrev pub Fits : ℕ → Option ℤ → Type 0
Fits half none = Unit {0}
Fits half (some (pos n)) = n < half
Fits half (some (negsuc n)) = n < half

negated-Fits : (half : ℕ) (o : Option ℕ) → 0 < half → Fits half (negated half o)
unfolding negated
negated-Fits half none h = tt
negated-Fits half (some zero) h = ground arith
negated-Fits half (some (suc n)) h = ground arith

plain-Fits : (half : ℕ) (o : Option ℕ) → Fits half (plain half o)
unfolding plain
plain-Fits half none = tt
plain-Fits half (some n) = ground arith

pub parse_int-Fits : (half : ℕ) (raw : String) → 0 < half → Fits half (parse_int half raw)
unfolding parse_int
parse_int-Fits half String.[] h = tt
parse_int-Fits half (String.◌∷◌ c s) h = ground (
  arith,
  negated-Fits half (parse_unsigned s) h,
  plain-Fits half (parse_unsigned s),
  plain-Fits half (parse_unsigned (String.◌∷◌ c s)),
)
