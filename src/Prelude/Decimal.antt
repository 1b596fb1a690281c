-- ===== src/Prelude/Decimal.antt =====
-- Python's `str` and `int` of decimal numbers. Of what `int` reads, the digits and the spaces that
-- are not ASCII are left out, and with them the limit on the number of digits.
use Prim.Native.Nat.{ℕ, zero, suc, ◌+◌, ◌-◌, ◌*◌, ◌/◌, ◌%◌, ◌<◌}
use Prim.Native.Char.{Char, code}
use Prim.Native.String.{String, [], ◌∷◌, char_at}
use mathlib.Core.Path.{◌≡◌, refl, sym, ap, ◌∙◌}
use mathlib.Core.Logic.{inl, inr}
use mathlib.Core.Bool.{Bool, true, false, ◌&&◌, ◌||◌}
use mathlib.Core.Option.{Option, none, some}
use native.Mathlib.Omega.{arith}
use infra_twin.Prelude.Tests.{ltb, leb, ◌==◌, if◌then◌else◌, Bool-cases}
use infra_twin.Prelude.Ints.{ℤ, pos, negsuc}

-- the character of a digit
unfoldable digit_char : ℕ → Char
digit_char n = char_at "0123456789" n

-- The digits of a number before a text; a number below the fuel is printed whole.
unfoldable emit : ℕ → ℕ → String → String
unfolding digit_char
emit zero n out = out
emit (suc fuel) n out = elim (ltb n 10) [
  | true ↦ digit_char n ∷ out
  | false ↦ emit fuel (n / 10) (digit_char (n % 10) ∷ out)
]

-- `str(n)`
unfoldable pub to_decimal : ℕ → String
unfolding emit
to_decimal n = emit (suc n) n []

abbrev is_digit : Char → Bool
is_digit c = leb b'0' (code c) && leb (code c) b'9'

abbrev is_space : Char → Bool
is_space c = leb 9 (code c) && leb (code c) 13 || leb 28 (code c) && leb (code c) 32

unfoldable all_spaces : String → Bool
all_spaces [] = true
all_spaces (c ∷ s) = is_space c && all_spaces s

-- Digits with single underscores between them, and spaces at the end. The test says whether a digit
-- was just read.
unfoldable scan : Bool → ℕ → String → Option ℕ
unfolding all_spaces
scan after_digit n [] = if after_digit then some n else none
scan after_digit n (c ∷ s) =
    let digit = scan true (n * 10 + (code c - b'0')) s in
    let next = scan false n s in
    if is_digit c
    then digit
    else (if after_digit && code c == b'_'
        then next
        else (if after_digit && is_space c && all_spaces s then some n else none))

abbrev negated : ℕ → ℤ
negated zero = pos 0
negated (suc n) = negsuc n

abbrev read_with {ℓ} : {A : Type ℓ} → (ℕ → A) → Option ℕ → Option A
read_with f none = none
read_with f (some n) = some (f n)

-- `int(text)`; `none` is the `ValueError` of a text that is no integer.
unfoldable pub read_int : String → Option ℤ
unfolding scan
read_int [] = none
read_int (c ∷ s) =
    let rest = read_int s in
    if is_space c
    then rest
    else (if code c == b'-'
        then read_with negated (scan false 0 s)
        else read_with pos (if code c == b'+' then scan false 0 s else scan false 0 (c ∷ s)))

-- the character of a digit reads as that digit
digit_code : (n : ℕ) → n < 10 → code (digit_char n) ≡ b'0' + n
unfolding digit_char
digit_code zero h = refl
digit_code (suc zero) h = refl
digit_code (suc (suc zero)) h = refl
digit_code (suc (suc (suc zero))) h = refl
digit_code (suc (suc (suc (suc zero)))) h = refl
digit_code (suc (suc (suc (suc (suc zero))))) h = refl
digit_code (suc (suc (suc (suc (suc (suc zero)))))) h = refl
digit_code (suc (suc (suc (suc (suc (suc (suc zero))))))) h = refl
digit_code (suc (suc (suc (suc (suc (suc (suc (suc zero)))))))) h = refl
digit_code (suc (suc (suc (suc (suc (suc (suc (suc (suc zero))))))))) h = refl
digit_code (suc (suc (suc (suc (suc (suc (suc (suc (suc (suc n)))))))))) h = absurd (omega arith)

scan_digit :
    (c : Char) (d : ℕ) (b : Bool) (n : ℕ) (s : String)
    → code c ≡ b'0' + d
    → d < 10
    → scan b n (c ∷ s) ≡ scan true (n * 10 + d) s
unfolding scan
scan_digit c d b n s e h =
    let in_range : (leb b'0' (code c) && leb (code c) b'9') ≡ true = ground arith in
    let value : code c - b'0' ≡ d = omega arith in rw (in_range, value, scan) refl

scan-digit_char :
    (b : Bool) (n d : ℕ) (s : String)
    → d < 10
    → scan b n (digit_char d ∷ s) ≡ scan true (n * 10 + d) s
scan-digit_char b n d s h = scan_digit (digit_char d) d b n s (digit_code d h) h

-- Reading what was printed before a text is having read the number.
scan-emit :
    (fuel n : ℕ) (b : Bool) (out : String) → n < fuel → scan b 0 (emit fuel n out) ≡ scan true n out
unfolding emit
scan-emit zero n b out h = absurd (omega arith)
scan-emit (suc fuel) n b out h = elim (Bool-cases (ltb n 10)) [
  | inl e ↦
      rw (e, emit)
        (scan-digit_char b 0 n out (ground arith) ∙ ap (λ (m : ℕ). scan true m out) (omega arith))
  | inr e ↦
      rw (e, emit)
        (scan-emit fuel (n / 10) b (digit_char (n % 10) ∷ out) (ground arith)
          ∙ scan-digit_char true (n / 10) (n % 10) out (omega arith)
          ∙ ap (λ (m : ℕ). scan true m out) (omega arith))
]

record Printed (text : String) : Type 0 where
  first : ℕ
  rest : String
  is_below : first < 10
  same : text ≡ digit_char first ∷ rest

emit-Printed : (fuel n : ℕ) (out : String) → n < fuel → Printed (emit fuel n out)
unfolding emit
emit-Printed zero n out h = absurd (omega arith)
emit-Printed (suc fuel) n out h = elim (Bool-cases (ltb n 10)) [
  | inl e ↦ record { first = n; rest = out; is_below = ground arith; same = rw (e, emit) refl }
  | inr e ↦
      let more = emit-Printed fuel (n / 10) (digit_char (n % 10) ∷ out) (ground arith) in
      record {
        first = more.first;
        rest = more.rest;
        is_below = more.is_below;
        same = rw (e, emit) more.same;
      }
]

read_int_digit :
    (c : Char) (d : ℕ) (s : String)
    → code c ≡ b'0' + d
    → d < 10
    → read_int (c ∷ s) ≡ read_with pos (scan false 0 (c ∷ s))
unfolding read_int
read_int_digit c d s e h =
    let no_space : is_space c ≡ false = ground arith in
    let no_minus : (code c == b'-') ≡ false = ground arith in
    let no_plus : (code c == b'+') ≡ false = ground arith in
    rw (no_space, no_minus, no_plus, read_int) refl

-- A number is read back from its decimal print.
pub read_int-to_decimal : (n : ℕ) → read_int (to_decimal n) ≡ some (pos n)
unfolding to_decimal scan
read_int-to_decimal n =
    let p = emit-Printed (suc n) n [] (omega arith) in
    ap read_int p.same
    ∙ read_int_digit (digit_char p.first) p.first p.rest (digit_code p.first p.is_below) p.is_below
    ∙ ap (λ (s : String). read_with pos (scan false 0 s)) (sym p.same)
    ∙ ap (read_with pos) (scan-emit (suc n) n false [] (omega arith))

prints : to_decimal 120 ≡ "120"
unfolding to_decimal
prints = refl

reads : (read_int " +1_2 " ≡ some (pos 12)) × (read_int "-3" ≡ some (negsuc 2))
unfolding read_int
reads = (refl, refl)

no_number : (read_int "" ≡ none) × (read_int "1__2" ≡ none) × (read_int "1 2" ≡ none)
unfolding read_int
no_number = (refl, refl, refl)
