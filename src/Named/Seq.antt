-- ===== src/Named/Seq.antt =====
-- formatSeq and parseSeq of version.go.
use native.Mathlib.Nat.{pow-suc}
use mathlib.Core.Path.{subst₂}
use scrinium.Base.{
  ℕ, zero, suc, ◌+◌, ◌-◌, ◌*◌, ◌/◌, ◌%◌, ◌^◌, ◌≤◌, ◌<◌, Text, true, none, some, [], ◌∷◌, ◌++◌, ◌≡◌,
  ◌↔◌, refl, ap, ap₂, ◌∙◌, arith, length, append-nil,
}
use scrinium.Named.{pad_digits, more_digits, format_seq, is_digit, parse_digits, parse_seq}

pow_ten : (w : ℕ) → 10 ^ suc w ≡ 10 ^ w * 10
pow_ten w = pow-suc 10 w

digit_ok : (d : ℕ) → d < 10 → is_digit (b'0' + d) ≡ true
digit_ok d h = ground arith

parse-pad_digits :
    (w n : ℕ) (rest : Text) (acc : ℕ)
    → n < 10 ^ w
    → parse_digits (pad_digits w n rest) acc ≡ parse_digits rest (acc * 10 ^ w + n)
unfolding pad_digits parse_digits
parse-pad_digits zero n rest acc h = ap (parse_digits rest) (omega arith)
parse-pad_digits (suc w) n rest acc h =
    parse-pad_digits w (n / 10) ((b'0' + n % 10) ∷ rest) acc (omega (arith, pow_ten w)) ∙ digit_step
  where
    digit_step :
        parse_digits ((b'0' + n % 10) ∷ rest) (acc * 10 ^ w + n / 10)
        ≡ parse_digits rest (acc * 10 ^ suc w + n)
    digit_step =
        let value : (acc * 10 ^ w + n / 10) * 10 + (b'0' + n % 10 - b'0') ≡ acc * 10 ^ suc w + n =
          omega (arith, ap (λ (t : ℕ). acc * t) (pow_ten w)) in
        rw (digit_ok (n % 10) (omega arith)) (ap (parse_digits rest) value)

length-pad_digits : (w n : ℕ) (rest : Text) → length (pad_digits w n rest) ≡ w + length rest
unfolding pad_digits
length-pad_digits zero n rest = omega arith
length-pad_digits (suc w) n rest =
    omega (arith, length-pad_digits w (n / 10) ((b'0' + n % 10) ∷ rest))

length-more_digits : (f n : ℕ) (rest : Text) → length rest ≤ length (more_digits f n rest)
unfolding more_digits
length-more_digits zero n rest = omega arith
length-more_digits (suc f) n rest =
    ground (arith, length-more_digits f (n / 10) ((b'0' + n % 10) ∷ rest))

longer_digits : (f n : ℕ) (rest : Text) → 0 < n → length rest < length (more_digits (suc f) n rest)
unfolding more_digits
longer_digits f n rest h = ground (arith, length-more_digits f (n / 10) ((b'0' + n % 10) ∷ rest))

pad_front :
    (w d m : ℕ) (rest : Text)
    → d < 10
    → m < 10 ^ w
    → pad_digits (suc w) (d * 10 ^ w + m) rest ≡ (b'0' + d) ∷ pad_digits w m rest
unfolding pad_digits
pad_front zero d m rest h l = ap (λ x. (b'0' + x) ∷ rest) (omega arith)
pad_front (suc w) d m rest h l =
    let n : ℕ = d * 10 ^ suc w + m in
    let scaled : d * 10 ^ suc w ≡ d * 10 ^ w * 10 =
      ap (λ (t : ℕ). d * t) (pow_ten w) ∙ grind arith in
    let low : n % 10 ≡ m % 10 = omega (arith, scaled) in
    let high : n / 10 ≡ d * 10 ^ w + m / 10 = omega (arith, scaled) in
    ap₂ (λ (q r : ℕ). pad_digits (suc w) q ((b'0' + r) ∷ rest)) high low
    ∙ pad_front w d (m / 10) ((b'0' + m % 10) ∷ rest) h (omega (arith, pow_ten w))

below_ten : (d m w : ℕ) → d < 10 → m < 10 ^ w → d * 10 ^ w + m < 10 ^ suc w
below_ten d m w h l = rw (pow_ten w) (grind arith)

-- What parseDigits read, against the digits that the padding writes.
pad_of_parsed :
    (s : Text) (acc n : ℕ) (rest : Text)
    → parse_digits s acc ≡ some n
    → (m : ℕ) × (n ≡ acc * 10 ^ length s + m)
      × (m < 10 ^ length s)
      × (pad_digits (length s) m rest ≡ s ++ rest)
unfolding parse_digits
pad_of_parsed [] acc n rest h = (0, ground arith, omega arith, unfold pad_digits in refl)
pad_of_parsed (c ∷ s) acc n rest h =
    let digit : is_digit c ≡ true = ground arith in
    let d : ℕ = c - b'0' in
    let small : d < 10 = ground arith in
    let back : b'0' + d ≡ c = ground arith in
    let (m, e, l, p) = pad_of_parsed s (acc * 10 + d) n rest (rw digit at h) in
    (
      d * 10 ^ length s + m,
      omega (arith, e, ap (λ (t : ℕ). acc * t) (pow_ten (length s))),
      below_ten d m (length s) small l,
      pad_front (length s) d m rest small l ∙ ap₂ (λ x (t : Text). x ∷ t) back p,
    )

format_small : (n : ℕ) → n < 10 ^ 10 → format_seq n ≡ pad_digits 10 n []
unfolding format_seq more_digits
format_small n h = let none_left : n / 10 ^ 10 ≡ 0 = omega arith in rw none_left

seq_written : (s : Text) (n : ℕ) → parse_seq s ≡ some n → (format_seq n ≡ s) × (n < 10 ^ 10)
seq_written s n h =
    let ten : length s ≡ 10 = unfold parse_seq in ground arith in
    let digits : parse_digits s 0 ≡ some n = unfold parse_seq in ground arith in
    let (m, e, l, p) = pad_of_parsed s 0 n [] digits in
    let same : m ≡ n = omega (arith, e) in
    let l' : n < 10 ^ 10 = subst₂ (λ (a b : ℕ). a < 10 ^ b) same ten l in
    (
      format_small n l' ∙ subst₂ (λ (a b : ℕ). pad_digits b a [] ≡ s) same ten (p ∙ append-nil s),
      l',
    )

seq_read : (s : Text) (n : ℕ) → format_seq n ≡ s → n < 10 ^ 10 → parse_seq s ≡ some n
unfolding parse_seq
seq_read s n e l =
    rw (← e, format_small n l, length-pad_digits 10 n [], parse-pad_digits 10 n [] 0 l)
      (unfold parse_digits in ap some (omega arith))

-- parseSeq and formatSeq are inverse on the sequence numbers of ten digits, and parseSeq reads
-- nothing else: it gives n exactly on the text that formatSeq writes for n, where n < 10^10.
pub parse_seq_iff :
    (s : Text) (n : ℕ) → (parse_seq s ≡ some n) ↔ ((format_seq n ≡ s) × (n < 10 ^ 10))
parse_seq_iff s n = (seq_written s n, λ h. seq_read s n h.0 h.1)

-- A version past ten digits would be invisible: the file that ClaimVersion would create for a
-- sequence number of 10^10 or more is not read back as a version.
format_seq_unread : (n : ℕ) → 10 ^ 10 ≤ n → parse_seq (format_seq n) ≡ none
unfolding parse_seq format_seq
format_seq_unread n h =
    let long = longer_digits 9 (n / 10 ^ 10) (pad_digits 10 n []) (omega arith) in
    ground (arith, long, length-pad_digits 10 n [])
