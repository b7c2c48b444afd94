-- ===== src/Client/Proofs/Controls.antt =====
-- What `bind` of the hook prints the client scans.
use socket_hook.Base.{
  ℕ, zero, suc, ◌+◌, ◌-◌, ◌*◌, ◌/◌, ◌%◌, ◌^◌, ◌≤◌, ◌<◌, min, ◌≡◌, refl, ap, subst, ◌∙◌, sym, ℤ, pos,
  true, lt→ltb, ltb, Bool-cases, inl, inr, some, List, [], ◌∷◌, ◌++◌, length, take, take-all,
  length-append, mod-lt, arith,
}
use native.Mathlib.Nat.{pow-suc, pow-zero}
use socket_hook.Client.State.{Client}
use socket_hook.Client.Control.{
  label, digits_from, print_int, control_bytes, is_digit, scan_digits, scan_int, scan_control,
  take_control,
}

small : (n k : ℕ) → n < 10 ^ suc k → n / 10 < 10 ^ k
small n k h = omega (arith, pow-suc 10 k)

-- The digits that are printed are scanned to the number, and then what comes behind is scanned.
scan-digits :
    (fuel n : ℕ) (acc rest : List ℕ)
    → n < 10 ^ fuel
    → scan_digits (digits_from fuel n acc ++ rest) 0 ≡ scan_digits (acc ++ rest) n
unfolding digits_from scan_digits
scan-digits zero n acc rest h = ap (scan_digits (acc ++ rest)) (omega (arith, pow-zero 10))
scan-digits (suc fuel) n acc rest h = elim (Bool-cases (ltb n 10)) [
  | inl e ↦
      let d : is_digit (48 + n) ≡ true = ground arith in
      let z : 0 * 10 + (48 + n - 48) ≡ n = omega arith in rw e (rw d (rw z refl))
  | inr e ↦
      let m = mod-lt n {m = 10} (omega arith) in
      let d : is_digit (48 + n % 10) ≡ true = ground arith in
      let z : n / 10 * 10 + (48 + n % 10 - 48) ≡ n = omega arith in
      let k : n / 10 < 10 ^ fuel = small n fuel h in
      rw e (scan-digits fuel (n / 10) ((48 + n % 10) ∷ acc) rest k ∙ rw d (rw z refl))
]

length-digits :
    (fuel k n : ℕ) (acc : List ℕ)
    → n < 10 ^ suc k
    → length (digits_from fuel n acc) ≤ suc k + length acc
unfolding digits_from
length-digits zero k n acc h = omega arith
length-digits (suc fuel) zero n acc h =
    let e : ltb n 10 ≡ true = lt→ltb n 10 (omega (arith, pow-suc 10 0, pow-zero 10)) in
    rw e (omega arith)
length-digits (suc fuel) (suc k) n acc h = elim (Bool-cases (ltb n 10)) [
  | inl e ↦ rw e (omega arith)
  | inr e ↦
      let r = length-digits fuel k (n / 10) ((48 + n % 10) ∷ acc) (small n (suc k) h) in
      rw e (omega (arith, r))
]

-- The digits begin with a digit.
digits-begin :
    (fuel n : ℕ) (acc : List ℕ)
    → (c : ℕ) × (cs : List ℕ) × (digits_from (suc fuel) n acc ≡ c ∷ cs) × (is_digit c ≡ true)
unfolding digits_from
digits-begin zero n acc = elim (Bool-cases (ltb n 10)) [
  | inl e ↦ (48 + n, acc, rw e refl, ground arith)
  | inr e ↦ let m = mod-lt n {m = 10} (omega arith) in (48 + n % 10, acc, rw e refl, ground arith)
]
digits-begin (suc fuel) n acc = elim (Bool-cases (ltb n 10)) [
  | inl e ↦ (48 + n, acc, rw e refl, ground arith)
  | inr e ↦
      let (c, cs, q, d) = digits-begin fuel (n / 10) ((48 + n % 10) ∷ acc) in (c, cs, rw e q, d)
]

scan_int-digit :
    (c : ℕ) (cs : List ℕ)
    → is_digit c ≡ true
    → scan_int (c ∷ cs) ≡ some (pos (scan_digits (c ∷ cs) 0))
unfolding scan_int
scan_int-digit c cs d = ground arith

scan_stop : (rest : List ℕ) (n : ℕ) → scan_digits (0 ∷ rest) n ≡ n
unfolding scan_digits
scan_stop rest n = refl

scan-print :
    (n : ℕ) (rest : List ℕ) → n < 10 ^ 10 → scan_int (print_int (pos n) ++ 0 ∷ rest) ≡ some (pos n)
unfolding print_int
scan-print n rest h =
    let (c, cs, q, d) = digits-begin 9 n [] in
    let k : scan_digits (digits_from 10 n [] ++ 0 ∷ rest) 0 ≡ n =
      scan-digits 10 n [] (0 ∷ rest) h ∙ scan_stop rest n in
    rw q (
      scan_int-digit c (cs ++ 0 ∷ rest) d
      ∙ ap some (ap pos (subst (λ l. scan_digits (l ++ 0 ∷ rest) 0 ≡ n) q k)))

-- Cutting behind the 0.
take-append_zero :
    (n : ℕ) (xs junk : List ℕ)
    → length xs ≤ n
    → take (suc n) (xs ++ 0 ∷ junk) ≡ xs ++ 0 ∷ take (n - length xs) junk
take-append_zero n [] junk h = ap (λ k. 0 ∷ take k junk) (omega arith)
take-append_zero zero (x ∷ xs) junk h = absurd (omega arith)
take-append_zero (suc n) (x ∷ xs) junk h =
    ap (◌∷◌ x)
      (take-append_zero n xs junk (omega arith) ∙ ap (λ k. xs ++ 0 ∷ take k junk) (omega arith))

-- What is sent, for an index of up to four digits.
control_bytes-text :
    (junk : List ℕ) (n : ℕ)
    → n < 10 ^ 4
    → let text = print_int (pos n) in
      control_bytes junk (pos n) ≡ label ++ (text ++ 0 ∷ take (4 - length text) junk)
unfolding control_bytes print_int
control_bytes-text junk n h =
    let text = label ++ print_int (pos n) in
    let d = length-digits 10 3 n [] h in
    let l : length text ≤ 21 = omega (arith, d, length-append label (print_int (pos n))) in
    let k : 21 - length text ≡ 4 - length (print_int (pos n)) =
      omega (arith, d, length-append label (print_int (pos n))) in
    ap (λ t. take 22 (t ++ 0 ∷ junk)) (take-all 21 text l)
    ∙ take-append_zero 21 text junk l
    ∙ ap (λ i. text ++ 0 ∷ take i junk) k

abbrev noted : Client → ℕ → Client
noted c n = record c { socket_cli = record c.socket_cli { share_unit_index = pos n } }

take_control-text :
    (held : ℤ) (c : Client) (text rest : List ℕ) (n : ℕ)
    → scan_int (text ++ 0 ∷ rest) ≡ some (pos n)
    → take_control held c (label ++ (text ++ 0 ∷ rest)) ≡ noted c n
unfolding take_control scan_control
take_control-text held c text rest n e =
    let message = label ++ (text ++ 0 ∷ rest) in
    let m : min 17 (length message) ≡ 17 = omega (arith, length-append label (text ++ 0 ∷ rest)) in
    let z : ltb 0 (length message) ≡ true = ground arith in rw (m, z, e) refl

-- The message of `bind` for a share unit of up to four digits: the client that gets it notes that
-- unit, whatever was on the hook's stack behind the text.
pub take_control-control_bytes :
    (held : ℤ) (c : Client) (junk : List ℕ) (n : ℕ)
    → n < 10 ^ 4
    → take_control held c (control_bytes junk (pos n))
      ≡ record c { socket_cli = record c.socket_cli { share_unit_index = pos n } }
take_control-control_bytes held c junk n h =
    let text = print_int (pos n) in
    let rest = take (4 - length text) junk in
    subst (λ t. take_control held c t ≡ noted c n) (sym (control_bytes-text junk n h))
      (take_control-text held c text rest n (scan-print n rest (omega arith)))
