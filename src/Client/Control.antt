-- ===== src/Client/Control.antt =====
-- The message by which `bind` of the hook tells the client the share unit of a datagram socket, and
-- what main of inet_client_shm.c makes of it.
use socket_hook.Base.{
  ℕ, zero, suc, ◌+◌, ◌-◌, ◌*◌, ◌/◌, ◌%◌, min, ℤ, pos, negsuc, Bool, true, false, ◌&&◌, ◌||◌, ltb,
  leb, ◌==◌, if◌then◌else◌, Option, none, some, List, [], ◌∷◌, ◌++◌, length, take, drop,
}
use socket_hook.Client.State.{Client}

-- "share_unit_index:"
abbrev pub label : List ℕ
label =
    115 ∷ 104 ∷ 97 ∷ 114 ∷ 101 ∷ 95 ∷ 117 ∷ 110 ∷ 105 ∷ 116 ∷ 95 ∷ 105 ∷ 110 ∷ 100 ∷ 101 ∷ 120 ∷ 58
    ∷ []

-- snprintf's %d: the digits of n before `acc`. An int has at most ten.
unfoldable pub digits_from : ℕ → ℕ → List ℕ → List ℕ
digits_from zero n acc = acc
digits_from (suc fuel) n acc =
    let rest = digits_from fuel (n / 10) ((48 + n % 10) ∷ acc) in
    if ltb n 10 then (48 + n) ∷ acc else rest

unfoldable pub print_int : ℤ → List ℕ
unfolding digits_from
print_int (pos n) = digits_from 10 n []
print_int (negsuc n) = 45 ∷ digits_from 10 (n + 1) []

-- The buffer of 22 bytes that is sent: at most 21 characters, a 0, and what the stack held.
unfoldable pub control_bytes : List ℕ → ℤ → List ℕ
unfolding print_int
control_bytes junk index = take 22 (take 21 (label ++ print_int index) ++ 0 ∷ junk)

abbrev pub is_digit : ℕ → Bool
is_digit c = leb 48 c && leb c 57

-- sscanf's %d: the white space, the sign, and the digits as far as they go.
unfoldable pub scan_digits : List ℕ → ℕ → ℕ
scan_digits [] n = n
scan_digits (c ∷ cs) n =
    let rest = scan_digits cs (n * 10 + (c - 48)) in if is_digit c then rest else n

abbrev begins_digit : List ℕ → Bool
begins_digit [] = false
begins_digit (c ∷ cs) = is_digit c

abbrev negated : ℕ → ℤ
negated zero = pos 0
negated (suc n) = negsuc n

unfoldable pub scan_int : List ℕ → Option ℤ
unfolding scan_digits
scan_int [] = none
scan_int (c ∷ cs) =
    let rest = scan_int cs in
    if c == 32 || (leb 9 c && leb c 13)
    then rest
    else (if c == 45 && begins_digit cs
        then some (negated (scan_digits cs 0))
        else (if c == 43 && begins_digit cs
            then some (pos (scan_digits cs 0))
            else (if is_digit c then some (pos (scan_digits (c ∷ cs) 0)) else none)))

abbrev same : List ℕ → List ℕ → Bool
same [] [] = true
same [] (y ∷ ys) = false
same (x ∷ xs) [] = false
same (x ∷ xs) (y ∷ ys) = x == y && same xs ys

-- sscanf(control_buf, "share_unit_index:%d", ...), of a string without its final 0
unfoldable pub scan_control : List ℕ → Option ℤ
unfolding scan_int
scan_control text = if same (take 17 text) label then scan_int (drop 17 text) else none

-- The bytes that came are in a buffer of zeros. If the scan fails, the index is what the local
-- variable held.
unfoldable pub take_control : ℤ → Client → List ℕ → Client
unfolding scan_control
take_control held c message =
    let n = length message in
    let index : ℤ = elim (scan_control message) [ none ↦ held | some i ↦ i ] in
    if ltb 0 n && same (take (min 17 n) message) (take (min 17 n) label)
    then record c { socket_cli = record c.socket_cli { share_unit_index = index } }
    else c
