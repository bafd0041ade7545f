-- ===== src/Bulk/Wire.antt =====
-- examples/bulk-socket/main.go: the chunk that send writes, and its reader.
use iouring_go.Base.{
  ℕ, zero, suc, ◌+◌, ◌-◌, ◌*◌, ◌/◌, ◌%◌, ◌^◌, ◌<◌, ◌≤◌, ◌≡◌, refl, ap, ◌∙◌, List, [], ◌∷◌, ◌++◌,
  Option, none, some, ◌==◌, leb, ◌&&◌, if◌then◌else◌, length, take, drop, arith, length-append,
}
use mathlib.Core.List.{append_assoc}
use native.Mathlib.Nat.{pow-suc}
use native.Mathlib.Decide.{dec_lt}
use iouring_go.Bulk.{hex_digit, hex, crlf, wire}

-- A digit of either case.
abbrev pub digit_value : ℕ → Option ℕ
digit_value c =
    if leb 48 c && leb c 57
    then some (c - 48)
    else if leb 97 c && leb c 102
    then some (c - 87)
    else if leb 65 c && leb c 70
    then some (c - 55)
    else none

-- The length of a chunk, up to the end of its line, and what follows the carriage return.
unfoldable pub read_len : ℕ → List ℕ → Option (ℕ × List ℕ)
read_len acc [] = none
read_len acc (c ∷ cs) = elim (digit_value c) [
  | some d ↦ read_len (16 * acc + d) cs
  | none ↦ if c == 13 then some (acc, cs) else none
]

-- What follows a line feed, and a line end.
unfoldable pub after_lf : List ℕ → Option (List ℕ)
after_lf [] = none
after_lf (c ∷ cs) = if c == 10 then some cs else none

unfoldable pub after_crlf : List ℕ → Option (List ℕ)
unfolding after_lf
after_crlf [] = none
after_crlf (c ∷ cs) = let rest = after_lf cs in if c == 13 then rest else none

-- A chunk as RFC 9112 has it, without extensions, and what follows it.
unfoldable pub read_chunk : List ℕ → Option (List ℕ × List ℕ)
unfolding read_len after_lf after_crlf
read_chunk bs = elim (read_len 0 bs) [
  | none ↦ none
  | some (n, rest) ↦ elim (after_lf rest) [
    | none ↦ none
    | some body ↦ elim (after_crlf (drop n body)) [
      | none ↦ none
      | some rest' ↦ if leb n (length body) then some (take n body, rest') else none
    ]
  ]
]

read_len-digit :
    (acc d : ℕ) (t : List ℕ) → d < 16 → read_len acc (hex_digit d ∷ t) ≡ read_len (16 * acc + d) t
unfolding read_len
read_len-digit acc d t small = ground arith

read_len-cr : (acc : ℕ) (t : List ℕ) → read_len acc (13 ∷ t) ≡ some (acc, t)
unfolding read_len
read_len-cr acc t = refl

long_enough : (k n : ℕ) → n < 16 ^ suc k → 16 ≤ n → 0 < k
long_enough zero n fits big = absurd (omega (arith, fits, big))
long_enough (suc k) n fits big = omega arith

read_len-hex :
    (k n : ℕ) (t : List ℕ) → n < 16 ^ k → 0 < k → read_len 0 (hex k n ++ t) ≡ read_len n t
unfolding hex
read_len-hex zero n t fits some_digit = absurd (omega arith)
read_len-hex (suc k) n t fits some_digit =
    let digits : List ℕ = hex k (n / 16) in
    elim (dec_lt n 16) [
      | yes p ↦ ground (arith, read_len-digit 0 n t p)
      | no p ↦
          let longer : 0 < k = long_enough k n fits (omega (arith, p)) in
          let last = read_len-digit (n / 16) (n % 16) t (omega arith) in
          let front =
            read_len-hex k (n / 16) (hex_digit (n % 16) ∷ t) (omega (arith, fits, pow-suc 16 k))
              longer in
          ap (read_len 0) (ground (arith, p, append_assoc digits (hex_digit (n % 16) ∷ []) t))
          ∙ front
          ∙ last
          ∙ ap (λ m. read_len m t) (omega arith)
    ]

take-append : (xs ys : List ℕ) → take (length xs) (xs ++ ys) ≡ xs
take-append [] ys = refl
take-append (x ∷ xs) ys = ap (◌∷◌ x) (take-append xs ys)

drop-append : (xs ys : List ℕ) → drop (length xs) (xs ++ ys) ≡ ys
drop-append [] ys = refl
drop-append (x ∷ xs) ys = drop-append xs ys

wire-parts :
    (sdata rest : List ℕ)
    → wire sdata ++ rest ≡ hex 16 (length sdata) ++ (13 ∷ 10 ∷ (sdata ++ (13 ∷ 10 ∷ rest)))
unfolding wire
wire-parts sdata rest =
    let digits : List ℕ = hex 16 (length sdata) in
    append_assoc (digits ++ crlf ++ sdata) crlf rest
    ∙ append_assoc (digits ++ crlf) sdata (crlf ++ rest)
    ∙ append_assoc digits crlf (sdata ++ (crlf ++ rest))

-- A reader of chunks gets back what send has wrapped, and what follows it on the wire.
pub read_chunk-wire :
    (sdata rest : List ℕ)
    → length sdata < 2 ^ 63
    → read_chunk (wire sdata ++ rest) ≡ some (sdata, rest)
unfolding read_chunk
read_chunk-wire sdata rest fits =
    let n : ℕ = length sdata in
    let body : List ℕ = sdata ++ (13 ∷ 10 ∷ rest) in
    let read : read_len 0 (wire sdata ++ rest) ≡ some (n, 10 ∷ body) =
      ap (read_len 0) (wire-parts sdata rest)
      ∙ read_len-hex 16 n (13 ∷ 10 ∷ body) (omega (arith, fits)) (omega arith)
      ∙ read_len-cr n (10 ∷ body) in
    ground (
      arith,
      read,
      drop-append sdata (13 ∷ 10 ∷ rest),
      take-append sdata (13 ∷ 10 ∷ rest),
      length-append sdata (13 ∷ 10 ∷ rest),
    )
