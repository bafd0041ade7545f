-- ===== src/Cp/Stored.antt =====
-- examples/cp/iouring.go: files in memory, which keep the promises that main relies on.
use iouring_go.Base.{
  ℕ, zero, suc, ◌≤◌, ◌≡◌, ◌≢◌, refl, List, [], ◌∷◌, ◌++◌, length, take, drop, arith, ap, ◌∙◌, sym,
}
use Prim.Native.Nat.{min}
use iouring_go.Base.Int.{pos}
use iouring_go.Base.Outcome.{M, done}
use iouring_go.Ops.{Bytes}
use iouring_go.Fio.{IoError, IoResult, nil, eof}
use iouring_go.Cp.{returned, Files, copy}
use iouring_go.Cp.Whole.{Keeps, copy-whole}

pub record Store : Type 0 where
  pub source : List ℕ
  pub destination : List ℕ
  pub memory : List ℕ

abbrev opened : M Store IoError
opened s = done (nil, s)

unfoldable pub read : Bytes → M Store IoResult
read b s = elim (s.source) [
  | [] ↦ done ((pos 0, eof), s)
  | x ∷ xs ↦
      let n : ℕ = min b.len (length (x ∷ xs)) in
      done ((pos n, nil), record s { memory = take n (x ∷ xs); source = drop n (x ∷ xs) })
]

abbrev write : Bytes → M Store IoResult
write b s = done ((pos b.len, nil), record s { destination = s.destination ++ take b.len s.memory })

abbrev pub stored : Files Store
stored = record {
  new_ring = opened;
  open_src = λ name. opened;
  open_dst = λ name. opened;
  reader = opened;
  writer = opened;
  read = read;
  write = write;
  close_r = opened;
  close_w = opened;
}

take-take : (n : ℕ) (xs : List ℕ) → take n (take n xs) ≡ take n xs
take-take zero xs = refl
take-take (suc n) [] = refl
take-take (suc n) (x ∷ xs) = ap (◌∷◌ x) (take-take n xs)

ne-cons : (xs : List ℕ) → xs ≢ [] → (x : ℕ) × (ys : List ℕ) × (xs ≡ x ∷ ys)
ne-cons [] e = absurd (e refl)
ne-cons (x ∷ xs) e = (x, xs, refl)

reads :
    (at m : ℕ) (s : Store) (x : ℕ) (xs : List ℕ)
    → s.source ≡ x ∷ xs
    → (n : ℕ) × (s' : Store) × (read (record { addr = at; len = suc m }) s
        ≡ done ((pos (suc n), nil), s'))
      × (suc n ≤ suc m)
      × (suc n ≤ length s.source)
      × (s'.source ≡ drop (suc n) s.source)
      × (s'.destination ≡ s.destination)
      × (take (suc n) s'.memory ≡ take (suc n) s.source)
unfolding read
reads at m s x xs e =
    let n : ℕ = min m (length xs) in
    (
      n,
      record s { memory = take (suc n) (x ∷ xs); source = drop n xs },
      ground (arith, e),
      omega arith,
      omega (arith, ap length e),
      ap (drop (suc n)) (sym e),
      refl,
      take-take (suc n) (x ∷ xs) ∙ ap (take (suc n)) (sym e),
    )

read-at_end : (b : Bytes) (s : Store) → s.source ≡ [] → read b s ≡ done ((pos 0, eof), s)
unfolding read
read-at_end b s e = ground (arith, e)

-- A buffer of at least one byte.
unfoldable stored_kept : (at m : ℕ) → Keeps stored (record { addr = at; len = suc m })
unfolding read
stored_kept at m = record {
  input = Store.source;
  output = Store.destination;
  memory = Store.memory;
  at_end = λ s e. (s, read-at_end (record { addr = at; len = suc m }) s e, e, refl);
  before_end = λ s e. let (x, xs, at_front) = ne-cons s.source e in reads at m s x xs at_front;
  writes = λ n s. (_, refl, refl, refl);
  closes_r = λ s. (s, refl, refl, refl);
  closes_w = λ s. (s, refl, refl, refl);
}

-- Files in memory are copied whole, through any buffer that is not empty.
pub stored-copied :
    (at m : ℕ) (s : Store)
    → (s' : Store) × (copy stored (suc (length s.source)) (record { addr = at; len = suc m }) s
        ≡ done (returned, s'))
      × (s'.destination ≡ s.destination ++ s.source)
unfolding stored_kept
stored-copied at m s = copy-whole (stored_kept at m) (suc (length s.source)) s (omega arith)
