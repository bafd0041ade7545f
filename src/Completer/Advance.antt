-- ===== src/Completer/Advance.antt =====
-- completer.go, the inner loop of `run`: it ends, and passes exactly the reported entries that
-- stand next.
use iouring_go.Base.{
  ℕ, zero, suc, ◌+◌, ◌<◌, ◌≤◌, ◌≡◌, refl, true, false, List, [], ◌∷◌, some, ◌==◌, if◌then◌else◌,
  length, arith, Bool-cases, inl, inr,
}
use iouring_go.Completer.{mem, delete, add, move_head}

pub mem-delete :
    (id j : ℕ) (xs : List ℕ) → mem id (delete j xs) ≡ (if j == id then false else mem id xs)
unfolding mem delete
mem-delete id j [] = ground arith
mem-delete id j (x ∷ xs) = ground (arith, mem-delete id j xs)

length-delete-le : (j : ℕ) (xs : List ℕ) → length (delete j xs) ≤ length xs
unfolding delete
length-delete-le j [] = omega arith
length-delete-le j (x ∷ xs) = ground (arith, length-delete-le j xs)

length-delete-lt : (j : ℕ) (xs : List ℕ) → mem j xs ≡ true → length (delete j xs) < length xs
unfolding mem delete
length-delete-lt j [] h = cc
length-delete-lt j (x ∷ xs) h = ground (arith, length-delete-lt j xs, length-delete-le j xs)

pub mem-add : (id j : ℕ) (xs : List ℕ) → mem id (add j xs) ≡ (if j == id then true else mem id xs)
unfolding mem add
mem-add id j xs = ground arith

-- What the loop has done when it stops, started with `seen` entries passed: the entries from
-- `seen` up to its result were reported and are taken off the map, the next one was not.
pub record Advances (cur_head seen : ℕ) (unacked : List ℕ) (n : ℕ) (unacked' : List ℕ)
    : Type 0 where
  pub grows : seen ≤ n
  pub passed : (i : ℕ) → seen ≤ i → i < n → mem (cur_head + i) unacked ≡ true
  pub stops : mem (cur_head + n) unacked ≡ false
  pub left : (j : ℕ) → j < cur_head + seen → mem j unacked' ≡ mem j unacked
  pub gone : (j : ℕ) → cur_head + seen ≤ j → j < cur_head + n → mem j unacked' ≡ false
  pub kept : (j : ℕ) → cur_head + n ≤ j → mem j unacked' ≡ mem j unacked

pub move_head-Advances :
    (rounds cur_head seen : ℕ) (unacked : List ℕ)
    → length unacked < rounds
    → (n : ℕ) × (unacked' : List ℕ) × (move_head rounds cur_head seen unacked ≡ some (n, unacked'))
      × Advances cur_head seen unacked n unacked'
unfolding move_head
move_head-Advances zero cur_head seen unacked h = absurd (omega arith)
move_head-Advances (suc rounds) cur_head seen unacked h =
    elim (Bool-cases (mem (cur_head + seen) unacked)) [
      | inr out ↦ (
        seen,
        unacked,
        ground arith,
        record {
          grows = omega arith;
          passed = λ i p q. absurd (omega arith);
          stops = out;
          left = λ j p. refl;
          gone = λ j p q. absurd (omega arith);
          kept = λ j p. refl;
        },
      )
      | inl here ↦
          let shorter = length-delete-lt (cur_head + seen) unacked here in
          let (n, unacked', e, a) =
            move_head-Advances rounds cur_head (seen + 1) (delete (cur_head + seen) unacked)
              (omega arith) in
          (
            n,
            unacked',
            ground arith,
            record {
              grows = omega (arith, a.grows);
              passed = λ i p q.
                  ground (arith, a.passed i, mem-delete (cur_head + i) (cur_head + seen) unacked);
              stops =
                  ground
                    (arith, a.grows, a.stops, mem-delete (cur_head + n) (cur_head + seen) unacked);
              left = λ j p. ground (arith, a.left j, mem-delete j (cur_head + seen) unacked);
              gone = λ j p q.
                  ground (arith, a.left j, a.gone j, mem-delete j (cur_head + seen) unacked);
              kept =
                  λ j p. ground (arith, a.grows, a.kept j, mem-delete j (cur_head + seen) unacked);
            },
          )
    ]
