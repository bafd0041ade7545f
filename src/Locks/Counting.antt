-- ===== src/Locks/Counting.antt =====
-- Sums over the goroutines, and what a step of one of them does to a sum.
use iouring_go.Base.{
  ℕ, zero, suc, ◌+◌, ◌≤◌, ◌<◌, ◌≡◌, List, [], ◌∷◌, some, get_elem?, set, length, arith,
}
use iouring_go.Locks.{Pc}

unfoldable pub total : (Pc → ℕ) → List Pc → ℕ
total w [] = 0
total w (p ∷ ps) = w p + total w ps

pub total-set :
    (w : Pc → ℕ) (ps : List Pc) (i : ℕ) {p : Pc} (p' : Pc)
    → get_elem? ps i ≡ some p
    → total w (set ps i p') + w p ≡ total w ps + w p'
unfolding total
total-set w [] i p' h = cc
total-set w (q ∷ ps) zero p' h = ground arith
total-set w (q ∷ ps) (suc i) p' h = omega (arith, total-set w ps i p' h)

pub total_has :
    (w : Pc → ℕ) (ps : List Pc) (i : ℕ) {p : Pc} → get_elem? ps i ≡ some p → w p ≤ total w ps
unfolding total
total_has w [] i h = cc
total_has w (q ∷ ps) zero h = ground arith
total_has w (q ∷ ps) (suc i) h = omega (arith, total_has w ps i h)

-- Two different goroutines count twice.
pub total_two :
    (w : Pc → ℕ) (ps : List Pc) (i j : ℕ) {p q : Pc}
    → i < j
    → get_elem? ps i ≡ some p
    → get_elem? ps j ≡ some q
    → w p + w q ≤ total w ps
unfolding total
total_two w [] i j l h h' = cc
total_two w (x ∷ ps) i zero l h h' = absurd (omega arith)
total_two w (x ∷ ps) zero (suc j) l h h' = ground (arith, total_has w ps j h')
total_two w (x ∷ ps) (suc i) (suc j) l h h' = omega (arith, total_two w ps i j (omega arith) h h')

pub total-le : (w : Pc → ℕ) (ps : List Pc) → ((p : Pc) → w p ≤ 1) → total w ps ≤ length ps
unfolding total
total-le w [] h = omega arith
total-le w (p ∷ ps) h = omega (arith, h p, total-le w ps h)
