-- ===== src/Completion/Walk.antt =====
-- ring.go, onEntry: what a pass over a list of completions delivers.
use iouring_go.Base.{
  ℕ, suc, ◌≡◌, refl, List, [], ◌∷◌, ◌++◌, Option, none, some, ◌==◌, if◌then◌else◌, arith,
  Option-cases, inl, inr,
}
use iouring_go.Entry.{CompletionEntry}
use iouring_go.Completion.{
  CompletionRequest, Inflight, find, delete, Scan, answered, visit, scan_to, scan_all,
}

pub find-delete :
    (id j : ℕ) (m : Inflight) → find id (delete j m) ≡ (if j == id then none else find id m)
unfolding find delete
find-delete id j [] = ground arith
find-delete id j (cr ∷ m) = ground (arith, find-delete id j m)

pub find-id : (id : ℕ) (m : Inflight) {cr : CompletionRequest} → find id m ≡ some cr → cr.id ≡ id
unfolding find
find-id id [] h = cc
find-id id (c ∷ m) {cr} h = ground (arith, find-id id m {cr = cr})

-- The first of two options that is there.
abbrev pub or_else : Option CompletionRequest → Option CompletionRequest → Option CompletionRequest
or_else none o = o
or_else (some a) o = some a

pub find-append : (id : ℕ) (m n : Inflight) → find id (m ++ n) ≡ or_else (find id m) (find id n)
unfolding find
find-append id [] n = refl
find-append id (cr ∷ m) n = ground (arith, find-append id m n)

-- The first completion of a list that carries an id.
abbrev pub answer : ℕ → List CompletionEntry → Option CompletionEntry
answer id [] = none
answer id (c ∷ cs) = if c.user_data == id then some c else answer id cs

-- What is left in flight, and what has been delivered, for one id.
abbrev pub left : Option CompletionEntry → Option CompletionRequest → Option CompletionRequest
left none o = o
left (some c) o = none

abbrev pub given : Option CompletionEntry → Option CompletionRequest → Option CompletionRequest
given none o = none
given (some c) none = none
given (some c) (some cr) = some (answered cr c)

find-one :
    (id : ℕ) (cr : CompletionRequest) → find id (cr ∷ []) ≡ (if cr.id == id then some cr else none)
unfolding find
find-one id cr = refl

visit-left :
    (w : Scan) (c : CompletionEntry) (id : ℕ)
    → find id (visit w c).inflight ≡ (if c.user_data == id then none else find id w.inflight)
unfolding visit
visit-left w c id = elim (Option-cases (find c.user_data w.inflight)) [
  | inl e ↦ ground arith
  | inr (cr, e) ↦ ground (arith, find-delete id cr.id w.inflight, find-id c.user_data w.inflight e)
]

visit-given :
    (w : Scan) (c : CompletionEntry) (id : ℕ)
    → find id (visit w c).delivered
      ≡ or_else
          (find id w.delivered)
          (if c.user_data == id then given (some c) (find id w.inflight) else none)
unfolding visit
visit-given w c id = elim (Option-cases (find c.user_data w.inflight)) [
  | inl e ↦ ground arith
  | inr (cr, e) ↦ ground (
    arith,
    find-append id w.delivered (answered cr c ∷ []),
    find-one id (answered cr c),
    find-id c.user_data w.inflight e,
  )
]

pub scan_all-left :
    (cs : List CompletionEntry) (w : Scan) (id : ℕ)
    → find id (scan_all cs w).inflight ≡ left (answer id cs) (find id w.inflight)
unfolding scan_all
scan_all-left [] w id = refl
scan_all-left (c ∷ cs) w id = ground (arith, scan_all-left cs (visit w c) id, visit-left w c id)

pub scan_all-given :
    (cs : List CompletionEntry) (w : Scan) (id : ℕ)
    → find id (scan_all cs w).delivered
      ≡ or_else (find id w.delivered) (given (answer id cs) (find id w.inflight))
unfolding scan_all
scan_all-given [] w id = ground arith
scan_all-given (c ∷ cs) w id =
    ground (arith, scan_all-given cs (visit w c) id, visit-left w c id, visit-given w c id)

-- The first loop is a pass over what stands up to `stop`, or over all of it.
unfoldable pub upto : ℕ → ℕ → List CompletionEntry → List CompletionEntry
upto stop i [] = []
upto stop i (c ∷ cs) = if i == stop then c ∷ [] else c ∷ upto stop (suc i) cs

pub scan_to-eq :
    (stop i : ℕ) (cs : List CompletionEntry) (w : Scan)
    → (scan_to stop i cs w).0 ≡ scan_all (upto stop i cs) w
unfolding scan_to scan_all upto
scan_to-eq stop i [] w = refl
scan_to-eq stop i (c ∷ cs) w = ground (arith, scan_to-eq stop (suc i) cs (visit w c))
