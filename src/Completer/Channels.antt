-- ===== src/Completer/Channels.antt =====
-- completer.go: complete, stop and run as steps at the two channels, in any order.
use iouring_go.Base.{
  ℕ, ◌+◌, ◌-◌, ◌<◌, ◌≤◌, ◌≡◌, ◌≢◌, refl, sym, ap, ◌∙◌, Bool, true, false, List, [], ◌∷◌, ◌++◌,
  Option, none, some, length, arith, length-append,
}
use mathlib.Core.List.{append-nil, append_assoc}
use iouring_go.Queue.{CompletionQueue}
use iouring_go.Completer.{Completer, on_seen, run, new_completer}

-- The goroutine of `run` with the buffers of its channels, oldest first; `running` until it returns.
pub record Process : Type 0 where
  pub completer : Completer
  pub seen : List ℕ
  pub stops : ℕ
  pub running : Bool

-- The capacity of the channel `stopCh`.
abbrev pub stop_room : ℕ
stop_room = 8

-- `newCompleter`, and the start of `run`.
unfoldable pub start : CompletionQueue → Process
unfolding new_completer
start cq = record { completer = new_completer cq; seen = []; stops = 0; running = true }

-- A step; `size` is the capacity of `seen`, which is not 0. A call of `complete` or `stop` that finds
-- no room waits, and is a step once it has found some.
pub data Step (size : ℕ) (p : Process) : List ℕ → Process → Type 0 where
  told :
      (id : ℕ)
      → length p.seen < size
      → Step size p (id ∷ []) (record p { seen = p.seen ++ id ∷ [] })
  stopping : p.stops < stop_room → Step size p [] (record p { stops = p.stops + 1 })
  took :
      {id : ℕ} {ids : List ℕ} {c : Completer}
      → p.running ≡ true
      → p.seen ≡ id ∷ ids
      → on_seen p.completer id ≡ some c
      → Step size p [] (record p { completer = c; seen = ids })
  stopped :
      p.running ≡ true
      → p.stops ≢ 0
      → Step size p [] (record p { stops = p.stops - 1; running = false })

-- The states that steps lead to, with the ids that were given to `complete`.
pub data Reach (size : ℕ) (p : Process) : List ℕ → Process → Type 0 where
  here : Reach size p [] p
  later :
      {ids new : List ℕ} {q r : Process}
      → Reach size p ids q
      → Step size q new r
      → Reach size p (ids ++ new) r

-- What was taken of the ids that were given, and what `run` has made of them.
pub record Taken (size : ℕ) (cq : CompletionQueue) (ids : List ℕ) (p : Process) : Type 0 where
  pub taken : List ℕ
  pub in_order : ids ≡ taken ++ p.seen
  pub ran : run (new_completer cq) taken ≡ some p.completer
  pub room : length p.seen ≤ size

abbrev pub after : {A B : Type 0} → (A → Option B) → Option A → Option B
after f o = elim o [ none ↦ none | some a ↦ f a ]

pub first_part :
    {A B : Type 0} (o : Option A) (f : A → Option B) {b : B}
    → after f o ≡ some b
    → (a : A) × (o ≡ some a) × (f a ≡ some b)
first_part none f e = absurd cc
first_part (some a) f e = (a, refl, e)

-- A run goes on where its first part has ended.
pub run-append :
    (c : Completer) {c' : Completer} (xs ys : List ℕ)
    → run c xs ≡ some c'
    → run c (xs ++ ys) ≡ run c' ys
unfolding run
run-append c [] ys e = ap (after (λ d. run d ys)) e
run-append c (x ∷ xs) ys e =
    let (d, e₀, e₁) = first_part (on_seen c x) (λ d. run d xs) e in
    ap (after (λ d. run d (xs ++ ys))) e₀ ∙ run-append d xs ys e₁

run-one :
    (c : Completer) {c' : Completer} (id : ℕ) → on_seen c id ≡ some c' → run c (id ∷ []) ≡ some c'
unfolding run
run-one c id e = ap (after some) e

step-Taken :
    (size : ℕ) (cq : CompletionQueue) {ids new : List ℕ} {p q : Process}
    → Taken size cq ids p
    → Step size p new q
    → Taken size cq (ids ++ new) q
step-Taken size cq {ids} {p = p} t (told id room) = record {
  taken = t.taken;
  in_order = ap (λ xs. xs ++ id ∷ []) t.in_order ∙ append_assoc t.taken p.seen (id ∷ []);
  ran = t.ran;
  room = omega (arith, room, length-append p.seen (id ∷ []));
}
step-Taken size cq {ids} t (stopping room) = record {
  taken = t.taken;
  in_order = append-nil ids ∙ t.in_order;
  ran = t.ran;
  room = t.room;
}
step-Taken size cq {ids} {p = p} t (took {id} {ids = rest} {c} on first moved) = record {
  taken = t.taken ++ id ∷ [];
  in_order =
      append-nil ids
      ∙ t.in_order
      ∙ ap (λ xs. t.taken ++ xs) first
      ∙ sym (append_assoc t.taken (id ∷ []) rest);
  ran = run-append (new_completer cq) t.taken (id ∷ []) t.ran ∙ run-one p.completer id moved;
  room = omega (arith, t.room, ap length first);
}
step-Taken size cq {ids} t (stopped on some_stop) = record {
  taken = t.taken;
  in_order = append-nil ids ∙ t.in_order;
  ran = t.ran;
  room = t.room;
}

pub Reach-Taken :
    (size : ℕ) (cq : CompletionQueue) {ids : List ℕ} {p : Process}
    → Reach size (start cq) ids p
    → Taken size cq ids p
unfolding start run
Reach-Taken size cq here = record { taken = []; in_order = refl; ran = refl; room = omega arith }
Reach-Taken size cq (later r s) = step-Taken size cq (Reach-Taken size cq r) s
