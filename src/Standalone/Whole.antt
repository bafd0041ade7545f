-- ===== src/Standalone/Whole.antt =====
-- examples/standalone/main.go: main as a whole, from the temporary file to the comparison.
use iouring_go.Base.{
  ℕ, ◌≡◌, refl, List, [], ◌∷◌, Bool, true, false, ◌==◌, if◌then◌else◌, arith, sym, ap, ◌∙◌,
}
use iouring_go.Base.Int.{ℤ}
use iouring_go.Base.Outcome.{Outcome, done, spin, panic}
use iouring_go.Ring.{Result, ok, err}
use iouring_go.Setup
use iouring_go.Standalone.{Params, CqLayout, setup, mmap_ring}
use iouring_go.Standalone.Program.{Sqe, Cqe, Queues, Answer, Reading, Exit, goes, fatal, read_twice}
use iouring_go.Standalone.Copied.{reads, mapped, read_twice-whole}

-- `bytes.Equal`
unfoldable pub equal : List ℕ → List ℕ → Bool
equal [] [] = true
equal [] (y ∷ ys) = false
equal (x ∷ xs) [] = false
equal (x ∷ xs) (y ∷ ys) = if x == y then equal xs ys else false

-- The constant of main: "testing  1,2,3".
abbrev pub content : List ℕ
content = 116 ∷ 101 ∷ 115 ∷ 116 ∷ 105 ∷ 110 ∷ 103 ∷ 32 ∷ 32 ∷ 49 ∷ 44 ∷ 50 ∷ 44 ∷ 51 ∷ []

-- `&Params{}`
abbrev zero_params : Params
zero_params = record {
  sq_entries = 0;
  cq_entries = 0;
  flags = 0;
  sq_thread_cpu = 0;
  sq_thread_idle = 0;
  features = 0;
  wq_fd = 0;
  sq_off = record {
    head = 0;
    tail = 0;
    ring_mask = 0;
    entries = 0;
    flags = 0;
    dropped = 0;
    array = 0;
  };
  cq_off = record { head = 0; tail = 0; mask = 0; entries = 0; overflow = 0; cqes = 0 };
}

-- What the operating system does: `created` is the descriptor of the temporary file, `written` and
-- `sought` the results on it, `params` what io_uring_setup fills in, `view` what lies at the mappings.
pub record System : Type 0 where
  pub created : Result ℤ
  pub written : Result ℤ
  pub sought : Result ℤ
  pub syscall : ℕ → Params → ℕ × ℕ
  pub params : Params
  pub mmap : ℕ → ℕ → ℕ × ℕ
  pub view : Setup.SqLayout × CqLayout → Queues
  pub kernel : Queues → Answer
  pub addr : ℕ → ℕ

-- How main ends, and whether the temporary file is left.
pub record End : Type 0 where
  pub outcome : Outcome (Exit (Unit {0}))
  pub file_left : Bool

-- `defer os.Remove`, which log.Fatal does not run.
unfoldable pub deferred : Outcome (Exit (Unit {0})) → End
deferred (done fatal) = record { outcome = done fatal; file_left = true }
deferred (done (goes u)) = record { outcome = done (goes u); file_left = false }
deferred spin = record { outcome = spin; file_left = true }
deferred panic = record { outcome = panic; file_left = false }

-- The test after the loop.
unfoldable pub compared : Outcome (Exit Reading) → Outcome (Exit (Unit {0}))
unfolding equal
compared (done (goes r)) = done (if equal content r.ex_content then goes tt else fatal)
compared (done fatal) = done fatal
compared spin = spin
compared panic = panic

module _ (s : System) where
  -- The loop and what follows, after MmapRing.
  unfoldable pub mapped_ring :
      ℤ → Setup.Result (Setup.SqLayout × CqLayout) → Outcome (Exit (Unit {0}))
  unfolding compared
  mapped_ring fd (Setup.err e) = done fatal
  mapped_ring fd (Setup.ok layout) =
      compared (read_twice s.kernel fd s.addr content (s.view layout))

  -- After Setup.
  unfoldable pub set_up : ℤ → Setup.Result ℕ → Outcome (Exit (Unit {0}))
  unfolding mapped_ring
  set_up fd (Setup.err e) = done fatal
  set_up fd (Setup.ok ring_fd) = mapped_ring fd (mmap_ring s.mmap s.params)

  -- After the Write to the temporary file, and after the Seek.
  unfoldable pub written : ℤ → Result ℤ → Result ℤ → Outcome (Exit (Unit {0}))
  unfolding set_up
  written fd (err e) r = done fatal
  written fd (ok n) (err e) = done fatal
  written fd (ok n) (ok m) = set_up fd (setup s.syscall 8 zero_params)

  unfoldable pub created : Result ℤ → End
  unfolding deferred written
  created (err e) = record { outcome = done fatal; file_left = false }
  created (ok fd) = deferred (written fd s.written s.sought)

  unfoldable pub main : End
  unfolding created
  main = created s.created

equal_sound : (xs ys : List ℕ) → equal xs ys ≡ true → xs ≡ ys
unfolding equal
equal_sound [] [] e = refl
equal_sound [] (y ∷ ys) e = absurd cc
equal_sound (x ∷ xs) [] e = absurd cc
equal_sound (x ∷ xs) (y ∷ ys) e = grind (arith, equal_sound xs ys)

if-goes :
    (b : Bool)
    → Path {0} (Outcome (Exit Unit)) (done (if b then goes tt else fatal)) (done (goes tt))
    → b ≡ true
if-goes true e = refl
if-goes false e = absurd cc

-- What the comparison lets through are the bytes of the file.
compared-returns :
    (o : Outcome (Exit Reading))
    → compared o ≡ done (goes tt)
    → (r : Reading) × (o ≡ done (goes r)) × (r.ex_content ≡ content)
unfolding compared
compared-returns (done (goes r)) e =
    (r, refl, sym (equal_sound content r.ex_content (if-goes (equal content r.ex_content) e)))
compared-returns (done fatal) e = absurd cc
compared-returns spin e = absurd cc
compared-returns panic e = absurd cc

compared-whole : (r : Reading) → r.ex_content ≡ content → compared (done (goes r)) ≡ done (goes tt)
unfolding compared
compared-whole r e = rw e refl

-- What main ends with, with its temporary file on `fd`.
abbrev pub Collected : System → ℤ → Type 0
Collected s fd =
    (layout : Setup.SqLayout × CqLayout) × ((r : Reading) × (mmap_ring s.mmap s.params
        ≡ Setup.ok layout)
      × (read_twice s.kernel fd s.addr content (s.view layout) ≡ done (goes r))
      × (r.ex_content ≡ content))

mapped_ring-returns :
    (s : System) (fd : ℤ) (m : Setup.Result (Setup.SqLayout × CqLayout))
    → mmap_ring s.mmap s.params ≡ m
    → mapped_ring s fd m ≡ done (goes tt)
    → Collected s fd
unfolding mapped_ring
mapped_ring-returns s fd (Setup.err x) q e = absurd cc
mapped_ring-returns s fd (Setup.ok l) q e =
    let (r, er, same) = compared-returns (read_twice s.kernel fd s.addr content (s.view l)) e in
    (l, (r, q, er, same))

set_up-returns :
    (s : System) (fd : ℤ) (o : Setup.Result ℕ) → set_up s fd o ≡ done (goes tt) → Collected s fd
unfolding set_up
set_up-returns s fd (Setup.err x) e = absurd cc
set_up-returns s fd (Setup.ok x) e = mapped_ring-returns s fd (mmap_ring s.mmap s.params) refl e

pub written-returns :
    (s : System) (fd : ℤ) (o o' : Result ℤ) → written s fd o o' ≡ done (goes tt) → Collected s fd
unfolding written
written-returns s fd (err x) o' e = absurd cc
written-returns s fd (ok n) (err x) e = absurd cc
written-returns s fd (ok n) (ok m) e = set_up-returns s fd (setup s.syscall 8 zero_params) e

-- When the calls of the operating system do not fail, the queues are as they are mapped and the kernel
-- reads the temporary file for the entry at the head, main returns, and the temporary file is removed.
pub main-returns :
    (s : System) {fd n m : ℤ} {ring_fd : ℕ} {layout : Setup.SqLayout × CqLayout} (e₀ e₁ : Sqe)
    (es : List Sqe) (a₀ a₁ : ℕ) (xs : List ℕ) (c₀ c₁ : Cqe) (cs : List Cqe)
    → s.created ≡ ok fd
    → s.written ≡ ok n
    → s.sought ≡ ok m
    → setup s.syscall 8 zero_params ≡ Setup.ok ring_fd
    → mmap_ring s.mmap s.params ≡ Setup.ok layout
    → s.view layout ≡ mapped e₀ e₁ es a₀ a₁ xs c₀ c₁ cs
    → s.kernel ≡ reads content
    → main s ≡ record { outcome = done (goes tt); file_left = false }
unfolding main created written set_up mapped_ring deferred
main-returns s {fd} {n} {m} {layout = l} e₀ e₁ es a₀ a₁ xs c₀ c₁ cs ec ew es' eu em ev ek =
    let (r, er, same) =
      read_twice-whole fd s.addr content e₀ e₁ es a₀ a₁ xs c₀ c₁ cs 7 refl (omega arith)
        (omega arith) in
    let looped : read_twice s.kernel fd s.addr content (s.view l) ≡ done (goes r) =
      ap (λ k. read_twice k fd s.addr content (s.view l)) ek
      ∙ ap (read_twice (reads content) fd s.addr content) ev
      ∙ er in
    let run : written s fd s.written s.sought ≡ done (goes tt) =
      ap (λ o. written s fd o s.sought) ew
      ∙ ap (written s fd (ok n)) es'
      ∙ ap (set_up s fd) eu
      ∙ ap (mapped_ring s fd) em
      ∙ ap compared looped
      ∙ compared-whole r same in
    ap (created s) ec ∙ ap deferred run
