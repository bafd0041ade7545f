-- ===== src/New/Opening.antt =====
-- ring.go, New with the options of ring_option.go: the ring, or the first error.
use iouring_go.Base.{
  ℕ, ◌≡◌, refl, Bool, true, List, [], ◌∷◌, ◌++◌, if◌then◌else◌, sym, Option, none, some, arith,
  Option-cases, inl, inr, ◌∙◌, ap, subst, ◌⊎◌,
}
use iouring_go.Base.Int.{ℤ, pos}
use iouring_go.Register.{Call, number, register_event_fd, register_event_fd_async}
use mathlib.Core.List.{append-nil, append_assoc}
use iouring_go.Registry.{FileRegistry, new_file_registry}
use iouring_go.Setup.{Params, SqLayout, CqLayout, Result, ok, err, setup, mmap_ring}
use iouring_go.New.{
  RingOption, with_debug, with_event_fd, with_file_registry, with_id, with_enter_err_handler,
  with_deadline, NewRing, Memory, plain, apply, with_fd, apply_all, new, zero_params,
}

-- The value that the last option which sets it gives to something, where `f` says what an option sets.
unfoldable pub last_of {ℓ} : {A : Type ℓ} → (RingOption → Option A) → List RingOption → A → A
last_of f [] d = d
last_of f (o ∷ os) d = last_of f os (elim (f o) [ none ↦ d | some a ↦ a ])

abbrev pub id_of : RingOption → Option ℕ
id_of (with_id id) = some id
id_of _ = none

abbrev pub deadline_of : RingOption → Option ℕ
deadline_of (with_deadline d) = some d
deadline_of _ = none

abbrev pub debug_of : RingOption → Option Bool
debug_of with_debug = some true
debug_of _ = none

abbrev pub handler_of : RingOption → Option (Option ℕ)
handler_of (with_enter_err_handler f) = some (some f)
handler_of _ = none

abbrev pub registry_of : ℤ → RingOption → Option (Option FileRegistry)
registry_of ring_fd with_file_registry =
    some (some (record { ring_fd = ring_fd; f = []; f_id = [] }))
registry_of ring_fd _ = none

-- The submitters that run after the options: each WithDeadline starts one.
unfoldable pub started : List RingOption → List ℕ → List ℕ
started [] ds = ds
started (with_deadline d ∷ os) ds = started os (d ∷ ds)
started (_ ∷ os) ds = started os ds

started-first :
    (o : RingOption) (os : List RingOption) (ds : List ℕ)
    → started os (started (o ∷ []) ds) ≡ started (o ∷ os) ds
unfolding started
started-first with_debug os ds = refl
started-first (with_event_fd i f a) os ds = refl
started-first with_file_registry os ds = refl
started-first (with_id i) os ds = refl
started-first (with_enter_err_handler f) os ds = refl
started-first (with_deadline d) os ds = refl

Result-cases : {A : Type 0} (r : Result A) → ((a : A) × (r ≡ ok a)) ⊎ ((e : ℕ) × (r ≡ err e))
Result-cases (ok a) = inl (a, refl)
Result-cases (err e) = inr (e, refl)

module _ (syscall : Call → ℕ) (eventfd : ℕ → ℤ → Result ℤ) where
  -- The error of an option: only eventfd(2) has one.
  abbrev pub error_of : RingOption → Option ℕ
  error_of (with_event_fd initval flags async) = elim (eventfd initval flags) [
    | err e ↦ some e
    | ok fd ↦ none
  ]
  error_of _ = none

  abbrev pub event_fd_of : RingOption → Option ℤ
  event_fd_of (with_event_fd initval flags async) = elim (eventfd initval flags) [
    | err e ↦ none
    | ok fd ↦ some fd
  ]
  event_fd_of _ = none

  -- The call of io_uring_register(2) of an option.
  abbrev pub calls_of : ℤ → RingOption → List Call
  calls_of ring_fd (with_event_fd initval flags async) = elim (eventfd initval flags) [
    | err e ↦ []
    | ok fd ↦
        record { ring_fd = ring_fd; opcode = if async then 7 else 4; arg = number fd; nr_args = 1 }
        ∷ []
  ]
  calls_of ring_fd _ = []

  unfoldable pub all_calls : ℤ → List RingOption → List Call
  all_calls ring_fd [] = []
  all_calls ring_fd (o ∷ os) = calls_of ring_fd o ++ all_calls ring_fd os

  -- The error that the first failing option gives.
  unfoldable pub first_error : List RingOption → Option ℕ
  first_error [] = none
  first_error (o ∷ os) = elim (error_of o) [ none ↦ first_error os | some e ↦ some e ]

  -- What a sequence of options makes of a ring.
  pub record Configured (opts : List RingOption) (n n' : NewRing) : Type 0 where
    pub idx : n'.ring.idx ≡ last_of id_of opts n.ring.idx
    pub deadline : n'.ring.deadline ≡ last_of deadline_of opts n.ring.deadline
    pub debug : n'.ring.debug ≡ last_of debug_of opts n.ring.debug
    pub handler : n'.enter_err_handler ≡ last_of handler_of opts n.enter_err_handler
    pub event_fd : n'.ring.event_fd ≡ last_of event_fd_of opts n.ring.event_fd
    pub file_reg : n'.ring.file_reg ≡ last_of (registry_of n.ring.fd) opts n.ring.file_reg
    pub submitters : n'.submitters ≡ started opts n.submitters
    pub registered : n'.registered ≡ n.registered ++ all_calls n.ring.fd opts
    pub fd : n'.ring.fd ≡ n.ring.fd
    pub p : n'.ring.p ≡ n.ring.p
    pub sq : n'.ring.sq ≡ n.ring.sq
    pub cq : n'.ring.cq ≡ n.ring.cq
    pub completions : n'.completions ≡ n.completions
    pub running : n'.running ≡ true

  -- One option, which is to succeed.
  record Sets (o : RingOption) (n n' : NewRing) : Type 0 where
    idx : n'.ring.idx ≡ last_of id_of (o ∷ []) n.ring.idx
    deadline : n'.ring.deadline ≡ last_of deadline_of (o ∷ []) n.ring.deadline
    debug : n'.ring.debug ≡ last_of debug_of (o ∷ []) n.ring.debug
    handler : n'.enter_err_handler ≡ last_of handler_of (o ∷ []) n.enter_err_handler
    event_fd : n'.ring.event_fd ≡ last_of event_fd_of (o ∷ []) n.ring.event_fd
    file_reg : n'.ring.file_reg ≡ last_of (registry_of n.ring.fd) (o ∷ []) n.ring.file_reg
    submitters : n'.submitters ≡ started (o ∷ []) n.submitters
    registered : n'.registered ≡ n.registered ++ calls_of n.ring.fd o
    fd : n'.ring.fd ≡ n.ring.fd
    p : n'.ring.p ≡ n.ring.p
    sq : n'.ring.sq ≡ n.ring.sq
    cq : n'.ring.cq ≡ n.ring.cq
    completions : n'.completions ≡ n.completions

  apply-Sets :
      (o : RingOption) (n : NewRing)
      → ((apply syscall eventfd o n).0 ≡ error_of o)
        × (error_of o ≡ none → Sets o n (apply syscall eventfd o n).1)
  unfolding apply with_fd register_event_fd register_event_fd_async last_of new_file_registry
      started
  apply-Sets with_debug n = ground (arith, append-nil n.registered)
  apply-Sets (with_event_fd initval flags async) n = ground (arith, append-nil n.registered)
  apply-Sets with_file_registry n = ground (arith, append-nil n.registered)
  apply-Sets (with_id id) n = ground (arith, append-nil n.registered)
  apply-Sets (with_enter_err_handler f) n = ground (arith, append-nil n.registered)
  apply-Sets (with_deadline d) n = ground (arith, append-nil n.registered)

  -- The options end with the error of the first that fails, or configure the ring.
  pub data Applies (opts : List RingOption) (n : NewRing) : Result NewRing → Type 0 where
    failed : {e : ℕ} → first_error opts ≡ some e → Applies opts n (err e)
    configured :
        {n' : NewRing} → first_error opts ≡ none → Configured opts n n' → Applies opts n (ok n')

  first-Configured :
      {o : RingOption} {os : List RingOption} {n m n' : NewRing}
      → Sets o n m
      → Configured os m n'
      → Configured (o ∷ os) n n'
  unfolding last_of all_calls
  first-Configured {o} {os} {n} {m} h c = record {
    file_reg =
        c.file_reg
        ∙ ap (last_of (registry_of m.ring.fd) os) h.file_reg
        ∙ ap
            (λ z.
              last_of (registry_of z) os (last_of (registry_of n.ring.fd) (o ∷ []) n.ring.file_reg))
            h.fd;
    submitters = c.submitters ∙ ap (started os) h.submitters ∙ started-first o os n.submitters;
    registered =
        c.registered
        ∙ ap (λ xs. xs ++ all_calls m.ring.fd os) h.registered
        ∙ append_assoc n.registered (calls_of n.ring.fd o) (all_calls m.ring.fd os)
        ∙ ap (λ z. n.registered ++ (calls_of n.ring.fd o ++ all_calls z os)) h.fd;
    idx = c.idx ∙ ap (last_of id_of os) h.idx;
    deadline = c.deadline ∙ ap (last_of deadline_of os) h.deadline;
    debug = c.debug ∙ ap (last_of debug_of os) h.debug;
    handler = c.handler ∙ ap (last_of handler_of os) h.handler;
    event_fd = c.event_fd ∙ ap (last_of event_fd_of os) h.event_fd;
    fd = c.fd ∙ h.fd;
    p = c.p ∙ h.p;
    sq = c.sq ∙ h.sq;
    cq = c.cq ∙ h.cq;
    completions = c.completions ∙ h.completions;
    running = c.running;
  }

  first-Applies :
      (o : RingOption) (os : List RingOption) (n : NewRing)
      → error_of o ≡ none
      → {res : Result NewRing} → Applies os (apply syscall eventfd o n).1 res
      → Applies (o ∷ os) n res
  unfolding first_error
  first-Applies o os n e (failed f) = failed (ground (arith, e, f))
  first-Applies o os n e (configured f c) =
      configured (ground (arith, e, f)) (first-Configured ((apply-Sets o n).1 e) c)

  pub apply_all-Applies :
      (opts : List RingOption) (n : NewRing) → Applies opts n (apply_all syscall eventfd opts n)
  unfolding apply_all first_error last_of started all_calls
  apply_all-Applies [] n = configured refl (record {
    idx = refl;
    deadline = refl;
    debug = refl;
    handler = refl;
    event_fd = refl;
    file_reg = refl;
    submitters = refl;
    registered = sym (append-nil n.registered);
    fd = refl;
    p = refl;
    sq = refl;
    cq = refl;
    completions = refl;
    running = refl;
  })
  apply_all-Applies (o ∷ os) n =
      let a = (apply-Sets o n).0 in
      elim (Option-cases (error_of o)) [
        | inl e ↦
            subst (Applies (o ∷ os) n) (ground (arith, a, e))
              (first-Applies o os n e (apply_all-Applies os (apply syscall eventfd o n).1))
        | inr (x, e) ↦
            subst (Applies (o ∷ os) n) (ground (arith, a, e)) (failed {e = x} (ground (arith, e)))
      ]

  module _ (setup_call : ℕ → Params → ℕ × ℕ) (filled : ℕ → Params → Params) (mmap : ℕ → ℕ → ℕ × ℕ)
      (memory : Memory) (size : ℕ) (given : Option Params) (opts : List RingOption) where
    abbrev pub params_of : Params
    params_of = elim given [ none ↦ zero_params | some q ↦ q ]

    -- How New ends: with the error of io_uring_setup, that of the mapping, or what the options make of
    -- a ring over the mapped queues.
    pub data Ends : Result NewRing → Type 0 where
      no_ring : {e : ℕ} → setup setup_call size params_of ≡ err e → Ends (err e)
      no_mapping :
          {fd e : ℕ}
          → setup setup_call size params_of ≡ ok fd
          → mmap_ring mmap (filled size params_of) ≡ err e
          → Ends (err e)
      opened :
          {fd : ℕ} {sl : SqLayout} {cl : CqLayout} {res : Result NewRing}
          → setup setup_call size params_of ≡ ok fd
          → mmap_ring mmap (filled size params_of) ≡ ok (sl, cl)
          → Applies opts (plain (pos fd) (filled size params_of) sl cl (memory sl cl)) res
          → Ends res

    -- New returns the errno of io_uring_setup, or else the error of the mapping, or else the error of the
    -- first option that fails; otherwise it returns a ring over the queues mapped, that runs and whose
    -- id, deadline, debug flag, handler, eventfd and file registry are those of the last option that
    -- sets each, with a submitter started for each WithDeadline and its eventfd registered for each
    -- WithEventFd, in order.
    pub new-Ends : Ends (new syscall eventfd setup_call filled mmap memory size given opts)
    unfolding new
    new-Ends = elim (Result-cases (setup setup_call size params_of)) [
      | inr (e, h) ↦ subst Ends (ground (arith, h)) (no_ring h)
      | inl (fd, h) ↦ elim (Result-cases (mmap_ring mmap (filled size params_of))) [
        | inr (e, h') ↦ subst Ends (ground (arith, h, h')) (no_mapping h h')
        | inl ((sl, cl), h') ↦ subst Ends (ground (arith, h, h')) (
            opened h h' (
              apply_all-Applies opts (plain (pos fd) (filled size params_of) sl cl (memory sl cl))))
      ]
    ]
