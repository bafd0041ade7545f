-- ===== src/Register.antt =====
-- register.go: the wrappers of the io_uring_register system call.
use iouring_go.Base.{ℕ, List, [], ◌∷◌, Option, none, some, ltb, if◌then◌else◌, length}
use iouring_go.Base.Int.{ℤ}
use iouring_go.Base.Outcome.{Outcome, done, panic}

-- consts.go: the opcodes of io_uring_register(2).
abbrev pub reg_register_buffers : ℕ
reg_register_buffers = 0

abbrev pub reg_unregister_buffers : ℕ
reg_unregister_buffers = 1

abbrev pub reg_register_files : ℕ
reg_register_files = 2

abbrev pub reg_unregister_files : ℕ
reg_unregister_files = 3

abbrev pub reg_register_event_fd : ℕ
reg_register_event_fd = 4

abbrev pub reg_unregister_eventfd : ℕ
reg_unregister_eventfd = 5

abbrev pub reg_register_files_update : ℕ
reg_register_files_update = 6

abbrev pub reg_register_event_fd_async : ℕ
reg_register_event_fd_async = 7

-- The third argument: a number, or the address of a first element, which stands for the slice.
pub data Arg : Type 0 where
  number : ℤ → Arg
  files : List ℤ → Arg
  iovecs : List ℕ → Arg
  null : Arg

-- The arguments of one system call.
pub record Call : Type 0 where
  pub ring_fd : ℤ
  pub opcode : ℕ
  pub arg : Arg
  pub nr_args : ℕ

-- What a wrapper does: the call that it makes, and the error that it returns.
abbrev pub Returned : Type 0
Returned = Call × Option ℕ

-- `syscall` gives the errno of a call, an unsigned number, and 0 for success. `sys` is the whole
-- of a wrapper: the call, the test `errno < 0`, and the errno as an error.
module _ (syscall : Call → ℕ) where
  sys : Call → Returned
  sys c = (c, (if ltb (syscall c) 0 then some (syscall c) else none))

  unfoldable pub register_event_fd : ℤ → ℤ → Returned
  unfolding sys
  register_event_fd ring_fd fd =
      sys
        (record { ring_fd = ring_fd; opcode = reg_register_event_fd; arg = number fd; nr_args = 1 })

  unfoldable pub register_event_fd_async : ℤ → ℤ → Returned
  unfolding sys
  register_event_fd_async ring_fd fd = sys (record {
    ring_fd = ring_fd;
    opcode = reg_register_event_fd_async;
    arg = number fd;
    nr_args = 1;
  })

  -- The opcode is the one that registers.
  unfoldable pub unregister_event_fd : ℤ → ℤ → Returned
  unfolding sys
  unregister_event_fd ring_fd fd =
      sys (record { ring_fd = ring_fd; opcode = reg_register_event_fd; arg = null; nr_args = 0 })

  -- `&vecs[0]` and `&files[0]` panic on an empty slice.
  unfoldable pub register_buffers : ℤ → List ℕ → Outcome Returned
  unfolding sys
  register_buffers fd [] = panic
  register_buffers fd (v ∷ vs) = done (
      sys (record {
        ring_fd = fd;
        opcode = reg_register_buffers;
        arg = iovecs (v ∷ vs);
        nr_args = length (v ∷ vs);
      }))

  unfoldable pub unregister_buffers : ℤ → List ℕ → Outcome Returned
  unfolding sys
  unregister_buffers fd [] = panic
  unregister_buffers fd (v ∷ vs) = done (
      sys (record {
        ring_fd = fd;
        opcode = reg_unregister_buffers;
        arg = iovecs (v ∷ vs);
        nr_args = length (v ∷ vs);
      }))

  unfoldable pub register_files : ℤ → List ℤ → Outcome Returned
  unfolding sys
  register_files fd [] = panic
  register_files fd (v ∷ vs) = done (
      sys (record {
        ring_fd = fd;
        opcode = reg_register_files;
        arg = files (v ∷ vs);
        nr_args = length (v ∷ vs);
      }))

  unfoldable pub unregister_files : ℤ → List ℤ → Outcome Returned
  unfolding sys
  unregister_files fd [] = panic
  unregister_files fd (v ∷ vs) = done (
      sys (record {
        ring_fd = fd;
        opcode = reg_unregister_files;
        arg = files (v ∷ vs);
        nr_args = length (v ∷ vs);
      }))

  unfoldable pub reregister_files : ℤ → List ℤ → Outcome Returned
  unfolding sys
  reregister_files fd [] = panic
  reregister_files fd (v ∷ vs) = done (
      sys (record {
        ring_fd = fd;
        opcode = reg_register_files_update;
        arg = files (v ∷ vs);
        nr_args = length (v ∷ vs);
      }))
