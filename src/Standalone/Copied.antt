-- ===== src/Standalone/Copied.antt =====
-- examples/standalone/main.go: the two reads return the file.
use iouring_go.Base.{
  ℕ, zero, suc, ◌+◌, ◌*◌, ◌/◌, ◌^◌, ◌<◌, ◌≡◌, refl, List, [], ◌∷◌, ◌++◌, none, some, bit_and,
  length, get_elem?, set, take, drop, arith, ap, ◌∙◌, length-take, take-drop, length-drop,
}
use iouring_go.Base.Int.{ℤ, pos, to_i32}
use iouring_go.Base.Outcome.{done}
use iouring_go.Ring.{ok, err}
use iouring_go.Standalone.Program.{
  Sqe, Cqe, Queues, Reading, Answer, goes, queue_up, prepared, collect, completed, round,
  read_twice,
}

-- A kernel that reads `file` for the entry at the head, and completes it.
unfoldable pub serve : List ℕ → Sqe → Queues → Answer
serve file e q =
    let bytes = take e.len (drop e.off file) in
    record {
      res = ok (pos 1);
      queues = record q {
        sq_head = q.sq_head + 1;
        cq_entries =
            set q.cq_entries (bit_and q.cq_tail q.cq_mask)
              (record { user_data = e.user_data; res = pos (length bytes); flags = 0 });
        cq_tail = q.cq_tail + 1;
      };
      buffer = bytes;
    }

unfoldable pub reads : List ℕ → Queues → Answer
unfolding serve
reads file q = elim (get_elem? q.array (bit_and q.sq_head q.sq_mask)) [
  | none ↦ record { res = err 22; queues = q; buffer = [] }
  | some i ↦ elim (get_elem? q.sq_entries i) [
    | none ↦ record { res = err 22; queues = q; buffer = [] }
    | some e ↦ serve file e q
  ]
]

abbrev entry : ℕ → ℤ → ℕ → ℕ → ℕ → Sqe → Sqe
entry i fd offset addr n e = record e {
  opcode = 22;
  fd = to_i32 fd;
  off = offset;
  len = n;
  user_data = i + 1;
  addr = addr;
}

-- Queues as they are mapped, with the room for two entries and two completions.
abbrev pub mapped : Sqe → Sqe → List Sqe → ℕ → ℕ → List ℕ → Cqe → Cqe → List Cqe → Queues
mapped e₀ e₁ es a₀ a₁ xs c₀ c₁ cs = record {
  sq_head = 0;
  sq_tail = 0;
  sq_mask = 7;
  sq_entries = e₀ ∷ e₁ ∷ es;
  array = a₀ ∷ a₁ ∷ xs;
  cq_head = 0;
  cq_tail = 0;
  cq_mask = 15;
  cq_entries = c₀ ∷ c₁ ∷ cs;
}

take-all : (h : ℕ) (xs : List ℕ) → length xs ≡ h → take h xs ≡ xs
take-all zero [] e = refl
take-all zero (x ∷ xs) e = ground arith
take-all (suc h) [] e = refl
take-all (suc h) (x ∷ xs) e = ground (arith, take-all h xs)

halves : (h : ℕ) (xs : List ℕ) → length xs ≡ 2 * h → take h xs ++ take h (drop h xs) ≡ xs
halves h xs e =
    ap (λ ys. take h xs ++ ys) (take-all h (drop h xs) (omega (arith, e, length-drop h xs)))
    ∙ take-drop h xs

module _ (fd : ℤ) (addr : ℕ → ℕ) (file : List ℕ) (e₀ e₁ : Sqe) (es : List Sqe) (a₀ a₁ : ℕ)
    (xs : List ℕ) (c₀ c₁ : Cqe) (cs : List Cqe) (h : ℕ) where
  -- The state after the first round.
  abbrev half : Reading
  half = record {
    queues = record (mapped e₀ e₁ es a₀ a₁ xs c₀ c₁ cs) {
      sq_head = 1;
      sq_tail = 1;
      sq_entries = entry 0 fd 0 (addr 0) h e₀ ∷ e₁ ∷ es;
      array = 0 ∷ a₁ ∷ xs;
      cq_head = 1;
      cq_tail = 1;
      cq_entries = record { user_data = 1; res = pos h; flags = 0 } ∷ c₁ ∷ cs;
    };
    offset = h;
    ex_content = take h file;
  }

  first_round :
      length file ≡ 2 * h
      → 0 < h
      → h < 2 ^ 31
      → round
          (reads file)
          fd
          addr
          file
          0
          (record { queues = mapped e₀ e₁ es a₀ a₁ xs c₀ c₁ cs; offset = 0; ex_content = [] })
        ≡ done (goes half)
  unfolding round queue_up prepared completed collect reads
  first_round e some_bytes small =
      let n : length file / 2 ≡ h = omega (arith, e) in
      let m : length (take h file) ≡ h = omega (arith, e, length-take h file) in
      ground (arith, n, m)

  -- And after the second.
  abbrev whole : Reading
  whole = record {
    queues = record (half.queues) {
      sq_head = 2;
      sq_tail = 2;
      sq_entries = entry 0 fd 0 (addr 0) h e₀ ∷ entry 1 fd h (addr 1) h e₁ ∷ es;
      array = 0 ∷ 1 ∷ xs;
      cq_head = 2;
      cq_tail = 2;
      cq_entries =
          record { user_data = 1; res = pos h; flags = 0 }
          ∷ record { user_data = 2; res = pos h; flags = 0 }
          ∷ cs;
    };
    offset = h + h;
    ex_content = take h file ++ take h (drop h file);
  }

  second_round :
      length file ≡ 2 * h
      → 0 < h
      → h < 2 ^ 31
      → round (reads file) fd addr file 1 half ≡ done (goes whole)
  unfolding round queue_up prepared completed collect reads
  second_round e some_bytes small =
      let n : length file / 2 ≡ h = omega (arith, e) in
      let m : length (take h (drop h file)) ≡ h =
        omega (arith, e, length-take h (drop h file), length-drop h file) in
      ground (arith, n, m)

  -- On queues as they are mapped, and with a kernel that reads the file for the entry at the head, the
  -- two rounds of main end without a failure, and the bytes that they collect are the file, when its
  -- length is even and not 0.
  pub read_twice-whole :
      length file ≡ 2 * h
      → 0 < h
      → h < 2 ^ 31
      → (r : Reading) × (read_twice (reads file) fd addr file (mapped e₀ e₁ es a₀ a₁ xs c₀ c₁ cs)
          ≡ done (goes r))
        × (r.ex_content ≡ file)
  unfolding read_twice
  read_twice-whole e some_bytes small = (
    whole,
    ground (arith, first_round e some_bytes small, second_round e some_bytes small),
    halves h file e,
  )
