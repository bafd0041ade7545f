-- ===== src/Registry/Removal.antt =====
-- register.go, `Unregister`: what it removes, and what it leaves behind in the map.
use iouring_go.Base.{
  ℕ, zero, suc, ◌+◌, ◌<◌, ◌≤◌, ◌≡◌, ◌≢◌, refl, List, [], ◌∷◌, ◌++◌, none, some, length, get_elem?,
  take, drop, arith, length-append, length-take, length-drop, lt_of_get, sym, ◌∙◌,
}
use iouring_go.Base.Int.{ℤ, pos}
use iouring_go.Base.Outcome.{done, panic}
use iouring_go.Register.{Call, files, unregister_files}
use iouring_go.Registry.{FileRegistry, Reply, called, unregister, id}
use iouring_go.Registry.Index.{IsIndexed}

-- The list without its element at `n`.
abbrev pub without : ℕ → List ℤ → List ℤ
without n xs = take n xs ++ drop (suc n) xs

get_elem?-without_below :
    (xs : List ℤ) (n i : ℕ) → i < n → get_elem? (without n xs) i ≡ get_elem? xs i
get_elem?-without_below [] zero i h = absurd (omega arith)
get_elem?-without_below [] (suc n) i h = refl
get_elem?-without_below (x ∷ xs) zero i h = absurd (omega arith)
get_elem?-without_below (x ∷ xs) (suc n) zero h = refl
get_elem?-without_below (x ∷ xs) (suc n) (suc i) h = get_elem?-without_below xs n i (omega arith)

get_elem?-without_above :
    (xs : List ℤ) (n i : ℕ) → n ≤ i → get_elem? (without n xs) i ≡ get_elem? xs (suc i)
get_elem?-without_above [] zero i h = refl
get_elem?-without_above [] (suc n) i h = refl
get_elem?-without_above (x ∷ xs) zero i h = refl
get_elem?-without_above (x ∷ xs) (suc n) zero h = absurd (omega arith)
get_elem?-without_above (x ∷ xs) (suc n) (suc i) h = get_elem?-without_above xs n i (omega arith)

length-without : (xs : List ℤ) (n : ℕ) → n < length xs → length (without n xs) + 1 ≡ length xs
length-without xs n h =
    omega
      (arith, length-append (take n xs) (drop (suc n) xs), length-take n xs, length-drop (suc n) xs)

without-only : (xs : List ℤ) (n : ℕ) → length xs ≡ 1 → n < length xs → without n xs ≡ []
without-only [] n e h = absurd (omega arith)
without-only (x ∷ []) zero e h = refl
without-only (x ∷ []) (suc n) e h = absurd (omega arith)
without-only (x ∷ y ∷ xs) n e h = absurd (omega arith)

IsIndexed-get :
    (r : FileRegistry) (fd : ℤ) (n : ℕ)
    → IsIndexed r
    → id r fd ≡ some (pos n)
    → get_elem? r.f n ≡ some fd
IsIndexed-get r fd n inv known = let (m, p, q) = inv fd (pos n) known in ground arith

-- What a removal at index `n` leaves: the list closed up, the map as it was, and a call of
-- IORING_UNREGISTER_FILES with the files that stay.
pub record Removes (r : FileRegistry) (n : ℕ) (reply : Reply) (r' : FileRegistry) : Type 0 where
  pub below : (i : ℕ) → i < n → get_elem? r'.f i ≡ get_elem? r.f i
  pub above : (i : ℕ) → n ≤ i → get_elem? r'.f i ≡ get_elem? r.f (suc i)
  pub shorter : length r'.f + 1 ≡ length r.f
  pub map_kept : r'.f_id ≡ r.f_id
  pub call :
      reply
      ≡ called (
        record { ring_fd = r.ring_fd; opcode = 3; arg = files r'.f; nr_args = length r'.f },
        none,
      )

module _ (syscall : Call → ℕ) where
  unregister_files-called :
      (fd : ℤ) (xs : List ℤ)
      → 0 < length xs
      → unregister_files syscall fd xs
        ≡ done (record { ring_fd = fd; opcode = 3; arg = files xs; nr_args = length xs }, none)
  unfolding unregister_files
  unregister_files-called fd [] h = absurd (omega arith)
  unregister_files-called fd (y ∷ xs) h = ground arith

  unregister-at :
      (r : FileRegistry) (fd : ℤ) (n : ℕ)
      → id r fd ≡ some (pos n)
      → n < length r.f
      → 1 < length r.f
      → unregister syscall r fd
        ≡ done (
          called (
            record {
              ring_fd = r.ring_fd;
              opcode = 3;
              arg = files (without n r.f);
              nr_args = length (without n r.f);
            },
            none,
          ),
          record r { f = without n r.f },
        )
  unfolding unregister id
  unregister-at r fd n known inside many =
      ground (arith, length-without r.f n inside, unregister_files-called r.ring_fd (without n r.f))

  -- Unregister of a descriptor known at the index `n`, in a list of more files than one, ends without
  -- an error whatever the kernel answers: the list is closed up at `n`, the map stays as it is, and
  -- the kernel is called with the files that stay.
  pub unregister-Removes :
      (r : FileRegistry) (fd : ℤ) (n : ℕ)
      → id r fd ≡ some (pos n)
      → n < length r.f
      → 1 < length r.f
      → (reply : Reply) × (r' : FileRegistry) × (unregister syscall r fd ≡ done (reply, r'))
        × Removes r n reply r'
  unregister-Removes r fd n known inside many = (
    _,
    _,
    unregister-at r fd n known inside many,
    record {
      below = get_elem?-without_below r.f n;
      above = get_elem?-without_above r.f n;
      shorter = length-without r.f n inside;
      map_kept = refl;
      call = refl;
    },
  )

  -- Where the indices of the map are right, removing a file that another one follows leaves a map
  -- in which some index is wrong.
  pub unregister_stale :
      (r : FileRegistry) (fd : ℤ) (n : ℕ)
      → IsIndexed r
      → id r fd ≡ some (pos n)
      → 1 < length r.f
      → get_elem? r.f (suc n) ≢ some fd
      → (reply : Reply) × (r' : FileRegistry) × (unregister syscall r fd ≡ done (reply, r'))
        × (¬ IsIndexed r')
  unfolding id
  unregister_stale r fd n inv known many next =
      let at = IsIndexed-get r fd n inv known in
      (
        _,
        _,
        unregister-at r fd n known (lt_of_get r.f n at) many,
        λ inv'. next (
            sym (get_elem?-without_above r.f n n (omega arith))
            ∙ IsIndexed-get (record r { f = without n r.f }) fd n inv' known),
      )

  -- Unregister of the only file of a registry, where the indices of the map are right, panics.
  pub unregister_only_panics :
      (r : FileRegistry) (fd : ℤ) (n : ℕ)
      → IsIndexed r
      → id r fd ≡ some (pos n)
      → length r.f ≡ 1
      → unregister syscall r fd ≡ panic
  unfolding unregister id unregister_files
  unregister_only_panics r fd n inv known one =
      let inside = lt_of_get r.f n (IsIndexed-get r fd n inv known) in
      ground (arith, without-only r.f n one)
