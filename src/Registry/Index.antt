-- ===== src/Registry/Index.antt =====
-- register.go, FileRegistry: the index kept for a descriptor is where it stands in the list.
use iouring_go.Base.{
  ℕ, zero, suc, ◌≡◌, ◌≢◌, refl, List, [], ◌∷◌, ◌++◌, none, some, length, get_elem?, arith,
  if◌then◌else◌, length-append, Bool-cases, inl, inr,
}
use iouring_go.Base.Int.{ℤ, pos, eqb, eqb_iff, eqb_refl}
use iouring_go.Base.Outcome.{done}
use iouring_go.Register.{Call, Returned, files, reregister_files}
use iouring_go.Registry.{
  FileRegistry, FdMap, Reply, called, lookup, insert, new_file_registry, register, id, set_id,
}

pub lookup-insert :
    (k j v : ℤ) (m : FdMap) → lookup j (insert k v m) ≡ (if eqb k j then some v else lookup j m)
unfolding lookup insert
lookup-insert k j v [] = refl
lookup-insert k j v ((i, w) ∷ m) =
    ground (arith, eqb_iff k j, eqb_iff i k, eqb_iff i j, lookup-insert k j v m)

pub get_elem?-append_last : (xs : List ℤ) (x : ℤ) → get_elem? (xs ++ x ∷ []) (length xs) ≡ some x
get_elem?-append_last [] x = refl
get_elem?-append_last (y ∷ xs) x = get_elem?-append_last xs x

pub get_elem?-append_left :
    (xs ys : List ℤ) (i : ℕ) {x : ℤ} → get_elem? xs i ≡ some x → get_elem? (xs ++ ys) i ≡ some x
get_elem?-append_left [] ys i h = ground arith
get_elem?-append_left (y ∷ xs) ys zero h = h
get_elem?-append_left (y ∷ xs) ys (suc i) h = get_elem?-append_left xs ys i h

-- The index of every descriptor that the map knows is where it stands in the list.
abbrev pub IsIndexed : FileRegistry → Type 0
IsIndexed r = (fd i : ℤ) → id r fd ≡ some i → (n : ℕ) × (i ≡ pos n) × (get_elem? r.f n ≡ some fd)

set_id-eq : (fd : ℤ) (n : ℕ) (m : FdMap) → set_id fd (suc n) m ≡ insert fd (pos n) m
unfolding set_id
set_id-eq fd n m = ground arith

-- The call of `ReregisterFiles` on a list that ends in `x`, with no error.
abbrev pub update_reply : ℤ → List ℤ → Reply
update_reply ring_fd xs =
    called (record { ring_fd = ring_fd; opcode = 6; arg = files xs; nr_args = length xs }, none)

abbrev pub registered : FileRegistry → ℤ → FileRegistry
registered r fd = record r { f = r.f ++ fd ∷ []; f_id = insert fd (pos (length r.f)) r.f_id }

-- What a registration leaves: the descriptor is last in the list and indexed there, every other
-- descriptor keeps its index, and the whole list goes to IORING_REGISTER_FILES_UPDATE.
pub record Registers (r : FileRegistry) (fd : ℤ) (reply : Reply) (r' : FileRegistry) : Type 0 where
  pub list : r'.f ≡ r.f ++ fd ∷ []
  pub own : id r' fd ≡ some (pos (length r.f))
  pub others : (j : ℤ) → j ≢ fd → id r' j ≡ id r j
  pub ring_kept : r'.ring_fd ≡ r.ring_fd
  pub call : reply ≡ update_reply r.ring_fd (r.f ++ fd ∷ [])

module _ (syscall : Call → ℕ) where
  reregister-called :
      (fd : ℤ) (xs : List ℤ) (x : ℤ)
      → (c : Returned) × (reregister_files syscall fd (xs ++ x ∷ []) ≡ done c)
        × (called c ≡ update_reply fd (xs ++ x ∷ []))
  unfolding reregister_files
  reregister-called fd [] x = (_, refl, ground arith)
  reregister-called fd (y ∷ xs) x = (_, refl, ground arith)

  register-registered :
      (r : FileRegistry) (fd : ℤ)
      → register syscall r fd ≡ done (update_reply r.ring_fd (r.f ++ fd ∷ []), registered r fd)
  unfolding register
  register-registered r fd =
      let (c, e, q) = reregister-called r.ring_fd r.f fd in
      let grown : length (r.f ++ fd ∷ []) ≡ suc (length r.f) =
        omega (arith, length-append r.f (fd ∷ [])) in
      rw (e, register) (rw q (rw (grown, set_id-eq fd (length r.f) r.f_id)))

registered-Registers :
    (r : FileRegistry) (fd : ℤ)
    → Registers r fd (update_reply r.ring_fd (r.f ++ fd ∷ [])) (registered r fd)
unfolding id
registered-Registers r fd = record {
  list = refl;
  own = rw (lookup-insert, eqb_refl fd);
  others = λ j ne. ground (arith, lookup-insert fd j (pos (length r.f)) r.f_id, eqb_iff fd j);
  ring_kept = refl;
  call = refl;
}

Registers-IsIndexed :
    {r r' : FileRegistry} {fd : ℤ} {reply : Reply}
    → Registers r fd reply r'
    → IsIndexed r
    → IsIndexed r'
Registers-IsIndexed {r} {r'} {fd} g inv j i h = elim (Bool-cases (eqb fd j)) [
  | inl same ↦
      let e = (eqb_iff fd j).0 same in
      (length r.f, ground (arith, g.own), rw (g.list, ← e) (get_elem?-append_last r.f fd))
  | inr other ↦
      let (n, p, q) = inv j i (ground (arith, g.others j, eqb_iff fd j)) in
      (n, p, rw g.list (get_elem?-append_left r.f (fd ∷ []) n q))
]

pub registered-IsIndexed : (r : FileRegistry) (fd : ℤ) → IsIndexed r → IsIndexed (registered r fd)
registered-IsIndexed r fd inv = Registers-IsIndexed (registered-Registers r fd) inv

pub new_file_registry-IsIndexed : (ring_fd : ℤ) → IsIndexed (new_file_registry ring_fd)
unfolding new_file_registry id lookup
new_file_registry-IsIndexed ring_fd fd i h = cc

-- `Register` ends without an error, whatever the kernel answers: the descriptor is last in the list
-- and indexed there, the others keep their indices, the call carries the whole list, and the index
-- of every descriptor is right, if it was before.
pub register-IsIndexed :
    (syscall : Call → ℕ) (r : FileRegistry) (fd : ℤ)
    → IsIndexed r
    → (reply : Reply) × (r' : FileRegistry) × (register syscall r fd ≡ done (reply, r'))
      × Registers r fd reply r'
      × IsIndexed r'
register-IsIndexed syscall r fd inv = (
  _,
  registered r fd,
  register-registered syscall r fd,
  registered-Registers r fd,
  registered-IsIndexed r fd inv,
)
