-- ===== src/Registry.antt =====
-- register.go: FileRegistry, which keeps the registered descriptors and the index of each.
pub mod Index
pub mod Removal
use iouring_go.Base.{
  ℕ, suc, ◌+◌, ◌-◌, ◌<◌, ◌≡◌, List, [], ◌∷◌, ◌++◌, Option, none, some, ltb, if◌then◌else◌, length,
  get_elem?, take, drop, arith, Bool, true, false,
}
use iouring_go.Base.Int.{ℤ, pos, negsuc, eqb, is_neg, ◌-ℤ◌}
use iouring_go.Base.Outcome.{Outcome, done, spin, panic}
use iouring_go.Register.{Call, Returned, reregister_files, unregister_files}

-- A Go map, its newest entry first.
abbrev pub FdMap : Type 0
FdMap = List (ℤ × ℤ)

unfoldable pub lookup : ℤ → FdMap → Option ℤ
lookup k [] = none
lookup k ((j, v) ∷ m) = if eqb j k then some v else lookup k m

unfoldable pub insert : ℤ → ℤ → FdMap → FdMap
insert k v [] = (k, v) ∷ []
insert k v ((j, w) ∷ m) = if eqb j k then (k, v) ∷ m else (j, w) ∷ insert k v m

pub record FileRegistry : Type 0 where
  pub ring_fd : ℤ
  pub f : List ℤ
  pub f_id : FdMap

-- What a method returns: an error of the registry, or what the wrapper of the system call gave.
pub data Reply : Type 0 where
  not_registered : ℤ → Reply
  called : Returned → Reply

unfoldable pub new_file_registry : ℤ → FileRegistry
new_file_registry ring_fd = record { ring_fd = ring_fd; f = []; f_id = [] }

-- `r.fID[fd] = len(r.f) - 1`, and the test for a negative index below it.
set_id : ℤ → ℕ → FdMap → FdMap
set_id fd len m =
    let id : ℤ = pos len -ℤ pos 1 in
    if is_neg id then insert fd (pos 0) (insert fd id m) else insert fd id m

module _ (syscall : Call → ℕ) where
  -- `Register`
  unfoldable pub register : FileRegistry → ℤ → Outcome (Reply × FileRegistry)
  unfolding set_id
  register r fd =
      let f' : List ℤ = r.f ++ fd ∷ [] in
      elim (reregister_files syscall r.ring_fd f') [
        | done c ↦ done (called c, record r { f = f'; f_id = set_id fd (length f') r.f_id })
        | spin ↦ spin
        | panic ↦ panic
      ]

  -- `append(r.f[:id], r.f[id+1:]...)` panics unless `0 <= id < len(r.f)`; then the call is made
  -- with what is left. The entry of the map stays.
  remove_at : FileRegistry → ℤ → Outcome (Reply × FileRegistry)
  remove_at r (negsuc n) = panic
  remove_at r (pos n) =
      let f' : List ℤ = take n r.f ++ drop (suc n) r.f in
      if ltb n (length r.f)
      then elim (unregister_files syscall r.ring_fd f') [
        | done c ↦ done (called c, record r { f = f' })
        | spin ↦ spin
        | panic ↦ panic
      ]
      else panic

  -- `Unregister`
  unfoldable pub unregister : FileRegistry → ℤ → Outcome (Reply × FileRegistry)
  unfolding remove_at
  unregister r fd = elim (lookup fd r.f_id) [
    | none ↦ done (not_registered fd, r)
    | some id ↦ remove_at r id
  ]

-- `ID`: the index and whether there is one; Go's zero value is dropped.
unfoldable pub id : FileRegistry → ℤ → Option ℤ
id r fd = lookup fd r.f_id
