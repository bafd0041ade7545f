-- ===== src/Examples/Registering.antt =====
-- The file registry of register.go with three descriptors.
use iouring_go.Base.{ℕ, ◌≡◌, refl, arith}
use iouring_go.Base.Int.{pos}
use iouring_go.Base.Outcome.{done}
use iouring_go.Register.{Call}
use iouring_go.Registry.{
  FileRegistry, Reply, new_file_registry, register, unregister, id, lookup, insert,
}
use iouring_go.Registry.Index.{
  Registers, IsIndexed, registered, registered-IsIndexed, new_file_registry-IsIndexed,
  register-IsIndexed,
}
use iouring_go.Registry.Removal.{Removes, unregister-Removes}

-- A kernel that refuses every call.
abbrev refusing : Call → ℕ
refusing c = 22

abbrev one : FileRegistry
one = registered (new_file_registry (pos 3)) (pos 10)

abbrev three : FileRegistry
three = registered (registered one (pos 11)) (pos 12)

one-IsIndexed : IsIndexed one
one-IsIndexed =
    registered-IsIndexed (new_file_registry (pos 3)) (pos 10) (new_file_registry-IsIndexed (pos 3))

three-IsIndexed : IsIndexed three
three-IsIndexed =
    registered-IsIndexed (registered one (pos 11)) (pos 12)
      (registered-IsIndexed one (pos 11) one-IsIndexed)

register-IsIndexed_example :
    (reply : Reply) × (r' : FileRegistry) × (register refusing three (pos 13) ≡ done (reply, r'))
    × Registers three (pos 13) reply r'
    × IsIndexed r'
register-IsIndexed_example = register-IsIndexed refusing three (pos 13) three-IsIndexed

unregister-Removes_example :
    (reply : Reply) × (r' : FileRegistry) × (unregister refusing three (pos 11) ≡ done (reply, r'))
    × Removes three 1 reply r'
unfolding id lookup insert new_file_registry
unregister-Removes_example =
    unregister-Removes refusing three (pos 11) 1 refl (omega arith) (omega arith)
