-- ===== src/Utils.antt =====
-- utils.go: saferStringToBytes, on the headers of a string and of a slice.
use iouring_go.Base.{ℕ, ◌≤◌, ◌≡◌, refl, List, [], ◌∷◌, some, get_elem?, arith}
use iouring_go.Ops.{Bytes}

-- reflect.StringHeader and reflect.SliceHeader
pub record StringHeader : Type 0 where
  pub addr : ℕ
  pub len : ℕ

pub record SliceHeader : Type 0 where
  pub addr : ℕ
  pub len : ℕ
  pub cap : ℕ

-- The header of the new slice after each assignment, in their order.
unfoldable pub assigned : StringHeader → SliceHeader → List SliceHeader
assigned s b =
    let b₁ : SliceHeader = record b { len = 0 } in
    let b₂ : SliceHeader = record b₁ { cap = 0 } in
    let b₃ : SliceHeader = record b₂ { addr = s.addr } in
    let b₄ : SliceHeader = record b₃ { cap = s.len } in
    let b₅ : SliceHeader = record b₄ { len = s.len } in b₁ ∷ b₂ ∷ b₃ ∷ b₄ ∷ b₅ ∷ []

-- `saferStringToBytes`; `fresh` is where `make` puts a slice of no bytes.
unfoldable pub safer_string_to_bytes : ℕ → StringHeader → SliceHeader
safer_string_to_bytes fresh s = record { addr = s.addr; len = s.len; cap = s.len }

-- The slice as the Prepare functions take it.
abbrev pub bytes_of : SliceHeader → Bytes
bytes_of b = record { addr = b.addr; len = b.len }

-- The slice that is returned is what the assignments leave of the new one, and at none of them is it
-- longer than its capacity.
pub assigned-bounded :
    (fresh : ℕ) (s : StringHeader)
    → (get_elem? (assigned s (record { addr = fresh; len = 0; cap = 0 })) 4
        ≡ some (safer_string_to_bytes fresh s))
      × ((i : ℕ) (b : SliceHeader)
          → get_elem? (assigned s (record { addr = fresh; len = 0; cap = 0 })) i ≡ some b
          → b.len ≤ b.cap)
unfolding assigned safer_string_to_bytes
assigned-bounded fresh s = (refl, λ i b at. ground arith)
