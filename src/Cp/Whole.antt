-- ===== src/Cp/Whole.antt =====
-- examples/cp/iouring.go: the destination is the source.
use iouring_go.Base.{
  ℕ, zero, suc, ◌<◌, ◌≤◌, ◌≡◌, ◌≢◌, refl, List, [], ◌∷◌, ◌++◌, length, take, drop, arith, ap, ◌∙◌,
  sym, ◌⊎◌, inl, inr, take-drop, length-drop,
}
use mathlib.Core.List.{append-nil, append_assoc}
use iouring_go.Base.Int.{pos}
use iouring_go.Base.Outcome.{done}
use iouring_go.Ops.{Bytes}
use iouring_go.Fio.{nil, eof}
use iouring_go.Cp.{returned, Files, or_fatal, write_part, after_read, close_both, copy}

-- Files that keep what io.Reader, io.Writer and io.Closer promise: `input` is what is left to read,
-- `output` what has been written, and `memory` what the buffer holds.
pub record Keeps {S : Type 0} (files : Files S) (buf : Bytes) : Type 0 where
  pub input : S → List ℕ
  pub output : S → List ℕ
  pub memory : S → List ℕ
  pub at_end :
      (s : S)
      → input s ≡ []
      → (s' : S) × (files.read buf s ≡ done ((pos 0, eof), s'))
        × (input s' ≡ [])
        × (output s' ≡ output s)
  pub before_end :
      (s : S)
      → input s ≢ []
      → (n : ℕ) × (s' : S) × (files.read buf s ≡ done ((pos (suc n), nil), s'))
        × (suc n ≤ buf.len)
        × (suc n ≤ length (input s))
        × (input s' ≡ drop (suc n) (input s))
        × (output s' ≡ output s)
        × (take (suc n) (memory s') ≡ take (suc n) (input s))
  pub writes :
      (n : ℕ) (s : S)
      → (s' : S) × (files.write (record { addr = buf.addr; len = n }) s ≡ done ((pos n, nil), s'))
        × (input s' ≡ input s)
        × (output s' ≡ output s ++ take n (memory s))
  pub closes_r :
      (s : S)
      → (s' : S) × (files.close_r s ≡ done (nil, s'))
        × (input s' ≡ input s)
        × (output s' ≡ output s)
  pub closes_w :
      (s : S)
      → (s' : S) × (files.close_w s ≡ done (nil, s'))
        × (input s' ≡ input s)
        × (output s' ≡ output s)

none_or_some : (xs : List ℕ) → (xs ≡ []) ⊎ (xs ≢ [])
none_or_some [] = inl refl
none_or_some (x ∷ xs) = inr (λ e. absurd cc)

module _ {S : Type 0} {files : Files S} {buf : Bytes} (keeps : Keeps files buf) where
  close_both-kept :
      (s : S)
      → (s' : S) × (close_both files s ≡ done (returned, s'))
        × (keeps.input s' ≡ keeps.input s)
        × (keeps.output s' ≡ keeps.output s)
  unfolding close_both or_fatal
  close_both-kept s =
      let (s₁, e, i, o) = keeps.closes_r s in
      let (s₂, e', i', o') = keeps.closes_w s₁ in (s₂, ground (arith, e, e'), i' ∙ i, o' ∙ o)

  -- What is written, with what is left to read.
  appended :
      (n : ℕ) (s s₁ s₂ : S)
      → keeps.input s₂ ≡ drop n (keeps.input s)
      → keeps.output s₁ ≡ keeps.output s
      → keeps.output s₂ ≡ keeps.output s₁ ++ take n (keeps.memory s₁)
      → take n (keeps.memory s₁) ≡ take n (keeps.input s)
      → keeps.output s₂ ++ keeps.input s₂ ≡ keeps.output s ++ keeps.input s
  appended n s s₁ s₂ i o o' same =
      let xs : List ℕ = keeps.input s in
      ap (λ l. l ++ keeps.input s₂)
        (o' ∙ ap (λ l. l ++ take n (keeps.memory s₁)) o ∙ ap (λ l. keeps.output s ++ l) same)
      ∙ ap (λ l. keeps.output s ++ take n xs ++ l) i
      ∙ append_assoc (keeps.output s) (take n xs) (drop n xs)
      ∙ ap (λ l. keeps.output s ++ l) (take-drop n xs)

  -- With files that keep these promises and enough rounds, main returns from its loop, and the
  -- destination then holds, behind what it held, what was left of the source.
  pub copy-whole :
      (fuel : ℕ) (s : S)
      → length (keeps.input s) < fuel
      → (s' : S) × (copy files fuel buf s ≡ done (returned, s'))
        × (keeps.output s' ≡ keeps.output s ++ keeps.input s)
  unfolding copy after_read write_part or_fatal
  copy-whole zero s enough = absurd (omega (arith, enough))
  copy-whole (suc fuel) s enough = elim (none_or_some (keeps.input s)) [
    | inl empty ↦
        let (s₁, e, i, o) = keeps.at_end s empty in
        let (s₂, e', i', o') = close_both-kept s₁ in
        (
          s₂,
          ground (arith, e, e'),
          o' ∙ o ∙ sym (append-nil (keeps.output s)) ∙ ap (λ l. keeps.output s ++ l) (sym empty),
        )
    | inr left ↦
        let (n, s₁, e, fits, part, i, o, same) = keeps.before_end s left in
        let (s₂, e', i', o') = keeps.writes (suc n) s₁ in
        let less : length (keeps.input s₂) < fuel =
          omega
            (arith, enough, part, ap length i, ap length i', length-drop (suc n) (keeps.input s)) in
        let (s₃, e'', o'') = copy-whole fuel s₂ less in
        (s₃, ground (arith, e, e', e'', fits), o'' ∙ appended (suc n) s s₁ s₂ (i' ∙ i) o o' same)
  ]
