-- ===== src/Fio/Finding.antt =====
-- read_writer.go: what getCqe finds.
use iouring_go.Base.{
  get_elem?-drop, get_elem?-take, ℕ, zero, suc, sym, ap, ◌∙◌, inl, inr, ◌⊎◌, Bool-cases, ◌+◌, ◌-◌,
  ◌^◌, ◌<◌, ◌≤◌, ◌≡◌, ◌≢◌, refl, List, [], ◌∷◌, ◌++◌, some, get_elem?, length, take, drop, bit_and,
  replicate, arith, ◌==◌,
}
use iouring_go.Base.Int.{pos, negsuc, to_i64, ◌+ℤ◌, ℤ}
use iouring_go.Base.Outcome.{done}
use iouring_go.Entry.{CompletionEntry}
use iouring_go.Queue.{CompletionQueue}
use iouring_go.Fio.{
  Fio, look_from, look, look_again, find_cqe, take_result, Look, found, again, missing, View,
  IoResult, nil, errno,
}

-- No entry before the index `n` is for the request.
abbrev pub Free : ℕ → ℕ → List CompletionEntry → Type 0
Free req n es = (j : ℕ) (c : CompletionEntry) → j < n → get_elem? es j ≡ some c → c.user_data ≢ req

look_from-found :
    (req end x n : ℕ) (es : List CompletionEntry) {cqe : CompletionEntry}
    → get_elem? es n ≡ some cqe
    → cqe.user_data ≡ req
    → Free req n es
    → x + n ≤ end
    → look_from req end x es ≡ found (x + n) cqe
unfolding look_from
look_from-found req end x n [] at same free b = ground arith
look_from-found req end x zero (c ∷ es) at same free b = ground arith
look_from-found req end x (suc n) (c ∷ es) at same free b = ground (
  arith,
  free 0 c (omega arith) refl,
  look_from-found req end (suc x) n es at same (λ j d lt. free (suc j) d (omega (arith, lt)))
      (omega (arith, b)),
)

-- No entry at all is for the request.
abbrev pub IsAbsent : ℕ → List CompletionEntry → Type 0
IsAbsent req es = (j : ℕ) (c : CompletionEntry) → get_elem? es j ≡ some c → c.user_data ≢ req

-- What the method makes of a completion: an error leaves the offset and the completer alone.
pub data Took (i : Fio) (x : ℕ) : ℤ → IoResult → Fio → Type 0 where
  failed : (n : ℕ) → n + 1 < 2 ^ 31 → Took i x (negsuc n) (pos 0, errno (n + 1)) i
  moved :
      (n : ℕ)
      → Took i x
          (pos n)
          (pos n, nil)
          (record i { offset = to_i64 (i.offset +ℤ pos n); seen = i.seen ++ x ∷ [] })

take_result-Took :
    (x : ℕ) (cqe : CompletionEntry) (i : Fio) (res : ℤ)
    → cqe.res ≡ res
    → ((n : ℕ) → cqe.res ≡ negsuc n → n + 1 < 2 ^ 31)
    → (r : IoResult) × (i' : Fio) × (take_result x cqe i ≡ done (r, i')) × Took i x res r i'
unfolding take_result
take_result-Took x cqe i (pos n) e small = (_, _, ground arith, moved n)
take_result-Took x cqe i (negsuc n) e small =
    (_, _, ground (arith, small n e), failed n (small n e))

-- The completion of the request stands at the index `x`, and a pass that sees `cq` comes to it.
pub record Arrived (req x : ℕ) (cqe : CompletionEntry) (cq : CompletionQueue) : Type 0 where
  pub at : get_elem? cq.entries x ≡ some cqe
  pub same : cqe.user_data ≡ req
  pub from : bit_and cq.head cq.mask ≤ x
  pub to : x ≤ bit_and cq.tail cq.mask
  pub only :
      (j : ℕ) (c : CompletionEntry) → j < x → get_elem? cq.entries j ≡ some c → c.user_data ≢ req
  pub small : (n : ℕ) → cqe.res ≡ negsuc n → n + 1 < 2 ^ 31

-- The completion stands at the index `x` behind the end of a queue that has wrapped: the first loop sees
-- nothing of it up to the last entry, and the second one, which starts at 0, comes to it.
pub record Wrapped (req x : ℕ) (cqe : CompletionEntry) (v : View) : Type 0 where
  pub around : bit_and v.0.tail v.0.mask < bit_and v.0.head v.0.mask
  pub not_ahead :
      (j : ℕ) (c : CompletionEntry)
      → bit_and v.0.head v.0.mask ≤ j
      → get_elem? v.0.entries j ≡ some c
      → c.user_data ≢ req
  pub at : get_elem? v.1.entries x ≡ some cqe
  pub same : cqe.user_data ≡ req
  pub to : x < bit_and v.1.tail v.1.mask
  pub only :
      (j : ℕ) (c : CompletionEntry) → j < x → get_elem? v.1.entries j ≡ some c → c.user_data ≢ req
  pub small : (n : ℕ) → cqe.res ≡ negsuc n → n + 1 < 2 ^ 31

-- A pass comes to the completion in its first loop, or in its second.
pub data Comes (req x : ℕ) (cqe : CompletionEntry) (v : View) : Type 0 where
  at_first : Arrived req x cqe v.0 → Comes req x cqe v
  at_second : Wrapped req x cqe v → Comes req x cqe v

-- A pass that sees nothing of the request, and whose second loop stays within the entries.
pub record IsIdle (req : ℕ) (v : View) : Type 0 where
  pub first : IsAbsent req v.0.entries
  pub second : IsAbsent req v.1.entries
  pub within : bit_and v.1.tail v.1.mask ≤ length v.1.entries

abbrev Unfound : Look → Type 0
Unfound l = (l ≡ again) ⊎ (l ≡ missing)

look_from-Unfound :
    (req end x : ℕ) (es : List CompletionEntry) → IsAbsent req es → Unfound (look_from req end x es)
unfolding look_from
look_from-Unfound req end x [] free = inr refl
look_from-Unfound req end x (c ∷ es) free =
    let other = free 0 c refl in
    elim (look_from-Unfound req end (suc x) es (λ j d. free (suc j) d)) [
      | inl p ↦ inl (ground arith)
      | inr p ↦ elim (Bool-cases (x == end)) [
        | inl q ↦ inl (ground arith)
        | inr q ↦ inr (ground arith)
      ]
    ]

look-idle :
    (req : ℕ) (v : View) → IsIdle req v → (look req v ≡ done again) ⊎ (look req v ≡ done missing)
unfolding look look_again
look-idle req (cq, cq') idle =
    let h : ℕ = bit_and cq.head cq.mask in
    let end : ℕ = bit_and cq.tail cq.mask in
    let end' : ℕ = bit_and cq'.tail cq'.mask in
    let p =
      look_from-Unfound req end h (drop h cq.entries)
        (λ j c at. idle.first (h + j) c (sym (get_elem?-drop h j cq.entries) ∙ at)) in
    let q =
      look_from-Unfound req end' 0 (take end' cq'.entries)
        (λ j c at. idle.second j c (get_elem?-take end' j cq'.entries at)) in
    elim p [
      | inl a ↦ inl (ground arith)
      | inr a ↦ elim q [ inl b ↦ inl (ground arith) | inr b ↦ inr (ground (arith, idle.within)) ]
    ]

idle-skip :
    (req n : ℕ) (v : View) (vs : List View) (i : Fio)
    → IsIdle req v
    → find_cqe (replicate n v ++ vs) req i ≡ find_cqe vs req i
unfolding find_cqe
idle-skip req zero v vs i idle = refl
idle-skip req (suc n) v vs i idle =
    let rest = idle-skip req n v vs i idle in
    elim (look-idle req v idle) [ inl p ↦ ground arith | inr p ↦ ground arith ]

look-found :
    (req x : ℕ) (cqe : CompletionEntry) (v : View)
    → Arrived req x cqe v.0
    → look req v ≡ done (found x cqe)
unfolding look
look-found req x cqe (cq, cq') arrived =
    let h : ℕ = bit_and cq.head cq.mask in
    let n : ℕ = x - h in
    let there : h + n ≡ x = omega (arith, arrived.from) in
    let at : get_elem? (drop h cq.entries) n ≡ some cqe =
      get_elem?-drop h n cq.entries ∙ ap (get_elem? cq.entries) there ∙ arrived.at in
    let p =
      look_from-found req (bit_and cq.tail cq.mask) h n (drop h cq.entries) at arrived.same
        (λ j c lt e.
          arrived.only (h + j) c (omega (arith, lt, there))
            (sym (get_elem?-drop h j cq.entries) ∙ e))
        (omega (arith, there, arrived.to)) in
    ground (arith, p, there)

look_from-missing :
    (req end x : ℕ) (es : List CompletionEntry)
    → IsAbsent req es
    → end < x
    → look_from req end x es ≡ missing
unfolding look_from
look_from-missing req end x [] free lt = refl
look_from-missing req end x (c ∷ es) free lt = ground (
  arith,
  free 0 c refl,
  look_from-missing req end (suc x) es (λ j d. free (suc j) d) (omega (arith, lt)),
)

get_elem?-taken :
    (n j : ℕ) (es : List CompletionEntry) {c : CompletionEntry}
    → j < n
    → get_elem? es j ≡ some c
    → get_elem? (take n es) j ≡ some c
get_elem?-taken n j [] lt e = absurd cc
get_elem?-taken zero j (d ∷ es) lt e = absurd (omega (arith, lt))
get_elem?-taken (suc n) zero (d ∷ es) lt e = e
get_elem?-taken (suc n) (suc j) (d ∷ es) lt e = get_elem?-taken n j es (omega (arith, lt)) e

look-Wrapped :
    (req x : ℕ) (cqe : CompletionEntry) (v : View)
    → Wrapped req x cqe v
    → look req v ≡ done (found x cqe)
unfolding look look_again
look-Wrapped req x cqe (cq, cq') w =
    let h : ℕ = bit_and cq.head cq.mask in
    let end' : ℕ = bit_and cq'.tail cq'.mask in
    let p =
      look_from-missing req (bit_and cq.tail cq.mask) h (drop h cq.entries)
        (λ j c at. w.not_ahead (h + j) c (omega arith) (sym (get_elem?-drop h j cq.entries) ∙ at))
        w.around in
    let q =
      look_from-found req end' 0 x (take end' cq'.entries)
        (get_elem?-taken end' x cq'.entries w.to w.at) w.same
        (λ j c lt e. w.only j c lt (get_elem?-take end' j cq'.entries e)) (omega (arith, w.to)) in
    ground (arith, p, q)

look-Comes :
    (req x : ℕ) (cqe : CompletionEntry) (v : View)
    → Comes req x cqe v
    → look req v ≡ done (found x cqe)
look-Comes req x cqe v (at_first a) = look-found req x cqe v a
look-Comes req x cqe v (at_second w) = look-Wrapped req x cqe v w

Comes-small :
    {req x : ℕ} {cqe : CompletionEntry} {v : View}
    → Comes req x cqe v
    → (n : ℕ) → cqe.res ≡ negsuc n
    → n + 1 < 2 ^ 31
Comes-small (at_first a) = a.small
Comes-small (at_second w) = w.small

pub find_cqe-Took :
    (req n x : ℕ) (idle v : View) (vs : List View) (cqe : CompletionEntry) (i : Fio)
    → IsIdle req idle
    → Comes req x cqe v
    → (r : IoResult) × (i' : Fio) × (find_cqe (replicate n idle ++ v ∷ vs) req i ≡ done (r, i'))
      × Took i x cqe.res r i'
unfolding find_cqe
find_cqe-Took req n x idle v vs cqe i is_idle arrived =
    let (r, i', e, t) = take_result-Took x cqe i cqe.res refl (Comes-small arrived) in
    (
      r,
      i',
      ground (arith, idle-skip req n idle (v ∷ vs) i is_idle, look-Comes req x cqe v arrived, e),
      t,
    )
