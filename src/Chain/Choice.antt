-- ===== src/Chain/Choice.antt =====
-- Who stands before and behind a server in the chain of source/chain_server.c.
use list_server.Base.{
  ℕ, zero, suc, ◌+◌, ◌≡◌, refl, sym, ap, ◌∙◌, ◌⊎◌, inl, inr, true, none, some, List, [], ◌∷◌, arith,
  ◌&&◌, CStr, get_elem?, All, ℤ, ltb_ℤ, ◌≤ℤ◌, Bool-cases, Option-cases, subst,
}
use list_server.Chain.{
  int_max, int_min, node_number, Best, next_step, next_loop, prev_step, prev_loop, chosen,
  successor, predecessor,
}

-- A name whose number is above `lower` has one that is `n` or more.
abbrev pub NotCloser : ℤ → ℤ → CStr → Type 0
NotCloser lower n name = (num : ℤ) → node_number name ≡ some num → ltb_ℤ lower num ≡ true → n ≤ℤ num

-- A step keeps what it has, or takes a name that is closer.
next_step_lem :
    (lower : ℤ) (name : CStr) (i : ℕ) (best : Best)
    → let r = next_step lower name i best in
      NotCloser lower r.0 name
      × (r.0 ≤ℤ best.0)
      × ((r ≡ best) ⊎ ((r.1 ≡ some i) × (node_number name ≡ some r.0) × (ltb_ℤ lower r.0 ≡ true)))
unfolding next_step
next_step_lem lower name i (next, at) = elim (Option-cases (node_number name)) [
  | inl e ↦ ground (arith, e)
  | inr (num, e) ↦ elim (Bool-cases (ltb_ℤ lower num && ltb_ℤ num next)) [
    | inl better ↦ ground (arith, e, better)
    | inr worse ↦ ground (arith, e, worse)
  ]
]

NotCloser-≤ :
    (lower m n : ℤ) (name : CStr) → m ≤ℤ n → NotCloser lower n name → NotCloser lower m name
NotCloser-≤ lower m n name h c = λ num e p. let far = c num e p in omega arith

-- Where a loop that began with the bound `best` and the index `i` found its bound: in `best`, or at
-- a name.
abbrev Found : (ℤ → Type 0) → List CStr → ℕ → Best → Best → Type 0
Found Good names i best r =
    (r ≡ best)
    ⊎ ((j : ℕ) × (name : CStr) × (r.1 ≡ some (i + j))
        × (get_elem? names j ≡ some name)
        × (node_number name ≡ some r.0)
        × Good r.0)

-- One step and the loop behind it.
Found-step :
    (Good : ℤ → Type 0) (name : CStr) (names : List CStr) (i : ℕ) (best now r : Best)
    → (now ≡ best) ⊎ ((now.1 ≡ some i) × (node_number name ≡ some now.0) × Good now.0)
    → Found Good names (suc i) now r
    → Found Good (name ∷ names) i best r
Found-step Good name names i best now r one (inr (j, x, e, g, n, ok)) =
    inr (suc j, x, e ∙ ap some (omega arith), g, n, ok)
Found-step Good name names i best now r (inl e) (inl e') = inl (e' ∙ e)
Found-step Good name names i best now r (inr (at, n, ok)) (inl e) = inr (
  zero,
  name,
  ap (λ (b : Best). b.1) e ∙ at ∙ ap some (omega arith),
  refl,
  subst (λ (b : Best). node_number name ≡ some b.0) (sym e) n,
  subst (λ (b : Best). Good b.0) (sym e) ok,
)

next_loop-Found :
    (lower : ℤ) (names : List CStr) (i : ℕ) (best : Best)
    → let r = next_loop lower names i best in
      All (NotCloser lower r.0) names
      × (r.0 ≤ℤ best.0)
      × Found (λ n. ltb_ℤ lower n ≡ true) names i best r
unfolding next_loop
next_loop-Found lower [] i best = (tt, omega arith, inl refl)
next_loop-Found lower (name ∷ names) i best =
    let now = next_step lower name i best in
    let (far, le, one) = next_step_lem lower name i best in
    let (rest, le', found) = next_loop-Found lower names (suc i) now in
    (
      (NotCloser-≤ lower _ now.0 name le' far, rest),
      omega arith,
      Found-step (λ n. ltb_ℤ lower n ≡ true) name names i best now _ one found,
    )

abbrev pub IsAt : CStr → List CStr → Type 0
IsAt name names = (j : ℕ) × (get_elem? names j ≡ some name)

pub All-IsAt :
    (P : CStr → Type 0) (name : CStr) (names : List CStr) → All P names → IsAt name names → P name
All-IsAt P name [] h (j, e) = ground (arith, e)
All-IsAt P name (x ∷ xs) h (zero, e) = subst P (ground (arith, e)) h.0
All-IsAt P name (x ∷ xs) h (suc j, e) = All-IsAt P name xs h.1 (j, e)

-- What `update` of the server connects to: the name of the least number above its own; and it
-- connects to nobody only where every number above its own is INT_MAX or more.
pub successor_lem :
    (lower : ℤ) (names : List CStr)
    → ((name : CStr) × (n : ℤ) × (successor lower names ≡ some name)
        × IsAt name names
        × (node_number name ≡ some n)
        × (ltb_ℤ lower n ≡ true)
        × All (NotCloser lower n) names)
      ⊎ ((successor lower names ≡ none) × All (NotCloser lower int_max) names)
unfolding successor
successor_lem lower names =
    let (all, le, found) = next_loop-Found lower names 0 (int_max, none) in
    elim found [
      | inl e ↦
          inr (ap (chosen names) e, subst (λ (b : Best). All (NotCloser lower b.0) names) e all)
      | inr (j, name, at, g, n, ok) ↦ inl (name, _, ground (arith, at, g), (j, g), n, ok, all)
    ]

-- A name whose number is below `maximum` has one that is `n` or less.
abbrev pub NotCloserBelow : ℤ → ℤ → CStr → Type 0
NotCloserBelow maximum n name =
    (num : ℤ) → node_number name ≡ some num → ltb_ℤ num maximum ≡ true → num ≤ℤ n

prev_step_lem :
    (maximum : ℤ) (name : CStr) (i : ℕ) (best : Best)
    → let r = prev_step maximum name i best in
      NotCloserBelow maximum r.0 name
      × (best.0 ≤ℤ r.0)
      × ((r ≡ best) ⊎ ((r.1 ≡ some i) × (node_number name ≡ some r.0) × (ltb_ℤ r.0 maximum ≡ true)))
unfolding prev_step
prev_step_lem maximum name i (prev, at) = elim (Option-cases (node_number name)) [
  | inl e ↦ ground (arith, e)
  | inr (num, e) ↦ elim (Bool-cases (ltb_ℤ num maximum && ltb_ℤ prev num)) [
    | inl better ↦ ground (arith, e, better)
    | inr worse ↦ ground (arith, e, worse)
  ]
]

NotCloserBelow-≤ :
    (maximum m n : ℤ) (name : CStr)
    → m ≤ℤ n
    → NotCloserBelow maximum m name
    → NotCloserBelow maximum n name
NotCloserBelow-≤ maximum m n name h c = λ num e p. let far = c num e p in omega arith

prev_loop-Found :
    (maximum : ℤ) (names : List CStr) (i : ℕ) (best : Best)
    → let r = prev_loop maximum names i best in
      All (NotCloserBelow maximum r.0) names
      × (best.0 ≤ℤ r.0)
      × Found (λ n. ltb_ℤ n maximum ≡ true) names i best r
unfolding prev_loop
prev_loop-Found maximum [] i best = (tt, omega arith, inl refl)
prev_loop-Found maximum (name ∷ names) i best =
    let now = prev_step maximum name i best in
    let (far, le, one) = prev_step_lem maximum name i best in
    let (rest, le', found) = prev_loop-Found maximum names (suc i) now in
    (
      (NotCloserBelow-≤ maximum now.0 _ name le' far, rest),
      omega arith,
      Found-step (λ n. ltb_ℤ n maximum ≡ true) name names i best now _ one found,
    )

-- Whose list `init_list` asks for: the name of the greatest number below the server's own; and
-- nobody's only where every number below its own is INT_MIN or less.
pub predecessor_lem :
    (maximum : ℤ) (names : List CStr)
    → ((name : CStr) × (n : ℤ) × (predecessor maximum names ≡ some name)
        × IsAt name names
        × (node_number name ≡ some n)
        × (ltb_ℤ n maximum ≡ true)
        × All (NotCloserBelow maximum n) names)
      ⊎ ((predecessor maximum names ≡ none) × All (NotCloserBelow maximum int_min) names)
unfolding predecessor
predecessor_lem maximum names =
    let (all, le, found) = prev_loop-Found maximum names 0 (int_min, none) in
    elim found [
      | inl e ↦
          inr (
            ap (chosen names) e,
            subst (λ (b : Best). All (NotCloserBelow maximum b.0) names) e all,
          )
      | inr (j, name, at, g, n, ok) ↦ inl (name, _, ground (arith, at, g), (j, g), n, ok, all)
    ]

squeezed :
    (lower k m n : ℤ)
    → m ≡ n
    → lower ≤ℤ k
    → (ltb_ℤ lower k ≡ true → m ≤ℤ k)
    → ltb_ℤ k n ≡ true
    → k ≡ lower
squeezed lower k m n same far near under = elim (Bool-cases (ltb_ℤ lower k)) [
  | inl above ↦
      let closer = subst (λ z. z ≤ℤ k) same (near above) in absurd (ground (arith, closer, under))
  | inr below ↦ ground (arith, far, below)
]

-- The chain is consistent: where the server with the number `lower` forwards to the server with
-- the number `n`, that one asks a server with the number `lower` for its list, when it joins over
-- the same names. The first server's name is among them and its number is above INT_MIN.
pub predecessor-successor :
    (lower n : ℤ) (own name : CStr) (names : List CStr)
    → ltb_ℤ int_min lower ≡ true
    → IsAt own names
    → node_number own ≡ some lower
    → successor lower names ≡ some name
    → node_number name ≡ some n
    → (found : CStr) × (predecessor n names ≡ some found) × (node_number found ≡ some lower)
predecessor-successor lower n own name names big here e s f = elim (successor_lem lower names) [
  | inr (none_there, _) ↦ cc
  | inl (x, m, s', _, f', above, all) ↦
      let same : m ≡ n = ground (arith, s, s', f, f') in
      let above' : ltb_ℤ lower n ≡ true = subst (λ z. ltb_ℤ lower z ≡ true) same above in
      elim (predecessor_lem n names) [
        | inr (p, below) ↦
            let far = All-IsAt _ own names below here lower e above' in
            absurd (ground (arith, far, big))
        | inl (found, k, p, at, g, under, below) ↦
            let far = All-IsAt _ own names below here lower e above' in
            let near = All-IsAt _ found names all at k g in
            (found, p, g ∙ ap some (squeezed lower k m n same far near under))
      ]
]
