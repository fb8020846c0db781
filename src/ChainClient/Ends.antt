-- ===== src/ChainClient/Ends.antt =====
-- Which servers are the head and the tail of the chain in source/chain_client.c.
use list_server.Base.{
  ℕ, zero, suc, ◌+◌, ◌≡◌, refl, sym, ap, ◌∙◌, subst, ◌⊎◌, inl, inr, true, none, some, List, [], ◌∷◌,
  arith, CStr, get_elem?, All, ℤ, ltb_ℤ, ◌≤ℤ◌, Option-cases, Bool-cases,
}
use list_server.Chain.{int_max, int_min, node_number, successor, predecessor}
use list_server.Chain.Choice.{IsAt, All-IsAt, successor_lem, predecessor_lem}
use list_server.ChainClient.{
  Bounds, min_step, max_step, bounds_step, bounds_loop, no_bounds, head_node, tail_node,
}

-- The number of a name, if it has one, lies within the bounds.
abbrev pub Within : ℤ → ℤ → CStr → Type 0
Within min max name = (num : ℤ) → node_number name ≡ some num → (min ≤ℤ num) × (num ≤ℤ max)

-- A bound is the one before the loop, or the number of the name at its index.
abbrev Held : List CStr → ℕ → ℤ → ℕ → ℤ → ℕ → Type 0
Held names i old old_index now index =
    ((now ≡ old) × (index ≡ old_index))
    ⊎ ((j : ℕ) × (name : CStr) × (index ≡ i + j)
        × (get_elem? names j ≡ some name)
        × (node_number name ≡ some now))

step_lem :
    (num : ℤ) (i : ℕ) (b : Bounds)
    → let r = max_step num i (min_step num i b) in
      (r.min ≤ℤ num)
      × (num ≤ℤ r.max)
      × (r.min ≤ℤ b.min)
      × (b.max ≤ℤ r.max)
      × (((r.min ≡ b.min) × (r.min_index ≡ b.min_index)) ⊎ ((r.min ≡ num) × (r.min_index ≡ i)))
      × (((r.max ≡ b.max) × (r.max_index ≡ b.max_index)) ⊎ ((r.max ≡ num) × (r.max_index ≡ i)))
unfolding max_step min_step
step_lem num i b = elim (Bool-cases (ltb_ℤ num b.min)) [
  | inl low ↦ elim (Bool-cases (ltb_ℤ b.max num)) [
    | inl high ↦ ground (arith, low, high)
    | inr not_high ↦ ground (arith, low, not_high)
  ]
  | inr not_low ↦ elim (Bool-cases (ltb_ℤ b.max num)) [
    | inl high ↦ ground (arith, not_low, high)
    | inr not_high ↦ ground (arith, not_low, not_high)
  ]
]

-- What the loop makes of the bounds `b` and the names from index `i` on.
abbrev Covers : List CStr → ℕ → Bounds → Bounds → Type 0
Covers names i b r =
    All (Within r.min r.max) names
    × (r.min ≤ℤ b.min)
    × (b.max ≤ℤ r.max)
    × Held names i b.min b.min_index r.min r.min_index
    × Held names i b.max b.max_index r.max r.max_index

Held-later :
    (name : CStr) (names : List CStr) (i : ℕ) (old : ℤ) (old_index : ℕ) (mid : ℤ) (mid_index : ℕ)
    (now : ℤ) (index : ℕ)
    → ((mid ≡ old) × (mid_index ≡ old_index)) ⊎ ((node_number name ≡ some mid) × (mid_index ≡ i))
    → Held names (suc i) mid mid_index now index
    → Held (name ∷ names) i old old_index now index
Held-later name names i old old_index mid mid_index now index one (inr (j, x, e, g, n)) =
    inr (suc j, x, e ∙ omega arith, g, n)
Held-later name names i old old_index mid mid_index now index (inl (e, f)) (inl (e', f')) =
    inl (e' ∙ e, f' ∙ f)
Held-later name names i old old_index mid mid_index now index (inr (n, f)) (inl (e', f')) =
    inr (zero, name, f' ∙ f ∙ omega arith, refl, n ∙ ap some (sym e'))

Covers-plain :
    (name : CStr) (names : List CStr) (i : ℕ) (b r : Bounds)
    → node_number name ≡ none
    → Covers names (suc i) b r
    → Covers (name ∷ names) i b r
Covers-plain name names i b r e (all, lo, hi, m, x) = (
  (λ num f. absurd (ground (arith, e, f)), all),
  lo,
  hi,
  Held-later name names i _ _ _ _ _ _ (inl (refl, refl)) m,
  Held-later name names i _ _ _ _ _ _ (inl (refl, refl)) x,
)

same_within :
    (num other : ℤ) (r : Bounds)
    → num ≡ other
    → r.min ≤ℤ num
    → num ≤ℤ r.max
    → (r.min ≤ℤ other) × (other ≤ℤ r.max)
same_within num other r same lo hi = subst (λ z. (r.min ≤ℤ z) × (z ≤ℤ r.max)) same (lo, hi)

taken :
    (name : CStr) (num : ℤ) (i : ℕ) (old : ℤ) (old_index : ℕ) (mid : ℤ) (mid_index : ℕ)
    → node_number name ≡ some num
    → ((mid ≡ old) × (mid_index ≡ old_index)) ⊎ ((mid ≡ num) × (mid_index ≡ i))
    → ((mid ≡ old) × (mid_index ≡ old_index)) ⊎ ((node_number name ≡ some mid) × (mid_index ≡ i))
taken name num i old old_index mid mid_index e (inl kept) = inl kept
taken name num i old old_index mid mid_index e (inr (m, f)) = inr (e ∙ ap some (sym m), f)

Covers-number :
    (name : CStr) (names : List CStr) (i : ℕ) (num : ℤ) (b r : Bounds)
    → node_number name ≡ some num
    → Covers names (suc i) (max_step num i (min_step num i b)) r
    → Covers (name ∷ names) i b r
Covers-number name names i num b r e (all, lo, hi, m, x) =
    let (a, c, d, f, g, h) = step_lem num i b in
    (
      (λ other o. same_within num other r (ground (arith, e, o)) (omega arith) (omega arith), all),
      omega arith,
      omega arith,
      Held-later name names i _ _ _ _ _ _ (taken name num i _ _ _ _ e g) m,
      Held-later name names i _ _ _ _ _ _ (taken name num i _ _ _ _ e h) x,
    )

bounds_step-none :
    (name : CStr) (i : ℕ) (b : Bounds) → node_number name ≡ none → bounds_step name i b ≡ b
unfolding bounds_step
bounds_step-none name i b e = rw (bounds_step, e)

bounds_step-some :
    (name : CStr) (i : ℕ) (num : ℤ) (b : Bounds)
    → node_number name ≡ some num
    → bounds_step name i b ≡ max_step num i (min_step num i b)
unfolding bounds_step
bounds_step-some name i num b e = rw (bounds_step, e)

bounds_loop-Covers :
    (names : List CStr) (i : ℕ) (b : Bounds) → Covers names i b (bounds_loop names i b)
unfolding bounds_loop
bounds_loop-Covers [] i b = (tt, omega arith, omega arith, inl (refl, refl), inl (refl, refl))
bounds_loop-Covers (name ∷ names) i b =
    let now = bounds_step name i b in
    let r = bounds_loop names (suc i) now in
    let rest = bounds_loop-Covers names (suc i) now in
    elim (Option-cases (node_number name)) [
      | inl e ↦
          let same = bounds_step-none name i b e in
          Covers-plain name names i b r e (subst (λ z. Covers names (suc i) z r) same rest)
      | inr (num, e) ↦
          let same = bounds_step-some name i num b e in
          Covers-number name names i num b r e (subst (λ z. Covers names (suc i) z r) same rest)
    ]

-- A name of the list whose number `n` is none of INT_MIN and INT_MAX.
abbrev pub IsNumbered : CStr → ℤ → List CStr → Type 0
IsNumbered own n names =
    IsAt own names
    × (node_number own ≡ some n)
    × (ltb_ℤ int_min n ≡ true)
    × (ltb_ℤ n int_max ≡ true)

head_held :
    (names : List CStr) (own : CStr) (n : ℤ)
    → IsNumbered own n names
    → let r = bounds_loop names 0 no_bounds in
      (head : CStr) × (head_node names ≡ some head)
      × IsAt head names
      × (node_number head ≡ some r.min)
unfolding head_node
head_held names own n (at, e, low, high) =
    let (all, lo, hi, m, x) = bounds_loop-Covers names 0 no_bounds in
    let in_bounds = All-IsAt _ own names all at n e in
    elim m [
      | inl (kept, _) ↦ absurd (ground (arith, kept, in_bounds, high))
      | inr (j, name, at_j, g, f) ↦ (name, ground (arith, at_j, g), (j, g), f)
    ]

tail_held :
    (names : List CStr) (own : CStr) (n : ℤ)
    → IsNumbered own n names
    → let r = bounds_loop names 0 no_bounds in
      (tail : CStr) × (tail_node names ≡ some tail)
      × IsAt tail names
      × (node_number tail ≡ some r.max)
unfolding tail_node
tail_held names own n (at, e, low, high) =
    let (all, lo, hi, m, x) = bounds_loop-Covers names 0 no_bounds in
    let in_bounds = All-IsAt _ own names all at n e in
    elim x [
      | inl (kept, _) ↦ absurd (ground (arith, kept, in_bounds, low))
      | inr (j, name, at_j, g, f) ↦ (name, ground (arith, at_j, g), (j, g), f)
    ]

-- Nobody stands behind the greatest number, and nobody before the least.
nobody_behind :
    (names : List CStr) (lo hi : ℤ) → All (Within lo hi) names → successor hi names ≡ none
nobody_behind names lo hi all = elim (successor_lem hi names) [
  | inr (none_there, _) ↦ none_there
  | inl (name, n, _, at, e, above, _) ↦
      let within = All-IsAt _ name names all at n e in absurd (ground (arith, within, above))
]

nobody_before :
    (names : List CStr) (lo hi : ℤ) → All (Within lo hi) names → predecessor lo names ≡ none
nobody_before names lo hi all = elim (predecessor_lem lo names) [
  | inr (none_there, _) ↦ none_there
  | inl (name, n, _, at, e, below, _) ↦
      let within = All-IsAt _ name names all at n e in absurd (ground (arith, within, below))
]

-- The client writes to the first server of the chain and reads from its last one: the head that
-- `update` of the client chooses has the least number, and `init_list` of a server with that number
-- finds no predecessor; the tail has the greatest number, and `update` of a server with that number
-- finds no successor. One of the names has a number that is neither INT_MIN nor INT_MAX.
pub head_node-tail_node :
    (names : List CStr) (own : CStr) (n : ℤ)
    → IsNumbered own n names
    → (head : CStr) × (tail : CStr) × (lo : ℤ) × (hi : ℤ) × (head_node names ≡ some head)
      × (node_number head ≡ some lo)
      × (tail_node names ≡ some tail)
      × (node_number tail ≡ some hi)
      × All (Within lo hi) names
      × (predecessor lo names ≡ none)
      × (successor hi names ≡ none)
head_node-tail_node names own n numbered =
    let r = bounds_loop names 0 no_bounds in
    let (head, h, _, f) = head_held names own n numbered in
    let (tail, t, _, g) = tail_held names own n numbered in
    let all = (bounds_loop-Covers names 0 no_bounds).0 in
    let before = nobody_before names r.min r.max all in
    let behind = nobody_behind names r.min r.max all in
    (head, tail, r.min, r.max, h, f, t, g, all, before, behind)
