-- ===== src/Server/Log/Progress.antt =====
-- The writer of the log in source/network_server.c gets to every line, and in time: a line comes
-- nearer to `log_head` with each node that is taken, whatever the other threads do in between.
use list_server.Base.{
  ℕ, suc, ◌+◌, ◌≤◌, ◌≡◌, refl, sym, ap, subst, ◌∙◌, ◌⊎◌, inl, inr, false, Option, none, some, [],
  ◌∷◌, ◌++◌, arith, CStr, length, drop,
}
use mathlib.Core.List.{append-nil, append_assoc}
use list_server.Server.Log.{Queue, Log, written, LogStep}

-- A node is taken by one kind of step.
abbrev pub takings : {a b : Log} → LogStep a b → ℕ
takings (LogStep.enqueued line) = 0
takings (LogStep.taken line rest e f) = 1
takings LogStep.asked = 0
takings (LogStep.stopped e f) = 0

-- Steps in any order, of which `n` take a node.
pub data Steps : ℕ → Log → Log → Type 0 where
  here : {a : Log} → Steps 0 a a
  other : {n : ℕ} {a b c : Log} (st : LogStep a b) → takings st ≡ 0 → Steps n b c → Steps n a c
  take : {n : ℕ} {a b c : Log} (st : LogStep a b) → takings st ≡ 1 → Steps n b c → Steps (suc n) a c

-- The line behind `xs` is still queued, nearer to the head, and the writer has not ended.
abbrev pub Waits : ℕ → Queue → Option CStr → Queue → Log → Type 0
Waits n xs line ys log =
    (n ≤ length xs)
    × (zs : Queue) × (log.queue ≡ drop n xs ++ line ∷ ys ++ zs)
    × (log.ended ≡ false)

-- The line has been taken from the head, as the node behind those of `xs`.
abbrev pub Taken : ℕ → Queue → Option CStr → Log → Log → Type 0
Taken n xs line log log' =
    (m : ℕ) × (n ≡ length xs + 1 + m)
    × (mid : Log) × (rest : Queue) × (mid.queue ≡ line ∷ rest)
    × Steps (length xs) log mid
    × Steps m (written line (record mid { queue = rest })) log'

written_keeps :
    (line : Option CStr) (log : Log)
    → ((written line log).queue ≡ log.queue) × ((written line log).ended ≡ log.ended)
unfolding written
written_keeps none log = (refl, refl)
written_keeps (some line) log = (refl, refl)

regroup :
    (xs ys zs : Queue) (line new : Option CStr)
    → xs ++ line ∷ (ys ++ new ∷ []) ++ zs ≡ xs ++ line ∷ ys ++ new ∷ zs
regroup xs ys zs line new =
    ap (λ (q : Queue). q ++ zs) (sym (append_assoc xs (line ∷ ys) (new ∷ [])))
    ∙ append_assoc (xs ++ line ∷ ys) (new ∷ []) zs

-- Whatever the threads and the writer do, in whatever order, a line that is enqueued behind the
-- lines `xs` while the writer runs is taken by the writer as soon as it has taken one node more
-- than those; until then it waits with `n` nodes fewer before it, and the writer, though it may be
-- asked to, has not stopped.
pub line_in_time :
    {n : ℕ} {log log' : Log}
    → Steps n log log'
    → (xs ys : Queue) (line : Option CStr) → log.queue ≡ xs ++ line ∷ ys
    → log.ended ≡ false
    → Waits n xs line ys log' ⊎ Taken n xs line log log'
line_in_time here xs ys line e f = inl (omega arith, [], e ∙ sym (append-nil _), f)
line_in_time (other (LogStep.enqueued new) z run) xs ys line e f =
    let e' = ap (λ (q : Queue). q ++ new ∷ []) e ∙ append_assoc xs (line ∷ ys) (new ∷ []) in
    elim (line_in_time run xs (ys ++ new ∷ []) line e' f) [
      | inl (le, zs, g, h) ↦ inl (le, new ∷ zs, g ∙ regroup (drop _ xs) ys zs line new, h)
      | inr (m, lt, mid, rest, g, a, b) ↦
          inr (m, lt, mid, rest, g, other (LogStep.enqueued new) z a, b)
    ]
line_in_time (other (LogStep.taken x rest g h) z run) xs ys line e f = absurd (omega arith)
line_in_time (other LogStep.asked z run) xs ys line e f = elim (line_in_time run xs ys line e f) [
  | inl w ↦ inl w
  | inr (m, lt, mid, rest, g, a, b) ↦ inr (m, lt, mid, rest, g, other LogStep.asked z a, b)
]
line_in_time (other (LogStep.stopped g h) z run) [] ys line e f = absurd cc
line_in_time (other (LogStep.stopped g h) z run) (x ∷ xs) ys line e f = absurd cc
line_in_time (take (LogStep.enqueued new) z run) xs ys line e f = absurd (omega arith)
line_in_time (take {n = k} {a = a} {c = c} (LogStep.taken x rest g h) z run) [] ys line e f =
    let same : x ≡ line = cc in
    inr (
      k,
      omega arith,
      a,
      rest,
      g ∙ ap (λ (w : Option CStr). w ∷ rest) same,
      here,
      subst (λ (w : Option CStr). Steps k (written w (record a { queue = rest })) c) same run,
    )
line_in_time (take {n = k} {a = a} {c = c} (LogStep.taken x rest g h) z run) (y ∷ xs) ys line e f =
    let behind : rest ≡ xs ++ line ∷ ys = cc in
    let (q, q') = written_keeps x (record a { queue = rest }) in
    elim (line_in_time run xs ys line (q ∙ behind) (q' ∙ f)) [
      | inl (le, zs, g', h') ↦ inl (omega arith, zs, g', h')
      | inr (m, lt, mid, rest', g', a, b) ↦
          inr (m, omega arith, mid, rest', g', take (LogStep.taken x rest g h) z a, b)
    ]
line_in_time (take LogStep.asked z run) xs ys line e f = absurd (omega arith)
line_in_time (take (LogStep.stopped g h) z run) xs ys line e f = absurd (omega arith)
