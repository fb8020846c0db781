-- ===== src/Chain/Address/Registered.antt =====
-- The text that a server registers is the address that the others connect to.
use list_server.Base.{
  ℕ, zero, suc, ◌+◌, ◌/◌, ◌%◌, ◌<◌, ◌≡◌, refl, ap, ◌∙◌, false, inl, inr, Option, some, [], ◌∷◌,
  ◌++◌, arith, ltb, ◌==◌, CStr, ℤ, pos, All, All-append, length, take_all, Bool-cases,
}
use list_server.Sys.{Sys, State, NeverFails, malloc, malloc-NeverFails}
use list_server.CLib.{split_at, cut_line}
use list_server.Stub.{RList}
use list_server.Stub.Calls.{rlist_connect}
use list_server.Chain.{node_text}
use list_server.Chain.Address.{digits, decimal, regdata}
use list_server.Chain.Address.Decimal.{atoi-decimal}

-- No colon and no line end.
abbrev pub IsHostChar : ℕ → Type 0
IsHostChar c = ((c == b':') ≡ false) × ((c == 13) ≡ false) × ((c == 10) ≡ false)

abbrev IsInLine : ℕ → Type 0
IsInLine c = ((c == 13) ≡ false) × ((c == 10) ≡ false)

split_at_lem :
    (host rest : CStr)
    → All IsHostChar host
    → split_at b':' (host ++ b':' ∷ rest) ≡ some (host, rest)
unfolding split_at
split_at_lem [] rest h = refl
split_at_lem (c ∷ host) rest h = ground (arith, h.0, split_at_lem host rest h.1)

cut_line_lem : (s : CStr) → All IsInLine s → cut_line s ≡ s
unfolding cut_line
cut_line_lem [] h = refl
cut_line_lem (c ∷ s) h = ground (arith, h.0, cut_line_lem s h.1)

digits-IsInLine :
    (fuel n : ℕ) (rest : CStr) → n < fuel → All IsInLine rest → All IsInLine (digits fuel n rest)
unfolding digits
digits-IsInLine zero n rest h v = absurd (omega arith)
digits-IsInLine (suc fuel) n rest h v = elim (Bool-cases (ltb n 10)) [
  | inl small ↦ ground (arith, small, v)
  | inr big ↦
      let more =
        digits-IsInLine fuel (n / 10) ((b'0' + n % 10) ∷ rest) (ground (arith, big))
          (ground arith, v) in
      ground (arith, big, more)
]

host-IsInLine : (host : CStr) → All IsHostChar host → All IsInLine host
host-IsInLine [] h = tt
host-IsInLine (c ∷ host) h = ((h.0.1, h.0.2), host-IsInLine host h.1)

regdata-cases :
    (host text : CStr) (port : ℤ)
    → regdata host port ≡ some text
    → (text ≡ host ++ b':' ∷ decimal port) × (length text < 512)
unfolding regdata
regdata-cases host text port h = ground (arith, h)

node_text-regdata :
    (host text : CStr) (port : ℕ)
    → All IsHostChar host
    → regdata host (pos port) ≡ some text
    → node_text text ≡ host ++ b':' ∷ decimal (pos port)
unfolding decimal
node_text-regdata host text port h e =
    let (same, short) = regdata-cases host text (pos port) e in
    let line : All IsInLine (host ++ b':' ∷ decimal (pos port)) =
      All-append IsInLine host (b':' ∷ decimal (pos port)) (host-IsInLine host h)
        ((refl, refl), digits-IsInLine (port + 1) port [] (omega arith) tt) in
    ap cut_line (take_all 1048575 text (omega arith)) ∙ ap cut_line same ∙ cut_line_lem _ line

module _ {W : Type 0} (connect : RList → State W (Option RList)) where
  -- The text that a server registers for its address is the address that `rlist_connect` of another
  -- server or a client connects to, once it has read the node: the host and the port are as they
  -- were. The host has no colon and no line end, the port is positive, the text fits its buffer and
  -- no allocation fails.
  pub rlist_connect-regdata :
      (host text : CStr) (port : ℕ) (s : Sys) (w : W)
      → All IsHostChar host
      → 0 < port
      → NeverFails s
      → regdata host (pos port) ≡ some text
      → (rlist_connect connect (some (node_text text)) (s, w)).0
        ≡ (connect (record { server_address = host; server_port = pos port; sockfd = pos 0 }) w).0
  unfolding rlist_connect
  rlist_connect-regdata host text port s w h up ok e =
      let same = node_text-regdata host text port h e in
      let split = split_at_lem host (decimal (pos port)) h in
      let one = malloc-NeverFails s ok in
      let two = malloc-NeverFails (malloc s).1 one.1 in
      let three = malloc-NeverFails (malloc (malloc s).1).1 two.1 in
      ground (arith, same, split, atoi-decimal port, one, two, three)
