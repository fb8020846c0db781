-- ===== src/Client/Commands.antt =====
-- The lines that source/list_client.c reads: a command and its arguments between single spaces.
use list_server.Base.{
  ℕ, ◌≡◌, refl, sym, ap, ◌∙◌, false, List, [], ◌∷◌, ◌++◌, arith, ◌==◌, CStr, str_eq, All,
  All-append,
}
use mathlib.Core.List.{append-nil, append_assoc}
use list_server.Client.{cmd_quit, emit, cut_newline, tokens_from, choose, parse_line}

-- A byte that stands in a token: no space and no end of line.
abbrev pub IsInner : ℕ → Type 0
IsInner c = ((c == b' ') ≡ false) × ((c == 10) ≡ false)

abbrev pub IsToken : CStr → Type 0
IsToken [] = ⊥
IsToken (c ∷ cs) = All IsInner (c ∷ cs)

-- The tokens with a space between each two.
abbrev pub join : CStr → List CStr → CStr
join t [] = t
join t (u ∷ us) = t ++ b' ' ∷ join u us

read_byte :
    (word : CStr) (c : ℕ) (cs : CStr)
    → IsInner c
    → tokens_from word (c ∷ cs) ≡ tokens_from (word ++ c ∷ []) cs
unfolding tokens_from
read_byte word c cs h = ground (arith, h)

read_space : (word cs : CStr) → tokens_from word (b' ' ∷ cs) ≡ emit word (tokens_from [] cs)
unfolding tokens_from
read_space word cs = refl

read_word :
    (word t rest : CStr)
    → All IsInner t
    → tokens_from word (t ++ rest) ≡ tokens_from (word ++ t) rest
read_word word [] rest h = ap (λ (w : CStr). tokens_from w rest) (sym (append-nil word))
read_word word (c ∷ cs) rest (h, hs) =
    read_byte word c (cs ++ rest) h
    ∙ read_word (word ++ c ∷ []) cs rest hs
    ∙ ap (λ (w : CStr). tokens_from w rest) (append_assoc word (c ∷ []) cs)

inner : (t : CStr) → IsToken t → All IsInner t
inner [] h = absurd h
inner (c ∷ cs) h = h

emit-token : (t : CStr) (next : List CStr) → IsToken t → emit t next ≡ t ∷ next
unfolding emit
emit-token [] next h = absurd h
emit-token (c ∷ cs) next h = refl

tokens_from-join :
    (t : CStr) (us : List CStr) → IsToken t → All IsToken us → tokens_from [] (join t us) ≡ t ∷ us
tokens_from-join t [] h hs =
    ap (tokens_from []) (sym (append-nil t))
    ∙ read_word [] t [] (inner t h)
    ∙ unfold tokens_from in emit-token t [] h
tokens_from-join t (u ∷ us) h (hu, hs) =
    read_word [] t (b' ' ∷ join u us) (inner t h)
    ∙ read_space t (join u us)
    ∙ emit-token t (tokens_from [] (join u us)) h
    ∙ ap (◌∷◌ t) (tokens_from-join u us hu hs)

-- No byte is an end of line.
abbrev IsLine : CStr → Type 0
IsLine = All λ c. (c == 10) ≡ false

cut_newline_lem : (line : CStr) → IsLine line → cut_newline (line ++ 10 ∷ []) ≡ line
unfolding cut_newline
cut_newline_lem [] h = refl
cut_newline_lem (c ∷ cs) (h, hs) = ground (arith, h, cut_newline_lem cs hs)

token-IsLine : (t : CStr) → All IsInner t → IsLine t
token-IsLine [] h = tt
token-IsLine (c ∷ cs) (h, hs) = (h.1, token-IsLine cs hs)

join-IsLine : (t : CStr) (us : List CStr) → IsToken t → All IsToken us → IsLine (join t us)
join-IsLine t [] h hs = token-IsLine t (inner t h)
join-IsLine t (u ∷ us) h (hu, hs) =
    All-append _ t (b' ' ∷ join u us) (token-IsLine t (inner t h)) (refl, join-IsLine u us hu hs)

-- A line of tokens between single spaces, with its end of line, is read as the command that its
-- first token names, with the others as arguments. The line is not `quit`; no token is empty or has
-- a space or an end of line.
pub parse_line-join :
    (cmd : CStr) (args : List CStr)
    → IsToken cmd
    → All IsToken args
    → str_eq cmd_quit (join cmd args) ≡ false
    → parse_line (join cmd args ++ 10 ∷ []) ≡ choose cmd args
unfolding parse_line
parse_line-join cmd args h hs q =
    let cut = cut_newline_lem (join cmd args) (join-IsLine cmd args h hs) in
    ground (arith, cut, q, tokens_from-join cmd args h hs)
