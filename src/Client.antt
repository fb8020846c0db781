-- ===== src/Client.antt =====
-- source/list_client.c: a line of input as a command. `strtok`, `strtol` and `atoi` are modelled as
-- the C library has them.
pub mod Commands
pub mod Session
pub mod Main
use list_server.Base.{
  ℕ, zero, suc, ◌+◌, Bool, true, false, not, ◌&&◌, ◌||◌, Option, none, some, List, [], ◌∷◌, ◌++◌,
  ◌==◌, if◌then◌else◌, CStr, str_eq, length, ℤ, pos, ltb_ℤ,
}
use list_server.CLib.{atoi, is_digit, is_space, skip_spaces, digits_value, signed}
use list_server.Chain.{int_max, int_min}

-- The names of the commands.
abbrev pub cmd_add : CStr
cmd_add = b'a' ∷ b'd' ∷ b'd' ∷ []

abbrev pub cmd_remove : CStr
cmd_remove = b'r' ∷ b'e' ∷ b'm' ∷ b'o' ∷ b'v' ∷ b'e' ∷ []

abbrev pub cmd_get_by_year : CStr
cmd_get_by_year = b'g' ∷ b'e' ∷ b't' ∷ b'_' ∷ b'b' ∷ b'y' ∷ b'_' ∷ b'y' ∷ b'e' ∷ b'a' ∷ b'r' ∷ []

abbrev pub cmd_get_by_marca : CStr
cmd_get_by_marca =
    b'g' ∷ b'e' ∷ b't' ∷ b'_' ∷ b'b' ∷ b'y' ∷ b'_' ∷ b'm' ∷ b'a' ∷ b'r' ∷ b'c' ∷ b'a' ∷ []

abbrev pub cmd_get_list_ordered_by_year : CStr
cmd_get_list_ordered_by_year =
    b'g' ∷ b'e' ∷ b't' ∷ b'_' ∷ b'l' ∷ b'i' ∷ b's' ∷ b't' ∷ b'_' ∷ b'o' ∷ b'r' ∷ b'd' ∷ b'e' ∷ b'r'
    ∷ b'e' ∷ b'd' ∷ b'_' ∷ b'b' ∷ b'y' ∷ b'_' ∷ b'y' ∷ b'e' ∷ b'a' ∷ b'r' ∷ []

abbrev pub cmd_size : CStr
cmd_size = b's' ∷ b'i' ∷ b'z' ∷ b'e' ∷ []

abbrev pub cmd_get_model_list : CStr
cmd_get_model_list =
    b'g' ∷ b'e' ∷ b't' ∷ b'_' ∷ b'm' ∷ b'o' ∷ b'd' ∷ b'e' ∷ b'l' ∷ b'_' ∷ b'l' ∷ b'i' ∷ b's' ∷ b't'
    ∷ []

abbrev pub cmd_quit : CStr
cmd_quit = b'q' ∷ b'u' ∷ b'i' ∷ b't' ∷ []

abbrev pub cmd_help : CStr
cmd_help = b'h' ∷ b'e' ∷ b'l' ∷ b'p' ∷ []

-- What the loop of `main` does with a line, before it calls the stub. The price stays a text: the
-- float that `strtof` makes of it is the C library's.
pub data Command : Type 0 where
  quit help usage unknown nothing size ordered model_list : Command
  add : CStr → ℤ → CStr → ℤ → ℤ → Command
  remove : CStr → Command
  by_marca by_year : ℤ → Command

-- A piece that is not empty stands before the others.
unfoldable pub emit : CStr → List CStr → List CStr
emit [] next = next
emit (w ∷ word) next = (w ∷ word) ∷ next

-- `strtok(…, " ")` again and again: the pieces between spaces; `word` is the piece being read.
unfoldable pub tokens_from : CStr → CStr → List CStr
tokens_from word [] = emit word []
tokens_from word (c ∷ cs) =
    let here = tokens_from (word ++ c ∷ []) cs in
    let next = tokens_from [] cs in if c == b' ' then emit word next else here

-- The decimal digits at the front, and what stands behind them.
unfoldable pub behind_digits : CStr → CStr
behind_digits [] = []
behind_digits (c ∷ cs) = if is_digit c then behind_digits cs else c ∷ cs

-- Behind the sign.
unfoldable pub behind_sign : CStr → CStr
behind_sign [] = []
behind_sign (c ∷ cs) = if c == b'-' || c == b'+' then cs else c ∷ cs

-- The number, if the whole text is one and fits an int. A value beyond long, which `strtol` cuts to
-- its bounds, is refused all the same.
unfoldable pub parse_int_str : CStr → Option ℤ
parse_int_str s = elim (signed (skip_spaces s)) [
  | none ↦ none
  | some v ↦ elim (behind_digits (behind_sign (skip_spaces s))) [
    | _ ∷ _ ↦ none
    | [] ↦ if ltb_ℤ v int_min || ltb_ℤ int_max v then none else some v
  ]
]

unfoldable pub parse_add : List CStr → Command
parse_add (modelo ∷ ano_s ∷ preco_s ∷ marca_s ∷ comb_s ∷ _) =
    add modelo (atoi ano_s) preco_s (atoi marca_s) (atoi comb_s)
parse_add _ = usage

unfoldable pub parse_remove : List CStr → Command
parse_remove [] = usage
parse_remove (modelo ∷ _) = remove modelo

unfoldable pub parse_number : (ℤ → Command) → List CStr → Command
parse_number f [] = usage
parse_number f (s ∷ _) = elim (parse_int_str s) [ none ↦ usage | some n ↦ f n ]

-- The tests of the loop, in its order, on the first token and those behind it.
unfoldable pub choose : CStr → List CStr → Command
choose cmd args =
    if str_eq cmd cmd_help
    then help
    else if str_eq cmd cmd_size
    then size
    else if str_eq cmd cmd_add
    then parse_add args
    else if str_eq cmd cmd_remove
    then parse_remove args
    else if str_eq cmd cmd_get_by_marca
    then parse_number by_marca args
    else if str_eq cmd cmd_get_by_year
    then parse_number by_year args
    else if str_eq cmd cmd_get_list_ordered_by_year
    then ordered
    else if str_eq cmd cmd_get_model_list
    then model_list
    else unknown

-- `input[strcspn(input, "\n")] = 0`
unfoldable pub cut_newline : CStr → CStr
cut_newline [] = []
cut_newline (c ∷ cs) = if c == 10 then [] else c ∷ cut_newline cs

unfoldable pub parse_line : CStr → Command
parse_line input =
    let line = cut_newline input in
    if str_eq cmd_quit line
    then quit
    else elim (tokens_from [] line) [ [] ↦ nothing | cmd ∷ args ↦ choose cmd args ]
