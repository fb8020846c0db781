-- ===== src/Chain/Address.antt =====
-- The address that a server of source/chain_server.c registers in ZooKeeper: `detect_ip`,
-- `get_addr` and the text of its node. The interfaces, ADVERTISE_ADDR and the host's name are
-- parameters.
pub mod Decimal
pub mod Registered
use list_server.Base.{
  ℕ, zero, suc, ◌+◌, ◌-◌, ◌/◌, ◌%◌, Bool, true, false, not, ◌&&◌, Option, none, some, List, [], ◌∷◌,
  ◌++◌, if◌then◌else◌, CStr, str_eq, length, ltb, take, ℤ, pos, negsuc,
}
use list_server.CLib.{after_prefix}

-- An entry of `getifaddrs`: its name, whether its address is AF_INET, and what `inet_ntop` makes of
-- that, `none` where it fails.
pub record Ifaddrs : Type 0 where
  pub ifa_name : CStr
  pub is_inet : Bool
  pub text : Option CStr

-- `!strncmp(ifa_name, prefix, strlen(prefix))`
abbrev pub has_prefix : CStr → CStr → Bool
has_prefix prefix name = elim (after_prefix prefix name) [ none ↦ false | some _ ↦ true ]

unfoldable pub first_of : CStr → List Ifaddrs → Option CStr
first_of prefix [] = none
first_of prefix (ifa ∷ rest) =
    let later = first_of prefix rest in
    if ifa.is_inet && has_prefix prefix ifa.ifa_name
    then elim ifa.text [ none ↦ later | some t ↦ some t ]
    else later

-- "127.0.0.1"
abbrev pub loopback : CStr
loopback = b'1' ∷ b'2' ∷ b'7' ∷ b'.' ∷ b'0' ∷ b'.' ∷ b'0' ∷ b'.' ∷ b'1' ∷ []

unfoldable pub first_outside : List Ifaddrs → Option CStr
first_outside [] = none
first_outside (ifa ∷ rest) =
    let later = first_outside rest in
    if ifa.is_inet
    then elim ifa.text [ none ↦ later | some t ↦ if str_eq t loopback then later else some t ]
    else later

-- `none` where it returns -1.
unfoldable pub detect_ip : ℕ → Option (List Ifaddrs) → Option CStr
detect_ip buflen none = none
detect_ip buflen (some ifaddr) = elim (first_of (b'e' ∷ b't' ∷ b'h' ∷ []) ifaddr) [
  | some t ↦ some t
  | none ↦ elim (first_of (b'w' ∷ b'l' ∷ b'a' ∷ b'n' ∷ []) ifaddr) [
    | some t ↦ some t
    | none ↦ elim (first_outside ifaddr) [ none ↦ none | some t ↦ some (take (buflen - 1) t) ]
  ]
]

-- What the buffer holds; `gethostname` is the host's name, `none` where it fails.
unfoldable pub get_addr : ℕ → Option CStr → Option (List Ifaddrs) → Option CStr → CStr
get_addr buf (some (c ∷ cs)) ifaddr gethostname = take (buf - 1) (c ∷ cs)
get_addr buf _ ifaddr gethostname = elim (detect_ip buf ifaddr) [
  | some t ↦ t
  | none ↦ elim gethostname [ none ↦ take (buf - 1) loopback | some name ↦ name ]
]

-- `%d`, for a number of fewer digits than `fuel`, before `rest`.
unfoldable pub digits : ℕ → ℕ → CStr → CStr
digits zero n rest = rest
digits (suc fuel) n rest =
    let more = digits fuel (n / 10) ((b'0' + n % 10) ∷ rest) in
    if ltb n 10 then (b'0' + n) ∷ rest else more

unfoldable pub decimal : ℤ → CStr
decimal (pos n) = digits (n + 1) n []
decimal (negsuc n) = b'-' ∷ digits (n + 2) (n + 1) []

-- `snprintf(regdata, sizeof(regdata), "%s:%d", hostbuf, port)`, `none` where it does not fit.
unfoldable pub regdata : CStr → ℤ → Option CStr
regdata hostbuf port =
    let text = hostbuf ++ b':' ∷ decimal port in if ltb (length text) 512 then some text else none
