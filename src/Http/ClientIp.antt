-- ===== src/Http/ClientIp.antt =====
-- The client address of a request, `clientIP` of internal/adapters/http/ratelimit.go. Parsing of
-- addresses and networks is Go's package net: a type `Ip`, `net.ParseIP`, `IPNet.Contains` and
-- `net.SplitHostPort`, as parameters. Blanks are the ASCII ones.
use mathlib.Core.List.{reverse}
use ortus.Common.{
  ℕ, Bool, true, false, not, ◌||◌, Option, none, some, List, [], ◌∷◌, Str, leb, ◌==◌, ◌&&◌,
  if◌then◌else◌,
}

abbrev pub comma : ℕ
comma = b','

-- `strings.Split(s, ",")`, the first part and the others.
unfoldable pub split_commas : Str → Str × List Str
split_commas [] = ([], [])
split_commas (c ∷ s) =
    let (first, others) = split_commas s in
    if c == comma then ([], first ∷ others) else (c ∷ first, others)

abbrev pub parts : Str → List Str
parts s = let (first, others) = split_commas s in first ∷ others

abbrev is_blank : ℕ → Bool
is_blank c = (leb 9 c && leb c 13) || (c == 32)

unfoldable pub trim_left : Str → Str
trim_left [] = []
trim_left (c ∷ s) = if is_blank c then trim_left s else c ∷ s

-- `strings.TrimSpace`
unfoldable pub trim_space : Str → Str
trim_space s = reverse (trim_left (reverse (trim_left s)))

module _ {Ip Net : Type 0} (parse_ip : Str → Option Ip) (contains : Net → Ip → Bool) where
  unfoldable pub ip_in_any : Ip → List Net → Bool
  ip_in_any ip [] = false
  ip_in_any ip (n ∷ ns) = if contains n ip then true else ip_in_any ip ns

  -- An entry that is an address of no trusted proxy.
  unfoldable pub is_untrusted : List Net → Str → Bool
  is_untrusted trusted entry = elim (parse_ip (trim_space entry)) [
    | none ↦ false
    | some ip ↦ not (ip_in_any ip trusted)
  ]

  -- The loop over the entries, on the list from its right end.
  unfoldable pub right_most : List Net → List Str → Option Str
  right_most trusted [] = none
  right_most trusted (entry ∷ entries) =
      if is_untrusted trusted entry then some (trim_space entry) else right_most trusted entries

unfoldable pub host_of : (Str → Option Str) → Str → Str
host_of split_host remote_addr = elim (split_host remote_addr) [
  | none ↦ remote_addr
  | some host ↦ host
]

abbrev pub is_empty : {Net : Type 0} → List Net → Bool
is_empty [] = true
is_empty (n ∷ ns) = false

module _ {Ip Net : Type 0} (parse_ip : Str → Option Ip) (contains : Net → Ip → Bool)
    (split_host : Str → Option Str) where
  -- Whether the direct peer is a trusted proxy.
  unfoldable pub peer_is_trusted : Str → List Net → Bool
  peer_is_trusted remote_addr trusted = elim (parse_ip (host_of split_host remote_addr)) [
    | none ↦ false
    | some peer ↦ if is_empty trusted then false else ip_in_any parse_ip contains peer trusted
  ]

  -- `clientIP`, of a request with that `RemoteAddr` and `X-Forwarded-For`.
  unfoldable pub client_ip : Str → Str → List Net → Str
  client_ip remote_addr forwarded trusted =
      if not (peer_is_trusted remote_addr trusted)
      then host_of split_host remote_addr
      else elim (right_most parse_ip contains trusted (reverse (parts forwarded))) [
        | none ↦ host_of split_host remote_addr
        | some ip ↦ ip
      ]
