-- ===== src/Desktop/Pot/Addresses.antt =====
-- apps/desktop/src-tauri/src/pot.rs: the checks of addresses, methods and messages.
use rootmode.Prelude.{
  ℕ, ◌^◌, Bool, true, false, not, ◌&&◌, ◌||◌, Option, none, some, [], ◌∷◌, ◌++◌, all, is_empty,
  is_some, leb, ltb, ◌==◌, length, zero, suc, drop, if◌then◌else◌,
}
use rootmode.Prelude.Text.{Text, text, text_eq, trim_0x, utf8}
use rootmode.Prelude.Strings.{trim, starts_with, hex_digit, from_hex, from_dec, split_once}
use rootmode.Prelude.Result.{ok, err}
use rootmode.Core.Externals.{Externals}
use rootmode.Desktop.Pot.{Refused, PotResult, addr_key}

unfoldable pub named_payout : Option Text → PotResult Text
unfolding trim trim_0x
named_payout raw =
    let s = trim (elim raw [ none ↦ [] | some t ↦ t ]) in
    if is_empty s || all (λ c. c == b'0') (trim_0x s) then err Refused.no_payout else ok s

unfoldable pub valid_eth_addr : Text → Bool
unfolding trim trim_0x utf8 hex_digit
valid_eth_addr s =
    let h = trim_0x (trim s) in length (utf8 h) == 40 && all (λ c. is_some (hex_digit c)) h

-- `trim_start_matches("0X")`
unfoldable pub trim_0X : Text → Text
trim_0X [] = []
trim_0X (a ∷ []) = a ∷ []
trim_0X (a ∷ b ∷ t) = let rest = trim_0X t in if a == b'0' && b == b'X' then rest else a ∷ b ∷ t

unfoldable pub canonical_addr : Text → Text
unfolding trim trim_0x trim_0X
canonical_addr s = text "0x" ++ trim_0X (trim_0x (trim s))

unfoldable pub is_zero_addr : Text → Bool
unfolding trim trim_0x
is_zero_addr s = let hex = trim_0x (trim s) in is_empty hex || all (λ c. c == b'0') hex

unfoldable pub hex_to_u128 : Text → ℕ
unfolding trim trim_0x from_hex
hex_to_u128 s =
    let h = trim_0x (trim s) in
    if is_empty h then 0 else elim (from_hex (2 ^ 128) h) [ none ↦ 0 | some n ↦ n ]

abbrev pub is_word_char : ℕ → Bool
is_word_char c =
    (leb 48 c && leb c 57) || (leb 65 c && leb c 90) || (leb 97 c && leb c 122) || c == b'_'

abbrev pub is_read_namespace : Option (Text × Text) → Bool
is_read_namespace none = false
is_read_namespace (some (n, rest)) =
    text_eq n (text "eth") || text_eq n (text "net") || text_eq n (text "web3")

unfoldable pub fund_rpc_allowed : Text → Bool
unfolding utf8 split_once text_eq starts_with
fund_rpc_allowed method =
    if is_empty method || ltb 64 (length (utf8 method))
    then false
    else if not (all is_word_char method)
    then false
    else is_read_namespace (split_once b'_' method)
      && not (text_eq method (text "eth_sendTransaction"))
      && not (starts_with method (text "eth_sign"))

unfoldable pub explorer_tx : ℕ → Text → Option Text
unfolding starts_with
explorer_tx chain_id hash =
    let hash =
      if starts_with hash (text "0x") || starts_with hash (text "0X")
      then hash
      else text "0x" ++ hash in
    if chain_id == 8453
    then some (text "https://basescan.org/tx/" ++ hash)
    else if chain_id == 84532
    then some (text "https://sepolia.basescan.org/tx/" ++ hash)
    else none

-- `split(p).nth(1)`: what stands between the first occurrence of `p` and the next one, or the end.
abbrev pub up_to : Text → ℕ → Text → Text
up_to p zero t = []
up_to p (suc n) [] = []
up_to p (suc n) (c ∷ t) = if starts_with (c ∷ t) p then [] else c ∷ up_to p n t

abbrev pub behind_first : Text → Text → Option Text
behind_first p [] = none
behind_first p (c ∷ t) =
    let rest = behind_first p t in
    if starts_with (c ∷ t) p then some (drop (length p) (c ∷ t)) else rest

abbrev pub digits_of : Text → Text
digits_of [] = []
digits_of (c ∷ t) = let rest = digits_of t in if leb 48 c && leb c 57 then c ∷ rest else []

unfoldable pub authorised_in : Text → Option ℕ
unfolding from_dec starts_with
authorised_in message = elim (behind_first (text "already authorised ") message) [
  | none ↦ none
  | some rest ↦
      elim (from_dec (2 ^ 64) (digits_of (up_to (text "already authorised ") (length rest) rest))) [
        | none ↦ none
        | some n ↦ if ltb 0 n then some n else none
      ]
]

module _ (X : Externals) where
  unfoldable pub selection_moved : Option Text → Option Text → Bool
  unfolding addr_key text_eq
  selection_moved (some p) (some c) = not (text_eq (addr_key X p) (addr_key X c))
  selection_moved (some p) none = true
  selection_moved none shown = false

  -- The file that names the wallet: what it reads as, and what a new choice writes.
  unfoldable pub selected_client : Option Text → Option Text
  unfolding trim valid_eth_addr canonical_addr
  selected_client none = none
  selected_client (some raw) =
      let s = trim raw in if valid_eth_addr s then some (canonical_addr s) else none

  abbrev pub is_current : Option Text → Text → Bool
  is_current none next = false
  is_current (some cur) next = text_eq (addr_key X cur) (addr_key X next)

  unfoldable pub set_selected_client : Option Text → Text → PotResult (Option Text)
  unfolding valid_eth_addr canonical_addr selected_client
  set_selected_client file addr =
      if not (valid_eth_addr addr)
      then err Refused.wrong_wallet
      else if is_current (selected_client file) (canonical_addr addr)
      then ok file
      else ok (some (canonical_addr addr))
