-- ===== src/SdkConfig.antt =====
-- src/sdk/SdkConfig.cc: the user name that the settings make (`getUser`), and the forwardings that are read from
-- texts (`parseForwardTo`, both `parseForwarding`, both `AddForwarding`). `std::stoi` is that of the C++ library.
pub mod User
pub mod Forwardings
pub mod Saving
pub mod Again
use libpinggy.Prelude.{
  ℕ, zero, suc, ◌+◌, ◌-◌, ◌*◌, ◌%◌, ◌^◌, ◌≡◌, refl, Bool, true, false, ◌&&◌, ◌||◌, not,
  if◌then◌else◌, List, [], ◌∷◌, ◌++◌, bytes, length, take, drop, get_elem?, ltb, leb, ◌==◌, Option,
  none, some, ℤ, pos, negsuc,
}
use libpinggy.Message.{Text}
use libpinggy.StringUtils.{is_space}
use libpinggy.StringUtils.Matching.{string_to_lower, text_equal}
use libpinggy.StringUtils.Splitting.{find, split_string}
use libpinggy.Tunnel.{
  TunnelMode, mode_none, mode_http, tunnel_mode_from_string, http_type, tcp_type, tls_type,
  tlstcp_type, udp_type,
}

abbrev pub is_tunnel_type : Text → Bool
is_tunnel_type sl =
    text_equal sl http_type
    || (text_equal sl tcp_type
        || (text_equal sl tls_type || (text_equal sl tlstcp_type || text_equal sl udp_type)))

-- The loop of `getUser` over the parts of the token.
unfoldable pub user_parts : List Text → Text
user_parts [] = []
user_parts (x ∷ xs) =
    let later = user_parts xs in
    if is_tunnel_type (string_to_lower x) then later else 43 ∷ (x ++ later)

-- `none`: the split did not end within its fuel.
unfoldable pub get_user : (token : Text) → (force : Bool) → Option Text
get_user token force =
    let forced = if force then bytes "+force" else [] in
    let parts =
      if length token == 0 then some [] else split_string token (bytes "+") (negsuc 0) false true in
    elim parts [ none ↦ none | some ps ↦ some (drop 1 (user_parts ps ++ forced)) ]

-- How a call ends: with a value, or with one of the exceptions.
pub data Parsed {ℓ} (Value : Type ℓ) : Type ℓ where
  parsed : (value : Value) → Parsed Value
  config_exception invalid_argument out_of_range unfinished : Parsed Value

infixl 5 ◌>>>◌
abbrev pub ◌>>>◌ {κ ℓ} :
    {Value : Type κ} {Next : Type ℓ} → Parsed Value → (rest : Value → Parsed Next) → Parsed Next
parsed value >>> rest = rest value
config_exception >>> rest = config_exception
invalid_argument >>> rest = invalid_argument
out_of_range >>> rest = out_of_range
unfinished >>> rest = unfinished

abbrev pub is_digit : ℕ → Bool
is_digit c = leb 48 c && leb c 57

-- The number at the head of a text.
unfoldable pub read_digits : (number : ℕ) → Text → ℕ
read_digits number [] = number
read_digits number (c ∷ cs) =
    let later = read_digits (number * 10 + (c - 48)) cs in if is_digit c then later else number

abbrev starts_digit : Text → Bool
starts_digit [] = false
starts_digit (c ∷ cs) = is_digit c

unfoldable pub stoi_signed : (negative : Bool) → Text → Parsed ℤ
stoi_signed negative xs =
    let n = read_digits 0 xs in
    if not (starts_digit xs)
    then invalid_argument
    else if negative
    then (if n == 0
        then parsed (pos 0)
        else if leb n (2 ^ 31)
        then parsed (negsuc (n - 1))
        else out_of_range)
    else if ltb n (2 ^ 31)
    then parsed (pos n)
    else out_of_range

unfoldable pub stoi : Text → Parsed ℤ
stoi [] = invalid_argument
stoi (c ∷ cs) =
    let later = stoi cs in
    if is_space c
    then later
    else if c == 45
    then stoi_signed true cs
    else if c == 43
    then stoi_signed false cs
    else stoi_signed false (c ∷ cs)

-- The cast to `uint16_t`.
abbrev pub port_of : ℤ → ℕ
port_of (pos n) = n % 2 ^ 16
port_of (negsuc n) = 2 ^ 16 - 1 - n % 2 ^ 16

pub record ForwardTo : Type 0 where
  fwd_to_schema : Text
  fwd_to_host : Text
  local_port_str : Text
  local_port : ℕ

-- `SplitString` in two at most: what is before the delimiter, when there are two pieces, and what is then the rest.
abbrev pub halves : Text → Option (List Text) → Parsed (Option Text × Text)
halves str none = unfinished
halves str (some (a ∷ b ∷ [])) = parsed (some a, b)
halves str (some ps) = parsed (none, str)

unfoldable pub split_once : Text → Text → Parsed (Option Text × Text)
split_once str deli = halves str (split_string str deli (pos 1) false true)

abbrev starts_bracket : Text → Bool
starts_bracket [] = false
starts_bracket (c ∷ cs) = c == 91

-- The port's text of an address in brackets: the colon is looked for in the whole text, from where the bracket is in the rest.
unfoldable pub bracketed : (whole rest : Text) → Parsed (Text × Text)
bracketed whole rest = elim (find (bytes "]") rest) [
  | none ↦ config_exception
  | some p ↦ elim (find (bytes ":") (drop p whole)) [
    | none ↦ config_exception
    | some q ↦
        if ltb (length rest) (p + q + 1)
        then out_of_range
        else parsed (take (p - 1) (drop 1 rest), drop (p + q + 1) rest)
  ]
]

unfoldable pub host_port : (whole rest : Text) → Parsed (Text × Text)
host_port whole rest =
    let plain = split_once rest (bytes ":") >>> λ (before, port_str). elim before [
      | none ↦ parsed (bytes "localhost", port_str)
      | some host ↦ parsed (host, port_str)
    ] in
    if starts_bracket rest then bracketed whole rest else plain

-- `catch (...)` turns what `stoi` throws into the library's exception.
abbrev checked_port : Parsed ℤ → Parsed ℕ
checked_port (parsed n) = parsed (port_of n)
checked_port _ = config_exception

abbrev lower_schema : Option Text → Text
lower_schema none = []
lower_schema (some s) = string_to_lower s

unfoldable pub parse_forward_to : Text → Parsed ForwardTo
parse_forward_to whole = split_once whole (bytes "://") >>> λ (schema, rest).
    host_port whole rest >>> λ (host, port_str). checked_port (stoi port_str) >>> λ port.
    parsed record {
      fwd_to_schema = lower_schema schema;
      fwd_to_host = host;
      local_port_str = port_str;
      local_port = port;
    }

pub record SdkForwarding : Type 0 where
  pub mode : TunnelMode
  pub binding_domain : Text
  pub binding_port : ℕ
  pub binding_url : Text
  pub fwd_to_host : Text
  pub fwd_to_port : ℕ
  pub forwarding_url : Text
  pub local_server_tls : Bool
  pub orig_binding_url : Text
  pub orig_forward_to : Text
  pub orig_forwarding_type : Text

abbrev pub https_schema : Text
https_schema = bytes "https"

-- `(fwdToSchema == "https" ? "https://" : "") + fwdToHost + ":" + localPortStr`.
abbrev pub forwarding_url_of : ForwardTo → Text
forwarding_url_of f =
    (if text_equal f.fwd_to_schema https_schema then bytes "https://" else [])
    ++ (f.fwd_to_host ++ (bytes ":" ++ f.local_port_str))

-- A mode that is not named is HTTP.
abbrev pub default_http : TunnelMode → TunnelMode
default_http mode_none = mode_http
default_http m = m

-- The checks on the type, in small letters.
unfoldable pub checked_mode : Text → Parsed TunnelMode
checked_mode sl =
    if text_equal sl [] || is_tunnel_type sl
    then parsed (default_http (tunnel_mode_from_string sl))
    else config_exception

-- What follows the schema of a binding: the domain, the port's text and the port.
unfoldable pub binding_parts : Text → Parsed (Text × Text × ℕ)
binding_parts url = split_once url (bytes ":") >>> λ (before, rest). elim before [
  | none ↦ parsed (url, [], 0)
  | some domain ↦ stoi rest >>> λ port. parsed (domain, rest, port_of port)
]

module _ (is_ip_address : Text → Bool) where
  unfoldable pub parse_forwarding :
      (forwarding_type binding_url forward_to : Text) → Parsed SdkForwarding
  parse_forwarding forwarding_type binding_url forward_to =
      split_once binding_url (bytes "://") >>> λ (schema, url).
      binding_parts url >>> λ (domain, port_str, port).
      (if is_ip_address domain
        then config_exception
        else checked_mode (string_to_lower forwarding_type))
      >>> λ mode. parse_forward_to forward_to >>> λ f. parsed record {
        mode = mode;
        binding_domain = domain;
        binding_port = port;
        binding_url = domain ++ (if ltb 0 port then bytes ":" ++ port_str else []);
        fwd_to_host = f.fwd_to_host;
        fwd_to_port = f.local_port;
        forwarding_url = forwarding_url_of f;
        local_server_tls = text_equal f.fwd_to_schema https_schema;
        orig_binding_url = binding_url;
        orig_forward_to = forward_to;
        orig_forwarding_type = forwarding_type;
      }

  unfoldable pub add_forwarding :
      (forwarding_type binding_url forward_to : Text)
      → List SdkForwarding
      → Parsed (List SdkForwarding)
  add_forwarding forwarding_type binding_url forward_to sdk_forwarding_list =
      parse_forwarding forwarding_type binding_url forward_to >>> λ f.
      parsed (sdk_forwarding_list ++ (f ∷ []))

-- The schema of the only text is the type.
unfoldable pub parse_forwarding_to : (forward_to : Text) → Parsed SdkForwarding
parse_forwarding_to forward_to = parse_forward_to forward_to >>> λ f.
    let sl = string_to_lower f.fwd_to_schema in
    let local_server_tls = text_equal sl https_schema in
    checked_mode (if local_server_tls then http_type else sl) >>> λ mode. parsed record {
      mode = mode;
      binding_domain = [];
      binding_port = 0;
      binding_url = [];
      fwd_to_host = f.fwd_to_host;
      fwd_to_port = f.local_port;
      forwarding_url = forwarding_url_of f;
      local_server_tls = local_server_tls;
      orig_binding_url = [];
      orig_forward_to = forward_to;
      orig_forwarding_type = [];
    }

unfoldable pub add_forwarding_to :
    (forward_to : Text) → List SdkForwarding → Parsed (List SdkForwarding)
add_forwarding_to forward_to sdk_forwarding_list =
    parse_forwarding_to forward_to >>> λ f. parsed (sdk_forwarding_list ++ (f ∷ []))
