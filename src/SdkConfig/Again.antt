-- ===== src/SdkConfig/Again.antt =====
-- src/sdk/SdkConfig.cc: a forwarding that was read is saved by its type, its binding and its target, which
-- `SetForwarding` reads again.
use libpinggy.Prelude.{
  ◌%◌, ◌^◌, ◌≡◌, refl, subst, Bool, true, false, if◌then◌else◌, [], ◌∷◌, ◌++◌, append-nil, bytes,
  ltb, none, arith, inl, inr, Bool-cases,
}
use libpinggy.Message.{Text}
use libpinggy.StringUtils.Matching.{to_lower, string_to_lower, text_equal}
use libpinggy.StringUtils.Splitting.{free_of}
use libpinggy.Tunnel.{
  TunnelMode, tunnel_mode_from_string, http_type, tcp_type, tls_type, tlstcp_type, udp_type,
  tunnel_type_from_tunnel_mode,
}
use libpinggy.SdkConfig.{
  parsed, ForwardTo, SdkForwarding, default_http, https_schema, split_once, parse_forward_to,
  parse_forwarding, binding_parts, checked_mode, is_tunnel_type, read_digits,
}
use libpinggy.SdkConfig.Forwardings.{
  split_once-lost, find-host_port, bare_host, is_port, parse_forward_to-written,
}
use libpinggy.SdkConfig.Saving.{
  checked_mode-again, target, parse_forward_to-target, find-free, binding_parts-written,
  binding_parts-bare,
}

-- The binding as it is saved.
abbrev binding : Text → Text → Text
binding domain port_str =
    domain ++ (if ltb 0 (read_digits 0 port_str % 2 ^ 16) then bytes ":" ++ port_str else [])

-- What is read, with the three texts it was read from.
abbrev written :
    (m : TunnelMode) (domain port_str : Text) (tls : Bool)
    (host ds forwarding_type binding_url forward_to : Text)
    → SdkForwarding
written m domain port_str tls host ds forwarding_type binding_url forward_to = record {
  mode = m;
  binding_domain = domain;
  binding_port = read_digits 0 port_str % 2 ^ 16;
  binding_url = binding domain port_str;
  fwd_to_host = host;
  fwd_to_port = read_digits 0 ds % 2 ^ 16;
  forwarding_url = target tls host ds;
  local_server_tls = tls;
  orig_binding_url = binding_url;
  orig_forward_to = forward_to;
  orig_forwarding_type = forwarding_type;
}

-- A binding and its parts.
abbrev Parts : (url domain port_str : Text) → Type 0
Parts url domain port_str =
    (split_once url (bytes "://") ≡ parsed (none, url))
    × (text : Text) × (binding_parts url ≡ parsed (domain, text, read_digits 0 port_str % 2 ^ 16))
    × (domain ++ (if ltb 0 (read_digits 0 port_str % 2 ^ 16) then bytes ":" ++ text else [])
        ≡ binding domain port_str)

with_port-Parts :
    (domain port_str : Text)
    → free_of 58 domain ≡ true
    → is_port port_str ≡ true
    → Parts (domain ++ (bytes ":" ++ port_str)) domain port_str
with_port-Parts domain [] a c = ground arith
with_port-Parts domain (d ∷ ds) a c = (
  split_once-lost 58 (bytes "//") (domain ++ (58 ∷ d ∷ ds))
      (find-host_port domain d ds a (ground arith)),
  d ∷ ds,
  binding_parts-written domain d ds a c,
  refl,
)

binding-Parts :
    (domain port_str : Text)
    → free_of 58 domain ≡ true
    → is_port port_str ≡ true
    → Parts (binding domain port_str) domain port_str
binding-Parts domain port_str a c = elim (Bool-cases (ltb 0 (read_digits 0 port_str % 2 ^ 16))) [
  | inl some_port ↦
      let same : domain ++ (bytes ":" ++ port_str) ≡ binding domain port_str =
        ground (arith, some_port) in
      subst (λ url. Parts url domain port_str) same (with_port-Parts domain port_str a c)
  | inr no_port ↦
      let same : domain ≡ binding domain port_str = ground (arith, no_port, append-nil domain) in
      let zero_port : read_digits 0 port_str % 2 ^ 16 ≡ 0 = ground (arith, no_port) in
      let parts : Parts domain domain port_str = (
        split_once-lost 58 (bytes "//") domain (find-free domain a),
        [],
        ground (arith, binding_parts-bare domain a, zero_port),
        ground (arith, no_port),
      ) in
      subst (λ url. Parts url domain port_str) same parts
]

module _ (is_ip_address : Text → Bool) (domain port_str host ds : Text) where
  parse_forwarding-Parts :
      (m : TunnelMode) (t url to : Text) (f : ForwardTo)
      → Parts url domain port_str
      → is_ip_address domain ≡ false
      → checked_mode (string_to_lower t) ≡ parsed m
      → parse_forward_to to ≡ parsed f
      → f.fwd_to_host ≡ host
      → f.local_port_str ≡ ds
      → f.local_port ≡ read_digits 0 ds % 2 ^ 16
      → parse_forwarding is_ip_address t url to
        ≡ parsed
            (written m domain port_str (text_equal f.fwd_to_schema https_schema) host ds t url to)
  unfolding parse_forwarding
  parse_forwarding-Parts m t url to f (whole, text, parts, same) b g h h1 h2 h3 = ground arith

  parse_forwarding-written :
      (m : TunnelMode) (forwarding_type schema : Text)
      → free_of 58 domain ≡ true
      → is_ip_address domain ≡ false
      → is_port port_str ≡ true
      → free_of 58 schema ≡ true
      → bare_host host ≡ true
      → is_port ds ≡ true
      → checked_mode (string_to_lower forwarding_type) ≡ parsed m
      → let to : Text = schema ++ (bytes "://" ++ (host ++ (bytes ":" ++ ds))) in
        let url : Text = domain ++ (bytes ":" ++ port_str) in
        parse_forwarding is_ip_address forwarding_type url to
        ≡ parsed (
            written m domain port_str
              (text_equal (string_to_lower schema) https_schema)
              host
              ds
              forwarding_type
              url
              to)
  parse_forwarding-written m t schema a b c d e f g =
      let to : Text = schema ++ (bytes "://" ++ (host ++ (bytes ":" ++ ds))) in
      let url : Text = domain ++ (bytes ":" ++ port_str) in
      parse_forwarding-Parts m t url to _ (with_port-Parts domain port_str a c) b g
        (parse_forward_to-written schema host ds d e f) refl refl refl

  abbrev Saved : TunnelMode → Bool → Type 0
  Saved m tls =
      let t = tunnel_type_from_tunnel_mode m in
      parse_forwarding is_ip_address t (binding domain port_str) (target tls host ds)
      ≡ parsed
          (written m domain port_str tls host ds t (binding domain port_str) (target tls host ds))

  parse_forwarding-Saved :
      (m : TunnelMode) (sl : Text) (tls : Bool)
      → free_of 58 domain ≡ true
      → is_ip_address domain ≡ false
      → is_port port_str ≡ true
      → bare_host host ≡ true
      → is_port ds ≡ true
      → checked_mode sl ≡ parsed m
      → Saved m tls
  parse_forwarding-Saved m sl tls a b c e f g = elim tls as (λ tls. Saved m tls) [
    | true ↦
        parse_forwarding-Parts m (tunnel_type_from_tunnel_mode m) (binding domain port_str)
          (target true host ds) _ (binding-Parts domain port_str a c) b (checked_mode-again sl m g)
          (parse_forward_to-target true host ds e f) refl refl refl
    | false ↦
        parse_forwarding-Parts m (tunnel_type_from_tunnel_mode m) (binding domain port_str)
          (target false host ds) _ (binding-Parts domain port_str a c) b (checked_mode-again sl m g)
          (parse_forward_to-target false host ds e f) refl refl refl
  ]

text_equal-eq : (xs ys : Text) → text_equal xs ys ≡ true → xs ≡ ys
text_equal-eq [] [] e = refl
text_equal-eq [] (y ∷ ys) e = ground arith
text_equal-eq (x ∷ xs) [] e = ground arith
text_equal-eq (x ∷ xs) (y ∷ ys) e = ground (arith, text_equal-eq xs ys (ground arith))

string_to_lower_twice : (xs : Text) → string_to_lower (string_to_lower xs) ≡ string_to_lower xs
unfolding string_to_lower to_lower
string_to_lower_twice [] = refl
string_to_lower_twice (x ∷ xs) = ground (arith, string_to_lower_twice xs)

-- The mode has the name that it was given by.
abbrev Named : Text → Type 0
Named sl = tunnel_type_from_tunnel_mode (default_http (tunnel_mode_from_string sl)) ≡ sl

moded_type : (sl : Text) → is_tunnel_type sl ≡ true → string_to_lower sl ≡ sl → Named sl
unfolding tunnel_type_from_tunnel_mode tunnel_mode_from_string
moded_type sl typed small =
    let named = λ (name : Text) (here : text_equal sl name ≡ true). text_equal-eq sl name here in
    elim (Bool-cases (text_equal sl http_type)) [
      | inl http ↦ ground (arith, small, named http_type http)
      | inr h ↦ elim (Bool-cases (text_equal sl tcp_type)) [
        | inl tcp ↦ ground (arith, small, named tcp_type tcp)
        | inr t ↦ elim (Bool-cases (text_equal sl tls_type)) [
          | inl tls ↦ ground (arith, small, named tls_type tls)
          | inr l ↦ elim (Bool-cases (text_equal sl tlstcp_type)) [
            | inl tlstcp ↦ ground (arith, small, named tlstcp_type tlstcp)
            | inr p ↦
                let udp : text_equal sl udp_type ≡ true = ground arith in
                ground (arith, small, named udp_type udp)
          ]
        ]
      ]
    ]

-- The forwarding with the texts that it is saved as.
abbrev pub from_saved : SdkForwarding → SdkForwarding
from_saved f = record {
  mode = f.mode;
  binding_domain = f.binding_domain;
  binding_port = f.binding_port;
  binding_url = f.binding_url;
  fwd_to_host = f.fwd_to_host;
  fwd_to_port = f.fwd_to_port;
  forwarding_url = f.forwarding_url;
  local_server_tls = f.local_server_tls;
  orig_binding_url = f.binding_url;
  orig_forward_to = f.forwarding_url;
  orig_forwarding_type = tunnel_type_from_tunnel_mode f.mode;
}

-- One of the five types, in any case of letters, a binding of a domain and a port, and a target of a
-- schema, a host and a port are read as a forwarding of that type to them, the ports by their last 16 bits; what `SetForwarding` then reads of its type, its binding
-- and its target is the same forwarding, but for the texts it was read from. The domain and the schema have no colon,
-- the host has none and does not begin with a bracket, the ports are digits of numbers below 2^31, and the
-- domain is no address.
pub parse_forwarding-again :
    (is_ip_address : Text → Bool) (forwarding_type domain port_str schema host ds : Text)
    → is_tunnel_type (string_to_lower forwarding_type) ≡ true
    → free_of 58 domain ≡ true
    → is_ip_address domain ≡ false
    → is_port port_str ≡ true
    → free_of 58 schema ≡ true
    → bare_host host ≡ true
    → is_port ds ≡ true
    → (f : SdkForwarding) × (parse_forwarding is_ip_address forwarding_type
          (domain ++ (bytes ":" ++ port_str))
          (schema ++ (bytes "://" ++ (host ++ (bytes ":" ++ ds))))
        ≡ parsed f)
      × (tunnel_type_from_tunnel_mode f.mode ≡ string_to_lower forwarding_type)
      × ((f.binding_domain ≡ domain) × (f.binding_port ≡ read_digits 0 port_str % 2 ^ 16))
      × ((f.fwd_to_host ≡ host) × (f.fwd_to_port ≡ read_digits 0 ds % 2 ^ 16))
      × (parse_forwarding is_ip_address
            (tunnel_type_from_tunnel_mode f.mode)
            f.binding_url
            f.forwarding_url
          ≡ parsed (from_saved f))
parse_forwarding-again is_ip t domain port_str schema host ds typed a b c d e g =
    let m = default_http (tunnel_mode_from_string (string_to_lower t)) in
    let tls = text_equal (string_to_lower schema) https_schema in
    let moded : checked_mode (string_to_lower t) ≡ parsed m =
      unfold checked_mode in ground (arith, typed) in
    (
      _,
      parse_forwarding-written is_ip domain port_str host ds m t schema a b c d e g moded,
      moded_type (string_to_lower t) typed (string_to_lower_twice t),
      (refl, refl),
      (refl, refl),
      parse_forwarding-Saved is_ip domain port_str host ds m (string_to_lower t) tls a b c e g
          moded,
    )
