-- ===== src/SdkConfig/Saving.antt =====
-- src/sdk/SdkConfig.cc: the type, the binding and the target of a forwarding, as they are saved, are read.
use libpinggy.Prelude.{
  ℕ, ◌%◌, ◌^◌, ◌≡◌, ◌≢◌, refl, Bool, true, false, if◌then◌else◌, [], ◌∷◌, ◌++◌, bytes, none, arith,
}
use libpinggy.Message.{Text}
use libpinggy.StringUtils.Matching.{string_to_lower, to_lower}
use libpinggy.StringUtils.Splitting.{find, starts_with, free_of, find-some, find-none}
use libpinggy.Tunnel.{
  TunnelMode, mode_none, mode_http, mode_tcp, mode_tls, mode_tlstcp, mode_udp,
  tunnel_mode_from_string, tunnel_type_from_tunnel_mode,
}
use libpinggy.SdkConfig.{
  parsed, default_http, parse_forward_to, binding_parts, checked_mode, read_digits,
}
use libpinggy.SdkConfig.Forwardings.{
  split_once-found, split_once-lost, find-host_port, host_port-written, stoi-digits, bare_host,
  is_port, parse_forward_to-written,
}

default_http-named : (m : TunnelMode) → default_http m ≢ mode_none
default_http-named mode_none e = cc
default_http-named mode_http e = cc
default_http-named mode_tcp e = cc
default_http-named mode_tls e = cc
default_http-named mode_tlstcp e = cc
default_http-named mode_udp e = cc

pub checked_mode-again :
    (sl : Text) (m : TunnelMode)
    → checked_mode sl ≡ parsed m
    → checked_mode (string_to_lower (tunnel_type_from_tunnel_mode m)) ≡ parsed m
unfolding checked_mode
checked_mode-again sl mode_none e = ground (arith, default_http-named (tunnel_mode_from_string sl))
checked_mode-again sl mode_http e =
    unfold string_to_lower tunnel_type_from_tunnel_mode to_lower tunnel_mode_from_string in refl
checked_mode-again sl mode_tcp e =
    unfold string_to_lower tunnel_type_from_tunnel_mode to_lower tunnel_mode_from_string in refl
checked_mode-again sl mode_tls e =
    unfold string_to_lower tunnel_type_from_tunnel_mode to_lower tunnel_mode_from_string in refl
checked_mode-again sl mode_tlstcp e =
    unfold string_to_lower tunnel_type_from_tunnel_mode to_lower tunnel_mode_from_string in refl
checked_mode-again sl mode_udp e =
    unfold string_to_lower tunnel_type_from_tunnel_mode to_lower tunnel_mode_from_string in refl

-- The target as it is saved.
abbrev pub target : Bool → Text → Text → Text
target tls host ds = (if tls then bytes "https://" else []) ++ (host ++ (bytes ":" ++ ds))

pub parse_forward_to-target :
    (tls : Bool) (host ds : Text)
    → bare_host host ≡ true
    → is_port ds ≡ true
    → parse_forward_to (target tls host ds)
      ≡ parsed record {
        fwd_to_schema = if tls then bytes "https" else [];
        fwd_to_host = host;
        local_port_str = ds;
        local_port = read_digits 0 ds % 2 ^ 16;
      }
parse_forward_to-target true host ds e f =
    unfold string_to_lower to_lower in parse_forward_to-written (bytes "https") host ds refl e f
parse_forward_to-target false host [] e f = ground arith
parse_forward_to-target false host (d ∷ ds) e f =
    unfold parse_forward_to in
    ground (
      arith,
      split_once-lost 58 (bytes "//") (host ++ (58 ∷ d ∷ ds))
          (find-host_port host d ds (ground arith) (ground arith)),
      host_port-written (host ++ (58 ∷ d ∷ ds)) host d ds e,
      stoi-digits (d ∷ ds) f,
    )

pub find-free : (xs : Text) → free_of 58 xs ≡ true → find (bytes "://") xs ≡ none
unfolding find starts_with
find-free [] e = refl
find-free (x ∷ xs) e = ground (arith, find-free xs (ground arith))

pub binding_parts-written :
    (domain : Text) (d : ℕ) (ds : Text)
    → free_of 58 domain ≡ true
    → is_port (d ∷ ds) ≡ true
    → binding_parts (domain ++ (58 ∷ d ∷ ds))
      ≡ parsed (domain, d ∷ ds, read_digits 0 (d ∷ ds) % 2 ^ 16)
unfolding binding_parts
binding_parts-written domain d ds e f = ground (
  arith,
  split_once-found domain (58 ∷ []) ds d (find-some 58 domain (d ∷ ds) e),
  stoi-digits (d ∷ ds) f,
)

pub binding_parts-bare :
    (domain : Text) → free_of 58 domain ≡ true → binding_parts domain ≡ parsed (domain, [], 0)
unfolding binding_parts
binding_parts-bare domain e = ground (arith, split_once-lost 58 [] domain (find-none 58 domain e))
