-- ===== src/Tests/Config.antt =====
-- Runs of the readers of settings on texts.
use libpinggy.Prelude.{◌≡◌, refl, Bool, true, false, [], ◌∷◌, bytes, some, arith}
use libpinggy.Message.{Text}
use libpinggy.StringUtils.Matching.{to_lower, string_to_lower}
use libpinggy.StringUtils.Splitting.{
  join_string, find, starts_with, split_string, split_from, last_piece,
}
use libpinggy.StringUtils.{is_space}
use libpinggy.Tunnel.{tunnel_type_from_tunnel_mode}
use libpinggy.SdkConfig.{
  SdkForwarding, parsed, config_exception, get_user, parse_forwarding, parse_forward_to, split_once,
  host_port, bracketed, stoi, stoi_signed, read_digits,
}
use libpinggy.SdkConfig.User.{get_user-join}
use libpinggy.SdkConfig.Again.{parse_forwarding-again, from_saved}

get_user-join_example :
    get_user (join_string (bytes "tok" ∷ bytes "TCP" ∷ bytes "qr" ∷ []) (bytes "+")) true
    ≡ some (join_string (bytes "tok" ∷ bytes "qr" ∷ bytes "force" ∷ []) (bytes "+"))
unfolding string_to_lower to_lower
get_user-join_example =
    get_user-join (bytes "tok" ∷ bytes "TCP" ∷ bytes "qr" ∷ []) true refl (omega arith)

abbrev no_address : Text → Bool
no_address domain = false

parse_forwarding-again_example :
    (f : SdkForwarding) × (parse_forwarding no_address
        (bytes "Tcp")
        (bytes "example.com:8022")
        (bytes "HTTPS://localhost:22")
      ≡ parsed f)
    × (tunnel_type_from_tunnel_mode f.mode ≡ bytes "tcp")
    × ((f.binding_domain ≡ bytes "example.com") × (f.binding_port ≡ 8022))
    × ((f.fwd_to_host ≡ bytes "localhost") × (f.fwd_to_port ≡ 22))
    × (parse_forwarding no_address
          (tunnel_type_from_tunnel_mode f.mode)
          f.binding_url
          f.forwarding_url
        ≡ parsed (from_saved f))
unfolding string_to_lower to_lower read_digits
parse_forwarding-again_example =
    parse_forwarding-again no_address (bytes "Tcp") (bytes "example.com") (bytes "8022")
      (bytes "HTTPS") (bytes "localhost") (bytes "22") refl refl refl refl refl refl refl

-- The colon behind the schema is taken for the one in front of the port.
bracket_behind_schema : parse_forward_to (bytes "http://[::1]:8000") ≡ config_exception
unfolding parse_forward_to split_once host_port bracketed stoi stoi_signed find starts_with
    split_string split_from last_piece is_space
bracket_behind_schema = refl
