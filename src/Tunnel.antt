-- ===== src/Tunnel.antt =====
-- src/common/utils/TunnelCommon.hh and TunnelCommon.cc: the modes of a tunnel and their names.
use libpinggy.Prelude.{◌≡◌, refl, if◌then◌else◌, [], bytes}
use libpinggy.Message.{Text}
use libpinggy.StringUtils.Matching.{text_equal, string_to_lower, to_lower}

pub data TunnelMode : Type 0 where
  mode_none mode_http mode_tcp mode_tls mode_tlstcp mode_udp : TunnelMode

abbrev pub http_type : Text
http_type = bytes "http"

abbrev pub tcp_type : Text
tcp_type = bytes "tcp"

abbrev pub tls_type : Text
tls_type = bytes "tls"

abbrev pub tlstcp_type : Text
tlstcp_type = bytes "tlstcp"

abbrev pub udp_type : Text
udp_type = bytes "udp"

unfoldable pub tunnel_mode_from_string : Text → TunnelMode
tunnel_mode_from_string mode_str =
    let sl = string_to_lower mode_str in
    if text_equal sl []
    then mode_none
    else if text_equal sl http_type
    then mode_http
    else if text_equal sl tcp_type
    then mode_tcp
    else if text_equal sl tls_type
    then mode_tls
    else if text_equal sl tlstcp_type
    then mode_tlstcp
    else if text_equal sl udp_type
    then mode_udp
    else mode_none

unfoldable pub tunnel_type_from_tunnel_mode : TunnelMode → Text
tunnel_type_from_tunnel_mode mode_none = bytes "unknown"
tunnel_type_from_tunnel_mode mode_http = http_type
tunnel_type_from_tunnel_mode mode_tcp = tcp_type
tunnel_type_from_tunnel_mode mode_tls = tls_type
tunnel_type_from_tunnel_mode mode_tlstcp = tlstcp_type
tunnel_type_from_tunnel_mode mode_udp = udp_type

-- A mode is read back from its name.
pub tunnel_mode_from_string-type :
    (m : TunnelMode) → tunnel_mode_from_string (tunnel_type_from_tunnel_mode m) ≡ m
unfolding tunnel_mode_from_string tunnel_type_from_tunnel_mode string_to_lower to_lower
tunnel_mode_from_string-type mode_none = refl
tunnel_mode_from_string-type mode_http = refl
tunnel_mode_from_string-type mode_tcp = refl
tunnel_mode_from_string-type mode_tls = refl
tunnel_mode_from_string-type mode_tlstcp = refl
tunnel_mode_from_string-type mode_udp = refl
