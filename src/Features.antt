-- ===== src/Features.antt =====
-- src/protocol/SessionFeatures.hh and SessionFeatures.cc: what the negotiated version switches on.
pub mod Negotiation
use libpinggy.Prelude.{ℕ, Bool, true, false, ltb, ◌==◌, if◌then◌else◌}

abbrev pub version_0_00 : ℕ
version_0_00 = 0x0000

abbrev pub version_1_00 : ℕ
version_1_00 = 0x1000

abbrev pub version_1_01 : ℕ
version_1_01 = 0x1001

abbrev pub version_1_02 : ℕ
version_1_02 = 0x1002

pub record SessionFeatures : Type 0 where
  pub version : ℕ  -- uint32
  pub fast_connect : Bool
  pub close_time_out_channel : Bool
  pub primary_forwarding_mode : Bool
  pub implicit_usages_and_greeting : Bool

-- The constructor: the default member initialisers, with no call of `configureFeatures`.
unfoldable pub new_features : ℕ → SessionFeatures
new_features version = record {
  version = version;
  fast_connect = false;
  close_time_out_channel = false;
  primary_forwarding_mode = true;
  implicit_usages_and_greeting = false;
}

unfoldable pub reset_to_default : SessionFeatures → SessionFeatures
reset_to_default f = record f {
  fast_connect = false;
  close_time_out_channel = false;
  primary_forwarding_mode = true;
  implicit_usages_and_greeting = false;
}

-- The three labels of the `switch`, each falling through to the next.
unfoldable pub on_1_00 : SessionFeatures → SessionFeatures
on_1_00 f = record f { fast_connect = true; close_time_out_channel = true }

unfoldable pub on_1_01 : SessionFeatures → SessionFeatures
unfolding on_1_00
on_1_01 f = on_1_00 (record f { implicit_usages_and_greeting = true })

unfoldable pub on_1_02 : SessionFeatures → SessionFeatures
unfolding on_1_01
on_1_02 f = on_1_01 (record f { primary_forwarding_mode = false })

unfoldable pub configure_features : SessionFeatures → SessionFeatures
unfolding reset_to_default on_1_00 on_1_01 on_1_02
configure_features f =
    let g = reset_to_default f in
    if f.version == version_1_02
    then on_1_02 g
    else if f.version == version_1_01
    then on_1_01 g
    else if f.version == version_1_00
    then on_1_00 g
    else record g { version = version_0_00 }

unfoldable pub negotiate_version : SessionFeatures → ℕ → SessionFeatures
unfolding configure_features
negotiate_version f expected =
    configure_features
      (record f { version = if ltb f.version expected then f.version else expected })

pub set_version : SessionFeatures → ℕ → SessionFeatures
unfolding configure_features
set_version f version = configure_features (record f { version = version })
