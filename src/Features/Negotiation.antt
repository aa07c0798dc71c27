-- ===== src/Features/Negotiation.antt =====
-- What two ends agree on after the hello messages.
use libpinggy.Prelude.{ℕ, ◌≤◌, ◌≡◌, ◌⊎◌, ltb, leb, arith}
use libpinggy.Features.{
  SessionFeatures, negotiate_version, configure_features, version_0_00, version_1_00, version_1_01,
  version_1_02,
}

-- Whatever features the two ends had, after each has negotiated with the other's version both have
-- the same version and the same features.
pub negotiate_version_agree :
    (f g : SessionFeatures) → negotiate_version f g.version ≡ negotiate_version g f.version
unfolding negotiate_version
negotiate_version_agree f g = ground arith

-- The negotiated version is one of the four known versions and at most the peer's, and it alone
-- decides every feature, whatever features were on before.
pub record IsConfigured (f : SessionFeatures) : Type 0 where
  pub known :
      (f.version ≡ version_0_00)
      ⊎ (f.version ≡ version_1_00)
      ⊎ (f.version ≡ version_1_01)
      ⊎ (f.version ≡ version_1_02)
  pub fast : f.fast_connect ≡ leb version_1_00 f.version
  pub timeout : f.close_time_out_channel ≡ leb version_1_00 f.version
  pub greeting : f.implicit_usages_and_greeting ≡ leb version_1_01 f.version
  pub primary : f.primary_forwarding_mode ≡ ltb f.version version_1_02

configure_features-IsConfigured : (f : SessionFeatures) → IsConfigured (configure_features f)
unfolding configure_features
configure_features-IsConfigured f = ground arith

-- After a negotiation the version is a known one, at most either end's, and decides every feature.
pub negotiate_version-IsConfigured :
    (f : SessionFeatures) (v : ℕ)
    → IsConfigured (negotiate_version f v)
      × ((negotiate_version f v).version ≤ f.version)
      × ((negotiate_version f v).version ≤ v)
unfolding negotiate_version
negotiate_version-IsConfigured f v = ground arith
