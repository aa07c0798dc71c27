-- ===== src/Tests/Buffers.antt =====
-- Runs on buffers and on negotiated features.
use libpinggy.Prelude.{◌≡◌, true, false, [], ◌∷◌, pos, arith}
use libpinggy.Features.{SessionFeatures, negotiate_version, version_1_00, version_1_02}
use libpinggy.Features.Negotiation.{negotiate_version_agree}
use libpinggy.RawData.{RawData, view, slice, consume, add_data}
use libpinggy.RawData.View.{
  IsValid, slice_bytes, consume_bytes, slice-slice_bytes, consume-consume_bytes,
}
use libpinggy.RawData.Append.{Appends, add_data-Appends}

abbrev modern : SessionFeatures
modern = record {
  version = version_1_02;
  fast_connect = true;
  close_time_out_channel = true;
  primary_forwarding_mode = false;
  implicit_usages_and_greeting = true;
}

abbrev older : SessionFeatures
older = record modern { version = version_1_00 }

negotiate_version_agree_example :
    negotiate_version modern version_1_00 ≡ negotiate_version older version_1_02
negotiate_version_agree_example = negotiate_version_agree modern older

-- Five bytes, of which one was consumed, in a block of eight.
abbrev five : RawData
five = record {
  block = 7 ∷ 1 ∷ 2 ∷ 3 ∷ 4 ∷ 0 ∷ 0 ∷ 0 ∷ [];
  len = 4;
  offset = 1;
  capa = 8;
  owner = true;
  movedata = true;
}

abbrev three : RawData
three = record {
  block = 9 ∷ 8 ∷ 7 ∷ [];
  len = 3;
  offset = 0;
  capa = 3;
  owner = true;
  movedata = true;
}

five-IsValid : IsValid five
five-IsValid = record { window = omega arith; room = omega arith }

three-IsValid : IsValid three
three-IsValid = record { window = omega arith; room = omega arith }

slice-slice_bytes_example :
    (view (slice five (pos 1) (pos 9)) ≡ slice_bytes (pos 1) (pos 9) (1 ∷ 2 ∷ 3 ∷ 4 ∷ []))
    × IsValid (slice five (pos 1) (pos 9))
slice-slice_bytes_example = slice-slice_bytes five (pos 1) (pos 9) five-IsValid

consume-consume_bytes_example :
    (view (consume five (pos 3)) ≡ consume_bytes (pos 3) (1 ∷ 2 ∷ 3 ∷ 4 ∷ []))
    × IsValid (consume five (pos 3))
consume-consume_bytes_example = consume-consume_bytes five (pos 3) five-IsValid

add_data-Appends_example : Appends three (1 ∷ 2 ∷ []) (add_data three (1 ∷ 2 ∷ []))
add_data-Appends_example = add_data-Appends three (1 ∷ 2 ∷ []) three-IsValid (omega arith)
