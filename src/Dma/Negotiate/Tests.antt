-- ===== src/Dma/Negotiate/Tests.antt =====
-- Two peers that share a tiled and a linear modifier, on one device and on two.
use wwe_modify.Base.{some, ℕ, [], ◌∷◌, ◌≡◌, refl, arith, ℕ_discrete}
use wwe_modify.Base.Map.{get}
use wwe_modify.Dma.Negotiate.Format.{Best, pick_format_same_device-Best}
use wwe_modify.Dma.Negotiate.Scheme.{SyncAgreed, pick_sync-SyncAgreed, Fits, pick-Fits}
use wwe_modify.Dma.Negotiate.Unflatten.{fits, is_ok, unflatten_caps_total}
use wwe_modify.Dma.Negotiate.{
  Result, WireCaps, unflatten_caps, FormatCaps, zero_uuid, PeerCaps, ok, pick_sync,
  pick_format_same_device, pick,
}

program : Unit {0}
unfolding ℕ_discrete get pick pick_sync pick_format_same_device
program = tt

abbrev formats : FormatCaps
formats =
    (
      0x34325241,
      record { modifier = 0; plane_count = 1 } ∷ record { modifier = 7; plane_count = 2 } ∷ [],
    )
    ∷ (0x34325258, record { modifier = 0; plane_count = 1 } ∷ [])
    ∷ []

abbrev peer : ℕ → PeerCaps
peer minor = record {
  formats = formats;
  identity = record {
    device_uuid = zero_uuid;
    driver_uuid = zero_uuid;
    drm = record { major = 226; minor = minor };
  };
  sync = 3;
  color = 193;
  mem_hint = 3;
  extent_max = (0, 0);
  blacklist = [];
}

tiled_preferred : pick_format_same_device formats formats [] [] ≡ ok (0x34325241, (7, 2))
unfolding program
tiled_preferred = refl

-- A common bit that no mode has is answered by the implicit mode, which neither peer offers.
unknown_bit : pick_sync 8 8 ≡ ok 1
unfolding program
unknown_bit = refl

pick_format_same_device-Best_example :
    Best formats [] [] formats (pick_format_same_device formats formats [] [])
unfolding program
pick_format_same_device-Best_example =
    pick_format_same_device-Best formats formats [] [] (refl, (refl, tt))

pick_sync-SyncAgreed_example : SyncAgreed 3 6 (pick_sync 3 6)
pick_sync-SyncAgreed_example = pick_sync-SyncAgreed 3 6 (omega arith) (omega arith)

pick-Fits_example : Fits (peer 128) (peer 129) (pick (peer 128) (peer 129))
unfolding program
pick-Fits_example = pick-Fits (peer 128) (peer 129) (refl, (refl, tt))

abbrev wire : WireCaps
wire = record {
  fourccs = 5 ∷ 6 ∷ [];
  mod_counts = 2 ∷ 1 ∷ [];
  modifiers = 0 ∷ 7 ∷ 0 ∷ [];
  plane_counts = 1 ∷ 2 ∷ 1 ∷ [];
  device_uuid = 1 ∷ 2 ∷ 3 ∷ 4 ∷ [];
  driver_uuid = 1 ∷ 2 ∷ 3 ∷ [];
  drm = record { major = 226; minor = 128 };
  sync = 3;
  color = 0;
  mem_hint = 0;
  extent_max = (0, 0);
}

unflatten_caps_total_example :
    (r : Result PeerCaps) × (unflatten_caps wire ≡ some r) × (is_ok r ≡ fits wire)
unflatten_caps_total_example = unflatten_caps_total wire (omega arith)
