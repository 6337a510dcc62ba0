-- ===== src/Inspector/Tests.antt =====
-- The inspector on small binaries.
use bootmux.Base.{◌≡◌, refl, ℕ, true, none, some, List, [], ◌∷◌, ◌++◌, All, codes}
use bootmux.Inspector.{Manifest, Build, forbidden_found, inspect_build, marker_in}
use bootmux.Inspector.Scan.{scan_binary_strings}
use bootmux.Inspector.Sound.{Sound, inspect_build-green}

-- A forbidden name of five letters, between zeros as a C string is, is not seen.
rndis_unseen : forbidden_found (scan_binary_strings (0 ∷ codes "RNDIS" ++ (0 ∷ []))) ≡ []
unfolding forbidden_found scan_binary_strings
rndis_unseen = refl

ecm_seen :
    forbidden_found (scan_binary_strings (0 ∷ codes "CDC_ECM" ++ (0 ∷ []))) ≡ codes "CDC_ECM" ∷ []
unfolding forbidden_found scan_binary_strings
ecm_seen = refl

abbrev firmware : List ℕ
firmware = 7 ∷ codes "BOOTMUX_USB_NETWORK_SAFE_OFF" ++ (0 ∷ codes "BOOTMUX Keyboard Safe")

abbrev build : Build
build = record {
  sdkconfig = some (codes "CONFIG_SAFE=y");
  read_bytes = λ path. some firmware;
  sha256_file = λ bytes. "0f";
}

abbrev manifest : Manifest
manifest = record {
  sdkconfig_marker = some "CONFIG_SAFE";
  artifacts =
      record { name = "application"; path = "build/app.bin"; size = 51; sha256 = "0f" } ∷ [];
  product = some "BOOTMUX Keyboard";
  serial = some "Safe";
}

build_green : inspect_build build manifest ≡ true
unfolding inspect_build
build_green = refl

-- Without a marker, a product and a serial number in the manifest, the three tests are passed.
keyless_green :
    inspect_build build (record manifest { sdkconfig_marker = none; product = none; serial = none })
    ≡ true
unfolding inspect_build
keyless_green = refl

inspect_build-green_example :
    All (Sound build) manifest.artifacts
    × (marker_in manifest.sdkconfig_marker build.sdkconfig ≡ true)
inspect_build-green_example = inspect_build-green build manifest build_green
