-- ===== src/Helpers/Tests.antt =====
-- Runs of the helpers.
use bootmux.Base.{◌≡◌, refl, none, some, List, [], ◌∷◌, codes_start}
use bootmux.Base.Dict.{put}
use bootmux.Helpers.Secret.{read_field, found, bad_permissions, bad_format, bad_keys, unavailable}
use bootmux.Helpers.Secret.RoundTrip.{
  Item, blank, comment, ssid, password, print_secrets, read_field-print_secrets,
}

abbrev items : List Item
items =
    comment " the home network" ∷ password "old" ∷ blank ∷ ssid "Home Net" ∷ password "a=b#c" ∷ []

read_field-print_secrets_example :
    (read_field (some 0o600) (some (print_secrets items)) "ssid" ≡ found "Home Net")
    × (read_field (some 0o600) (some (print_secrets items)) "password" ≡ found "a=b#c")
read_field-print_secrets_example =
    read_field-print_secrets items (refl, ((refl, refl), (tt, ((refl, refl), ((refl, refl), tt)))))
      refl refl

refuses :
    (read_field none none "ssid" ≡ unavailable)
    × (read_field (some 0o644) (some (print_secrets (ssid "a" ∷ password "b" ∷ []))) "ssid"
        ≡ bad_permissions)
    × (read_field (some 0o600) (some "BOOTMUX_WIFI_SSID=a\n") "ssid" ≡ bad_keys)
    × (read_field (some 0o600) (some "BOOTMUX_WIFI_SSID=\n") "ssid" ≡ bad_format)
unfolding read_field codes_start put
refuses = (refl, refl, refl, refl)
