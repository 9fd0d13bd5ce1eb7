-- ===== src/Network/Hostname/Tests.antt =====
-- Names with blanks and other bytes.
use esp_arduino_ebus.Base.{ℕ, ◌≡◌, refl, List, [], ◌∷◌}
use esp_arduino_ebus.Network.Hostname.{build_hostname}
use esp_arduino_ebus.Network.Hostname.Label.{IsLabel, build_hostname-IsLabel}

-- The text ` _My eBus!-`.
abbrev name : List ℕ
name = 32 ∷ b'_' ∷ b'M' ∷ b'y' ∷ 32 ∷ b'e' ∷ b'B' ∷ b'u' ∷ b's' ∷ b'!' ∷ b'-' ∷ []

my_ebus : build_hostname name [] ≡ b'm' ∷ b'y' ∷ b'-' ∷ b'e' ∷ b'b' ∷ b'u' ∷ b's' ∷ []
unfolding build_hostname
my_ebus = refl

build_hostname-IsLabel_example : IsLabel (build_hostname name [])
build_hostname-IsLabel_example = build_hostname-IsLabel name []
