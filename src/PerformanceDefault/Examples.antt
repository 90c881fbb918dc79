-- ===== src/PerformanceDefault/Examples.antt =====
-- A K17's files after tests/test_performance_defaults.py, and the theorems there.
use bazzite_k.Common.{
  ◌≡◌, true, false, none, some, List, [], ◌∷◌, String, text_eq, refl, if◌then◌else◌,
}
use bazzite_k.Common.Bytes.{bytes}
use bazzite_k.Common.Parse.{strip, parse_int}
use bazzite_k.PerformanceDefault.{
  Files, ok, Applied, dmi_matches, check_gt, check_gpu, select_profile, set_profile, apply_default,
}
use bazzite_k.PerformanceDefault.Once.{apply_default_once}

abbrev entries : List (String × String)
entries =
    ("/sys/class/dmi/id/sys_vendor", "GMKtec\n")
    ∷ ("/sys/class/dmi/id/product_name", "NucBox K17\n")
    ∷ ("/sys/bus/pci/devices/0000:00:02.0/vendor", "0x8086\n")
    ∷ ("/sys/bus/pci/devices/0000:00:02.0/tile0/gt0/freq0/min_freq", "400\n")
    ∷ ("/sys/bus/pci/devices/0000:00:02.0/tile0/gt0/freq0/rp0_freq", "1850")
    ∷ ("/sys/bus/pci/devices/0000:00:02.0/tile0/gt1/freq0/min_freq", "400\n")
    ∷ ("/sys/bus/pci/devices/0000:00:02.0/tile0/gt1/freq0/rp0_freq", "1200")
    ∷ []

abbrev find : List (String × String) → Files
find [] path = none
find ((p, text) ∷ rest) path = if text_eq path p then some (bytes text) else find rest path

abbrev k17 : Files
k17 = find entries

k17-selected : select_profile k17 "/sys" ≡ ok "moonmachine-k17-streaming"
unfolding select_profile dmi_matches check_gpu check_gt strip parse_int
k17-selected = refl

-- A machine with no such files.
bare-selected : select_profile (find []) "/sys" ≡ ok "moonmachine-streaming"
unfolding select_profile dmi_matches
bare-selected = refl

abbrev first_call : Applied
first_call = apply_default k17 "/stamp" "/opt-out" "/sys" (λ p. true)

apply_default_once_example :
    apply_default first_call.files "/stamp" "/opt-out" "/other" (λ p. false)
    ≡ record { result = ok tt; files = first_call.files; actions = [] }
unfolding apply_default set_profile select_profile dmi_matches check_gpu check_gt strip parse_int
apply_default_once_example =
    apply_default_once k17 "/stamp" "/opt-out" "/sys" (λ p. true) "/other" (λ p. false) refl
