-- ===== src/VrrDefaults/Examples.antt =====
-- Steam turns VRR off, and sets a limit.
use bazzite_k.Common.{ℕ, ◌≡◌, refl, none, some, List, [], ◌∷◌, ◌++◌, true}
use bazzite_k.Common.Bytes.{bytes}
use bazzite_k.Common.Parse.{strip}
use bazzite_k.VrrDefaults.{
  Property, vrr_enabled, fps_limit, name_text, Ending, reaction, name_of, value_of, watch,
}
use bazzite_k.VrrDefaults.Settled.{Change, printed, corrections, watch-corrections}

-- A property that is not set has no value.
not_found :
    reaction (bytes "GAMESCOPE_FPS_LIMIT:  not found.\n")
    ≡ some (record { property = fps_limit; value = bytes "0" })
unfolding reaction name_of value_of strip
not_found = refl

other_line : reaction (bytes "_NET_WM_NAME = \"0\"\n") ≡ none
unfolding reaction name_of value_of strip
other_line = refl

abbrev spy : Property → List ℕ → List ℕ
spy p v = name_text p ++ (bytes "(CARDINAL) = " ++ (v ++ (10 ∷ [])))

abbrev changes : List Change
changes =
    record { property = vrr_enabled; value = bytes "0" }
    ∷ record { property = fps_limit; value = bytes "0" }
    ∷ record { property = fps_limit; value = bytes "60" }
    ∷ []

watch-corrections_example :
    watch (λ s. true) (printed spy changes) ≡ (corrections changes, Ending.exited)
watch-corrections_example =
    watch-corrections spy changes (λ p v. refl) ((refl, tt), ((refl, tt), ((refl, (refl, tt)), tt)))
