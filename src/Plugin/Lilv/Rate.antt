-- ===== src/Plugin/Lilv/Rate.antt =====
-- Plugin.cpp: the sample rate with which an LV2 plugin is instantiated.
use amprack_6_pc.Base.{ℕ, ◌≡◌, refl, true, false, Option, none, List, Option-cases, inl, inr}
use amprack_6_pc.Plugin.Ports.{no_ports}
use amprack_6_pc.Plugin.Lilv.{LilvPort, new_plugin}

module _ {F I : Type 0} where
  -- The plugin is instantiated with the sample rate that the member held before, not with the one
  -- that was asked for; where that fails no port is looked at.
  pub new_plugin-stale_rate :
      (instantiate : ℕ → Option I) (junk rate : ℕ) (ps : List (LilvPort F))
      → ((new_plugin true instantiate junk rate ps).instance_ptr ≡ instantiate junk)
        × (instantiate junk ≡ none
            → ((new_plugin true instantiate junk rate ps).uri ≡ false)
              × ((new_plugin true instantiate junk rate ps).ports ≡ no_ports))
  unfolding new_plugin
  new_plugin-stale_rate instantiate junk rate ps = (
    elim (Option-cases (instantiate junk)) [
      | inl e ↦ rw (e, new_plugin) refl
      | inr e ↦ rw (e.1, new_plugin) refl
    ],
    λ e. rw (e, new_plugin) (refl, refl),
  )
