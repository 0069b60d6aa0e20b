-- ===== src/Whole/Plugin.antt =====
-- From the plugin of OpenCode to the display.
use mathlib.Core.List.{map}
use flipper_agent_indicator.Prelude.{ℕ, ◌≡◌, ◌⊎◌, inl, inr, ap, ◌∙◌, List, [], ◌∷◌, some, last}
use flipper_agent_indicator.Protocol.{State}
use flipper_agent_indicator.Firmware.App.{ui_idle}
use flipper_agent_indicator.Hooks.OpenCode.{PluginCall, fresh, run_plugin}
use flipper_agent_indicator.Hooks.OpenCode.Changes.{all_wanted}
use flipper_agent_indicator.Hooks.Delivery.{opencode_note, last_given}
use flipper_agent_indicator.Whole.Rig.{Rig, Reach, start}
use flipper_agent_indicator.Whole.Arrived.{device_frame}
use flipper_agent_indicator.Whole.Displayed.{IsQuiet, map-last, quiet_shows_latest}

-- Whatever calls the plugin of OpenCode gets: when what the daemon has forwarded after any moves is what
-- the plugin gave, nothing waits anywhere and the queue of the app had a place for every frame, then the
-- app has handled the state that the calls asked for last, last of all, and it is idle or shows that state.
pub opencode-displayed :
    {p : Rig} (calls : List (ℕ × PluginCall)) (s : State)
    → last (all_wanted [] calls) ≡ some s
    → Reach start p
    → p.forwarded ≡ map opencode_note (run_plugin fresh calls).1
    → IsQuiet p
    → p.lost ≡ 0
    → (last p.handled ≡ some (device_frame (opencode_note s)))
      × ((p.app.ui.mode ≡ ui_idle) ⊎ (p.app.ui.current ≡ device_frame (opencode_note s)))
opencode-displayed {p} calls s asked r forwarded q whole =
    let (seen, shown) = quiet_shows_latest r q whole in
    let latest : last (map device_frame p.forwarded) ≡ some (device_frame (opencode_note s)) =
      ap (λ ns. last (map device_frame ns)) forwarded
      ∙ map-last device_frame (map opencode_note (run_plugin fresh calls).1) (opencode_note s ∷ [])
          (last_given calls s asked) in
    (seen ∙ latest, elim shown [ inl idle ↦ inl idle | inr current ↦ inr (cc (current, latest)) ])
