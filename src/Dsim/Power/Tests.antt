-- ===== src/Dsim/Power/Tests.antt =====
-- A host of the boot splash that is enabled, goes into bypass with a packet sent to it, and is enabled
-- again; and one that is detached in its low power state.
use google_modules_display_s.Prelude.{◌≡◌, refl, true, false, ◌||◌, none, []}
use google_modules_display_s.Dsim.State.{hsclken, handover}
use google_modules_display_s.Dsim.Power.{
  Host, Env, encoder_enable, encoder_disable, host_transfer, core_suspend, host_detach,
}
use google_modules_display_s.Dsim.Power.Balance.{dark, lit, bypassed, Balanced}
use google_modules_display_s.Dsim.Power.Commits.{
  World, to, enabled, rested, idled, sent, Reach, here, next, Probed, Reach-Balanced,
}

abbrev splash : Host
splash = record {
  state = handover;
  suspend_state = hsclken;
  phy = 0;
  irq = 0;
  total_pend_ph = 0;
  force_batching = false;
  te_pin = none;
  usage = 0;
  active = false;
  error = false;
  calls = [];
  unbalanced = false;
  unpowered = false;
}

abbrev env : Env
env = record { pll_stable = true; linked = true; has_te_pins = true }

abbrev boot : World
boot = to splash dark

abbrev shown : World
shown = to (encoder_enable env false splash) lit

abbrev hidden : World
hidden = to (encoder_disable env false true true shown.host) bypassed

abbrev idle : World
idle = to (core_suspend hidden.host) bypassed

abbrev poked : World
poked = to (host_transfer true true idle.host) bypassed

abbrev back : World
back = to (encoder_enable env true poked.host) lit

path : Reach boot back
unfolding encoder_enable encoder_disable
path =
    next
      (next
        (next (next (next here (enabled env boot refl refl)) (rested env true shown refl))
          (idled hidden refl refl))
        (sent true true idle))
      (enabled env poked refl refl)

-- The packet finds no power in bypass, and the host works again after it.
works_again :
    (poked.host.error ≡ true)
    × (back.host.error ≡ false)
    × (back.host.state ≡ hsclken)
    × (back.host.usage ≡ 1)
unfolding encoder_enable encoder_disable core_suspend host_transfer
works_again = (refl, refl, refl, refl)

boot-Probed : Probed boot
boot-Probed = record {
  dark_yet = refl;
  at_rest = refl;
  nothing_on = (refl, refl, refl, refl);
  no_fault = refl;
}

Reach-Balanced_example : Balanced lit back.host
Reach-Balanced_example = Reach-Balanced boot-Probed path

-- In self refresh, and with its power suspended.
abbrev asleep : Host
asleep = core_suspend (encoder_disable env false true false shown.host)

-- A panel that is detached then: its registers are written without power, and its interrupt, its PHY
-- and its power are given back once too often.
detached_asleep :
    (asleep.unbalanced || asleep.unpowered ≡ false)
    × ((host_detach asleep).unpowered ≡ true)
    × ((host_detach asleep).unbalanced ≡ true)
unfolding encoder_enable encoder_disable core_suspend host_detach
detached_asleep = (refl, refl, refl)
