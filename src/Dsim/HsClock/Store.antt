-- ===== src/Dsim/HsClock/Store.antt =====
-- The clock that comes in from outside: the sysfs store, hs_clock_store, and the clock that
-- dsim_encoder_disable finds pending. `call` puts together the entry points that change the clock.
use google_modules_display_s.Prelude.{
  ℕ, Bool, true, false, not, ◌||◌, Option, none, some, List, [], ◌∷◌, ◌==◌, if◌then◌else◌, Errno,
  get_elem?,
}
use google_modules_display_s.Dsim.State.{DsimState, PllParam, Dsim}
use google_modules_display_s.Dsim.HsClock.{set_hs_clock, set_clock_mode, fails, Step}

-- dsim_encoder_disable up to the pending clock: its result is only logged.
unfoldable pub apply_pending : Dsim → Option Step
apply_pending d =
    if not (d.clk_param.pending_hs_clk == 0)
    then set_hs_clock d d.clk_param.pending_hs_clk false
    else some (record { dsim = d; ret = none; restarted = false })

-- What the string that is stored holds, by `kstrtobool` and `kstrtouint`.
pub data Parsed : Type 0 where
  values : ℕ → Bool → Parsed
  malformed : Errno → Parsed

unfoldable pub contains : List ℕ → ℕ → Bool
contains [] x = false
contains (y ∷ ys) x = (x == y) || contains ys x

unfoldable pub is_allowed : Dsim → ℕ → Bool
is_allowed d hs_clock = elim d.allowed_hs_clks [
  | none ↦ true
  | some clks ↦ d.force_set_hs_clk || contains clks hs_clock
]

unfoldable pub set_pending : Dsim → ℕ → Dsim
set_pending d hs_clock = record d { clk_param = record d.clk_param { pending_hs_clk = hs_clock } }

-- The store from the test of the state on; `none` as the result stands for `len`.
unfoldable pub store_clock : Dsim → PllParam → ℕ → Bool → Option Step
store_clock d q hs_clock apply_now = elim d.state [
  | DsimState.hsclken ↦
      if q.pll_freq == hs_clock
      then some (record { dsim = set_pending d 0; ret = none; restarted = false })
      else set_hs_clock (set_pending d 0) hs_clock apply_now
  | _ ↦ some (record {
    dsim = set_pending d (if q.pll_freq == hs_clock then 0 else hs_clock);
    ret = none;
    restarted = false;
  })
]

unfoldable pub current_param : Dsim → Option PllParam
current_param d = elim d.current [ none ↦ none | some i ↦ get_elem? d.params i ]

unfoldable pub hs_clock_store : Dsim → Parsed → Option Step
hs_clock_store d input = elim (current_param d) [
  | none ↦ some (fails d Errno.eagain)
  | some q ↦ elim input [
    | malformed e ↦ some (fails d e)
    | values hs_clock apply_now ↦
        if is_allowed d hs_clock
        then store_clock d q hs_clock apply_now
        else some (fails d Errno.einval)
  ]
]

-- The entry points that change the clock.
pub data Call : Type 0 where
  mode_set : List ℕ → Call
  hs_clock : ℕ → Bool → Call
  store : Parsed → Call
  encoder_disable : Call

unfoldable pub call : Dsim → Call → Option Step
call d (mode_set name) = some (set_clock_mode d name)
call d (hs_clock hs now) = set_hs_clock d hs now
call d (store input) = hs_clock_store d input
call d encoder_disable = apply_pending d
