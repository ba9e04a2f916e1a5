-- ===== src/Dqe/Cache.antt =====
-- In hibernation the bins of a channel are those it had when hibernation was entered.
use google_modules_display_s.Prelude.{
  ℕ, zero, suc, ◌+◌, ◌≤◌, ◌<◌, ◌≡◌, Bool, true, false, List, arith, ◌==◌, inl, inr, ◌∙◌, ap, dec_lt,
  Bool-cases,
}
use mathlib.Core.Path.{subst}
use google_modules_display_s.Dqe.State.{
  histogram_max, hist_off, RunState, hibernation, idle, pending_framedone, Answer, Dqe, Bins,
  put_chan, set_run_state, emit, collect_bins, for_each,
}
use google_modules_display_s.Dqe.{lhbm_callback, call_back, handle_event}
use google_modules_display_s.Dqe.Config.{hibernate_at, hibernation_enter, reset_chan, dqe_reset}
use google_modules_display_s.Dqe.Accounts.{for_each-keeps}
use google_modules_display_s.Dqe.Frames.{Grown, same}

-- A channel in hibernation, with these bins.
pub record Cached (i : ℕ) (b : List ℕ) (d : Dqe) : Type 0 where
  pub run_state : (d.hist_chan i).run_state ≡ hibernation
  pub bins : (d.hist_chan i).bins ≡ b

-- The bins that a channel sends.
abbrev pub SendsOnly : ℕ → List ℕ → Answer → Type 0
SendsOnly i b a = a.hist_id ≡ i → a.bins ≡ b

-- The channel is cached with its hardware off, and has sent what it cached only.
pub record Frozen (i : ℕ) (b : List ℕ) (xs : List Answer) (d : Dqe) : Type 0 where
  pub cached : Cached i b d
  pub off : (d.hist_chan i).state ≡ hist_off
  pub sends : Grown (SendsOnly i b) xs d.sent

-- The bins of a channel can be had when hibernation is entered.
abbrev pub can_cache : Bool → RunState → Bool
can_cache decon_idle idle = true
can_cache decon_idle pending_framedone = decon_idle
can_cache decon_idle _ = false

handle_event-collects :
    (hw : Bins) (i : ℕ) (d : Dqe) → ((handle_event hw true i d).hist_chan i).bins ≡ hw i
unfolding handle_event collect_bins emit put_chan call_back lhbm_callback
handle_event-collects hw i d = ground arith

pub handle_event-other :
    (hw : Bins) (force : Bool) (id i : ℕ) (d : Dqe)
    → ((id == i) ≡ false)
    → (handle_event hw force id d).hist_chan i ≡ d.hist_chan i
unfolding handle_event collect_bins emit put_chan call_back lhbm_callback
handle_event-other hw force id i d n = ground (arith, n)

hibernate_at-Cached :
    (hw : Bins) (decon_idle : Bool) (i : ℕ) (d : Dqe)
    → can_cache decon_idle (d.hist_chan i).run_state ≡ true
    → Cached i (hw i) (hibernate_at hw decon_idle i d)
unfolding hibernate_at collect_bins set_run_state put_chan
hibernate_at-Cached hw decon_idle i d c = record {
  run_state = ground (arith, c);
  bins = ground (arith, c, handle_event-collects hw i d);
}

-- Another channel, or one that is cached.
pub hibernate_at-other :
    (hw : Bins) (decon_idle : Bool) (id i : ℕ) (d : Dqe)
    → ((id == i) ≡ false)
    → (hibernate_at hw decon_idle id d).hist_chan i ≡ d.hist_chan i
unfolding hibernate_at collect_bins set_run_state put_chan
hibernate_at-other hw decon_idle id i d n = ground (arith, n, handle_event-other hw true id i d n)

pub hibernate_at-keeps :
    (hw : Bins) (decon_idle : Bool) (id i : ℕ) (d : Dqe)
    → (d.hist_chan i).run_state ≡ hibernation
    → (hibernate_at hw decon_idle id d).hist_chan i ≡ d.hist_chan i
unfolding hibernate_at
hibernate_at-keeps hw decon_idle id i d c = elim (Bool-cases (id == i)) [
  | inl b ↦ ground (arith, b, c)
  | inr n ↦ hibernate_at-other hw decon_idle id i d n
]

loop-Cached :
    (hw : Bins) (decon_idle : Bool) (left id i : ℕ) (b : List ℕ) (d : Dqe)
    → Cached i b d
    → Cached i b (for_each (hibernate_at hw decon_idle) left id d)
loop-Cached hw decon_idle left id i b d c =
    for_each-keeps (Cached i b) (hibernate_at hw decon_idle)
      (λ k t p.
        let e = hibernate_at-keeps hw decon_idle k i t p.run_state in
        record {
          run_state = ap (λ q. q.run_state) e ∙ p.run_state;
          bins = ap (λ q. q.bins) e ∙ p.bins;
        })
      left id d c

-- Over the channels from one on, with the channel among them.
loop-caches :
    (hw : Bins) (decon_idle : Bool) (left id i : ℕ) (d : Dqe)
    → id ≤ i
    → i < id + left
    → can_cache decon_idle (d.hist_chan i).run_state ≡ true
    → Cached i (hw i) (for_each (hibernate_at hw decon_idle) left id d)
unfolding for_each
loop-caches hw decon_idle zero id i d a l c = ground arith
loop-caches hw decon_idle (suc left) id i d a l c =
    let t = hibernate_at hw decon_idle id d in
    elim (dec_lt id i) [
      | yes m ↦
          let e = hibernate_at-other hw decon_idle id i d (ground (arith, m)) in
          loop-caches hw decon_idle left (suc id) i t m (omega arith)
            (ap (λ q. can_cache decon_idle q.run_state) e ∙ c)
      | no g ↦
          let here : i ≡ id = omega (arith, g) in
          subst
            (λ k.
              Cached i (hw i) (
                for_each (hibernate_at hw decon_idle) left (suc k)
                  (hibernate_at hw decon_idle k d)))
            here
            (loop-Cached hw decon_idle left (suc i) i (hw i) _
              (hibernate_at-Cached hw decon_idle i d c))
    ]

pub enter-Cached :
    (hw : Bins) (decon_idle : Bool) (i : ℕ) (d : Dqe)
    → d.enabled ≡ true
    → i < histogram_max
    → can_cache decon_idle (d.hist_chan i).run_state ≡ true
    → Cached i (hw i) (hibernation_enter hw decon_idle d)
unfolding hibernation_enter
enter-Cached hw decon_idle i d e l c =
    ground (arith, e, loop-caches hw decon_idle histogram_max 0 i d (omega arith) l c)

pub reset-Frozen : (i : ℕ) (b : List ℕ) (d : Dqe) → Cached i b d → Frozen i b d.sent (dqe_reset d)
unfolding dqe_reset reset_chan
reset-Frozen i b d c = record {
  cached = record { run_state = ground (arith, c); bins = ground (arith, c) };
  off = ground (arith, c);
  sends = same;
}
