-- ===== src/Dqe/Frozen.antt =====
-- What a channel in hibernation answers, until it is updated or a frame ends.
use google_modules_display_s.Prelude.{
  ℕ, ◌<◌, ◌≡◌, refl, Bool, true, false, ◌&&◌, Option, none, some, List, [], ◌∷◌, ◌++◌, arith, ◌==◌,
  ◌⊎◌, inl, inr, ◌∙◌, sym, ap, Bool-cases,
}
use mathlib.Core.Path.{subst}
use google_modules_display_s.Dqe.State.{
  histogram_max, RunState, hibernation, idle, channel, context, EventNode, Answer, Dqe, Bins,
  put_chan, set_run_state, emit, release, collect_bins,
}
use google_modules_display_s.Dqe.{
  Lookup, add_event, register, channel_request, channel_process_arg, process_arg, event_request,
  running_from, cancel, channel_cancel, clear_all, event_cancel, flipped, flip_done,
}
use google_modules_display_s.Dqe.Config.{hibernate_at, hibernation_enter, dqe_reset}
use google_modules_display_s.Dqe.Acts.{
  Act, ask_channel, ask_context, cancel_channel, cancel_context, frame_done, flip, update,
  hibernate, reset, act, run,
}
use google_modules_display_s.Dqe.Accounts.{for_each-keeps}
use google_modules_display_s.Dqe.Frames.{matching, find-Found, Grown, more, handle_event-Grown}
use google_modules_display_s.Dqe.Cache.{
  Cached, SendsOnly, Frozen, can_cache, hibernate_at-keeps, enter-Cached, reset-Frozen,
}

-- What leaves the channel alone, and sends nothing from it but its bins.
pub SendsOne : ℕ → List ℕ → Dqe → Dqe → Type 0
SendsOne i b d t =
    (t.sent ≡ d.sent) ⊎ ((a : Answer) × SendsOnly i b a × (t.sent ≡ d.sent ++ (a ∷ [])))

Frozen-one :
    {i : ℕ} {b : List ℕ} {xs : List Answer} {d t : Dqe}
    → t.hist_chan i ≡ d.hist_chan i
    → SendsOne i b d t
    → Frozen i b xs d
    → Frozen i b xs t
unfolding SendsOne
Frozen-one {i} {b} {xs} k s f = record {
  cached = record {
    run_state = ap (λ q. q.run_state) k ∙ f.cached.run_state;
    bins = ap (λ q. q.bins) k ∙ f.cached.bins;
  };
  off = ap (λ q. q.state) k ∙ f.off;
  sends = elim s [
    | inl e ↦ subst (Grown (SendsOnly i b) xs) (sym e) f.sends
    | inr (a, p, e) ↦ subst (Grown (SendsOnly i b) xs) (sym e) (more f.sends p)
  ];
}

add_at :
    (hw : Bins) (id : ℕ) (x : EventNode) (i : ℕ) (b : List ℕ) (d : Dqe) (r : RunState)
    → (d.hist_chan id).run_state ≡ r
    → Cached i b d
    → ((add_event hw (some id) x d).hist_chan i ≡ d.hist_chan i)
      × SendsOne i b d (add_event hw (some id) x d)
unfolding add_event emit collect_bins put_chan SendsOne
add_at hw id x i b d hibernation e c = (
  ground (arith, e),
  inr (
    record { node = x; hist_id = id; bins = (d.hist_chan id).bins },
    λ p. ap (λ k. (d.hist_chan k).bins) p ∙ c.bins,
    ground (arith, e),
  ),
)
add_at hw id x i b d idle e c =
    let apart : (id == i) ≡ false = ground (arith, e, c.run_state) in
    (
      ground (arith, e, apart),
      inr (
        record { node = x; hist_id = id; bins = hw id },
        λ p. ground (arith, p, apart),
        ground (arith, e),
      ),
    )
add_at hw id x i b d r e c = (ground (arith, e), inl (ground (arith, e)))

add-Frozen :
    (hw : Bins) (chan : Option ℕ) (x : EventNode) (i : ℕ) (b : List ℕ) (xs : List Answer) (d : Dqe)
    → Frozen i b xs d
    → Frozen i b xs (add_event hw chan x d)
unfolding add_event SendsOne
add-Frozen hw none x i b xs d f = Frozen-one refl (inl refl) f
add-Frozen hw (some id) x i b xs d f =
    let (k, s) = add_at hw id x i b d _ refl f.cached in Frozen-one k s f

register-Frozen :
    (hw : Bins) (chan : Option ℕ) (j h : ℕ) (x : EventNode) (i : ℕ) (b : List ℕ) (xs : List Answer)
    (d : Dqe)
    → Frozen i b xs d
    → Frozen i b xs (register hw chan j h x d).0
unfolding register SendsOne release
register-Frozen hw chan j h x i b xs d f =
    ground
      (arith, f, add-Frozen hw chan x i b xs d f, Frozen-one {t = release x d} refl (inl refl) f)

cancel-Frozen :
    (j h i : ℕ) (b : List ℕ) (xs : List Answer) (d : Dqe)
    → Frozen i b xs d
    → Frozen i b xs (cancel j h d)
unfolding cancel SendsOne release
cancel-Frozen j h i b xs d f = Frozen-one (ground arith) (inl (ground arith)) f

clear_all-Frozen :
    (es : List EventNode) (i : ℕ) (b : List ℕ) (xs : List Answer) (d : Dqe)
    → Frozen i b xs d
    → Frozen i b xs (clear_all es d)
unfolding clear_all SendsOne release
clear_all-Frozen [] i b xs d f = f
clear_all-Frozen (e ∷ es) i b xs d f =
    clear_all-Frozen es i b xs (release e (record d { hist_pending_events = es }))
      (Frozen-one refl (inl refl) f)

flip-Frozen :
    (blobs : ℕ → ℕ) (i : ℕ) (b : List ℕ) (xs : List Answer) (d : Dqe)
    → Frozen i b xs d
    → Frozen i b xs (flip_done blobs d)
unfolding flip_done flipped
flip-Frozen blobs i b xs d f = record {
  cached = record { run_state = ground (arith, f.off, f.cached.run_state); bins = f.cached.bins };
  off = f.off;
  sends = f.sends;
}

hibernate_at-Frozen :
    (hw : Bins) (decon_idle : Bool) (id i : ℕ) (b : List ℕ) (xs : List Answer) (d : Dqe)
    → Frozen i b xs d
    → Frozen i b xs (hibernate_at hw decon_idle id d)
unfolding hibernate_at collect_bins set_run_state put_chan
hibernate_at-Frozen hw decon_idle id i b xs d f =
    let k = hibernate_at-keeps hw decon_idle id i d f.cached.run_state in
    record {
      cached = record {
        run_state = ap (λ q. q.run_state) k ∙ f.cached.run_state;
        bins = ap (λ q. q.bins) k ∙ f.cached.bins;
      };
      off = ap (λ q. q.state) k ∙ f.off;
      sends = elim (Bool-cases (id == i)) [
        | inl e ↦ ground (arith, e, f.sends, f.cached.run_state)
        | inr n ↦
            let grown =
              handle_event-Grown (SendsOnly i b) hw true id d xs (λ e a p. ground (arith, p, n))
                f.sends in
            ground (arith, f.sends, grown)
      ];
    }

-- Calls by clients, flips, further entries to hibernation, and resets.
abbrev pub is_quiet : List Act → Bool
is_quiet [] = true
is_quiet (frame_done hw last ∷ rest) = false
is_quiet (update enabled configs ∷ rest) = false
is_quiet (_ ∷ rest) = is_quiet rest

act-Frozen :
    (a : Act) (rest : List Act) (i : ℕ) (b : List ℕ) (xs : List Answer) (d : Dqe)
    → is_quiet (a ∷ rest) ≡ true
    → Frozen i b xs d
    → Frozen i b xs (act a d).0
unfolding act channel_request event_request channel_cancel event_cancel hibernation_enter dqe_reset
act-Frozen (ask_channel l hw x j) rest i b xs d q f =
    ground
      (arith, f, register-Frozen hw (some j) j 0 (record { event = x; ask = channel j }) i b xs d f)
act-Frozen (ask_context l hw x h) rest i b xs d q f =
    let chan = running_from d.hist_chan h histogram_max 0 in
    ground (
      arith,
      f,
      register-Frozen hw chan histogram_max h (record { event = x; ask = context h }) i b xs d f,
    )
act-Frozen (cancel_channel l j) rest i b xs d q f = ground (arith, f, cancel-Frozen j 0 i b xs d f)
act-Frozen (cancel_context l h) rest i b xs d q f = ground (
  arith,
  f,
  cancel-Frozen histogram_max h i b xs d f,
  clear_all-Frozen d.hist_pending_events i b xs d f,
)
act-Frozen (frame_done hw last) rest i b xs d q f = ground (arith, q)
act-Frozen (flip blobs) rest i b xs d q f = flip-Frozen blobs i b xs d f
act-Frozen (update enabled configs) rest i b xs d q f = ground (arith, q)
act-Frozen (hibernate hw decon_idle) rest i b xs d q f =
    let all =
      for_each-keeps (Frozen i b xs) (hibernate_at hw decon_idle)
        (λ k t. hibernate_at-Frozen hw decon_idle k i b xs t) histogram_max 0 d f in
    ground (arith, f, all)
act-Frozen reset rest i b xs d q f =
    let r = reset-Frozen i b d f.cached in
    record { cached = r.cached; off = r.off; sends = f.sends }

is_quiet-rest : (a : Act) (rest : List Act) → is_quiet (a ∷ rest) ≡ true → is_quiet rest ≡ true
is_quiet-rest a rest o = ground (arith, o)

run-Frozen :
    (acts : List Act) (i : ℕ) (b : List ℕ) (xs : List Answer) (d : Dqe)
    → is_quiet acts ≡ true
    → Frozen i b xs d
    → Frozen i b xs (run acts d)
unfolding run
run-Frozen [] i b xs d q f = f
run-Frozen (a ∷ rest) i b xs d q f =
    run-Frozen rest i b xs (act a d).0 (is_quiet-rest a rest q) (act-Frozen a rest i b xs d q f)

-- A channel that is idle when hibernation is entered, or whose frame is done unnoticed, with color
-- processing on: after the reset, whatever clients call, flips come, and hibernation is entered and
-- reset again, every event that the channel has sent since was sent with the bins that its hardware
-- held on entry; and one that is asked for then, if none waits for the channel and the call finds the
-- CRTC, its DQE and room, is sent at once, with these bins.
pub run-Cached :
    (hw now : Bins) (decon_idle : Bool) (acts : List Act) (l : Lookup) (i x : ℕ) (d u : Dqe)
    → d.enabled ≡ true
    → i < histogram_max
    → can_cache decon_idle (d.hist_chan i).run_state ≡ true
    → is_quiet acts ≡ true
    → u ≡ run acts (dqe_reset (hibernation_enter hw decon_idle d))
    → (l.crtc && l.dqe && l.room) ≡ true
    → matching i 0 u.hist_pending_events ≡ 0
    → Grown (SendsOnly i (hw i)) (hibernation_enter hw decon_idle d).sent u.sent
      × ((channel_request l now x i u).0.sent
          ≡ u.sent
            ++ (record { node = record { event = x; ask = channel i }; hist_id = i; bins = hw i }
                ∷ []))
unfolding channel_request channel_process_arg process_arg register add_event emit
run-Cached hw now decon_idle acts l i x d u e m c q at found alone =
    let v = hibernation_enter hw decon_idle d in
    let frozen =
      run-Frozen acts i (hw i) v.sent (dqe_reset v) q
        (reset-Frozen i (hw i) v (enter-Cached hw decon_idle i d e m c)) in
    let f = subst (Frozen i (hw i) v.sent) (sym at) frozen in
    (
      f.sends,
      ground (
        arith,
        m,
        found,
        alone,
        f.cached.run_state,
        f.cached.bins,
        find-Found i 0 0 0 u.hist_pending_events,
      ),
    )
