-- ===== src/Dqe/Waiting.antt =====
-- Where clients ask for channels only, none waits for a channel that could answer at once.
use google_modules_display_s.Prelude.{
  ℕ, ◌+◌, ◌≤◌, ◌≡◌, refl, Bool, true, false, Option, none, some, List, [], ◌∷◌, ◌++◌, arith,
  if◌then◌else◌, ◌⊎◌, inl, inr, sym,
}
use google_modules_display_s.Dqe.State.{
  RunState, hibernation, idle, Ask, channel, context, EventNode, Dqe, Bins, put_chan, set_run_state,
  emit, release, collect_bins, find_event_node,
}
use google_modules_display_s.Dqe.{
  Lookup, add_event, register, channel_request, cancel, clear_all, lhbm_callback, call_back,
  handle_event, frame_done_at,
}
use google_modules_display_s.Dqe.Config.{hibernate_at}
use google_modules_display_s.Dqe.Frames.{
  matching, matching-append, find-Found, handle_event-Found, handle_event-chan,
}

abbrev pub is_context : Ask → Bool
is_context (context h) = true
is_context (channel c) = false

abbrev pub contexts : List EventNode → ℕ
contexts [] = 0
contexts (x ∷ xs) = (if is_context x.ask then 1 else 0) + contexts xs

-- The bins of a channel can be had at once.
abbrev pub rests : RunState → Bool
rests hibernation = true
rests idle = true
rests _ = false

-- No event waits for a configuration, at most one for each channel, and none for one at rest.
pub record Calm (d : Dqe) : Type 0 where
  pub no_context : contexts d.hist_pending_events ≡ 0
  pub single : (i : ℕ) → matching i 0 d.hist_pending_events ≤ 1
  pub served :
      (i : ℕ) → rests (d.hist_chan i).run_state ≡ true → matching i 0 d.hist_pending_events ≡ 0

contexts-append : (xs ys : List EventNode) → contexts (xs ++ ys) ≡ contexts xs + contexts ys
contexts-append [] ys = omega arith
contexts-append (x ∷ xs) ys = omega (arith, contexts-append xs ys)

-- Without them the handle of a channel does not matter.
matching-any : (i h : ℕ) (es : List EventNode) → contexts es ≡ 0 → matching i h es ≡ matching i 0 es
matching-any i h [] n = refl
matching-any i h (x ∷ es) n = ground (arith, matching-any i h es)

abbrev left_contexts : List EventNode → Option (EventNode × List EventNode) → ℕ
left_contexts es none = contexts es
left_contexts es (some (x, xs)) = contexts xs

find-contexts :
    (i h : ℕ) (es : List EventNode) → left_contexts es (find_event_node i h es) ≤ contexts es
unfolding find_event_node
find-contexts i h [] = omega arith
find-contexts i h (x ∷ es) = ground (arith, find-contexts i h es)

-- Events come off the list, and a channel comes to rest only where none waits for it.
pub record Fewer (d t : Dqe) : Type 0 where
  pub contexts_fewer : contexts t.hist_pending_events ≤ contexts d.hist_pending_events
  pub events_fewer :
      (i : ℕ) → matching i 0 t.hist_pending_events ≤ matching i 0 d.hist_pending_events
  pub at_rest :
      (i : ℕ)
      → rests (t.hist_chan i).run_state ≡ true
      → (rests (d.hist_chan i).run_state ≡ true) ⊎ (matching i 0 t.hist_pending_events ≡ 0)

pub Fewer-Calm : {d t : Dqe} → Fewer d t → Calm d → Calm t
Fewer-Calm f c = record {
  no_context = omega (arith, f.contexts_fewer, c.no_context);
  single = λ i. omega (arith, f.events_fewer i, c.single i);
  served = λ i r. elim (f.at_rest i r) [
    | inl was ↦ omega (arith, f.events_fewer i, c.served i was)
    | inr none_left ↦ none_left
  ];
}

pub cancel-Fewer : (i h : ℕ) (d : Dqe) → Fewer d (cancel i h d)
unfolding cancel release
cancel-Fewer i h d = record {
  contexts_fewer = ground (arith, find-contexts i h d.hist_pending_events);
  events_fewer = λ j. ground (arith, find-Found i h j 0 d.hist_pending_events);
  at_rest = λ j r. inl (ground (arith, r));
}

clear_all-none :
    (es : List EventNode) (d : Dqe)
    → es ≡ d.hist_pending_events
    → ((clear_all es d).hist_pending_events ≡ []) × ((clear_all es d).hist_chan ≡ d.hist_chan)
unfolding clear_all release
clear_all-none [] d p = (sym p, refl)
clear_all-none (x ∷ es) d p =
    clear_all-none es (release x (record d { hist_pending_events = es })) refl

pub clear_all-Fewer :
    (es : List EventNode) (d : Dqe) → es ≡ d.hist_pending_events → Fewer d (clear_all es d)
clear_all-Fewer es d p =
    let n = clear_all-none es d p in
    record {
      contexts_fewer = ground (arith, n);
      events_fewer = λ j. ground (arith, n);
      at_rest = λ j r. inl (ground (arith, n, r));
    }

-- An event for a channel, where there is none for it yet.
add-Calm :
    (hw : Bins) (i x : ℕ) (d : Dqe)
    → matching i 0 d.hist_pending_events ≡ 0
    → Calm d
    → Calm (add_event hw (some i) (record { event = x; ask = channel i }) d)
unfolding add_event emit collect_bins put_chan
add-Calm hw i x d n c = record {
  no_context = grind (arith, c.no_context, contexts-append);
  single = λ j. ground (
    arith,
    n,
    c.single j,
    matching-append j 0 d.hist_pending_events (record { event = x; ask = channel i } ∷ []),
  );
  served = λ j r. ground (
    arith,
    n,
    r,
    c.served j,
    matching-append j 0 d.hist_pending_events (record { event = x; ask = channel i } ∷ []),
  );
}

handle_event-contexts :
    (hw : Bins) (force : Bool) (id : ℕ) (d : Dqe)
    → contexts (handle_event hw force id d).hist_pending_events ≤ contexts d.hist_pending_events
unfolding handle_event collect_bins emit put_chan call_back lhbm_callback
handle_event-contexts hw force id d =
    ground (arith, find-contexts id (d.hist_chan id).user_handle d.hist_pending_events)

-- A channel whose events are handled has none left.
handle_event-none :
    (hw : Bins) (force : Bool) (id : ℕ) (d : Dqe)
    → Calm d
    → matching id 0 (handle_event hw force id d).hist_pending_events ≡ 0
handle_event-none hw force id d c =
    let h = (d.hist_chan id).user_handle in
    let t = handle_event hw force id d in
    let left : contexts t.hist_pending_events ≡ 0 =
      omega (arith, handle_event-contexts hw force id d, c.no_context) in
    omega (
      arith,
      (handle_event-Found hw force id id 0 d).0,
      matching-any id h t.hist_pending_events left,
      matching-any id h d.hist_pending_events c.no_context,
      c.single id,
    )

pub frame_done_at-Calm :
    (hw : Bins) (last : Bool) (id : ℕ) (d : Dqe) → Calm d → Calm (frame_done_at hw last id d)
unfolding frame_done_at set_run_state put_chan
frame_done_at-Calm hw last id d c =
    let f : Fewer d (frame_done_at hw last id d) = record {
      contexts_fewer = ground (arith, handle_event-contexts hw false id d);
      events_fewer = λ j. ground (arith, handle_event-Found hw false id j 0 d);
      at_rest = λ j r.
          ground (arith, r, handle_event-none hw false id d c, handle_event-chan hw false id j d);
    } in
    Fewer-Calm f c

pub hibernate_at-Calm :
    (hw : Bins) (decon_idle : Bool) (id : ℕ) (d : Dqe)
    → Calm d
    → Calm (hibernate_at hw decon_idle id d)
unfolding hibernate_at set_run_state put_chan collect_bins
hibernate_at-Calm hw decon_idle id d c =
    let f : Fewer d (hibernate_at hw decon_idle id d) = record {
      contexts_fewer = ground (arith, handle_event-contexts hw true id d);
      events_fewer = λ j. ground (arith, handle_event-Found hw true id j 0 d);
      at_rest = λ j r.
          ground (arith, r, handle_event-none hw true id d c, handle_event-chan hw true id j d);
    } in
    Fewer-Calm f c

register_found :
    (hw : Bins) (i x : ℕ) (d : Dqe) (o : Option (EventNode × List EventNode))
    → find_event_node i 0 d.hist_pending_events ≡ o
    → Calm d
    → Calm (register hw (some i) i 0 (record { event = x; ask = channel i }) d).0
unfolding register release
register_found hw i x d none f c =
    let n : matching i 0 d.hist_pending_events ≡ 0 =
      ground (arith, f, find-Found i 0 0 0 d.hist_pending_events) in
    rw (f, register) (add-Calm hw i x d n c)
register_found hw i x d (some e) f c =
    rw (f, register) (record { no_context = c.no_context; single = c.single; served = c.served })

pub channel_request-Calm :
    (l : Lookup) (hw : Bins) (x i : ℕ) (d : Dqe) → Calm d → Calm (channel_request l hw x i d).0
unfolding channel_request
channel_request-Calm l hw x i d c = ground (arith, c, register_found hw i x d _ refl c)
