-- ===== src/Dqe/Frames.antt =====
-- What the end of a frame answers.
use google_modules_display_s.Prelude.{
  ℕ, zero, suc, ◌+◌, ◌-◌, ◌≤◌, ◌<◌, ◌≡◌, refl, Bool, true, false, Option, none, some, List, [], ◌∷◌,
  ◌++◌, arith, if◌then◌else◌, ◌⊎◌, inl, inr, ◌∙◌, sym, ap, dec_lt,
}
use google_modules_display_s.Dqe.State.{
  histogram_max, EventNode, Answer, Dqe, Bins, put_chan, set_run_state, emit, collect_bins, is_for,
  find_event_node, for_each,
}
use google_modules_display_s.Dqe.{
  lhbm_callback, call_back, handle_event, is_disabled, frame_done_at, handle_histogram_event,
}
use google_modules_display_s.Dqe.Accounts.{count, count_sent, for_each-keeps, frame_done-known}

-- How many events are for a channel, or for the configuration that it runs.
abbrev pub matching : ℕ → ℕ → List EventNode → ℕ
matching i h [] = 0
matching i h (x ∷ xs) = (if is_for i h x.ask then 1 else 0) + matching i h xs

pub matching-append :
    (i h : ℕ) (xs ys : List EventNode) → matching i h (xs ++ ys) ≡ matching i h xs + matching i h ys
matching-append i h [] ys = omega arith
matching-append i h (x ∷ xs) ys = omega (arith, matching-append i h xs ys)

-- What finding an event does to those that match.
abbrev pub Found : ℕ → ℕ → ℕ → ℕ → List EventNode → Option (EventNode × List EventNode) → Type 0
Found i h j k es none = matching i h es ≡ 0
Found i h j k es (some (x, xs)) =
    (is_for i h x.ask ≡ true)
    × (matching i h es ≡ suc (matching i h xs))
    × (matching j k xs ≤ matching j k es)

pub find-Found : (i h j k : ℕ) (es : List EventNode) → Found i h j k es (find_event_node i h es)
unfolding find_event_node
find-Found i h j k [] = refl
find-Found i h j k (y ∷ es) = ground (arith, find-Found i h j k es)

-- The list of those sent has grown by answers with the bins of the hardware, each from a channel that
-- its event is for.
pub record IsTrue (hw : Bins) (handles : ℕ → ℕ) (a : Answer) : Type 0 where
  pub bins : a.bins ≡ hw a.hist_id
  pub asked : is_for a.hist_id (handles a.hist_id) a.node.ask ≡ true

pub data Grown (P : Answer → Type 0) (xs : List Answer) : List Answer → Type 0 where
  same : Grown P xs xs
  more : {ys : List Answer} {a : Answer} → Grown P xs ys → P a → Grown P xs (ys ++ (a ∷ []))

-- The callback is about the gray level alone.
pub call_back-same :
    (id : ℕ) (d : Dqe)
    → ((call_back id d).hist_pending_events ≡ d.hist_pending_events)
      × ((call_back id d).hist_chan ≡ d.hist_chan)
      × ((call_back id d).sent ≡ d.sent)
unfolding call_back lhbm_callback
call_back-same id d = ground arith

-- A channel at the end of a frame.
pub handle_event-Found :
    (hw : Bins) (force : Bool) (id j k : ℕ) (d : Dqe)
    → (matching id (d.hist_chan id).user_handle (handle_event hw force id d).hist_pending_events
        ≡ matching id (d.hist_chan id).user_handle d.hist_pending_events - 1)
      × (matching j k (handle_event hw force id d).hist_pending_events
          ≤ matching j k d.hist_pending_events)
unfolding handle_event collect_bins emit put_chan call_back lhbm_callback
handle_event-Found hw force id j k d =
    ground (arith, find-Found id (d.hist_chan id).user_handle j k d.hist_pending_events)

-- It changes no run state, no handle, and the bins of the channel only.
pub handle_event-chan :
    (hw : Bins) (force : Bool) (id j : ℕ) (d : Dqe)
    → (((handle_event hw force id d).hist_chan j).user_handle ≡ (d.hist_chan j).user_handle)
      × (((handle_event hw force id d).hist_chan j).run_state ≡ (d.hist_chan j).run_state)
unfolding handle_event collect_bins emit put_chan call_back lhbm_callback
handle_event-chan hw force id j d = ground arith

-- It sends at most one event, which is for the channel, with the bins of the hardware.
Sends : Bins → ℕ → Dqe → Dqe → Type 0
Sends hw id d t =
    (t.sent ≡ d.sent)
    ⊎ ((e : EventNode) × (is_for id (d.hist_chan id).user_handle e.ask ≡ true)
        × (t.sent ≡ d.sent ++ (record { node = e; hist_id = id; bins = hw id } ∷ [])))

handle_event-Sends :
    (hw : Bins) (force : Bool) (id : ℕ) (d : Dqe) (o : Option (EventNode × List EventNode))
    → find_event_node id (d.hist_chan id).user_handle d.hist_pending_events ≡ o
    → Sends hw id d (handle_event hw force id d)
unfolding Sends handle_event collect_bins emit put_chan call_back lhbm_callback
handle_event-Sends hw force id d none f = inl (ground (arith, f))
handle_event-Sends hw force id d (some (e, es)) f =
    let asked = find-Found id (d.hist_chan id).user_handle 0 0 d.hist_pending_events in
    inr (e, ground (arith, f, asked), ground (arith, f))

pub handle_event-Grown :
    (P : Answer → Type 0) (hw : Bins) (force : Bool) (id : ℕ) (d : Dqe) (xs : List Answer)
    → ((e : EventNode)
        → is_for id (d.hist_chan id).user_handle e.ask ≡ true
        → P (record { node = e; hist_id = id; bins = hw id }))
    → Grown P xs d.sent
    → Grown P xs (handle_event hw force id d).sent
unfolding Sends
handle_event-Grown P hw force id d xs p g = elim (handle_event-Sends hw force id d _ refl) [
  | inl s ↦ rw (s) g
  | inr (e, a, s) ↦ rw (s) (more g (p e a))
]

-- A channel that is not disabled has one event less after a frame, if one was for it, and no channel
-- has one more.
frame_done_at-Found :
    (hw : Bins) (last : Bool) (id j k : ℕ) (d : Dqe)
    → is_disabled (d.hist_chan id).run_state ≡ false
    → (matching id (d.hist_chan id).user_handle (frame_done_at hw last id d).hist_pending_events
        ≡ matching id (d.hist_chan id).user_handle d.hist_pending_events - 1)
unfolding frame_done_at set_run_state put_chan
frame_done_at-Found hw last id j k d n = ground (arith, handle_event-Found hw false id j k d)

frame_done_at-fewer :
    (hw : Bins) (last : Bool) (id j k : ℕ) (d : Dqe)
    → matching j k (frame_done_at hw last id d).hist_pending_events
      ≤ matching j k d.hist_pending_events
unfolding frame_done_at set_run_state put_chan
frame_done_at-fewer hw last id j k d = ground (arith, handle_event-Found hw false id j k d)

frame_done_at-chan :
    (hw : Bins) (last : Bool) (id j : ℕ) (d : Dqe)
    → (((frame_done_at hw last id d).hist_chan j).user_handle ≡ (d.hist_chan j).user_handle)
      × (is_disabled ((frame_done_at hw last id d).hist_chan j).run_state
          ≡ is_disabled (d.hist_chan j).run_state)
unfolding frame_done_at set_run_state put_chan
frame_done_at-chan hw last id j d = ground (arith, handle_event-chan hw false id j d)

frame_done_at-Grown :
    (P : Answer → Type 0) (hw : Bins) (last : Bool) (id : ℕ) (d : Dqe) (xs : List Answer)
    → ((e : EventNode)
        → is_for id (d.hist_chan id).user_handle e.ask ≡ true
        → P (record { node = e; hist_id = id; bins = hw id }))
    → Grown P xs d.sent
    → Grown P xs (frame_done_at hw last id d).sent
unfolding frame_done_at set_run_state put_chan
frame_done_at-Grown P hw last id d xs p g =
    ground (arith, handle_event-Grown P hw false id d xs p g)

-- Over the channels from one on, where the count for a channel among them falls.
loop-fewer_all :
    (hw : Bins) (last : Bool) (left id j k : ℕ) (d : Dqe)
    → matching j k (for_each (frame_done_at hw last) left id d).hist_pending_events
      ≤ matching j k d.hist_pending_events
loop-fewer_all hw last left id j k d =
    for_each-keeps (λ t. matching j k t.hist_pending_events ≤ matching j k d.hist_pending_events)
      (frame_done_at hw last) (λ c t p. omega (arith, p, frame_done_at-fewer hw last c j k t)) left
      id d (omega arith)

loop-fewer :
    (hw : Bins) (last : Bool) (left id i h : ℕ) (d : Dqe)
    → id ≤ i
    → i < id + left
    → (d.hist_chan i).user_handle ≡ h
    → is_disabled (d.hist_chan i).run_state ≡ false
    → matching i h (for_each (frame_done_at hw last) left id d).hist_pending_events
      ≤ matching i h d.hist_pending_events - 1
unfolding for_each
loop-fewer hw last zero id i h d a b u n = ground arith
loop-fewer hw last (suc left) id i h d a b u n =
    let t = frame_done_at hw last id d in
    let c = frame_done_at-chan hw last id i d in
    elim (dec_lt id i) [
      | yes l ↦
          let ih = loop-fewer hw last left (suc id) i h t l (omega arith) (c.0 ∙ u) (c.1 ∙ n) in
          omega (arith, ih, frame_done_at-fewer hw last id i h d)
      | no g ↦
          let here : id ≡ i = omega (arith, g) in
          let rest = loop-fewer_all hw last left (suc id) i h t in
          ground (arith, rest, here, u, frame_done_at-Found hw last id 0 0 d)
    ]

-- No event is dropped, or freed.
abbrev pub there : ℕ → Dqe → ℕ
there e d = count e d.hist_pending_events + count_sent e d.sent

frame_done_at-there :
    (e : ℕ) (hw : Bins) (last : Bool) (id : ℕ) (d : Dqe)
    → (frame_done_at hw last id d).freed ≡ d.freed
unfolding frame_done_at set_run_state put_chan handle_event collect_bins emit call_back
    lhbm_callback
frame_done_at-there e hw last id d = ground arith

loop-there :
    (e : ℕ) (hw : Bins) (last : Bool) (d : Dqe)
    → there e (handle_histogram_event hw last d) ≡ there e d
unfolding handle_histogram_event
loop-there e hw last d =
    let freed =
      for_each-keeps (λ t. t.freed ≡ d.freed) (frame_done_at hw last)
        (λ id t p. frame_done_at-there e hw last id t ∙ p) histogram_max 0 d refl in
    ground (arith, freed, frame_done-known e hw last d)

-- Whatever waits when a frame ends: for each channel that is not disabled, of the events that are for it
-- or for the configuration it runs, one less waits if there was one; each event that waits no more was
-- sent, as often as it waited; and every event that is sent is sent with the bins that the hardware
-- holds for a channel which the event is for.
pub handle_histogram_event-Answers :
    (hw : Bins) (last : Bool) (i : ℕ) (d : Dqe)
    → i < histogram_max
    → is_disabled (d.hist_chan i).run_state ≡ false
    → (matching i (d.hist_chan i).user_handle (handle_histogram_event hw last d).hist_pending_events
        ≤ matching i (d.hist_chan i).user_handle d.hist_pending_events - 1)
      × Grown
          (IsTrue hw (λ c. (d.hist_chan c).user_handle))
          d.sent
          (handle_histogram_event hw last d).sent
      × ((e : ℕ) → there e (handle_histogram_event hw last d) ≡ there e d)
unfolding handle_histogram_event
handle_histogram_event-Answers hw last i d l n =
    let P = IsTrue hw (λ c. (d.hist_chan c).user_handle) in
    let Q : Dqe → Type 0 = λ t.
      ((c : ℕ) → (t.hist_chan c).user_handle ≡ (d.hist_chan c).user_handle)
      × Grown P d.sent t.sent in
    let all =
      for_each-keeps Q (frame_done_at hw last)
        (λ id t q. (
          (λ c. (frame_done_at-chan hw last id c t).0 ∙ q.0 c),
          frame_done_at-Grown P hw last id t d.sent
              (λ e a. record {
                bins = refl;
                asked = ap (λ h. is_for id h e.ask) (sym (q.0 id)) ∙ a;
              })
              q.1,
        ))
        histogram_max 0 d ((λ c. refl), same) in
    (
      loop-fewer hw last histogram_max 0 i _ d (omega arith) l refl n,
      all.1,
      λ e. loop-there e hw last d,
    )
