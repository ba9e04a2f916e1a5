-- ===== src/Dqe/Accounts.antt =====
-- Every event that a client asks for is sent once, or freed once, or waits.
use google_modules_display_s.Prelude.{
  ℕ, zero, suc, ◌+◌, ◌≡◌, refl, Bool, true, false, Option, none, some, List, [], ◌∷◌, ◌++◌, arith,
  ◌==◌, if◌then◌else◌, ◌∙◌,
}
use google_modules_display_s.Dqe.State.{
  histogram_max, ChanConfig, channel, context, EventNode, Answer, Dqe, Bins, put_chan,
  set_run_state, emit, release, collect_bins, find_event_node, for_each,
}
use google_modules_display_s.Dqe.{
  Lookup, add_event, register, channel_request, event_request, cancel, channel_cancel, clear_all,
  event_cancel, call_back, handle_event, frame_done_at, handle_histogram_event, flip_done,
  process_arg, channel_process_arg, running_from,
}
use google_modules_display_s.Dqe.Config.{
  hibernate_at, hibernation_enter, dqe_update, histogram_update, lhbm_update, dqe_reset,
}
use google_modules_display_s.Dqe.Acts.{
  Act, ask_channel, ask_context, cancel_channel, cancel_context, frame_done, flip, update,
  hibernate, reset, act, run, if_made, made,
}

-- How often an event is in a list, or is the one given.
abbrev pub count : ℕ → List EventNode → ℕ
count e [] = 0
count e (x ∷ xs) = (if x.event == e then 1 else 0) + count e xs

abbrev pub count_sent : ℕ → List Answer → ℕ
count_sent e [] = 0
count_sent e (x ∷ xs) = (if x.node.event == e then 1 else 0) + count_sent e xs

abbrev pub is_event : ℕ → Option ℕ → ℕ
is_event e none = 0
is_event e (some x) = if x == e then 1 else 0

pub count-append : (e : ℕ) (xs ys : List EventNode) → count e (xs ++ ys) ≡ count e xs + count e ys
count-append e [] ys = omega arith
count-append e (x ∷ xs) ys = omega (arith, count-append e xs ys)

pub count_sent-append :
    (e : ℕ) (xs ys : List Answer) → count_sent e (xs ++ ys) ≡ count_sent e xs + count_sent e ys
count_sent-append e [] ys = omega arith
count_sent-append e (x ∷ xs) ys = omega (arith, count_sent-append e xs ys)

-- Where an event is: it waits, it was sent, or it was freed.
abbrev pub known : ℕ → Dqe → ℕ
known e d = count e d.hist_pending_events + count_sent e d.sent + count e d.freed

emit-known :
    (e id : ℕ) (bins : List ℕ) (x : EventNode) (d : Dqe)
    → known e (emit id bins x d) ≡ known e d + is_event e (some x.event)
unfolding emit
emit-known e id bins x d =
    omega (arith, count_sent-append e d.sent (record { node = x; hist_id = id; bins = bins } ∷ []))

release-known :
    (e : ℕ) (x : EventNode) (d : Dqe)
    → known e (release x d) ≡ known e d + is_event e (some x.event)
unfolding release
release-known e x d = omega (arith, count-append e d.freed (x ∷ []))

add-known :
    (e : ℕ) (hw : Bins) (chan : Option ℕ) (x : EventNode) (d : Dqe)
    → known e (add_event hw chan x d) ≡ known e d + is_event e (some x.event)
unfolding add_event collect_bins put_chan
add-known e hw none x d = omega (arith, count-append e d.hist_pending_events (x ∷ []))
add-known e hw (some id) x d = ground (
  arith,
  emit-known e id (d.hist_chan id).bins x d,
  emit-known e id (hw id) x (collect_bins hw id d),
  count-append e d.hist_pending_events (x ∷ []),
)

-- What is found comes off the list.
abbrev taken : ℕ → List EventNode → Option (EventNode × List EventNode) → ℕ
taken e es none = count e es
taken e es (some (x, xs)) = count e xs + is_event e (some x.event)

find-count :
    (e hist_id user_handle : ℕ) (es : List EventNode)
    → count e es ≡ taken e es (find_event_node hist_id user_handle es)
unfolding find_event_node
find-count e i h [] = refl
find-count e i h (y ∷ es) = ground (arith, find-count e i h es)

cancel-known : (e i h : ℕ) (d : Dqe) → known e (cancel i h d) ≡ known e d
unfolding cancel release
cancel-known e i h d = grind (arith, find-count e i h d.hist_pending_events, count-append)

call_back-known : (e id : ℕ) (d : Dqe) → known e (call_back id d) ≡ known e d
unfolding call_back
call_back-known e id d = ground arith

handle_event-known :
    (e : ℕ) (hw : Bins) (force : Bool) (id : ℕ) (d : Dqe)
    → known e (handle_event hw force id d) ≡ known e d
unfolding handle_event collect_bins put_chan emit
handle_event-known e hw force id d = grind (
  arith,
  find-count e id (d.hist_chan id).user_handle d.hist_pending_events,
  call_back-known,
  count_sent-append,
)

-- What each channel keeps, a loop over them keeps.
pub for_each-keeps :
    (P : Dqe → Type 0) (body : ℕ → Dqe → Dqe)
    → ((id : ℕ) (d : Dqe) → P d → P (body id d))
    → (left id : ℕ) (d : Dqe) → P d
    → P (for_each body left id d)
unfolding for_each
for_each-keeps P body k zero id d p = p
for_each-keeps P body k (suc left) id d p =
    for_each-keeps P body k left (suc id) (body id d) (k id d p)

frame_done_at-known :
    (e : ℕ) (hw : Bins) (last : Bool) (id : ℕ) (d : Dqe)
    → known e (frame_done_at hw last id d) ≡ known e d
unfolding frame_done_at set_run_state put_chan
frame_done_at-known e hw last id d = ground (arith, handle_event-known e hw false id d)

hibernate_at-known :
    (e : ℕ) (hw : Bins) (decon_idle : Bool) (id : ℕ) (d : Dqe)
    → known e (hibernate_at hw decon_idle id d) ≡ known e d
unfolding hibernate_at set_run_state put_chan collect_bins
hibernate_at-known e hw decon_idle id d = ground (arith, handle_event-known e hw true id d)

pub frame_done-known :
    (e : ℕ) (hw : Bins) (last : Bool) (d : Dqe)
    → known e (handle_histogram_event hw last d) ≡ known e d
unfolding handle_histogram_event
frame_done-known e hw last d =
    for_each-keeps (λ t. known e t ≡ known e d) (frame_done_at hw last)
      (λ id t p. frame_done_at-known e hw last id t ∙ p) histogram_max 0 d refl

hibernation_enter-known :
    (e : ℕ) (hw : Bins) (decon_idle : Bool) (d : Dqe)
    → known e (hibernation_enter hw decon_idle d) ≡ known e d
unfolding hibernation_enter
hibernation_enter-known e hw decon_idle d =
    let all =
      for_each-keeps (λ t. known e t ≡ known e d) (hibernate_at hw decon_idle)
        (λ id t p. hibernate_at-known e hw decon_idle id t ∙ p) histogram_max 0 d refl in
    ground (arith, all)

clear_all-known :
    (e : ℕ) (es : List EventNode) (d : Dqe)
    → es ≡ d.hist_pending_events
    → known e (clear_all es d) ≡ known e d
unfolding clear_all
clear_all-known e [] d p = refl
clear_all-known e (x ∷ es) d p = grind (
  arith,
  clear_all-known e es (release x (record d { hist_pending_events = es })) refl,
  release-known e x (record d { hist_pending_events = es }),
)

register-known :
    (e : ℕ) (hw : Bins) (chan : Option ℕ) (i h : ℕ) (x : EventNode) (d : Dqe)
    → known e (register hw chan i h x d).0
      ≡ known e d + is_event e (if_made x.event (register hw chan i h x d).1)
unfolding register
register-known e hw chan i h x d = ground (arith, release-known e x d, add-known e hw chan x d)

channel_request-known :
    (e : ℕ) (l : Lookup) (hw : Bins) (x i : ℕ) (d : Dqe)
    → known e (channel_request l hw x i d).0
      ≡ known e d + is_event e (if_made x (channel_request l hw x i d).1)
unfolding channel_request channel_process_arg process_arg
channel_request-known e l hw x i d =
    ground (arith, register-known e hw (some i) i 0 (record { event = x; ask = channel i }) d)

event_request-known :
    (e : ℕ) (l : Lookup) (hw : Bins) (x h : ℕ) (d : Dqe)
    → known e (event_request l hw x h d).0
      ≡ known e d + is_event e (if_made x (event_request l hw x h d).1)
unfolding event_request process_arg
event_request-known e l hw x h d =
    let chan = running_from d.hist_chan h histogram_max 0 in
    ground
      (arith, register-known e hw chan histogram_max h (record { event = x; ask = context h }) d)

update-known :
    (e : ℕ) (enabled : Bool) (configs : ℕ → Option ChanConfig) (d : Dqe)
    → known e (dqe_update enabled configs d) ≡ known e d
unfolding dqe_update histogram_update lhbm_update put_chan
update-known e enabled configs d = ground arith

unfoldable pub times_made : ℕ → List Act → Dqe → ℕ
unfolding act
times_made e [] d = 0
times_made e (a ∷ rest) d = is_event e (made a (act a d).1) + times_made e rest (act a d).0

act-known :
    (e : ℕ) (a : Act) (d : Dqe) → known e (act a d).0 ≡ known e d + is_event e (made a (act a d).1)
unfolding act channel_cancel event_cancel flip_done dqe_reset
act-known e (ask_channel l hw x i) d = channel_request-known e l hw x i d
act-known e (ask_context l hw x h) d = event_request-known e l hw x h d
act-known e (cancel_channel l i) d = ground (arith, cancel-known e i 0 d)
act-known e (cancel_context l h) d =
    ground (arith, cancel-known e histogram_max h d, clear_all-known e d.hist_pending_events d refl)
act-known e (frame_done hw last) d = omega (arith, frame_done-known e hw last d)
act-known e (flip blobs) d = omega arith
act-known e (update enabled configs) d = omega (arith, update-known e enabled configs d)
act-known e (hibernate hw decon_idle) d = omega (arith, hibernation_enter-known e hw decon_idle d)
act-known e reset d = omega arith

-- Whatever is asked for, cancelled, shown, updated, put into hibernation and reset, in any order: an
-- event is in the end as often among those that wait, those that were sent and those that were freed
-- as it was at first and was made by a call since.
pub run-Kept :
    (e : ℕ) (acts : List Act) (d : Dqe) → known e (run acts d) ≡ known e d + times_made e acts d
unfolding run times_made
run-Kept e [] d = omega arith
run-Kept e (a ∷ rest) d = omega (arith, run-Kept e rest (act a d).0, act-known e a d)
