-- ===== src/Dsim/Command/Fifo.antt =====
-- The FIFOs of the hardware behind the queue of commands, over any row of transfers.
use google_modules_display_s.Prelude.{
  ℕ, suc, ◌+◌, ◌*◌, ◌%◌, ◌≤◌, ◌<◌, ◌≡◌, refl, ap, ◌∙◌, min, Bool, false, none, List, length, arith,
  ltb, Bool-cases, inl, inr, ltb-false,
}
use google_modules_display_s.Dsim.Command.{
  Packet, Queue, FifoEffect, align4, packetgo_is_enabled, packetgo_disable, packetgo_queue,
  write_single_cmd, cmd_flush,
}
use google_modules_display_s.Dsim.Command.Occupancy.{
  headers, words, Change, nothing, queued, single,
}

-- `ph` headers and `pl` words of payload in the FIFOs.
pub record Inv (q : Queue) (ph pl : ℕ) : Type 0 where
  pub command : q.video_mode ≡ false
  pub counted : q.total_pend_ph ≡ ph
  pub above : pl * 4 ≤ q.total_pend_pl
  pub aligned : q.total_pend_pl % 4 ≡ 0
  pub headers_fit : ph < 32
  pub payload_fits : q.total_pend_pl ≤ 2048
  pub power : q.power_refs ≡ min ph 1

pub add_zero : (n : ℕ) → n + 0 ≡ n
add_zero n = omega arith

abbrev pub Peak : ℕ → ℕ → List FifoEffect → Type 0
Peak ph pl es = (ph + headers es ≤ 32) × ((pl + words es) * 4 ≤ 2048)

pub change-Peak :
    (q q' : Queue) (ph pl : ℕ) (p : Packet) (l : Bool) (es : List FifoEffect)
    → Inv q ph pl
    → q.total_pend_pl + length p.payload ≤ 2048
    → Change q p l q' es
    → Peak ph pl es
change-Peak q q' ph pl p l es i fits (nothing h w e) =
    (omega (arith, h, i.headers_fit), omega (arith, w, i.above, i.payload_fits))
change-Peak q q' ph pl p l es i fits (queued n c e) =
    (omega (arith, c.one, i.headers_fit), omega (arith, c.payload, i.above, i.aligned))
change-Peak q q' ph pl p l es i fits (single t z c e) =
    (omega (arith, c.one, i.headers_fit), omega (arith, c.payload, i.above, i.aligned))

-- What queuing makes of the counters, where it fits.
queue_counts :
    (q : Queue) (ph pl : ℕ) (p : Packet)
    → Inv q ph pl
    → q.total_pend_pl + length p.payload ≤ 2048
    → ((packetgo_queue q p).0.total_pend_ph ≡ suc ph)
      × ((packetgo_queue q p).0.total_pend_pl ≡ q.total_pend_pl + align4 (length p.payload))
      × ((packetgo_queue q p).0.power_refs ≡ 1)
unfolding packetgo_queue
queue_counts q ph pl p i fits = (
  omega (arith, i.counted, i.headers_fit),
  omega (arith, i.aligned),
  ground (arith, i.counted, i.power),
)

queue_mode : (q : Queue) (p : Packet) → (packetgo_queue q p).0.video_mode ≡ q.video_mode
unfolding packetgo_queue
queue_mode q p = refl

pub change_kept :
    (q q' : Queue) (ph pl : ℕ) (p : Packet) (es : List FifoEffect)
    → Inv q ph pl
    → q.total_pend_pl + length p.payload ≤ 2048
    → (0 < p.size → suc ph < 32)
    → Change q p false q' es
    → Inv q' (ph + headers es) (pl + words es)
change_kept q q' ph pl p es i fits room (nothing h w e) =
    rw e (rw h (rw w (rw (add_zero ph) (rw (add_zero pl) i))))
change_kept q q' ph pl p es i fits room (queued n c e) =
    let k = queue_counts q ph pl p i fits in
    let a = ap (λ (x : Queue). x.total_pend_ph) e in
    let b = ap (λ (x : Queue). x.total_pend_pl) e in
    let d = ap (λ (x : Queue). x.power_refs) e in
    record {
      command = ap (λ (x : Queue). x.video_mode) e ∙ queue_mode q p ∙ i.command;
      counted = omega (arith, a, k.0, c.one);
      above = omega (arith, b, k.1, c.payload, i.above);
      aligned = omega (arith, b, k.1, i.aligned);
      headers_fit = omega (arith, room n, c.one);
      payload_fits = omega (arith, b, k.1, i.aligned, fits);
      power = omega (arith, d, k.2, c.one);
    }
change_kept q q' ph pl p es i fits room (single t z c e) = absurd (ground (arith, t))

-- A queue whose FIFOs are about to be emptied.
pub record Closing (q : Queue) : Type 0 where
  pub command : q.video_mode ≡ false
  pub aligned : q.total_pend_pl % 4 ≡ 0
  pub payload_fits : q.total_pend_pl ≤ 2048
  pub power : q.power_refs ≡ min q.total_pend_ph 1

pub change-Closing :
    (q q' : Queue) (ph pl : ℕ) (p : Packet) (l : Bool) (es : List FifoEffect)
    → Inv q ph pl
    → q.total_pend_pl + length p.payload ≤ 2048
    → Change q p l q' es
    → Closing q'
unfolding write_single_cmd
change-Closing q q' ph pl p l es i fits (nothing h w e) = rw e (record {
  command = i.command;
  aligned = i.aligned;
  payload_fits = i.payload_fits;
  power = omega (arith, i.power, i.counted);
})
change-Closing q q' ph pl p l es i fits (queued n c e) =
    let k = queue_counts q ph pl p i fits in
    rw e (record {
      command = queue_mode q p ∙ i.command;
      aligned = omega (arith, k.1, i.aligned);
      payload_fits = omega (arith, k.1, i.aligned, fits);
      power = omega (arith, k.2, k.0);
    })
change-Closing q q' ph pl p l es i fits (single t z c e) = rw e (record {
  command = i.command;
  aligned = omega arith;
  payload_fits = omega arith;
  power = omega (arith, i.power, i.counted);
})

pub flush_empties : (q : Queue) → Closing q → Inv (cmd_flush q none).0 0 0
unfolding cmd_flush packetgo_disable packetgo_is_enabled
flush_empties q c = elim (Bool-cases (ltb 0 q.total_pend_ph)) [
  | inl e ↦ rw e (record {
    command = c.command;
    counted = refl;
    above = omega arith;
    aligned = refl;
    headers_fit = omega arith;
    payload_fits = omega arith;
    power = omega (arith, c.power);
  })
  | inr e ↦
      let z : q.total_pend_ph ≡ 0 = omega (arith, ltb-false 0 q.total_pend_ph e) in
      rw e (record {
        command = c.command;
        counted = z;
        above = omega arith;
        aligned = c.aligned;
        headers_fit = omega arith;
        payload_fits = c.payload_fits;
        power = omega (arith, c.power, z);
      })
]
