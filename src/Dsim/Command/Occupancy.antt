-- ===== src/Dsim/Command/Occupancy.antt =====
-- What the queue of commands leaves in the FIFOs of the hardware, over any row of transfers.
use google_modules_display_s.Prelude.{
  ℕ, suc, ◌+◌, ◌*◌, ◌<◌, ◌≡◌, refl, ap, Bool, true, false, Option, List, [], ◌∷◌, ◌++◌, map, length,
  arith, if◌then◌else◌, ltb, ◌==◌, Bool-cases, inl, inr, ltb→lt,
}
use google_modules_display_s.Dsim.Command.{
  Packet, Queue, FifoEffect, enable_packetgo, clear_fifo_int, tx_payload, tx_header, ready_packetgo,
  wait_vblank, align4, payload_words, cmd_write, packetgo_is_enabled, packetgo_queue,
  write_single_cmd, need_wait_vblank, send,
}
use google_modules_display_s.Dsim.Command.Payload.{length_words}

-- The headers and the payload words among the effects.
abbrev pub headers : List FifoEffect → ℕ
headers [] = 0
headers (tx_header h ∷ es) = suc (headers es)
headers (_ ∷ es) = headers es

abbrev pub words : List FifoEffect → ℕ
words [] = 0
words (tx_payload w ∷ es) = suc (words es)
words (_ ∷ es) = words es

headers-append : (es fs : List FifoEffect) → headers (es ++ fs) ≡ headers es + headers fs
headers-append [] fs = omega arith
headers-append (tx_header h ∷ es) fs = omega (arith, headers-append es fs)
headers-append (enable_packetgo b ∷ es) fs = headers-append es fs
headers-append (clear_fifo_int ∷ es) fs = headers-append es fs
headers-append (tx_payload w ∷ es) fs = headers-append es fs
headers-append (ready_packetgo ∷ es) fs = headers-append es fs
headers-append (wait_vblank ∷ es) fs = headers-append es fs

words-append : (es fs : List FifoEffect) → words (es ++ fs) ≡ words es + words fs
words-append [] fs = omega arith
words-append (tx_payload w ∷ es) fs = omega (arith, words-append es fs)
words-append (enable_packetgo b ∷ es) fs = words-append es fs
words-append (clear_fifo_int ∷ es) fs = words-append es fs
words-append (tx_header h ∷ es) fs = words-append es fs
words-append (ready_packetgo ∷ es) fs = words-append es fs
words-append (wait_vblank ∷ es) fs = words-append es fs

headers-payload : (ws : List ℕ) → headers (map tx_payload ws) ≡ 0
headers-payload [] = refl
headers-payload (w ∷ ws) = headers-payload ws

words-payload : (ws : List ℕ) → words (map tx_payload ws) ≡ length ws
words-payload [] = refl
words-payload (w ∷ ws) = ap suc (words-payload ws)

-- One header, and the words of the payload.
pub record Carries (p : Packet) (es : List FifoEffect) : Type 0 where
  pub one : headers es ≡ 1
  pub payload : words es * 4 ≡ align4 (length p.payload)

cmd_write-Carries : (p : Packet) → Carries p (cmd_write p)
unfolding cmd_write
cmd_write-Carries p =
    let ws : List FifoEffect = map tx_payload (payload_words p.payload) in
    let end : List FifoEffect = tx_header p.header ∷ [] in
    let h = headers-append ws end in
    let w = words-append ws end in
    record {
      one = omega (arith, h, headers-payload (payload_words p.payload));
      payload = omega (arith, w, words-payload (payload_words p.payload), length_words p.payload);
    }

-- Other writes before and after the packet do not count.
around-Carries :
    (p : Packet) (es fs gs : List FifoEffect)
    → headers es ≡ 0
    → words es ≡ 0
    → headers gs ≡ 0
    → words gs ≡ 0
    → Carries p fs
    → Carries p (es ++ fs ++ gs)
around-Carries p es fs gs h0 w0 h1 w1 c =
    let a = headers-append (es ++ fs) gs in
    let b = headers-append es fs in
    let d = words-append (es ++ fs) gs in
    let e = words-append es fs in
    record { one = omega (arith, a, b, c.one); payload = omega (arith, d, e, c.payload) }

append_nil : (es : List FifoEffect) → es ++ [] ≡ es
append_nil [] = refl
append_nil (e ∷ es) = ap (◌∷◌ e) (append_nil es)

packetgo_queue-Carries : (q : Queue) (p : Packet) → Carries p (packetgo_queue q p).1
unfolding packetgo_queue
packetgo_queue-Carries q p =
    let opening : List FifoEffect =
      if q.total_pend_ph == 0 then enable_packetgo true ∷ [] else [] in
    let quiet : (headers opening ≡ 0) × (words opening ≡ 0) = ground arith in
    let c =
      around-Carries p opening (cmd_write p) [] quiet.0 quiet.1 refl refl (cmd_write-Carries p) in
    rw (append_nil (opening ++ cmd_write p)) at c

write_single_cmd-Carries : (q : Queue) (p : Packet) → Carries p (write_single_cmd q p).1
unfolding write_single_cmd
write_single_cmd-Carries q p =
    let c = cmd_write-Carries p in record { one = c.one; payload = c.payload }

-- The waits and the start of a batch at its end.
ending : Option (ℕ × ℕ) → Bool → List FifoEffect
ending vblank ignore =
    (if ignore then [] else need_wait_vblank vblank) ++ (clear_fifo_int ∷ ready_packetgo ∷ [])

ending_quiet :
    (vblank : Option (ℕ × ℕ)) (ignore : Bool)
    → (headers (ending vblank ignore) ≡ 0) × (words (ending vblank ignore) ≡ 0)
unfolding ending need_wait_vblank
ending_quiet vblank ignore = ground arith

-- What a packet does to the queue and the FIFOs.
pub data Change (q : Queue) (p : Packet) (is_last : Bool) (q' : Queue) (es : List FifoEffect)
    : Type 0 where
  nothing : headers es ≡ 0 → words es ≡ 0 → q' ≡ q → Change q p is_last q' es
  queued : 0 < p.size → Carries p es → q' ≡ (packetgo_queue q p).0 → Change q p is_last q' es
  single :
      is_last ≡ true
      → q.total_pend_ph ≡ 0
      → Carries p es
      → q' ≡ (write_single_cmd q p).0
      → Change q p is_last q' es

ended-Carries :
    (q : Queue) (p : Packet) (vblank : Option (ℕ × ℕ)) (ignore : Bool)
    → Carries p (
        (packetgo_queue q p).1
        ++ (if ignore then [] else need_wait_vblank vblank)
        ++ (clear_fifo_int ∷ ready_packetgo ∷ []))
unfolding need_wait_vblank
ended-Carries q p vblank ignore =
    let waits : List FifoEffect = if ignore then [] else need_wait_vblank vblank in
    let quiet : (headers waits ≡ 0) × (words waits ≡ 0) = ground arith in
    let end : List FifoEffect = clear_fifo_int ∷ ready_packetgo ∷ [] in
    let c = packetgo_queue-Carries q p in
    let es = (packetgo_queue q p).1 in
    let a = headers-append (es ++ waits) end in
    let b = headers-append es waits in
    let d = words-append (es ++ waits) end in
    let e = words-append es waits in
    record {
      one = omega (arith, a, b, c.one, quiet.0);
      payload = omega (arith, d, e, c.payload, quiet.1);
    }

idle : (q : Queue) → packetgo_is_enabled q ≡ false → q.total_pend_ph ≡ 0
unfolding packetgo_is_enabled
idle q off = ground arith

pub send-Change :
    (q : Queue) (vblank : Option (ℕ × ℕ)) (ignore is_last : Bool) (p : Packet)
    → Change q p is_last (send q vblank ignore p is_last).0 (send q vblank ignore p is_last).1
unfolding send ending
send-Change q vblank ignore false p = elim (Bool-cases (ltb 0 p.size)) [
  | inl e ↦ rw e (queued (ltb→lt 0 p.size e) (packetgo_queue-Carries q p) refl)
  | inr e ↦ rw e (nothing refl refl refl)
]
send-Change q vblank ignore true p = elim (Bool-cases (ltb 0 p.size)) [
  | inl e ↦ elim (Bool-cases (packetgo_is_enabled q)) [
    | inl on ↦ rw on (rw e (queued (ltb→lt 0 p.size e) (ended-Carries q p vblank ignore) refl))
    | inr off ↦ rw off (rw e (single refl (idle q off) (write_single_cmd-Carries q p) refl))
  ]
  | inr e ↦ elim (Bool-cases (packetgo_is_enabled q)) [
    | inl on ↦ rw on (rw e (let quiet = ending_quiet vblank ignore in nothing quiet.0 quiet.1 refl))
    | inr off ↦ rw off (rw e (nothing refl refl refl))
  ]
]
