-- ===== src/Dsim/Command.antt =====
-- The commands that exynos_drm_dsim.c sends to the panel: the queue of packets in front of the FIFOs
-- of the hardware, the words of a payload, and the answer of a read. Writes of registers are a list of
-- effects; what the hardware answers is an argument. Locks and log messages are left out.
pub mod Payload
pub mod Occupancy
pub mod Fifo
pub mod Transfers
mod Tests
use google_modules_display_s.Prelude.{
  ℕ, zero, suc, ◌+◌, ◌-◌, ◌*◌, ◌/◌, ◌%◌, min, Bool, true, false, not, ◌||◌, ◌&&◌, Option, none,
  some, List, [], ◌∷◌, ◌++◌, map, ltb, leb, ◌==◌, if◌then◌else◌, Ret, Errno, is_ok, length,
  mult_frac32,
}

-- The flags of a message: EXYNOS_DSI_MSG_QUEUE, _IGNORE_VBLANK, _FORCE_BATCH and _FORCE_FLUSH.
pub record Flags : Type 0 where
  pub queue : Bool
  pub ignore_vblank : Bool
  pub force_batch : Bool
  pub force_flush : Bool

-- `struct mipi_dsi_packet`; the header's three bytes, and the payload of a long packet.
pub record Packet : Type 0 where
  pub size : ℕ
  pub header : ℕ × ℕ × ℕ
  pub payload : List ℕ

-- A message to send: its `tx_len`, and what mipi_dsi_create_packet makes of it, `none` for an error.
pub record Msg : Type 0 where
  pub tx_len : ℕ
  pub packet : Option Packet
  pub flags : Flags

-- The fields of `struct dsim_device` for commands, and the references to the runtime power that it holds.
pub record Queue : Type 0 where
  pub total_pend_ph : ℕ
  pub total_pend_pl : ℕ
  pub force_batching : Bool
  pub video_mode : Bool
  pub power_refs : ℕ

-- The writes of registers, and the wait for the next frame.
pub data FifoEffect : Type 0 where
  enable_packetgo : Bool → FifoEffect
  clear_fifo_int : FifoEffect
  tx_payload : ℕ → FifoEffect
  tx_header : ℕ × ℕ × ℕ → FifoEffect
  ready_packetgo : FifoEffect
  wait_vblank : FifoEffect

abbrev pub max_ph_fifo : ℕ
max_ph_fifo = 32

abbrev pub max_pl_fifo : ℕ
max_pl_fifo = 2048

-- `mult_frac(MAX_PL_FIFO, 75, 100)`
abbrev pub pl_fifo_threshold : ℕ
pl_fifo_threshold = 1536

-- `ALIGN(n, 4)`
abbrev pub align4 : ℕ → ℕ
align4 n = (n + 3) / 4 * 4

-- dsim_write_payload: the bytes in words, lowest first. The bytes do not overlap, so the `|` is a sum.
pub payload_words : List ℕ → List ℕ
payload_words (a ∷ b ∷ c ∷ d ∷ bs) = (a + b * 256 + c * 65536 + d * 16777216) ∷ payload_words bs
payload_words (a ∷ b ∷ c ∷ []) = (a + b * 256 + c * 65536) ∷ []
payload_words (a ∷ b ∷ []) = (a + b * 256) ∷ []
payload_words (a ∷ []) = a ∷ []
payload_words [] = []

pub cmd_write : Packet → List FifoEffect
cmd_write p = map tx_payload (payload_words p.payload) ++ (tx_header p.header ∷ [])

pub packetgo_is_enabled : Queue → Bool
packetgo_is_enabled q = ltb 0 q.total_pend_ph

pub packetgo_disable : Queue → Queue
packetgo_disable q = record q {
  total_pend_ph = 0;
  total_pend_pl = 0;
  power_refs = q.power_refs - 1;
}

-- The counters are a `u8` and a `u16`.
pub packetgo_queue : Queue → Packet → Queue × List FifoEffect
packetgo_queue q p =
    let first = q.total_pend_ph == 0 in
    (
      record q {
        total_pend_ph = (q.total_pend_ph + 1) % 256;
        total_pend_pl = (q.total_pend_pl + align4 (length p.payload)) % 65536;
        power_refs = if first then q.power_refs + 1 else q.power_refs;
      },
      (if first then enable_packetgo true ∷ [] else []) ++ cmd_write p,
    )

pub write_single_cmd : Queue → Packet → Queue × List FifoEffect
write_single_cmd q p =
    (record q { total_pend_pl = align4 (length p.payload) % 65536 }, clear_fifo_int ∷ cmd_write p)

-- need_wait_vblank with the length of a frame and the time since the last one, in ns; `none` where there
-- is no crtc or no vblank.
pub need_wait_vblank : Option (ℕ × ℕ) → List FifoEffect
need_wait_vblank none = []
need_wait_vblank (some t) =
    if ltb (mult_frac32 t.0 95 100) (t.1 + 1000000) then wait_vblank ∷ [] else []

-- What dsim_write_data_locked returns: an error, or `is_last`.
pub data Written : Type 0 where
  failed : Errno → Written
  last : Bool → Written

pub empty_packet : Packet
empty_packet = record { size = 0; header = (0, 0, 0); payload = [] }

-- The end of dsim_write_data_locked, where `is_last` is known.
pub send : Queue → Option (ℕ × ℕ) → Bool → Packet → Bool → Queue × List FifoEffect
send q vblank ignore_vblank p is_last =
    let queued = if ltb 0 p.size then packetgo_queue q p else (q, []) in
    if is_last
    then if packetgo_is_enabled q
      then (
        queued.0,
        queued.1
            ++ (if ignore_vblank then [] else need_wait_vblank vblank)
            ++ (clear_fifo_int ∷ ready_packetgo ∷ []),
      )
      else if ltb 0 p.size
      then write_single_cmd q p
      else (q, [])
    else queued

-- Whether a message that is to be queued has to be sent now.
pub nearly_full : Queue → Packet → Bool
nearly_full q p =
    ltb 0 p.size
    && (leb max_ph_fifo (q.total_pend_ph + 1)
        || ltb pl_fifo_threshold (q.total_pend_pl + length p.payload))

pub is_full : Queue → Packet → Bool
is_full q p =
    ltb max_pl_fifo (q.total_pend_pl + length p.payload) || leb max_ph_fifo q.total_pend_ph

-- A packet in command mode. With FORCE_BATCH the function returns `is_last` before it is set: its value
-- there is the argument `unset`.
pub queue_packet :
    Queue → Option (ℕ × ℕ) → Bool → Flags → Packet → Queue × List FifoEffect × Written
queue_packet q vblank unset flags p =
    if flags.force_batch
    then (record q { force_batching = true }, [], last unset)
    else if is_full q p
    then (q, [], failed Errno.einval)
    else let asked = (not flags.queue && not q.force_batching) || flags.force_flush in
      let q' = if flags.force_flush then record q { force_batching = false } else q in
      let is_last = asked || nearly_full q' p in
      let w = send q' vblank flags.ignore_vblank p is_last in (w.0, w.1, last is_last)

-- From the test of the mode on.
pub write_packet :
    Queue → Option (ℕ × ℕ) → Bool → Flags → Packet → Queue × List FifoEffect × Written
write_packet q vblank unset flags p =
    if q.video_mode
    then (let w = if ltb 0 p.size then write_single_cmd q p else (q, []) in (w.0, w.1, last true))
    else queue_packet q vblank unset flags p

pub write_data : Queue → Option (ℕ × ℕ) → Bool → Msg → Queue × List FifoEffect × Written
write_data q vblank unset msg =
    if ltb 0 msg.tx_len
    then elim msg.packet [
      | none ↦ (q, [], last false)
      | some p ↦ write_packet q vblank unset msg.flags p
    ]
    else write_packet q vblank unset msg.flags empty_packet

-- `wait` is what dsim_wait_for_cmd_fifo_empty returns.
pub cmd_flush : Queue → Ret → Queue × List FifoEffect × Ret
cmd_flush q wait =
    if packetgo_is_enabled q
    then (packetgo_disable q, enable_packetgo false ∷ [], wait)
    else (q, [], wait)

-- The end of dsim_host_transfer: the flush after a last packet.
pub end_transfer : Queue → List FifoEffect → Written → Ret → Queue × List FifoEffect × Ret
end_transfer q es (failed e) wait = (q, es, some e)
end_transfer q es (last false) wait = (q, es, none)
end_transfer q es (last true) wait = let (q', fs, ret) = cmd_flush q wait in (q', es ++ fs, ret)

-- dsim_host_transfer of a write, on an active link with its power on.
pub transfer : Queue → Option (ℕ × ℕ) → Bool → Msg → Ret → Queue × List FifoEffect × Ret
transfer q vblank unset msg wait =
    let (q', es, w) = write_data q vblank unset msg in end_transfer q' es w wait

-- The loop of dsim_read_data over the bytes of one word.
pub word_bytes : ℕ → ℕ → List ℕ
word_bytes zero w = []
word_bytes (suc n) w = w % 256 ∷ word_bytes n (w / 256)

-- Its loop over the words of a long packet: `left` bytes still to come, with as much fuel, and the read
-- number `t` of the FIFO next.
pub long_bytes : ℕ → (ℕ → ℕ) → ℕ → ℕ → List ℕ
long_bytes zero fifo t left = []
long_bytes (suc fuel) fifo t left =
    let rest = long_bytes fuel fifo (suc t) (left - 4) in
    if left == 0 then [] else word_bytes (min left 4) (fifo t) ++ rest
