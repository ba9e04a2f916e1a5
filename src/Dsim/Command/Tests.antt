-- ===== src/Dsim/Command/Tests.antt =====
-- Runs of the queue of commands, and the witnesses of its theorems.
use google_modules_display_s.Prelude.{
  ℕ, ◌*◌, ◌≡◌, refl, arith, true, false, none, some, List, [], ◌∷◌, length, get_or,
}
use google_modules_display_s.Dsim.Command.{
  Msg, transfer, payload_words, long_bytes, align4, write_data, write_packet, queue_packet, send,
  packetgo_queue, packetgo_is_enabled, packetgo_disable, cmd_flush, end_transfer, is_full,
  nearly_full, cmd_write,
}
use google_modules_display_s.Dsim.Command.Payload.{payload_words-long_bytes}
use google_modules_display_s.Dsim.Command.Transfers.{left, Fifo, empty_fifo, after}

abbrev five_bytes : List ℕ
five_bytes = 57 ∷ 1 ∷ 2 ∷ 3 ∷ 4 ∷ []

payload_words-long_bytes_example :
    (long_bytes 5 (λ t. get_or (payload_words five_bytes) t 0) 0 5 ≡ five_bytes)
    × (length (payload_words five_bytes) * 4 ≡ align4 5)
payload_words-long_bytes_example =
    payload_words-long_bytes five_bytes
      (omega arith, (omega arith, (omega arith, (omega arith, (omega arith, tt)))))

-- A write of five bytes, to be queued.
abbrev batched : Msg
batched = record {
  tx_len = 5;
  packet = some (record { size = 9; header = (57, 5, 0); payload = five_bytes });
  flags = record { queue = true; ignore_vblank = false; force_batch = false; force_flush = false };
}

-- The same, to be sent now.
abbrev now : Msg
now = record batched {
  flags = record { queue = false; ignore_vblank = true; force_batch = false; force_flush = false };
}

abbrev one_waits : Fifo
one_waits = after empty_fifo none false batched

one_pending :
    (one_waits.queue.total_pend_ph ≡ 1)
    × (one_waits.queue.total_pend_pl ≡ 8)
    × (one_waits.words_in ≡ 2)
    × (one_waits.queue.power_refs ≡ 1)
unfolding transfer write_data write_packet queue_packet send packetgo_queue packetgo_is_enabled
    packetgo_disable cmd_flush end_transfer is_full nearly_full empty_fifo after left cmd_write
    payload_words
one_pending = (refl, refl, refl, refl)

all_sent :
    ((after one_waits none false now).headers_in ≡ 0)
    × ((after one_waits none false now).queue.power_refs ≡ 0)
unfolding transfer write_data write_packet queue_packet send packetgo_queue packetgo_is_enabled
    packetgo_disable cmd_flush end_transfer is_full nearly_full empty_fifo after left cmd_write
    payload_words
all_sent = (refl, refl)
