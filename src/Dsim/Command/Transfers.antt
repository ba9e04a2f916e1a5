-- ===== src/Dsim/Command/Transfers.antt =====
-- Rows of transfers from an empty queue: what each leaves in the FIFOs, and that they never overflow.
use google_modules_display_s.Prelude.{ℕ, ◌+◌, Bool, true, false, Option, none, List}
use google_modules_display_s.Dsim.Command.{
  Msg, Queue, FifoEffect, Written, failed, last, write_data, cmd_flush, transfer,
}
use google_modules_display_s.Dsim.Command.Occupancy.{headers, words}
use google_modules_display_s.Dsim.Command.Fifo.{Inv, Peak}

-- What is left in a FIFO of `n` entries after the flush of a last packet, which waits until it is empty.
unfoldable pub left : Written → ℕ → ℕ
left (last true) n = 0
left (last false) n = n
left (failed e) n = n

-- The queue after a transfer whose wait ends well.
settled : Queue → Written → Queue
settled q (last true) = (cmd_flush q none).0
settled q (last false) = q
settled q (failed e) = q

record Good (ph pl : ℕ) (r : Queue × List FifoEffect × Written) : Type 0 where
  peak : Peak ph pl r.1
  next : Inv (settled r.0 r.2) (left r.2 (ph + headers r.1)) (left r.2 (pl + words r.1))

-- The queue of an interface in command mode and what is in the FIFOs: headers, and words of payload.
pub record Fifo : Type 0 where
  pub queue : Queue
  pub headers_in : ℕ
  pub words_in : ℕ

unfoldable pub empty_fifo : Fifo
empty_fifo = record {
  queue = record {
    total_pend_ph = 0;
    total_pend_pl = 0;
    force_batching = false;
    video_mode = false;
    power_refs = 0;
  };
  headers_in = 0;
  words_in = 0;
}

-- A transfer whose wait, if it comes to one, ends with the FIFOs empty.
unfoldable pub after : Fifo → Option (ℕ × ℕ) → Bool → Msg → Fifo
after f vblank unset msg =
    let (q', es, w) = write_data f.queue vblank unset msg in
    record {
      queue = (transfer f.queue vblank unset msg none).0;
      headers_in = left w (f.headers_in + headers es);
      words_in = left w (f.words_in + words es);
    }

pub data Reach : Fifo → Type 0 where
  here : Reach empty_fifo
  sent :
      {f : Fifo}
      → Reach f
      → (vblank : Option (ℕ × ℕ)) (unset : Bool) (msg : Msg) → Reach (after f vblank unset msg)

FifoInv : Fifo → Type 0
FifoInv f = Inv f.queue f.headers_in f.words_in
