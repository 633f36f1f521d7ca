-- ===== src/Can/Frames.antt =====
-- A frame from `send` to `recv` of machine_can.c, and the time segments of a bit.
use ameba_micro_python.Prelude.{
  ℕ, ◌+◌, ◌≤◌, ◌≡◌, ◌∙◌, refl, sym, ap, Bool, true, false, Option, none, some, List, length, take,
  take-all, if◌then◌else◌, arith,
}
use ameba_micro_python.Can.{Port, Flags, Frame, Message, frame_of, send, recv, sent_to, split_tseg1}

-- What `send` hands to the driver, where it does.
sent_to-frame :
    (port : Port) (id idx : ℕ) (frame frame' : Frame) (found : Option (Option ℕ))
    → (sent_to port id frame found).0 ≡ some (idx, frame')
    → frame ≡ frame'
sent_to-frame port id idx frame frame' none e = cc
sent_to-frame port id idx frame frame' (some none) e = cc
sent_to-frame port id idx frame frame' (some (some j)) e = cc

-- The frame that a successful `send` writes is received with the same id, the same length, the same
-- two flags, and the same bytes unless it is a remote frame.
pub recv-send :
    (port : Port) (id : ℕ) (bytes : List ℕ) (flags : Flags) (idx : ℕ) (frame : Frame)
    (overrun full : Bool)
    → (send port id bytes flags).0 ≡ some (idx, frame)
    → recv (some frame) overrun full
      ≡ some (record {
        id = id;
        dlen = length bytes;
        bytes = if flags.rtr then none else some bytes;
        rtr = flags.rtr;
        ext_id = flags.ext_id;
        overrun = overrun;
        full = full;
      })
unfolding send recv
recv-send port id bytes flags idx frame overrun full e =
    ap (λ f. recv (some f) overrun full)
      (sym (sent_to-frame port id idx (frame_of id bytes flags) frame _ e))
    ∙ received_as flags.rtr flags.ext_id
  where
    whole : some (take (length bytes) bytes) ≡ some bytes
    whole = ap (λ l. some l) (take-all (length bytes) bytes (omega arith))

    message : Bool → Bool → Option (List ℕ) → Option Message
    message rtr ext copied = some (record {
      id = id;
      dlen = length bytes;
      bytes = copied;
      rtr = rtr;
      ext_id = ext;
      overrun = overrun;
      full = full;
    })

    received_as :
        (rtr ext : Bool)
        → recv
            (some
              (frame_of id bytes (record { rtr = rtr; ext_id = ext; unordered = flags.unordered })))
            overrun
            full
          ≡ message rtr ext (if rtr then none else some bytes)
    received_as true true = refl
    received_as true false = refl
    received_as false true = ap (message false true) whole
    received_as false false = ap (message false false) whole

-- Each combined segment of 4 to 14 quanta is split without a rest into a propagation segment of 2 to 6
-- and a first phase of 2 to 8.
pub split_tseg1-fits :
    (tseg1 : ℕ)
    → 4 ≤ tseg1
    → tseg1 ≤ 14
    → let (prop, phase1) = split_tseg1 tseg1 in
      (prop + phase1 ≡ tseg1) × (2 ≤ prop) × (prop ≤ 6) × (2 ≤ phase1) × (phase1 ≤ 8)
unfolding split_tseg1
split_tseg1-fits tseg1 lo hi = ground arith
