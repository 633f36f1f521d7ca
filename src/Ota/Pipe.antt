-- ===== src/Ota/Pipe.antt =====
-- The threads of an upgrade in modota.c: Python calls `write`, `finish` and the finaliser, while the
-- task of the SDK calls `ota_user_read_cb` for the next piece of the firmware. The stream buffer of
-- FreeRTOS is a queue of bytes.
use ameba_micro_python.Prelude.{
  ℕ, ◌<◌, ◌≤◌, ◌≡◌, ◌≢◌, ◌∙◌, refl, ap, sym, Bool, true, false, List, [], ◌∷◌, ◌++◌, ◌||◌, take,
  drop, take-append-drop, length, arith, ◌⊎◌, inl, inr,
}
use mathlib.Core.Path.{subst}
use mathlib.Core.List.{append_assoc, append-nil}

-- Where the callback stands: before `xStreamBufferReceive`; after an empty one, before the test of
-- `eof`; before the last receive; or it has returned 0, which ends the firmware.
pub data Phase : Type 0 where
  polling checking draining ended : Phase

-- What the stream buffer has accepted, what is in it, what the task has received, and whether bytes were
-- put in after `eof` was set.
pub record Pipe : Type 0 where
  pub accepted : List ℕ
  pub buffer : List ℕ
  pub received : List ℕ
  pub eof : Bool
  pub phase : Phase
  pub late : Bool

abbrev pub start : Pipe
start = record {
  accepted = [];
  buffer = [];
  received = [];
  eof = false;
  phase = polling;
  late = false;
}

-- A receive of `n` bytes; the callback returns them and is called again.
abbrev pub receive : Pipe → ℕ → Pipe
receive p n = record p {
  buffer = drop n p.buffer;
  received = p.received ++ take n p.buffer;
  phase = polling;
}

-- Bytes that the stream buffer accepts.
abbrev pub send : Pipe → List ℕ → Pipe
send p bytes = record p {
  accepted = p.accepted ++ bytes;
  buffer = p.buffer ++ bytes;
  late = p.late || p.eof;
}

-- One step of either side. A `write` gives the stream bytes in several steps, and another thread may call
-- `finish` between them; `ameba_ota_del` sets `eof` (`aborts`) and then sends a byte 0 (`wakes`), which the
-- stream may refuse, so that no step follows.
pub data Step (p p' : Pipe) : Type 0 where
  write : (bytes : List ℕ) → p' ≡ send p bytes → Step p p'
  aborts : p' ≡ record p { eof = true } → Step p p'
  wakes : p.eof ≡ true → p' ≡ send p (0 ∷ []) → Step p p'
  finish : p' ≡ record p { eof = true } → Step p p'
  poll_got :
      (n : ℕ) → p.phase ≡ polling → 0 < n → n ≤ length p.buffer → p' ≡ receive p n → Step p p'
  poll_empty : p.phase ≡ polling → p.buffer ≡ [] → p' ≡ record p { phase = checking } → Step p p'
  not_eof : p.phase ≡ checking → p.eof ≡ false → p' ≡ record p { phase = polling } → Step p p'
  at_eof : p.phase ≡ checking → p.eof ≡ true → p' ≡ record p { phase = draining } → Step p p'
  drain_got :
      (n : ℕ) → p.phase ≡ draining → 0 < n → n ≤ length p.buffer → p' ≡ receive p n → Step p p'
  drain_empty : p.phase ≡ draining → p.buffer ≡ [] → p' ≡ record p { phase = ended } → Step p p'

pub data Reach : Pipe → Type 0 where
  here : Reach start
  next : {p p' : Pipe} → Reach p → Step p p' → Reach p'

pub record Inv (p : Pipe) : Type 0 where
  pub conserved : p.received ++ p.buffer ≡ p.accepted
  pub drained : p.phase ≡ ended → (p.eof ≡ true) × ((p.late ≡ true) ⊎ (p.buffer ≡ []))
  pub last : p.phase ≡ draining → p.eof ≡ true

receive-conserved :
    (p : Pipe) (n : ℕ) → (receive p n).received ++ (receive p n).buffer ≡ p.received ++ p.buffer
receive-conserved p n =
    append_assoc p.received (take n p.buffer) (drop n p.buffer)
    ∙ ap (λ l. p.received ++ l) (take-append-drop n p.buffer)

send-Inv : (p : Pipe) (bytes : List ℕ) → Inv p → Inv (send p bytes)
send-Inv p bytes v = record {
  conserved = sym (append_assoc p.received p.buffer bytes) ∙ ap (λ l. l ++ bytes) v.conserved;
  drained = λ q. let (at_end, rest) = v.drained q in (at_end, inl (ground arith));
  last = v.last;
}

Step-Inv : {p p' : Pipe} → Step p p' → Inv p → Inv p'
Step-Inv {p} (write bytes e) v = subst Inv (sym e) (send-Inv p bytes v)
Step-Inv (aborts e) v = ground arith
Step-Inv {p} (wakes h e) v = subst Inv (sym e) (send-Inv p (0 ∷ []) v)
Step-Inv (finish e) v = ground arith
Step-Inv {p} (poll_got n h k l e) v = ground (arith, receive-conserved p n)
Step-Inv (poll_empty h b e) v = ground arith
Step-Inv (not_eof h f e) v = ground arith
Step-Inv (at_eof h f e) v = ground arith
Step-Inv {p} (drain_got n h k l e) v = ground (arith, receive-conserved p n)
Step-Inv (drain_empty h b e) v = ground arith

Reach-Inv : {p : Pipe} → Reach p → Inv p
Reach-Inv here = record { conserved = refl; drained = λ h. cc; last = λ h. cc }
Reach-Inv (next r s) = Step-Inv s (Reach-Inv r)

-- In every interleaving, with an abort or with a `finish` of another thread too, what the task has received
-- and then what is in the stream buffer are, in order, what the buffer has accepted; and once the callback
-- has reported the end of the firmware, `eof` is set, and the task has received all that was accepted, or
-- bytes were put in after `eof` was set.
pub Reach-received :
    (p : Pipe)
    → Reach p
    → (p.received ++ p.buffer ≡ p.accepted)
      × ((p.phase ≢ ended) ⊎ ((p.eof ≡ true) × ((p.late ≡ true) ⊎ (p.received ≡ p.accepted))))
Reach-received p r = let v = Reach-Inv r in (v.conserved, ended-received v p.phase refl)
  where
    complete :
        Inv p → (p.late ≡ true) ⊎ (p.buffer ≡ []) → (p.late ≡ true) ⊎ (p.received ≡ p.accepted)
    complete v (inl l) = inl l
    complete v (inr b) =
        inr (sym (append-nil p.received) ∙ ap (λ l. p.received ++ l) (sym b) ∙ v.conserved)

    ended-received :
        Inv p
        → (s : Phase) → p.phase ≡ s
        → (p.phase ≢ ended) ⊎ ((p.eof ≡ true) × ((p.late ≡ true) ⊎ (p.received ≡ p.accepted)))
    ended-received v polling h = inl (λ e. cc)
    ended-received v checking h = inl (λ e. cc)
    ended-received v draining h = inl (λ e. cc)
    ended-received v ended h = let (at_end, rest) = v.drained h in inr (at_end, complete v rest)
