-- ===== src/Ota/Tests.antt =====
-- The theorems on upgrades at concrete inputs.
use ameba_micro_python.Prelude.{
  ℕ, ◌≡◌, ◌≢◌, ◌⊎◌, ◌++◌, refl, true, false, none, [], ◌∷◌, arith, inr, min, leb, Bool, zero, suc,
}
use ameba_micro_python.Ota.{World, Answers, empty_session, make_new, write}
use ameba_micro_python.Ota.Handles.{Inv, make_new-Inv}
use ameba_micro_python.Ota.Write.{Ended, write-Ended}
use ameba_micro_python.Ota.Pipe
use ameba_micro_python.Ota.Pipe.{Pipe, Reach, here, next, start, Reach-received}

abbrev boot : World
boot = record { session = λ i. empty_session; fresh = 0; active = none }

boot-Inv : Inv boot
boot-Inv = record { sound = λ i. (refl, refl) }

abbrev all_well : Answers
all_well = record { init = true; stream = true; semaphore = true; task = true }

made-Inv : Inv (make_new boot all_well).1
made-Inv = make_new-Inv boot all_well boot-Inv (inr refl)

-- Two bytes in the first round, and none after it.
abbrev by_two : ℕ → ℕ → ℕ
by_two zero n = min n 2
by_two (suc i) n = 0

-- The task ends before the third round; the stream takes nothing in the second.
abbrev ends_early : ℕ → Bool
ends_early i = leb 2 i

write-Ended_example :
    Ended (1 ∷ 2 ∷ 3 ∷ []) (write empty_session ends_early by_two 4 (1 ∷ 2 ∷ 3 ∷ []))
write-Ended_example =
    write-Ended empty_session ends_early by_two 4 2 (1 ∷ 2 ∷ 3 ∷ []) refl refl refl (omega arith)

abbrev written : Pipe
written = record start { accepted = 5 ∷ 6 ∷ []; buffer = 5 ∷ 6 ∷ []; eof = true }

abbrev at_end : Pipe
at_end = record {
  accepted = 5 ∷ 6 ∷ [];
  buffer = [];
  received = 5 ∷ 6 ∷ [];
  eof = true;
  phase = Pipe.ended;
  late = false;
}

Reach-written : Reach written
Reach-written =
    next (next {p' = record written { eof = false }} here (Pipe.write (5 ∷ 6 ∷ []) refl))
      (Pipe.finish refl)

Reach-at_end : Reach at_end
Reach-at_end =
    next {p = record at_end { phase = Pipe.draining }}
      (next {p = record at_end { phase = Pipe.checking }}
        (next {p = record at_end { phase = Pipe.polling }}
          (next Reach-written (Pipe.poll_got 2 refl (omega arith) (omega arith) refl))
          (Pipe.poll_empty refl refl refl))
        (Pipe.at_eof refl refl refl))
      (Pipe.drain_empty refl refl refl)

Reach-received_example :
    (at_end.received ++ at_end.buffer ≡ at_end.accepted)
    × ((at_end.phase ≢ Pipe.ended)
        ⊎ ((at_end.eof ≡ true) × ((at_end.late ≡ true) ⊎ (at_end.received ≡ at_end.accepted))))
Reach-received_example = Reach-received at_end Reach-at_end
