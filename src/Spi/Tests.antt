-- ===== src/Spi/Tests.antt =====
-- The theorems about machine_spi.c at one input each.
use ameba_micro_python.Prelude.{ℕ, ◌≡◌, refl, true, false, none, some, [], ◌∷◌, pos, negsuc}
use ameba_micro_python.Py.{ok}
use ameba_micro_python.Spi.{Spi, Board, Args, init_helper, deinit, in_place, buffer, transfer}
use ameba_micro_python.Spi.Exchange.{exchange, transfer-exchange}

abbrev board : Board
board = record { sck = 26; mosi = 27; miso = 28; cs = 12 }

-- The static object before its first use.
abbrev unused : Spi
unused = record {
  polarity = 0;
  phase = 0;
  bits = 0;
  firstbit = 0;
  baudrate = 0;
  sck = 0;
  mosi = 0;
  miso = 0;
  cs = 0;
  initialized = false;
  driver = none;
  muxed = λ p. false;
}

abbrev mode_3 : Args
mode_3 = record {
  baudrate = pos 5000;
  polarity = pos 1;
  phase = pos 7;
  bits = pos 8;
  firstbit = negsuc 0;
  sck = none;
  mosi = none;
  miso = none;
}

abbrev ready : Spi
ready = (init_helper board unused mode_3).1

-- A device that answers each byte with the one before it.
abbrev echo : ℕ → ℕ → ℕ × ℕ
echo last x = (last, x)

transfer-exchange_example :
    (transfer echo (record unused { initialized = true }) true in_place 9 (1 ∷ 2 ∷ []) 2
      ≡ (ok tt, (exchange echo 9 (1 ∷ 2 ∷ [])).0, (exchange echo 9 (1 ∷ 2 ∷ [])).1))
    × (transfer echo
          (record unused { initialized = true })
          true
          (buffer (1 ∷ 2 ∷ []))
          9
          (0 ∷ 0 ∷ [])
          2
        ≡ (ok tt, (exchange echo 9 (1 ∷ 2 ∷ [])).0, (exchange echo 9 (1 ∷ 2 ∷ [])).1))
transfer-exchange_example =
    transfer-exchange echo (record unused { initialized = true }) 9 (1 ∷ 2 ∷ []) (0 ∷ 0 ∷ []) refl
      refl

-- A second `init` that names another clock pin and an invalid data pin is refused, but has stored the
-- clock pin: `deinit` then releases that one, and the pad that was in use stays routed.
abbrev half_moved : Spi
half_moved = (init_helper board ready (record mode_3 { sck = some (some 5); mosi = some none })).1

half_moved-stays : ((deinit half_moved).muxed 26 ≡ true) × ((deinit half_moved).driver ≡ none)
unfolding init_helper deinit
half_moved-stays = (refl, refl)
