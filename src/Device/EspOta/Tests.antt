-- ===== src/Device/EspOta/Tests.antt =====
-- A transfer of two bytes.
use esp_arduino_ebus.Base.{◌≡◌, refl, true, false, List, [], ◌∷◌, none, some, arith}
use esp_arduino_ebus.Device.Upgrade.{Ota}
use esp_arduino_ebus.Device.EspOta.{
  EspOtaManager, Received, got, nothing, Round, Link, perform_transfer, hook, close_udp, open_tcp,
  begin, wrote, send_ack, end, boot, send_ok, close_tcp, restart,
}
use esp_arduino_ebus.Device.EspOta.Rounds.{decisive}
use esp_arduino_ebus.Device.EspOta.Safe.{Result, perform_transfer-Ends}

abbrev ota : Ota
ota = record { next_partition = some 1; begin_handle = some 9; end_ok = true; boot_ok = true }

abbrev link : Link
link = record { tcp_sock = some 4; connect_ok = true; start_ms = 100 }

abbrev manager : EspOtaManager
manager = record {
  pre_upgrade_hook = true;
  pre_upgrade_done = false;
  udp_sock = some 3;
  port = 3232;
  has_task = true;
}

abbrev round : Received → Round
round r = record { received = r; now_ms = 200; write_ok = true }

-- The second packet holds one byte more than was announced.
abbrev rounds : List Round
rounds = round (got 0xE9 []) ∷ round nothing ∷ round (got 7 (8 ∷ [])) ∷ []

one_too_many :
    (perform_transfer ota link 2 rounds manager).1
    ≡ some (
      true,
      hook
          ∷ close_udp 3
          ∷ open_tcp 4
          ∷ begin 1 2
          ∷ wrote (0xE9 ∷ [])
          ∷ send_ack 1
          ∷ wrote (7 ∷ 8 ∷ [])
          ∷ send_ack 3
          ∷ end
          ∷ boot 1
          ∷ send_ok
          ∷ close_tcp 4
          ∷ restart
          ∷ [],
    )
unfolding perform_transfer
one_too_many = refl

perform_transfer-Ends_example :
    Result (some 1) 2 (perform_transfer ota link 2 rounds manager).1
    × ((perform_transfer ota link 2 rounds manager).0.udp_sock ≡ none)
unfolding decisive
perform_transfer-Ends_example =
    perform_transfer-Ends ota link 2 (omega arith) (omega arith) rounds (omega arith) manager
