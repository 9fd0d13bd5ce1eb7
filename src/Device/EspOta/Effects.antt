-- ===== src/Device/EspOta/Effects.antt =====
-- src/system/esp_ota_manager.cpp: what a sequence of effects leaves in the flash.
use esp_arduino_ebus.Base.{◌≡◌, refl, ◌∙◌, ap, List, [], ◌∷◌, ◌++◌, ◌==◌, if◌then◌else◌, length}
use esp_arduino_ebus.Device.Upgrade.Flash.{
  Flash, idle, writing, spoilt, sealed, bootable, restarting, fault,
}
use esp_arduino_ebus.Device.EspOta.{
  Effect, hook, close_udp, open_tcp, close_tcp, send_error, send_ack, send_ok, begin, wrote,
  write_failed, abort, end, end_failed, boot, boot_failed, restart,
}

-- What an effect does to the flash. `fault` is a call of esp_ota out of order, an acknowledgement of a
-- number other than that of the bytes written, or a message or the end of the connection while the
-- partition is open.
abbrev pub step : Flash → Effect → Flash
step idle hook = idle
step idle (close_udp sock) = idle
step idle (open_tcp sock) = idle
step idle (close_tcp sock) = idle
step idle (send_error n) = idle
step idle (begin p n) = writing p []
step (writing p bs) (wrote c) = writing p (bs ++ c)
step (writing p bs) (send_ack n) = if n == length bs then writing p bs else fault
step (writing p bs) (write_failed c) = spoilt
step (writing p bs) abort = idle
step (writing p bs) end = sealed p bs
step (writing p bs) end_failed = idle
step spoilt abort = idle
step (sealed p bs) (boot q) = if p == q then bootable p bs else fault
step (sealed p bs) (boot_failed q) = sealed p bs
step (sealed p bs) (send_error n) = sealed p bs
step (sealed p bs) (close_tcp sock) = sealed p bs
step (bootable p bs) send_ok = bootable p bs
step (bootable p bs) (close_tcp sock) = bootable p bs
step (bootable p bs) restart = restarting p bs
step _ _ = fault

abbrev pub replay : Flash → List Effect → Flash
replay s [] = s
replay s (e ∷ es) = replay (step s e) es

pub replay-append :
    (s : Flash) (es fs : List Effect) → replay s (es ++ fs) ≡ replay (replay s es) fs
replay-append s [] fs = refl
replay-append s (e ∷ es) fs = replay-append (step s e) es fs

pub replay_snoc :
    (es fs : List Effect) {s : Flash} → replay idle es ≡ s → replay idle (es ++ fs) ≡ replay s fs
replay_snoc es fs e = replay-append idle es fs ∙ ap (λ s. replay s fs) e
