-- ===== src/App/Mqtt/Outgoing.antt =====
-- src/app/mqtt.cpp: what waits in the queue, whatever the order in which the calls of the tasks go on.
use esp_arduino_ebus.App.Mqtt.{Mqtt}
use esp_arduino_ebus.App.Mqtt.History.{History}
