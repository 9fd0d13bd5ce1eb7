-- ===== src/App/CommandManager/Updates/Whole.antt =====
-- src/app/command_manager.cpp: the commands and the callbacks after a telegram.
use esp_arduino_ebus.Base.{ℕ, List, [], ◌∷◌, Option, none, some, ◌==◌, if◌then◌else◌}
use esp_arduino_ebus.Device.StringPool.{StringPool}
use esp_arduino_ebus.App.CommandManager.{Command, Event}
use esp_arduino_ebus.App.CommandManager.Updates.{ProtocolInfo, Telegrams, updated, update_events}
use esp_arduino_ebus.App.CommandManager.Updates.Passive.{passive_updates, passive_events}

module _ (ebus : Telegrams) (pool : StringPool) (info : ProtocolInfo) (now_ms : ℕ) where
  -- The first command that was polled under the telegram's id is updated.
  abbrev pub polled_update : List Command → List Command
  polled_update [] = []
  polled_update (c ∷ cs) =
      if c.poll_id == info.poll_id then updated ebus c info now_ms ∷ cs else c ∷ polled_update cs

  -- What a telegram is to do, where `polled` is the command that it answers.
  abbrev pub outcome : ℕ → List Command → Option Command → List Command × List Event
  outcome room cs none =
      (passive_updates ebus info now_ms room cs, passive_events ebus pool info room cs)
  outcome room cs (some polled) = (polled_update cs, update_events ebus pool polled info)
