-- ===== src/Uart/Tests.antt =====
-- uart.rs: a byte that is read, and the theorem on the interrupt at a concrete input.
use mina_os.Base.{◌≡◌, refl, none, some, [], ◌∷◌, ◌==◌, if◌then◌else◌}
use mina_os.Console.{Console}
use mina_os.Uart.{got, line, Bus, new, get, handle_interrupt}
use mina_os.Uart.Input.{handle_interrupt_return}

-- The port has one byte to read, a carriage return.
abbrev bus : Bus
bus es a = if a == 0x1000_0005 then 0x61 else 13

abbrev console : Console
console = record {
  in_buffer = some [];
  out_buffer = none;
  console_queue = some (3 ∷ []);
  running = [];
}

get_return : (get bus (new 0x1000_0000) []).0 ≡ some 13
unfolding get new
get_return = refl

handle_interrupt_return_example :
    ((handle_interrupt bus [] console).0 ≡ line ∷ got 0x1000_0000 13 ∷ got 0x1000_0005 0x61 ∷ [])
    × ((handle_interrupt bus [] console).1.console_queue ≡ some (3 ∷ []))
    × ((handle_interrupt bus [] console).1.running ≡ [])
handle_interrupt_return_example = handle_interrupt_return bus [] console refl refl
