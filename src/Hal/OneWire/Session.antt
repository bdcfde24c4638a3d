-- ===== src/Hal/OneWire/Session.antt =====
-- A client's calls of components/blusys/src/hal/one_wire.c, one after the other, each under what
-- the SDK and the wires do at that time.
use blusys.Base.{ℕ, Bool, List, [], ◌∷◌}
use blusys.Hal.OneWire.Defs.{Env, State}
use blusys.Hal.OneWire.Bus.{
  reset, write_bit, read_bit, write_byte, read_byte, write_bytes, read_bytes,
}
use blusys.Hal.OneWire.Rom.{search_devices, search_reset, read_rom, skip_rom, match_rom}
use blusys.Hal.OneWire.Idle.{
  IsIdle, reset-Idles, write_bit-Idles, read_bit-Idles, write_byte-Idles, read_byte-Idles,
  write_bytes-Idles, read_bytes-Idles,
}
use blusys.Hal.OneWire.IdleRom.{
  search_reset-Idle, search_devices-Idles, read_rom-Idles, skip_rom-Idles, match_rom-Idles,
}

pub data Operation : Type 0 where
  op_reset op_read_bit op_read_byte op_read_rom op_skip_rom op_search op_search_reset : Operation
  op_write_bit : Bool → Operation
  op_write_byte : ℕ → Operation
  op_write op_match_rom : List ℕ → Operation
  op_read : ℕ → Operation

unfoldable pub call : Env → Operation → State → State
call env op_reset s = (reset env s).1
call env op_read_bit s = (read_bit env s).1
call env op_read_byte s = (read_byte env s).1
call env op_read_rom s = (read_rom env s).1
call env op_skip_rom s = (skip_rom env s).1
call env op_search s = (search_devices env s).1
call env op_search_reset s = search_reset s
call env (op_write_bit bit) s = (write_bit env bit s).1
call env (op_write_byte byte) s = (write_byte env byte s).1
call env (op_write bytes) s = (write_bytes env bytes s).1
call env (op_match_rom rom) s = (match_rom env rom s).1
call env (op_read n) s = (read_bytes env n s).1

unfoldable pub calls : List (Env × Operation) → State → State
calls [] s = s
calls ((env, op) ∷ rest) s = calls rest (call env op s)

pub call-IsIdle : (env : Env) (op : Operation) (s : State) → IsIdle s → IsIdle (call env op s)
unfolding call
call-IsIdle env op_reset s i = reset-Idles env s i
call-IsIdle env op_read_bit s i = read_bit-Idles env s i
call-IsIdle env op_read_byte s i = read_byte-Idles env s i
call-IsIdle env op_read_rom s i = read_rom-Idles env s i
call-IsIdle env op_skip_rom s i = skip_rom-Idles env s i
call-IsIdle env op_search s i = search_devices-Idles env s i
call-IsIdle env op_search_reset s i = search_reset-Idle s i
call-IsIdle env (op_write_bit bit) s i = write_bit-Idles env bit s i
call-IsIdle env (op_write_byte byte) s i = write_byte-Idles env byte s i
call-IsIdle env (op_write bytes) s i = write_bytes-Idles env bytes s i
call-IsIdle env (op_match_rom rom) s i = match_rom-Idles env rom s i
call-IsIdle env (op_read n) s i = read_bytes-Idles env n s i

-- If no task waits for the receiver and the lock is free, then so it is after any sequence of
-- operations, whatever error the lock, the SDK or the bus returns in each.
pub calls-IsIdle : (ops : List (Env × Operation)) (s : State) → IsIdle s → IsIdle (calls ops s)
unfolding calls
calls-IsIdle [] s i = i
calls-IsIdle ((env, op) ∷ rest) s i = calls-IsIdle rest (call env op s) (call-IsIdle env op s i)
