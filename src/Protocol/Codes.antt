-- ===== src/Protocol/Codes.antt =====
-- op_code of lib/sockets/codigos.h, and the requests that the codes stand for.
use locomatch.Prelude.{ℕ, List}

abbrev pub suse_create_code : ℕ
suse_create_code = 2

abbrev pub suse_schedule_next_code : ℕ
suse_schedule_next_code = 3

abbrev pub suse_schedule_next_return_code : ℕ
suse_schedule_next_return_code = 4

abbrev pub suse_wait_code : ℕ
suse_wait_code = 5

abbrev pub suse_signal_code : ℕ
suse_signal_code = 6

abbrev pub suse_join_code : ℕ
suse_join_code = 7

abbrev pub suse_close_code : ℕ
suse_close_code = 8

-- What one turn of the short term scheduler receives; a semaphore's name is its characters.
pub data Pedido : Type 0 where
  create : ℕ → Pedido
  schedule_next : Pedido
  wait : ℕ → List ℕ → Pedido
  signal : ℕ → List ℕ → Pedido
  join : ℕ → Pedido
  close : ℕ → Pedido
  desconectado : Pedido
  desconocido : ℕ → Pedido
