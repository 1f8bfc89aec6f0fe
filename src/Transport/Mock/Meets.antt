-- ===== src/Transport/Mock/Meets.antt =====
-- The mock meets the contract of a transport, and refuses the connections it was told to refuse.
use bedjet_local.Prelude.{refl, arith}
use bedjet_local.Transport.Contract.{IsTransport}
use bedjet_local.Transport.Mock.{
  connect, disconnect, read, write, subscribe_with, unsubscribe, mock_transport,
}

pub mock-IsTransport : IsTransport mock_transport
unfolding connect disconnect read write subscribe_with unsubscribe
mock-IsTransport = record {
  released = λ m m' s. refl;
  failed_connect = λ m m' address s h. ground arith;
  written = λ m uuid payload response s h. ground arith;
  written_at_most = λ m uuid payload response s. ground arith;
  no_link_no_write = λ m uuid payload response s h. ground arith;
  no_link_no_read = λ m uuid s h. ground arith;
  reads_quietly = λ m uuid s. ground arith;
  connect_translated = λ m address s o. ground arith;
  disconnect_translated = λ m s o. tt;
  read_translated = λ m uuid s o. ground arith;
  write_translated = λ m uuid payload response s o. ground arith;
  subscribe_translated = λ m uuid s o. ground arith;
  unsubscribe_translated = λ m uuid s o. tt;
}
